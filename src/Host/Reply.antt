-- ===== src/Host/Reply.antt =====
-- What a contract takes the reply of another contract for, as in `contract.Call(...).(int)`; a reply
-- of another kind faults.
use frostfs_contract.Prelude.{Bool, List}
use frostfs_contract.Prelude.Int.{ℤ}
use frostfs_contract.Prelude.Bytes.{Bytes}
use frostfs_contract.Host.Storage.{Vm, Arg, int, flag, bytes, list}
use frostfs_contract.Host.Exec.{Exec, ok, err, fault}

module _ ⦃vm : Vm⦄ where
  abbrev pub as_int : Arg → Exec ℤ
  as_int (int n) s = ok (n, s)
  as_int _ s = err fault

  abbrev pub as_flag : Arg → Exec Bool
  as_flag (flag b) s = ok (b, s)
  as_flag _ s = err fault

  abbrev pub as_bytes : Arg → Exec Bytes
  as_bytes (bytes b) s = ok (b, s)
  as_bytes _ s = err fault

  abbrev pub as_list : Arg → Exec (List Bytes)
  as_list (list bs) s = ok (bs, s)
  as_list _ s = err fault
