-- ===== src/Common/Version.antt =====
-- The version check of a contract update (common/version.go), and `Update` itself, which all
-- sidechain contracts write out alike.
use frostfs_contract.Prelude.{
  ◌≡◌, ◌≢◌, Option, none, some, List, [], ◌∷◌, ◌++◌, arith, if◌then◌else◌,
}
use frostfs_contract.Prelude.Int.{ℤ, pos, ltb_ℤ, eqb_ℤ, ◌≤ℤ◌}
use frostfs_contract.Prelude.Bytes.{Bytes}
use frostfs_contract.Host.Storage.{Vm, Env, Arg, int, bytes}
use frostfs_contract.Host.Exec.{Exec, State, panic, done, require, call_contract, ok, ◌>>◌}
use frostfs_contract.Common.Ir.{has_update_access}

-- `major*1_000_000 + minor*1_000 + patch` of 0.16.1 and of 0.16.0
abbrev pub version : ℤ
version = pos 16001

abbrev pub prev_version : ℤ
prev_version = pos 16000

unfoldable pub append_version : Option (List Arg) → List Arg
append_version none = int version ∷ []
append_version (some args) = args ++ int version ∷ []

-- `args[len(args)-1].(int)`, with which `_deploy` begins on an update; other arguments fault.
unfoldable pub update_version : List Arg → Option ℤ
update_version [] = none
update_version (int from ∷ []) = some from
update_version (_ ∷ []) = none
update_version (_ ∷ arg ∷ args) = update_version (arg ∷ args)

module _ ⦃vm : Vm⦄ where
  unfoldable pub check_version : ℤ → Exec Unit
  check_version from =
      if ltb_ℤ from prev_version
      then panic "previous version mismatch: expected >=16000"
      else if eqb_ℤ from version
      then panic "contract is already of the latest version: 16001"
      else done

  -- The arguments of the call end with those of `append_version`.
  unfoldable pub update : Env → Bytes → Bytes → Option (List Arg) → Exec Unit
  unfolding has_update_access append_version
  update env script manifest args = do
    require (has_update_access env) "only committee can update contract"
    call_contract env env.management_hash "update"
        (bytes script ∷ bytes manifest ∷ append_version args)
    done

  -- An update goes through exactly from the versions since 0.16.0 other than the current one.
  pub check_version-ok :
      (from : ℤ) (s : State)
      → (prev_version ≤ℤ from) × (from ≢ version)
      → check_version from s ≡ ok (tt, s)
  unfolding check_version
  check_version-ok from s h = ground arith
