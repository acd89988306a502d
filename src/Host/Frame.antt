-- ===== src/Host/Frame.antt =====
-- Which cells of its storage a contract method leaves alone, put together from its steps.
use frostfs_contract.Prelude.{
  ◌≡◌, ◌∙◌, String, Bool, true, false, Option, none, some, List, arith, if◌then◌else◌,
}
use frostfs_contract.Prelude.Bytes.{Bytes, bytes_equal}
use frostfs_contract.Host.Storage.{Vm, Env, Codec, Arg, null, int, flag, bytes, text, list}
use frostfs_contract.Host.Exec.{
  Exec, State, ok, pure, panic, require, or_fault, get, put, delete, read, notify, call_contract,
  query_contract, ◌>>=◌, >>=-eq-ok,
}
use frostfs_contract.Host.Reply.{as_int, as_flag, as_bytes, as_list}

module _ ⦃vm : Vm⦄ where
  pub or_fault-eq-ok :
      {A : Type 0} (o : Option A) (a : A) (s t : State)
      → or_fault o s ≡ ok (a, t)
      → (t ≡ s) × (o ≡ some a)
  or_fault-eq-ok none a s t h = cc
  or_fault-eq-ok (some x) a s t h = (ground arith, ground arith)

  -- What is left alone when the method succeeds: the cells with some property.
  abbrev pub Keeps : {A : Type 0} → (Bytes → Type 0) → Exec A → Type 0
  Keeps {A} P m =
      (s t : State) (a : A)
      → m s ≡ ok (a, t)
      → (k : Bytes) → P k
      → vm.get t.storage k ≡ vm.get s.storage k

module _ ⦃vm : Vm⦄ (P : Bytes → Type 0) where
  pub Keeps->>= :
      {A B : Type 0} (m : Exec A) (f : A → Exec B)
      → Keeps P m
      → ((a : A) → Keeps P (f a))
      → Keeps P (m >>= f)
  Keeps->>= m f first rest s t b h k p =
      let (a, u, h1, h2) = >>=-eq-ok m f s h in rest a u t b h2 k p ∙ first s u a h1 k p

  pub Keeps-pure : {A : Type 0} (a : A) → Keeps P (pure a)
  Keeps-pure a s t b h k p = ground arith

  pub Keeps-panic : {A : Type 0} (m : String) → Keeps P (panic {A = A} m)
  Keeps-panic m s t b h k p = cc

  pub Keeps-require : (b : Bool) (m : String) → Keeps P (require b m)
  Keeps-require true m s t u h k p = ground arith
  Keeps-require false m s t u h k p = cc

  pub Keeps-or_fault : {A : Type 0} (o : Option A) → Keeps P (or_fault o)
  Keeps-or_fault none s t u h k p = cc
  Keeps-or_fault (some a) s t u h k p = ground arith

  pub Keeps-get : (j : Bytes) → Keeps P (get j)
  Keeps-get j s t u h k p = ground arith

  pub Keeps-read : {A : Type 0} (c : Codec vm.Value A) (j : Bytes) → Keeps P (read c j)
  Keeps-read c j s t u h = Keeps-or_fault (c.cast (vm.get s.storage j)) s t u h

  pub Keeps-put :
      {A : Type 0} (c : Codec vm.Value A) (j : Bytes) (a : A)
      → ((k : Bytes) → P k → bytes_equal j k ≡ false)
      → Keeps P (put c j a)
  Keeps-put c j a other s t u h k p =
      ground (arith, vm.get-put s.storage j k (c.encode a), other k p)

  pub Keeps-delete :
      (j : Bytes) → ((k : Bytes) → P k → bytes_equal j k ≡ false) → Keeps P (delete j)
  Keeps-delete j other s t u h k p = ground (arith, vm.get-delete s.storage j k, other k p)

  pub Keeps-notify : (name : String) (args : List Arg) → Keeps P (notify name args)
  Keeps-notify name args s t u h k p = ground arith

  pub Keeps-call_contract :
      (env : Env) (address : Bytes) (method : String) (args : List Arg)
      → Keeps P (call_contract env address method args)
  Keeps-call_contract env address method args s t u h k p = ground arith

  pub Keeps-query_contract :
      (env : Env) (address : Bytes) (method : String) (args : List Arg)
      → Keeps P (query_contract env address method args)
  Keeps-query_contract env address method args s t u h k p = ground arith

  pub Keeps-if :
      {A : Type 0} (b : Bool) (m n : Exec A) → Keeps P m → Keeps P n → Keeps P (if b then m else n)
  Keeps-if true m n first second = first
  Keeps-if false m n first second = second

  pub Keeps-as_int : (reply : Arg) → Keeps P (as_int reply)
  Keeps-as_int null s t a h k p = cc
  Keeps-as_int (int x) s t a h k p = ground arith
  Keeps-as_int (flag x) s t a h k p = cc
  Keeps-as_int (bytes x) s t a h k p = cc
  Keeps-as_int (text x) s t a h k p = cc
  Keeps-as_int (list x) s t a h k p = cc

  pub Keeps-as_flag : (reply : Arg) → Keeps P (as_flag reply)
  Keeps-as_flag null s t a h k p = cc
  Keeps-as_flag (int x) s t a h k p = cc
  Keeps-as_flag (flag x) s t a h k p = ground arith
  Keeps-as_flag (bytes x) s t a h k p = cc
  Keeps-as_flag (text x) s t a h k p = cc
  Keeps-as_flag (list x) s t a h k p = cc

  pub Keeps-as_bytes : (reply : Arg) → Keeps P (as_bytes reply)
  Keeps-as_bytes null s t a h k p = cc
  Keeps-as_bytes (int x) s t a h k p = cc
  Keeps-as_bytes (flag x) s t a h k p = cc
  Keeps-as_bytes (bytes x) s t a h k p = ground arith
  Keeps-as_bytes (text x) s t a h k p = cc
  Keeps-as_bytes (list x) s t a h k p = cc

  pub Keeps-as_list : (reply : Arg) → Keeps P (as_list reply)
  Keeps-as_list null s t a h k p = cc
  Keeps-as_list (int x) s t a h k p = cc
  Keeps-as_list (flag x) s t a h k p = cc
  Keeps-as_list (bytes x) s t a h k p = cc
  Keeps-as_list (text x) s t a h k p = cc
  Keeps-as_list (list x) s t a h k p = ground arith

  pub Keeps-Option :
      {A B : Type 0} (o : Option A) (m : Exec B) (f : A → Exec B)
      → Keeps P m
      → ((a : A) → Keeps P (f a))
      → Keeps P (elim o [ none ↦ m | some a ↦ f a ])
  Keeps-Option none m f first second = first
  Keeps-Option (some a) m f first second = second a
