-- ===== src/Nns/Quiet.antt =====
-- The steps of a registration before its notification (nns/nns_contract.go, `Register`) tell nobody
-- and call no other contract.
use mathlib.Core.List.{reverse}
use frostfs_contract.Prelude.{
  ◌+◌, ◌≡◌, ◌∙◌, ◌==◌, last, Bool, String, true, false, Option, none, some, List, [], ◌∷◌, ◌++◌,
  if◌then◌else◌, length, drop, arith,
}
use frostfs_contract.Prelude.Int.{ℤ}
use frostfs_contract.Prelude.Bytes.{Bytes}
use frostfs_contract.Host.Storage.{Vm, Env, Codec}
use frostfs_contract.Host.Exec.{Exec, State, ok, require, or_fault, get, ◌>>=◌, >>=-eq-ok}
use frostfs_contract.Common.Ir.{check_owner_witness, check_witness_with_panic}
use frostfs_contract.Nns.{NameState, RecordState, root_key, name_key, check_admin, check_committee}
use frostfs_contract.Nns.Names.{split_and_check}
use frostfs_contract.Nns.Tokens.{
  read_balance, update_balance, get_total_supply, update_total_supply, burn_price, get_price,
  is_expired, any_expired, expired_from_root, parent_expired, find_token, token_id_from_name,
}
use frostfs_contract.Nns.Records.{put_soa_record}
use frostfs_contract.Nns.Registration.{
  first_fragment, check_conflicts, register_root, check_parent, check_name, check_new_owner,
}

module _ ⦃vm : Vm⦄ where
  -- Nobody was told anything, and no other contract was called.
  abbrev pub Silent : State → State → Type 0
  Silent s t = (t.world ≡ s.world) × (t.events ≡ s.events)

  abbrev pub IsQuiet : {A : Type 0} → Exec A → Type 0
  IsQuiet {A} m = (s t : State) (a : A) → m s ≡ ok (a, t) → Silent s t

  pub Silent-trans : (s t u : State) → Silent s t → Silent t u → Silent s u
  Silent-trans s t u (w1, e1) (w2, e2) = (w2 ∙ w1, e2 ∙ e1)

  pub IsQuiet->>= :
      {A B : Type 0} (m : Exec A) (f : A → Exec B)
      → IsQuiet m
      → ((a : A) → IsQuiet (f a))
      → IsQuiet (m >>= f)
  IsQuiet->>= m f first rest s t b h =
      let (a, u, h1, h2) = >>=-eq-ok m f s h in
      Silent-trans s u t (first s u a h1) (rest a u t b h2)

  IsQuiet-if :
      {A : Type 0} (b : Bool) (m n : Exec A) → IsQuiet m → IsQuiet n → IsQuiet (if b then m else n)
  IsQuiet-if true m n first second = first
  IsQuiet-if false m n first second = second

  IsQuiet-Option :
      {A B : Type 0} (o : Option A) (m : Exec B) (f : A → Exec B)
      → IsQuiet m
      → ((a : A) → IsQuiet (f a))
      → IsQuiet (elim o [ none ↦ m | some a ↦ f a ])
  IsQuiet-Option none m f first second = first
  IsQuiet-Option (some a) m f first second = second a

  get-IsQuiet : (k : Bytes) → IsQuiet (get k)
  get-IsQuiet k s t a h = ground arith

  or_fault-IsQuiet : {A : Type 0} (o : Option A) → IsQuiet (or_fault o)
  or_fault-IsQuiet none s t a h = cc
  or_fault-IsQuiet (some x) s t a h = ground arith

  require-IsQuiet : (b : Bool) (m : String) → IsQuiet (require b m)
  require-IsQuiet true m s t a h = ground arith
  require-IsQuiet false m s t a h = cc

  pub update_balance-IsQuiet :
      (token_id account : Bytes) (diff : ℤ) → IsQuiet (update_balance token_id account diff)
  unfolding update_balance read_balance
  update_balance-IsQuiet token_id account diff s t a h = ground arith

  pub update_total_supply-IsQuiet : (diff : ℤ) → IsQuiet (update_total_supply diff)
  unfolding update_total_supply get_total_supply
  update_total_supply-IsQuiet diff s t a h = ground arith

module _ ⦃vm : Vm⦄ ⦃names : Codec vm.Value NameState⦄ (env : Env) where
  is_expired-IsQuiet : (name : Bytes) → IsQuiet (is_expired env name)
  unfolding is_expired
  is_expired-IsQuiet name s t a h = ground arith

  any_expired-IsQuiet : (name : Bytes) (fs : List Bytes) → IsQuiet (any_expired env name fs)
  unfolding any_expired
  any_expired-IsQuiet name [] = λ s t a h. ground arith
  any_expired-IsQuiet name (f ∷ fs) =
      IsQuiet->>= _ _ (is_expired-IsQuiet (f ++ b'.' ∷ name)) (λ expired.
        IsQuiet-if expired _ _ (λ s t a h. ground arith)
          (any_expired-IsQuiet (f ++ b'.' ∷ name) fs))

  expired_from_root-IsQuiet : (fs : List Bytes) → IsQuiet (expired_from_root env fs)
  unfolding expired_from_root
  expired_from_root-IsQuiet [] = λ s t a h. ground arith
  expired_from_root-IsQuiet (root ∷ fs) =
      IsQuiet->>= _ _ (is_expired-IsQuiet root)
        (λ expired. IsQuiet-if expired _ _ (λ s t a h. ground arith) (any_expired-IsQuiet root fs))

  find_token-IsQuiet : (name rest : Bytes) (fs : List Bytes) → IsQuiet (find_token env name rest fs)
  unfolding find_token
  find_token-IsQuiet name rest [] = λ s t a h. ground arith
  find_token-IsQuiet name rest (f ∷ []) = λ s t a h. ground arith
  find_token-IsQuiet name rest (f ∷ next ∷ fs) =
      IsQuiet->>= _ _ (is_expired-IsQuiet rest) (λ expired.
        IsQuiet-if expired _ _ (find_token-IsQuiet name (drop (length f + 1) rest) (next ∷ fs))
          (λ s t a h. ground arith))

  token_id_from_name-IsQuiet : (name : Bytes) → IsQuiet (token_id_from_name env name)
  unfolding token_id_from_name
  token_id_from_name-IsQuiet name =
      IsQuiet-Option (split_and_check name true) _ _ (λ s t a h. cc)
        (λ fs. find_token-IsQuiet name name fs)

  check_admin-IsQuiet : (ns : NameState) → IsQuiet (check_admin env ns)
  unfolding check_admin
  check_admin-IsQuiet ns s t a h = ground arith

module _ ⦃vm : Vm⦄ ⦃names : Codec vm.Value NameState⦄ ⦃records : Codec vm.Value RecordState⦄
    (env : Env) where
  pub put_soa_record-IsQuiet :
      (name email : Bytes) (refresh retry expire ttl : ℤ)
      → IsQuiet (put_soa_record env name email refresh retry expire ttl)
  unfolding put_soa_record
  put_soa_record-IsQuiet name email refresh retry expire ttl =
      IsQuiet->>= _ _ (token_id_from_name-IsQuiet env name) (λ token_id s t a h. ground arith)

  check_conflicts-IsQuiet :
      (name : Bytes) (es : List (Bytes × vm.Value)) → IsQuiet (check_conflicts env name es)
  unfolding check_conflicts
  check_conflicts-IsQuiet name [] = λ s t a h. ground arith
  check_conflicts-IsQuiet name ((k, v) ∷ es) =
      IsQuiet->>= _ _ (λ s t a h. or_fault-IsQuiet (records.cast (some v)) s t a h)
        (λ r. IsQuiet->>= _ _ (require-IsQuiet _ _) (λ _. check_conflicts-IsQuiet name es))

  register_root-IsQuiet :
      (root : Bytes) (cell : Option vm.Value) → IsQuiet (register_root env root cell)
  unfolding register_root check_committee
  register_root-IsQuiet root cell s t a h = ground arith

  check_parent-IsQuiet :
      (name : Bytes) (fs : List Bytes) (cell : Option vm.Value)
      → IsQuiet (check_parent env name fs cell)
  unfolding check_parent parent_expired
  check_parent-IsQuiet name fs none = λ s t a h. ground arith
  check_parent-IsQuiet name fs (some v) =
      IsQuiet->>= _ _ (expired_from_root-IsQuiet env (reverse (drop 1 fs))) (λ expired.
        IsQuiet->>= _ _ (require-IsQuiet _ _) (λ _.
          IsQuiet->>= _ _ (or_fault-IsQuiet (first_fragment fs)) (λ first.
            IsQuiet->>= _ _ (get-IsQuiet (name_key (drop (length first + 1) name))) (λ raw.
              IsQuiet->>= _ _ (or_fault-IsQuiet (names.cast raw)) (λ ns.
                IsQuiet->>= _ _ (check_admin-IsQuiet env ns) (λ _ u.
                  check_conflicts-IsQuiet name
                    (vm.find u.storage (0x22 ∷ vm.ripemd160 (drop (length first + 1) name))) u))))))

  pub check_name-IsQuiet : (name : Bytes) (fs : List Bytes) → IsQuiet (check_name env name fs)
  unfolding check_name
  check_name-IsQuiet name fs = IsQuiet->>= _ _ (or_fault-IsQuiet (last fs)) (λ root s.
      let tld = vm.get s.storage (root_key root) in
      IsQuiet-if (length fs == 1) _ _ (register_root-IsQuiet root tld)
        (check_parent-IsQuiet name fs tld) s)

  pub check_new_owner-IsQuiet : (owner : Bytes) → IsQuiet (check_new_owner env owner)
  unfolding check_new_owner check_owner_witness check_witness_with_panic burn_price get_price
  check_new_owner-IsQuiet owner s t a h = ground arith
