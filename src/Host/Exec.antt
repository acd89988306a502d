-- ===== src/Host/Exec.antt =====
-- A contract method runs in a transaction: it reads and changes its storage, calls other contracts
-- and adds notifications, or it fails, and then the machine takes everything back.
use frostfs_contract.Prelude.{
  String, ◌≡◌, refl, Bool, true, false, Option, none, some, List, [], ◌∷◌, ◌++◌,
}
use frostfs_contract.Prelude.Bytes.{Bytes}
use frostfs_contract.Host.Storage.{Vm, Codec, Env, Arg, Event}

-- `panic`, `common.AbortWithMessage`, and faults of the machine itself.
pub data Error : Type 0 where
  panicked : String → Error
  aborted : String → Error
  fault : Error

pub data Result (A : Type 0) : Type 0 where
  ok : A → Result A
  err : Error → Result A

module _ ⦃vm : Vm⦄ where
  pub record State : Type 0 where
    pub storage : vm.Store
    pub world : vm.World
    pub events : List Event

  abbrev pub Exec : Type 0 → Type 0
  Exec A = State → Result (A × State)

  abbrev pub pure : {A : Type 0} → A → Exec A
  pure a s = ok (a, s)

  abbrev pub panic : {A : Type 0} → String → Exec A
  panic m s = err (panicked m)

  abbrev pub abort : {A : Type 0} → String → Exec A
  abort m s = err (aborted m)

  infixl 5 ◌>>=◌ ◌>>◌
  abbrev pub ◌>>=◌ : {A B : Type 0} → Exec A → (A → Exec B) → Exec B
  ◌>>=◌ m f s = elim (m s) [ ok (a, s') ↦ f a s' | err e ↦ err e ]

  abbrev pub ◌>>◌ : {A B : Type 0} → Exec A → Exec B → Exec B
  m >> k = m >>= λ _. k

  abbrev pub done : Exec (Unit {0})
  done = pure tt

  -- `if !c { panic(m) }`
  abbrev pub require : Bool → String → Exec (Unit {0})
  require true m s = ok (tt, s)
  require false m s = err (panicked m)

  abbrev pub or_fault : {A : Type 0} → Option A → Exec A
  or_fault none s = err fault
  or_fault (some a) s = ok (a, s)

  -- `storage.Get`, `storage.Put` and `storage.Delete`
  abbrev pub get : Bytes → Exec (Option vm.Value)
  get k s = ok (vm.get s.storage k, s)

  abbrev pub put : {A : Type 0} → Codec vm.Value A → Bytes → A → Exec (Unit {0})
  put c k a s = ok (tt, record s { storage = vm.put s.storage k (c.encode a) })

  abbrev pub delete : Bytes → Exec (Unit {0})
  delete k s = ok (tt, record s { storage = vm.delete s.storage k })

  -- `storage.Get(ctx, k).(A)`
  abbrev pub read : {A : Type 0} → Codec vm.Value A → Bytes → Exec A
  read c k s = or_fault (c.cast (vm.get s.storage k)) s

  -- `runtime.Notify`
  abbrev pub notify : String → List Arg → Exec (Unit {0})
  notify name args s = ok (tt, record s { events = s.events ++ (name, args) ∷ [] })

  -- `contract.Call` of another contract of the repository or of the chain, which does not call back
  abbrev pub call_contract : Env → Bytes → String → List Arg → Exec Arg
  call_contract env address method args s =
      elim (vm.call s.world env.executing_script_hash address method args) [
        | none ↦ err fault
        | some (reply, w) ↦ ok (reply, record s { world = w })
      ]

  -- `contract.Call` of any contract, which may call the methods of this one
  abbrev pub call_back : Env → Bytes → String → List Arg → Exec Arg
  call_back env address method args s =
      elim (vm.call_back s.world s.storage env.executing_script_hash address method args) [
        | none ↦ err fault
        | some (reply, (w, st, sent)) ↦
            ok (reply, record s { storage = st; world = w; events = s.events ++ sent })
      ]

  -- `contract.Call` with read-only flags, which leaves the state of the other contracts as it is
  abbrev pub query_contract : Env → Bytes → String → List Arg → Exec Arg
  query_contract env address method args s =
      elim (vm.call s.world env.executing_script_hash address method args) [
        | none ↦ err fault
        | some (reply, w) ↦ ok (reply, s)
      ]

  -- Inversion of a successful bind.
  pub >>=-eq-ok :
      {A B : Type 0} (m : Exec A) (f : A → Exec B) (s : State) {r : B × State}
      → (m >>= f) s ≡ ok r
      → (a : A) × (s' : State) × (m s ≡ ok (a, s')) × (f a s' ≡ ok r)
  >>=-eq-ok {A} {B} m f s {r} h = split (m s) refl h
    where
      split :
          (q : Result (A × State))
          → m s ≡ q
          → (elim q [ ok (a, s') ↦ f a s' | err e ↦ err e ]) ≡ ok r
          → (a : A) × (s' : State) × (m s ≡ ok (a, s')) × (f a s' ≡ ok r)
      split (ok (a, s')) e h' = (a, s', e, h')
      split (err x) e h' = cc
