-- ===== src/Factory/Registration.antt =====
-- Registering a component factory, taking it back, and the cleanup of a session, on the chain of
-- registrations of vboxdrv/SUPDrv.c.
use virtualbox_drv.Common.{
  ℕ, ◌≡◌, ◌≢◌, refl, Bool, true, false, Option, none, some, List, [], ◌∷◌, ◌++◌, arith, ◌==◌, subst,
  if◌then◌else◌, Bool-cases, Option-cases, inl, inr, Status, success, already_exists, rt_success,
  eq_self,
}
use virtualbox_drv.Factory.{
  Factory, FactoryReg, Caller, is_caller_valid, nil_r0_process, str_end, append_reg, link_factory,
  register_factory, remove_reg, deregister_factory, cleanup_factories,
}

-- The registration of a factory.
unfoldable pub find_reg : ℕ → List FactoryReg → Option FactoryReg
find_reg f [] = none
find_reg f (r ∷ rs) = if r.factory == f then some r else find_reg f rs

-- No factory is registered twice.
abbrev pub UniqueRegs : List FactoryReg → Type 0
UniqueRegs [] = Unit {0}
UniqueRegs (r ∷ rs) = (find_reg r.factory rs ≡ none) × UniqueRegs rs

append_reg-none :
    (n : FactoryReg) (rs : List FactoryReg)
    → append_reg n rs ≡ none
    → (r : FactoryReg) × (find_reg n.factory rs ≡ some r)
unfolding append_reg find_reg
append_reg-none n [] e = ground arith
append_reg-none n (r ∷ rs) e = elim (Bool-cases (r.factory == n.factory)) [
  | inl same ↦ (r, rw same)
  | inr other ↦
      let (s, f) = append_reg-none n rs (ground (arith, Option-cases (append_reg n rs))) in
      (s, rw other f)
]

append_reg-some :
    (n : FactoryReg) (rs ss : List FactoryReg)
    → append_reg n rs ≡ some ss
    → (ss ≡ rs ++ n ∷ []) × (find_reg n.factory rs ≡ none)
unfolding append_reg find_reg
append_reg-some n [] ss e = ground arith
append_reg-some n (r ∷ rs) ss e = elim (Option-cases (append_reg n rs)) [
  | inl full ↦ ground arith
  | inr (ts, tail) ↦ ground (arith, append_reg-some n rs ts tail)
]

-- What a registration does: it fails and leaves the chain as it was, with VERR_ALREADY_EXISTS only
-- if the factory is registered; or a kernel session has appended the first registration of the
-- factory, with the length of its name.
pub data FactoryAdded (facs : ℕ → Factory) (c : Caller) (f : ℕ) (rs : List FactoryReg)
    : List FactoryReg × Status → Type 0 where
  refused : {st : Status} → rt_success st ≡ false → FactoryAdded facs c f rs (rs, st)
  present :
      (r : FactoryReg) → find_reg f rs ≡ some r → FactoryAdded facs c f rs (rs, already_exists)
  appended :
      {ss : List FactoryReg} {st : Status} (cch : ℕ)
      → st ≡ success
      → (is_caller_valid c ≡ true) × (c.r0_process ≡ nil_r0_process) × (f ≢ 0)
      → str_end (facs f).name 56 ≡ some cch
      → find_reg f rs ≡ none
      → ss ≡ rs ++ record { factory = f; session = c.ptr; cch_name = cch } ∷ []
      → FactoryAdded facs c f rs (ss, st)

link_factory-FactoryAdded :
    (has_memory : Bool) (lock : Status) (facs : ℕ → Factory) (c : Caller) (f cch : ℕ)
    (rs : List FactoryReg)
    → (is_caller_valid c ≡ true) × (c.r0_process ≡ nil_r0_process) × (f ≢ 0)
    → str_end (facs f).name 56 ≡ some cch
    → FactoryAdded facs c f rs (link_factory has_memory lock c f cch rs)
unfolding link_factory
link_factory-FactoryAdded false lock facs c f cch rs k e = refused refl
link_factory-FactoryAdded true lock facs c f cch rs k e =
    let n : FactoryReg = record { factory = f; session = c.ptr; cch_name = cch } in
    elim (Bool-cases (rt_success lock)) [
      | inr fails ↦ rw (fails, link_factory) (refused fails)
      | inl locked ↦ elim (Option-cases (append_reg n rs)) [
        | inl full ↦
            let (r, there) = append_reg-none n rs full in
            rw (locked, full, link_factory) (present r there)
        | inr (ss, tail) ↦
            let (same, free) = append_reg-some n rs ss tail in
            rw (locked, tail, link_factory) (appended cch refl k e free same)
      ]
    ]

-- SUPR0ComponentRegisterFactory ends in one of the outcomes above.
pub register_factory-FactoryAdded :
    (has_memory : Bool) (lock : Status) (facs : ℕ → Factory) (c : Caller) (f : ℕ)
    (rs : List FactoryReg)
    → FactoryAdded facs c f rs (register_factory has_memory lock facs c f rs)
unfolding register_factory
register_factory-FactoryAdded has_memory lock facs c f rs = elim (Bool-cases (is_caller_valid c)) [
  | inr bad ↦ rw (bad, register_factory) (refused refl)
  | inl ok ↦ elim (Bool-cases (c.r0_process == nil_r0_process)) [
    | inr user ↦ rw (ok, user, register_factory) (refused refl)
    | inl kernel ↦ elim (Bool-cases (f == 0)) [
      | inl null ↦ rw (ok, kernel, null, register_factory) (refused refl)
      | inr some_factory ↦ elim (Bool-cases (facs f).has_query) [
        | inr mute ↦ rw (ok, kernel, some_factory, mute, register_factory) (refused refl)
        | inl query ↦ elim (Option-cases (str_end (facs f).name 56)) [
          | inl long ↦ rw (ok, kernel, some_factory, query, long, register_factory) (refused refl)
          | inr (cch, ends) ↦
              rw (ok, kernel, some_factory, query, ends, register_factory)
                (link_factory-FactoryAdded has_memory lock facs c f cch rs
                  (ok, ground (arith, kernel), ground (arith, some_factory)) ends)
        ]
      ]
    ]
  ]
]

remove_reg-append :
    (n : FactoryReg) (rs : List FactoryReg)
    → find_reg n.factory rs ≡ none
    → remove_reg n.factory (rs ++ n ∷ []) ≡ some rs
unfolding remove_reg find_reg
remove_reg-append n [] free = rw (eq_self n.factory) refl
remove_reg-append n (r ∷ rs) free = elim (Bool-cases (r.factory == n.factory)) [
  | inl same ↦ ground (arith, same)
  | inr other ↦ rw (other, remove_reg-append n rs (ground (arith, other))) refl
]

undo_lem :
    (facs : ℕ → Factory) (c : Caller) (f : ℕ) (rs : List FactoryReg) (r : List FactoryReg × Status)
    → FactoryAdded facs c f rs r
    → r.1 ≡ success
    → deregister_factory success c f r.0 ≡ (rs, success)
unfolding deregister_factory
undo_lem facs c f rs _ (refused h) e = absurd (cc)
undo_lem facs c f rs _ (present r h) e = absurd (cc)
undo_lem facs c f rs _ (appended cch d (ok, kernel, set) ends free same) e =
    let n : FactoryReg = record { factory = f; session = c.ptr; cch_name = cch } in
    let not_null : (f == 0) ≡ false = ground (arith, set) in
    let ring0 : (c.r0_process == nil_r0_process) ≡ true = ground (arith, kernel) in
    rw (same, ok, ring0, not_null, remove_reg-append n rs free) refl

-- Deregistering a factory after its successful registration gives the chain of before, if the mutex
-- is granted.
pub deregister_factory-register_factory :
    (has_memory : Bool) (lock : Status) (facs : ℕ → Factory) (c : Caller) (f : ℕ)
    (rs ss : List FactoryReg)
    → register_factory has_memory lock facs c f rs ≡ (ss, success)
    → deregister_factory success c f ss ≡ (rs, success)
deregister_factory-register_factory has_memory lock facs c f rs ss e =
    undo_lem facs c f rs (ss, success)
      (subst (FactoryAdded facs c f rs) e
        (register_factory-FactoryAdded has_memory lock facs c f rs))
      refl

find_reg-append :
    (f : ℕ) (n : FactoryReg) (rs : List FactoryReg)
    → find_reg f rs ≡ none
    → find_reg f (rs ++ n ∷ []) ≡ (if n.factory == f then some n else none)
unfolding find_reg
find_reg-append f n [] e = refl
find_reg-append f n (r ∷ rs) e = ground (arith, find_reg-append f n rs)

UniqueRegs-append :
    (n : FactoryReg) (rs : List FactoryReg)
    → find_reg n.factory rs ≡ none
    → UniqueRegs rs
    → UniqueRegs (rs ++ n ∷ [])
unfolding find_reg
UniqueRegs-append n [] free u = (refl, tt)
UniqueRegs-append n (r ∷ rs) free u =
    ground (arith, UniqueRegs-append n rs, find_reg-append r.factory n rs u.0, eq_self n.factory)

-- After the cleanup of a session exactly the factories that other sessions have registered are found.
pub find_reg-cleanup_factories :
    (s f : ℕ) (rs : List FactoryReg)
    → UniqueRegs rs
    → find_reg f (cleanup_factories s rs)
      ≡ (elim (find_reg f rs) [ none ↦ none | some r ↦ if r.session == s then none else some r ])
unfolding cleanup_factories find_reg
find_reg-cleanup_factories s f [] u = refl
find_reg-cleanup_factories s f (r ∷ rs) u =
    ground (arith, find_reg-cleanup_factories s f rs u.1, u.0)

-- A successful or failed registration keeps the factories of the chain different.
pub register_factory-UniqueRegs :
    (has_memory : Bool) (lock : Status) (facs : ℕ → Factory) (c : Caller) (f : ℕ)
    (rs : List FactoryReg)
    → UniqueRegs rs
    → UniqueRegs (register_factory has_memory lock facs c f rs).0
register_factory-UniqueRegs has_memory lock facs c f rs u =
    go (register_factory has_memory lock facs c f rs)
      (register_factory-FactoryAdded has_memory lock facs c f rs)
  where
    go : (r : List FactoryReg × Status) → FactoryAdded facs c f rs r → UniqueRegs r.0
    go _ (refused h) = u
    go _ (present r h) = u
    go _ (appended cch d k ends free same) =
        rw same
          (UniqueRegs-append (record { factory = f; session = c.ptr; cch_name = cch }) rs free u)
