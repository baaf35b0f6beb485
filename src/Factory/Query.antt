-- ===== src/Factory/Query.antt =====
-- What SUPR0ComponentQueryFactory of vboxdrv/SUPDrv.c answers.
use virtualbox_drv.Common.{
  ℕ, ◌≡◌, ◌≢◌, refl, Bool, true, false, ◌||◌, some, List, [], ◌∷◌, ◌++◌, arith, ◌==◌, ap,
  if◌then◌else◌, Bool-cases, inl, inr, Status, success, component_not_found,
  interface_not_supported, rt_success,
}
use virtualbox_drv.Factory.{
  Factory, FactoryReg, Caller, is_caller_valid, str_end, has_name, query_loop, query_factory,
}

module _ (facs : ℕ → Factory) (answer : ℕ → ℕ) (name : List ℕ) (cch : ℕ) where
  -- No registration of the name has an answer.
  abbrev pub Silent : List FactoryReg → Type 0
  Silent [] = Unit {0}
  Silent (r ∷ rs) = (has_name facs name cch r ≡ true → answer r.factory ≡ 0) × Silent rs

  abbrev pub any_named : List FactoryReg → Bool
  any_named [] = false
  any_named (r ∷ rs) = has_name facs name cch r || any_named rs

  -- The answers of a query: nothing, with a status that tells whether the name is registered at all;
  -- or the answer of the first registration of the name that has one.
  pub data Answered (rs : List FactoryReg) (rc : Status) : Status × ℕ → Type 0 where
    silent :
        {st : Status}
        → Silent rs
        → st ≡ (if any_named rs then interface_not_supported else rc)
        → Answered rs rc (st, 0)
    answered :
        (before later : List FactoryReg) (r : FactoryReg)
        → rs ≡ before ++ r ∷ later
        → Silent before
        → has_name facs name cch r ≡ true
        → answer r.factory ≢ 0
        → Answered rs rc (success, answer r.factory)

  pass :
      (r : FactoryReg) (rs : List FactoryReg) (rc rc' : Status) (x : Status × ℕ)
      → (has_name facs name cch r ≡ true → answer r.factory ≡ 0)
      → rc' ≡ (if has_name facs name cch r then interface_not_supported else rc)
      → Answered rs rc' x
      → Answered (r ∷ rs) rc x
  pass r rs rc rc' _ h e (silent {st} quiet s) =
      silent (h, quiet)
        (elim (Bool-cases (has_name facs name cch r)) [
          | inl t ↦ ground (arith, s, e, t)
          | inr f ↦ ground (arith, s, e, f)
        ])
  pass r rs rc rc' _ h e (answered before later q same quiet named set) =
      answered (r ∷ before) later q (ap (λ ss. r ∷ ss) same) (h, quiet) named set

  query_loop-Answered :
      (rs : List FactoryReg) (rc : Status) → Answered rs rc (query_loop facs answer name cch rs rc)
  unfolding query_loop
  query_loop-Answered [] rc = silent tt refl
  query_loop-Answered (r ∷ rs) rc = elim (Bool-cases (has_name facs name cch r)) [
    | inr other ↦
        rw (other, query_loop)
          (pass r rs rc rc _ (λ t. absurd (ground (arith, t, other))) (rw other refl)
            (query_loop-Answered rs rc))
    | inl named ↦ elim (Bool-cases (answer r.factory == 0)) [
      | inl null ↦
          rw (named, null, query_loop)
            (pass r rs rc interface_not_supported _ (λ t. ground (arith, null)) (rw named refl)
              (query_loop-Answered rs interface_not_supported))
      | inr set ↦ rw (named, set, query_loop) (answered [] rs r refl tt named (ground (arith, set)))
    ]
  ]

-- A query with valid arguments gets the interface of the first registered factory of that name whose
-- callback gives one; otherwise it tells a name without a factory from an unsupported interface.
pub query_factory-Answered :
    (lock : Status) (facs : ℕ → Factory) (answer : ℕ → ℕ → List ℕ → ℕ) (c : Caller)
    (name id : List ℕ) (cch cch_id : ℕ) (rs : List FactoryReg)
    → is_caller_valid c ≡ true
    → rt_success lock ≡ true
    → str_end name 56 ≡ some cch
    → str_end id 37 ≡ some cch_id
    → Answered facs
        (λ f. answer f c.ptr id)
        name
        cch
        rs
        component_not_found
        (query_factory lock facs answer c (some name) (some id) true rs)
unfolding query_factory
query_factory-Answered lock facs answer c name id cch cch_id rs ok locked ends ends_id =
    rw (ok, ends, ends_id, locked, query_factory)
      (query_loop-Answered facs (λ f. answer f c.ptr id) name cch rs component_not_found)
