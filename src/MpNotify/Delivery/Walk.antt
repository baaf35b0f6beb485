-- ===== src/MpNotify/Delivery/Walk.antt =====
-- The walk of rtMpNotificationDoCallbacks in r0drv/mpnotification-r0drv.c to the next record that is
-- to be called.
use virtualbox_drv.Common.{
  ℕ, ◌≡◌, ◌≢◌, ◌≤◌, ◌<◌, ◌⊎◌, refl, ◌∙◌, inl, inr, sym, subst, ap, Bool, true, false, Option, none,
  some, List, [], ◌∷◌, arith, ◌==◌, Bool-cases, if_intro, eq_self,
}
use virtualbox_drv.MpNotify.{NotifyReg, clear_all, set_done, at_id, next_clear, ids}
use virtualbox_drv.MpNotify.Changes.Marks.{Marked, c_clear}

-- The number is one of a list.
abbrev pub OneOf : ℕ → List ℕ → Type 0
OneOf id [] = ⊥
OneOf id (p ∷ ps) = (p ≡ id) ⊎ OneOf id ps

pub Marked-OneOf :
    (b : Bool) (bit id : ℕ) (rs : List NotifyReg) → Marked b bit id rs → OneOf id (ids rs)
Marked-OneOf b bit id [] m = m
Marked-OneOf b bit id (r ∷ rs) (inl here) = inl here.0
Marked-OneOf b bit id (r ∷ rs) (inr m) = inr (Marked-OneOf b bit id rs m)

pub ids-set_done : (bit p : ℕ) (rs : List NotifyReg) → ids (set_done bit p rs) ≡ ids rs
unfolding set_done
ids-set_done bit p [] = refl
ids-set_done bit p (r ∷ rs) =
    if_intro (λ (x : NotifyReg). x.id ∷ ids (set_done bit p rs) ≡ r.id ∷ ids rs) (r.id == p) _ _
      (λ _. ap (λ l. r.id ∷ l) (ids-set_done bit p rs))
      (λ _. ap (λ l. r.id ∷ l) (ids-set_done bit p rs))

-- Which bits are set after one is.
pub set_done-Marked :
    (b : Bool) (bit p id : ℕ) (rs : List NotifyReg)
    → Marked b bit id (set_done bit p rs)
    → (Marked b bit id rs × (id ≢ p)) ⊎ ((b ≡ true) × (p ≡ id))
unfolding set_done
set_done-Marked b bit p id [] m = absurd m
set_done-Marked b bit p id (r ∷ rs) m =
    if_intro
      (λ (x : NotifyReg).
        ((x.id ≡ id) × (x.done bit ≡ b)) ⊎ Marked b bit id (set_done bit p rs)
        → (Marked b bit id (r ∷ rs) × (id ≢ p)) ⊎ ((b ≡ true) × (p ≡ id)))
      (r.id == p) _ _
      (λ e k. elim k [
        | inl here ↦ inr (ground (arith, here, eq_self bit), ground (arith, e, here))
        | inr j ↦ later (set_done-Marked b bit p id rs j)
      ])
      (λ e k. elim k [
        | inl here ↦ inl (inl here, ground (arith, e, here))
        | inr j ↦ later (set_done-Marked b bit p id rs j)
      ])
      m
  where
    later :
        (Marked b bit id rs × (id ≢ p)) ⊎ ((b ≡ true) × (p ≡ id))
        → (Marked b bit id (r ∷ rs) × (id ≢ p)) ⊎ ((b ≡ true) × (p ≡ id))
    later (inl q) = inl (inr q.0, q.1)
    later (inr q) = inr q

pub clear_all-Marked :
    (bit id : ℕ) (rs : List NotifyReg) → Marked true bit id (clear_all bit rs) → ⊥
unfolding clear_all
clear_all-Marked bit id [] m = m
clear_all-Marked bit id (r ∷ rs) (inl here) = ground (arith, here.1, eq_self bit)
clear_all-Marked bit id (r ∷ rs) (inr m) = clear_all-Marked bit id rs m

pub c_clear-set_done :
    (bit p : ℕ) (rs : List NotifyReg)
    → (c_clear bit (set_done bit p rs) ≤ c_clear bit rs)
      × (Marked false bit p rs → c_clear bit (set_done bit p rs) < c_clear bit rs)
unfolding c_clear set_done
c_clear-set_done bit p [] = (omega arith, λ m. absurd m)
c_clear-set_done bit p (r ∷ rs) = ground (arith, c_clear-set_done bit p rs, eq_self bit)

-- The record at an id of the chain.
pub at_id-found :
    (bit p : ℕ) (rs : List NotifyReg)
    → OneOf p (ids rs)
    → (r : NotifyReg) × (at_id p rs ≡ some r) × (r.id ≡ p) × Marked (r.done bit) bit p rs
unfolding at_id
at_id-found bit p [] o = absurd o
at_id-found bit p (r ∷ rs) o = elim (Bool-cases (r.id == p)) [
  | inl here ↦ (r, rw here refl, ground (arith, here), inl (ground (arith, here), refl))
  | inr other ↦
      (let f = at_id-found bit p rs (elim o [ inl e ↦ ground (arith, e, other) | inr q ↦ q ]) in
        (f.0, rw other f.1, f.2, inr f.3))
]

-- The same id is not found with both bits.
pub record Apart (limit bit : ℕ) (rs : List NotifyReg) : Type 0 where
  pub apart : (id : ℕ) → Marked true bit id rs → Marked false bit id rs → ⊥
  pub low : (id : ℕ) → Marked false bit id rs → id < limit

-- Nothing with a clear bit is left.
abbrev pub AllDone : (bit : ℕ) → List NotifyReg → Type 0
AllDone bit rs = (id : ℕ) → Marked false bit id rs → ⊥

-- A walk passes everything with a clear bit, and only what is in the chain.
pub record Covers (bit : ℕ) (walk : List ℕ) (rs : List NotifyReg) : Type 0 where
  pub covered : (id : ℕ) → Marked false bit id rs → OneOf id walk
  pub present : (id : ℕ) → OneOf id walk → OneOf id (ids rs)

-- What a walk finds next.
pub record Found (bit : ℕ) (rs : List NotifyReg) (r : NotifyReg) (ps : List ℕ) : Type 0 where
  pub clear : Marked false bit r.id rs
  pub rest : (id : ℕ) → OneOf id ps → OneOf id (ids rs)
  pub others : (id : ℕ) → Marked false bit id rs → (r.id ≡ id) ⊎ OneOf id ps

abbrev pub NextOutcome : (bit : ℕ) → List NotifyReg → Option (Option (NotifyReg × List ℕ)) → Type 0
NextOutcome bit rs none = ⊥
NextOutcome bit rs (some none) = AllDone bit rs
NextOutcome bit rs (some (some p)) = Found bit rs p.0 p.1

module _ (limit bit : ℕ) (rs : List NotifyReg) (a : Apart limit bit rs) where
  pub next_clear-NextOutcome :
      (walk : List ℕ) → Covers bit walk rs → NextOutcome bit rs (next_clear bit rs walk)
  unfolding next_clear
  next_clear-NextOutcome [] c = c.covered
  next_clear-NextOutcome (p ∷ ps) c =
      at_record (at_id-found bit p rs (c.present p (inl refl))) (next_clear-NextOutcome ps)
    where
      skip : Marked true bit p rs → Covers bit ps rs
      skip m = record {
        covered = λ id k. elim (c.covered id k) [
          | inl e ↦ absurd (a.apart id (subst (λ i. Marked true bit i rs) e m) k)
          | inr o ↦ o
        ];
        present = λ id o. c.present id (inr o);
      }

      at_record :
          (r : NotifyReg) × (at_id p rs ≡ some r) × (r.id ≡ p) × Marked (r.done bit) bit p rs
          → (Covers bit ps rs → NextOutcome bit rs (next_clear bit rs ps))
          → NextOutcome bit rs (next_clear bit rs (p ∷ ps))
      at_record (r, e, same, m) later =
          rw (e, next_clear)
            (if_intro (NextOutcome bit rs) (r.done bit) _ _
              (λ d. later (skip (subst (λ b. Marked b bit p rs) d m)))
              (λ d. record {
                clear =
                    subst (λ i. Marked false bit i rs) (sym same)
                      (subst (λ b. Marked b bit p rs) d m);
                rest = λ id o. c.present id (inr o);
                others = λ id k. elim (c.covered id k) [ inl q ↦ inl (same ∙ q) | inr o ↦ inr o ];
              }))

-- No record twice.
abbrev pub Once : List NotifyReg → Type 0
Once [] = Unit {0}
Once (c ∷ cs) = (OneOf c.id (ids cs) → ⊥) × Once cs
