-- ===== src/Obj/Counts.antt =====
-- How many references the usage records hold: of one session (`refs`) and of all (`total`), and what
-- the searches `bump_usage` and `drop_usage` and the write `set_usage` do to these numbers.
use virtualbox_drv.Common.{
  ℕ, ◌+◌, ◌<◌, ◌≤◌, ◌^◌, ◌≡◌, refl, false, none, some, List, [], ◌∷◌, arith, ◌==◌, if◌then◌else◌,
  Bool-cases, Option-cases, subst, inl, inr,
}
use virtualbox_drv.Obj.{
  Usage, Session, Drop, behind, missing, kept, last, bump_usage, drop_usage, find_session,
  set_usage,
}

-- One reference to `p`, as seen from `q`.
abbrev pub one : ℕ → ℕ → ℕ
one p q = if p == q then 1 else 0

-- The references to `q` that the usage records of one session hold.
unfoldable pub refs : ℕ → List Usage → ℕ
refs q [] = 0
refs q (u ∷ us) = (if u.obj == q then u.count else 0) + refs q us

-- The references to `q` that all sessions hold.
unfoldable pub total : ℕ → List Session → ℕ
total q [] = 0
total q (x ∷ xs) = refs q x.usage + total q xs

-- Every usage record stands for at least one reference.
abbrev pub Positive : List Usage → Type 0
Positive [] = Unit {0}
Positive (u ∷ us) = (0 < u.count) × Positive us

abbrev pub AllPositive : List Session → Type 0
AllPositive [] = Unit {0}
AllPositive (x ∷ xs) = Positive x.usage × AllPositive xs

pub bump_usage-none : (p : ℕ) (us : List Usage) → bump_usage p us ≡ none → refs p us ≡ 0
unfolding bump_usage refs
bump_usage-none p [] e = refl
bump_usage-none p (u ∷ us) e = ground (arith, bump_usage-none p us)

pub bump_usage-refs :
    (p q : ℕ) (us vs : List Usage)
    → bump_usage p us ≡ some vs
    → refs p us + 1 < 2 ^ 32
    → refs q vs ≡ refs q us + one p q
unfolding bump_usage refs
bump_usage-refs p q [] vs e h = ground arith
bump_usage-refs p q (u ∷ us) vs e h = elim (Option-cases (bump_usage p us)) [
  | inl none_left ↦ ground (arith, bump_usage-none p us none_left)
  | inr (ws, some_left) ↦ ground (arith, bump_usage-refs p q us ws some_left)
]

pub bump_usage-Positive :
    (p : ℕ) (us vs : List Usage)
    → bump_usage p us ≡ some vs
    → refs p us + 1 < 2 ^ 32
    → Positive us
    → Positive vs
unfolding bump_usage refs
bump_usage-Positive p [] vs e h k = ground arith
bump_usage-Positive p (u ∷ us) vs e h k = elim (Option-cases (bump_usage p us)) [
  | inl none_left ↦ ground arith
  | inr (ws, some_left) ↦ ground (arith, bump_usage-Positive p us ws some_left)
]

pub find_session-total :
    (q s : ℕ) (xs : List Session) (x : Session)
    → find_session s xs ≡ some x
    → refs q x.usage ≤ total q xs
unfolding find_session total
find_session-total q s [] x e = ground arith
find_session-total q s (y ∷ xs) x e = ground (arith, find_session-total q s xs x)

pub total-set_usage :
    (q s : ℕ) (us : List Usage) (xs : List Session) (x : Session)
    → find_session s xs ≡ some x
    → total q (set_usage s us xs) + refs q x.usage ≡ total q xs + refs q us
unfolding find_session set_usage total
total-set_usage q s us [] x e = ground arith
total-set_usage q s us (y ∷ xs) x e = ground (arith, total-set_usage q s us xs x)

pub find_session-Positive :
    (s : ℕ) (xs : List Session) (x : Session)
    → find_session s xs ≡ some x
    → AllPositive xs
    → Positive x.usage
unfolding find_session
find_session-Positive s [] x e k = ground arith
find_session-Positive s (y ∷ xs) x e k = elim (Bool-cases (y.id == s)) [
  | inl hit ↦ subst (λ (z : Session). Positive z.usage) {x = y} {y = x} (ground arith) k.0
  | inr miss ↦ find_session-Positive s xs x (rw miss at e) k.1
]

pub set_usage-AllPositive :
    (s : ℕ) (us : List Usage) (xs : List Session)
    → Positive us
    → AllPositive xs
    → AllPositive (set_usage s us xs)
unfolding set_usage
set_usage-AllPositive s us [] h k = tt
set_usage-AllPositive s us (y ∷ xs) h k = elim (Bool-cases (y.id == s)) [
  | inl hit ↦ rw hit (h, k.1)
  | inr miss ↦ rw miss (k.0, set_usage-AllPositive s us xs h k.1)
]

pub find_session-set_usage :
    (s : ℕ) (us : List Usage) (xs : List Session) (x : Session)
    → find_session s xs ≡ some x
    → find_session s (set_usage s us xs) ≡ some (record x { usage = us })
unfolding find_session set_usage
find_session-set_usage s us [] x e = ground arith
find_session-set_usage s us (y ∷ xs) x e = ground (arith, find_session-set_usage s us xs x)

pub find_session-set_usage_ne :
    (s t : ℕ) (us : List Usage) (xs : List Session)
    → (s == t) ≡ false
    → find_session t (set_usage s us xs) ≡ find_session t xs
unfolding find_session set_usage
find_session-set_usage_ne s t us [] h = refl
find_session-set_usage_ne s t us (y ∷ xs) h = ground (arith, find_session-set_usage_ne s t us xs h)

-- What `drop_usage` finds, with the references that are left.
abbrev pub Dropped : ℕ → ℕ → List Usage → Drop → Type 0
Dropped p q us missing = refs p us ≡ 0
Dropped p q us (kept vs) = (refs q vs + one p q ≡ refs q us) × (0 < refs p vs)
Dropped p q us (last vs) = refs q vs + one p q ≡ refs q us

abbrev pub DropPositive : Drop → Type 0
DropPositive missing = Unit {0}
DropPositive (kept vs) = Positive vs
DropPositive (last vs) = Positive vs

behind-Dropped :
    (p q : ℕ) (u : Usage) (us : List Usage) (d : Drop)
    → (u.obj == p) ≡ false
    → Dropped p q us d
    → Dropped p q (u ∷ us) (behind u d)
unfolding refs
behind-Dropped p q u us missing miss h = ground arith
behind-Dropped p q u us (kept vs) miss h = ground arith
behind-Dropped p q u us (last vs) miss h = ground arith

behind-DropPositive :
    (u : Usage) (d : Drop) → 0 < u.count → DropPositive d → DropPositive (behind u d)
behind-DropPositive u missing h k = tt
behind-DropPositive u (kept vs) h k = (h, k)
behind-DropPositive u (last vs) h k = (h, k)

pub drop_usage-Dropped :
    (p q : ℕ) (us : List Usage)
    → refs p us < 2 ^ 32
    → Positive us
    → Dropped p q us (drop_usage p us)
unfolding drop_usage refs
drop_usage-Dropped p q [] h k = refl
drop_usage-Dropped p q (u ∷ us) h k = elim (Bool-cases (u.obj == p)) [
  | inl hit ↦ ground arith
  | inr miss ↦ rw miss (
      behind-Dropped p q u us (drop_usage p us) miss (drop_usage-Dropped p q us (ground arith) k.1))
]

pub drop_usage-Positive :
    (p : ℕ) (us : List Usage) → refs p us < 2 ^ 32 → Positive us → DropPositive (drop_usage p us)
unfolding drop_usage refs
drop_usage-Positive p [] h k = tt
drop_usage-Positive p (u ∷ us) h k = elim (Bool-cases (u.obj == p)) [
  | inl hit ↦ ground arith
  | inr miss ↦
      rw miss
        (behind-DropPositive u (drop_usage p us) k.0 (drop_usage-Positive p us (ground arith) k.1))
]
