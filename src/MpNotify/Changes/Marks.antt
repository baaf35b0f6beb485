-- ===== src/MpNotify/Changes/Marks.antt =====
-- The done bits of the records in a chain of r0drv/mpnotification-r0drv.c.
use virtualbox_drv.Common.{
  ℕ, ◌+◌, ◌≡◌, ◌≤◌, ◌⊎◌, refl, inl, inr, sym, Bool, true, List, [], ◌∷◌, ◌++◌, arith, if◌then◌else◌,
  if_intro,
}
use virtualbox_drv.MpNotify.{NotifyReg, is_same, unlink, new_reg}

-- A record with this id, whose bit is `b`, is in a chain.
abbrev pub Marked : (b : Bool) (bit id : ℕ) → List NotifyReg → Type 0
Marked b bit id [] = ⊥
Marked b bit id (r ∷ rs) = ((r.id ≡ id) × (r.done bit ≡ b)) ⊎ Marked b bit id rs

-- The records of `v` are those of `w`, with the same bits, and new ones, whose bits are set.
abbrev pub Older : (limit bit : ℕ) → List NotifyReg → List NotifyReg → Type 0
Older limit bit rs ss =
    (b : Bool) (id : ℕ) → Marked b bit id ss → Marked b bit id rs ⊎ ((b ≡ true) × (limit ≤ id))

pub unlink-Marked :
    (callback user : ℕ) (rs : List NotifyReg) (b : Bool) (bit id : ℕ)
    → Marked b bit id (unlink callback user rs)
    → Marked b bit id rs
unfolding unlink
unlink-Marked callback user [] b bit id = λ m. m
unlink-Marked callback user (x ∷ rs) b bit id =
    if_intro (λ ys. Marked b bit id ys → Marked b bit id (x ∷ rs)) (is_same callback user x) rs
      (x ∷ unlink callback user rs) (λ _ j. inr j)
      (λ _ m. elim m [
        | inl here ↦ inl here
        | inr j ↦ inr (unlink-Marked callback user rs b bit id j)
      ])

pub append-Marked :
    (rs : List NotifyReg) (new callback user : ℕ) (b : Bool) (bit id : ℕ)
    → Marked b bit id (rs ++ (new_reg new callback user ∷ []))
    → Marked b bit id rs ⊎ ((b ≡ true) × (new ≡ id))
append-Marked [] new callback user b bit id (inl here) = inr (sym here.1, here.0)
append-Marked [] new callback user b bit id (inr m) = absurd m
append-Marked (x ∷ rs) new callback user b bit id (inl here) = inl (inl here)
append-Marked (x ∷ rs) new callback user b bit id (inr m) =
    elim (append-Marked rs new callback user b bit id m) [ inl j ↦ inl (inr j) | inr e ↦ inr e ]

pub same-Older : (limit bit : ℕ) (rs : List NotifyReg) → Older limit bit rs rs
same-Older limit bit rs b id m = inl m

pub trans-Older :
    (limit bit : ℕ) (rs ss ts : List NotifyReg)
    → Older limit bit rs ss
    → Older limit bit ss ts
    → Older limit bit rs ts
trans-Older limit bit rs ss ts p q b id m = elim (q b id m) [ inl j ↦ p b id j | inr e ↦ inr e ]

-- The number of clear bits.
abbrev is_clear : ℕ → NotifyReg → ℕ
is_clear bit r = if r.done bit then 0 else 1

unfoldable pub c_clear : ℕ → List NotifyReg → ℕ
c_clear bit [] = 0
c_clear bit (r ∷ rs) = is_clear bit r + c_clear bit rs

pub c_clear-unlink :
    (bit callback user : ℕ) (rs : List NotifyReg)
    → c_clear bit (unlink callback user rs) ≤ c_clear bit rs
unfolding c_clear unlink
c_clear-unlink bit callback user [] = omega arith
c_clear-unlink bit callback user (r ∷ rs) =
    if_intro (λ ys. c_clear bit ys ≤ is_clear bit r + c_clear bit rs) (is_same callback user r) rs
      (r ∷ unlink callback user rs) (λ _. omega arith)
      (λ _. omega (arith, c_clear-unlink bit callback user rs))

pub c_clear-append :
    (bit id callback user : ℕ) (rs : List NotifyReg)
    → c_clear bit (rs ++ (new_reg id callback user ∷ [])) ≡ c_clear bit rs
unfolding c_clear
c_clear-append bit id callback user [] = refl
c_clear-append bit id callback user (r ∷ rs) = omega (arith, c_clear-append bit id callback user rs)
