-- ===== src/Ldr/Balance.antt =====
-- The balance of the loader: the counter of each image against the usage records. The lemmas are
-- about the searches and writes of Ldr.antt and Ldr/Free.antt.
use virtualbox_drv.Common.{
  ℕ, ◌+◌, ◌<◌, ◌≤◌, ◌^◌, ◌≡◌, refl, none, some, List, [], ◌∷◌, arith, ◌==◌, if◌then◌else◌,
  Option-cases, inl, inr,
}
use virtualbox_drv.Ldr.{Image, LdrUsage, get_image, set_image, remove_image, raise_usage}
use virtualbox_drv.Ldr.Free.{usage_count, remove_usage, lower_usage}

abbrev pub one : ℕ → ℕ → ℕ
one p q = if p == q then 1 else 0

-- The references to an image that the usage records of a session hold.
unfoldable pub uses : ℕ → List LdrUsage → ℕ
uses q [] = 0
uses q (u ∷ us) = (if u.image == q then u.count else 0) + uses q us

abbrev pub Positive : List LdrUsage → Type 0
Positive [] = Unit {0}
Positive (u ∷ us) = (0 < u.count) × Positive us

-- The records of the images are at different addresses.
abbrev pub Unique : List Image → Type 0
Unique [] = Unit {0}
Unique (i ∷ is) = (get_image i.ptr is ≡ none) × Unique is

pub raise_usage-none : (p : ℕ) (us : List LdrUsage) → raise_usage p us ≡ none → uses p us ≡ 0
unfolding raise_usage uses
raise_usage-none p [] e = refl
raise_usage-none p (u ∷ us) e = ground (arith, raise_usage-none p us)

pub raise_usage-uses :
    (p q : ℕ) (us vs : List LdrUsage)
    → raise_usage p us ≡ some vs
    → uses p us + 1 < 2 ^ 32
    → uses q vs ≡ uses q us + one p q
unfolding raise_usage uses
raise_usage-uses p q [] vs e h = ground arith
raise_usage-uses p q (u ∷ us) vs e h = elim (Option-cases (raise_usage p us)) [
  | inl none_left ↦ ground (arith, raise_usage-none p us none_left)
  | inr (ws, some_left) ↦ ground (arith, raise_usage-uses p q us ws some_left)
]

pub raise_usage-Positive :
    (p : ℕ) (us vs : List LdrUsage)
    → raise_usage p us ≡ some vs
    → uses p us + 1 < 2 ^ 32
    → Positive us
    → Positive vs
unfolding raise_usage uses
raise_usage-Positive p [] vs e h k = ground arith
raise_usage-Positive p (u ∷ us) vs e h k = elim (Option-cases (raise_usage p us)) [
  | inl none_left ↦ ground arith
  | inr (ws, some_left) ↦ ground (arith, raise_usage-Positive p us ws some_left)
]

pub usage_count-le : (p : ℕ) (us : List LdrUsage) → usage_count p us ≤ uses p us
unfolding usage_count uses
usage_count-le p [] = omega arith
usage_count-le p (u ∷ us) = ground (arith, usage_count-le p us)

-- The record of an image with references is there, and taking it out, or one off it, is seen by
-- `uses` only at that image.
pub remove_usage-uses :
    (p q : ℕ) (us : List LdrUsage)
    → uses q (remove_usage p us) + (if p == q then usage_count p us else 0) ≡ uses q us
unfolding remove_usage usage_count uses
remove_usage-uses p q [] = ground arith
remove_usage-uses p q (u ∷ us) = ground (arith, remove_usage-uses p q us)

pub remove_usage-Positive :
    (p : ℕ) (us : List LdrUsage) → Positive us → Positive (remove_usage p us)
unfolding remove_usage
remove_usage-Positive p [] k = tt
remove_usage-Positive p (u ∷ us) k = ground (arith, remove_usage-Positive p us)

pub lower_usage-uses :
    (p q : ℕ) (us : List LdrUsage)
    → 0 < usage_count p us
    → uses p us < 2 ^ 32
    → uses q (lower_usage p us) + one p q ≡ uses q us
unfolding lower_usage usage_count uses
lower_usage-uses p q [] h k = absurd (omega arith)
lower_usage-uses p q (u ∷ us) h k = ground (arith, lower_usage-uses p q us)

pub lower_usage-Positive :
    (p : ℕ) (us : List LdrUsage)
    → 1 < usage_count p us
    → uses p us < 2 ^ 32
    → Positive us
    → Positive (lower_usage p us)
unfolding lower_usage usage_count uses
lower_usage-Positive p [] h b k = tt
lower_usage-Positive p (u ∷ us) h b k = ground (arith, lower_usage-Positive p us)

-- Writes to the list of images.
pub get_image-set_image :
    (p q : ℕ) (i j : Image) (is : List Image)
    → get_image p is ≡ some i
    → j.ptr ≡ p
    → get_image q (set_image p j is) ≡ (if p == q then some j else get_image q is)
unfolding get_image set_image
get_image-set_image p q i j [] e f = ground arith
get_image-set_image p q i j (k ∷ is) e f = ground (arith, get_image-set_image p q i j is)

pub get_image-remove_image :
    (p q : ℕ) (is : List Image)
    → Unique is
    → get_image q (remove_image p is) ≡ (if p == q then none else get_image q is)
unfolding get_image remove_image
get_image-remove_image p q [] u = ground arith
get_image-remove_image p q (k ∷ is) u = ground (arith, get_image-remove_image p q is u.1)

pub get_image-ptr : (p : ℕ) (is : List Image) (i : Image) → get_image p is ≡ some i → i.ptr ≡ p
unfolding get_image
get_image-ptr p [] i e = ground arith
get_image-ptr p (k ∷ is) i e = ground (arith, get_image-ptr p is i)

pub set_image-Unique :
    (p : ℕ) (i j : Image) (is : List Image)
    → get_image p is ≡ some i
    → j.ptr ≡ p
    → Unique is
    → Unique (set_image p j is)
unfolding get_image set_image
set_image-Unique p i j [] e f u = tt
set_image-Unique p i j (k ∷ is) e f u =
    ground (arith, set_image-Unique p i j is, get_image-set_image p k.ptr i j is)

pub remove_image-Unique : (p : ℕ) (is : List Image) → Unique is → Unique (remove_image p is)
unfolding remove_image
remove_image-Unique p [] u = tt
remove_image-Unique p (k ∷ is) u =
    ground (arith, remove_image-Unique p is, get_image-remove_image p k.ptr is u.1)
