-- ===== src/MemRef/Entries.antt =====
-- The chain of bundles as the list of references that it holds, and what supdrvMemAdd and
-- supdrvMemRelease do to that list.
use virtualbox_drv.Common.{
  ℕ, ◌+◌, ◌≤◌, ◌<◌, ◌≡◌, inl, inr, refl, true, false, Option, none, some, List, [], ◌∷◌, ◌++◌,
  arith, ltb, if◌then◌else◌, inc32, length, Option-cases, Bool-cases, ap, subst, suc, ◌∙◌,
}
use virtualbox_drv.MemRef.{MemRef, Bundle, bundle_size, is_free, add_slot, add_bundles}

-- The entries in use, in the order of the walk.
unfoldable pub in_use : List MemRef → List MemRef
in_use [] = []
in_use (m ∷ ms) = if is_free m then in_use ms else m ∷ in_use ms

unfoldable pub entries : List Bundle → List MemRef
entries [] = []
entries (b ∷ bs) = in_use b.mem ++ entries bs

-- How many entries of a bundle are in use.
unfoldable pub occupied : List MemRef → ℕ
occupied ms = length (in_use ms)

-- Every bundle has 64 entries, and its counter is not below the number of those in use.
abbrev pub WellFormed : List Bundle → Type 0
WellFormed [] = Unit {0}
WellFormed (b ∷ bs) =
    ((length b.mem ≡ bundle_size) × (occupied b.mem ≤ b.used) × (b.used ≤ bundle_size))
    × WellFormed bs

-- `ys` is `xs` with `m` put in somewhere.
pub data Inserted (m : MemRef) : List MemRef → List MemRef → Type 0 where
  at : {xs : List MemRef} → Inserted m xs (m ∷ xs)
  later : {x : MemRef} {xs ys : List MemRef} → Inserted m xs ys → Inserted m (x ∷ xs) (x ∷ ys)

pub length-Inserted :
    {m : MemRef} {xs ys : List MemRef} → Inserted m xs ys → length ys ≡ length xs + 1
length-Inserted (at) = omega arith
length-Inserted (later i) = omega (arith, length-Inserted i)

pub Inserted-append_right :
    {m : MemRef} {xs ys : List MemRef} (zs : List MemRef)
    → Inserted m xs ys
    → Inserted m (xs ++ zs) (ys ++ zs)
Inserted-append_right zs (at) = at
Inserted-append_right zs (later i) = later (Inserted-append_right zs i)

pub Inserted-append_left :
    {m : MemRef} {xs ys : List MemRef} (zs : List MemRef)
    → Inserted m xs ys
    → Inserted m (zs ++ xs) (zs ++ ys)
Inserted-append_left [] i = i
Inserted-append_left (z ∷ zs) i = later (Inserted-append_left zs i)

pub in_use-free : (x : MemRef) (xs : List MemRef) → is_free x ≡ true → in_use (x ∷ xs) ≡ in_use xs
unfolding in_use
in_use-free x xs h = rw h

pub in_use-busy :
    (x : MemRef) (xs : List MemRef) → is_free x ≡ false → in_use (x ∷ xs) ≡ x ∷ in_use xs
unfolding in_use
in_use-busy x xs h = rw h

-- A reference that takes a free entry.
abbrev pub SlotAdded : MemRef → List MemRef → Option (List MemRef) → Type 0
SlotAdded m xs none = length (in_use xs) ≡ length xs
SlotAdded m xs (some ys) = Inserted m (in_use xs) (in_use ys) × (length ys ≡ length xs)

abbrev consed : MemRef → Option (List MemRef) → Option (List MemRef)
consed x none = none
consed x (some ys) = some (x ∷ ys)

SlotAdded-consed :
    (m x : MemRef) (xs : List MemRef) (r : Option (List MemRef))
    → is_free x ≡ false
    → SlotAdded m xs r
    → SlotAdded m (x ∷ xs) (consed x r)
SlotAdded-consed m x xs none busy s = rw (in_use-busy x xs busy) (ap suc s)
SlotAdded-consed m x xs (some ys) busy (i, e) =
    (rw (in_use-busy x xs busy, in_use-busy x ys busy) (later i), ap suc e)

pub add_slot-SlotAdded :
    (m : MemRef) (xs : List MemRef) → is_free m ≡ false → SlotAdded m xs (add_slot m xs)
unfolding add_slot
add_slot-SlotAdded m [] h = unfold in_use in refl
add_slot-SlotAdded m (x ∷ xs) h = elim (Bool-cases (is_free x)) [
  | inl free ↦ rw free (rw (in_use-free x xs free, in_use-busy m xs h) at, refl)
  | inr busy ↦ rw busy (SlotAdded-consed m x xs (add_slot m xs) busy (add_slot-SlotAdded m xs h))
]

abbrev pub ChainAdded : MemRef → List Bundle → Option (List Bundle) → Type 0
ChainAdded m bs none = Unit {0}
ChainAdded m bs (some cs) = Inserted m (entries bs) (entries cs) × WellFormed cs

abbrev chained : Bundle → Option (List Bundle) → Option (List Bundle)
chained b none = none
chained b (some cs) = some (b ∷ cs)

ChainAdded-chained :
    (m : MemRef) (b : Bundle) (bs : List Bundle) (r : Option (List Bundle))
    → WellFormed (b ∷ bs)
    → ChainAdded m bs r
    → ChainAdded m (b ∷ bs) (chained b r)
unfolding entries
ChainAdded-chained m b bs none v h = tt
ChainAdded-chained m b bs (some cs) v (i, k) = (Inserted-append_left (in_use b.mem) i, (v.0, k))

-- A bundle with a counter below its size has a free entry, so the counter keeps its bounds.
ChainAdded-slot :
    (m : MemRef) (b : Bundle) (bs : List Bundle) (ys : List MemRef)
    → WellFormed (b ∷ bs)
    → b.used < bundle_size
    → SlotAdded m b.mem (some ys)
    → ChainAdded m (b ∷ bs) (some (record { mem = ys; used = inc32 b.used } ∷ bs))
unfolding entries occupied
ChainAdded-slot m b bs ys v room (i, e) = (
  Inserted-append_right (entries bs) i,
  ((e ∙ v.0.0, omega (arith, length-Inserted i, v.0), omega arith), v.1),
)

pub add_bundles-ChainAdded :
    (m : MemRef) (bs : List Bundle)
    → is_free m ≡ false
    → WellFormed bs
    → ChainAdded m bs (add_bundles m bs)
unfolding add_bundles
add_bundles-ChainAdded m [] h v = tt
add_bundles-ChainAdded m (b ∷ bs) h v =
    let rest = ChainAdded-chained m b bs (add_bundles m bs) v (add_bundles-ChainAdded m bs h v.1) in
    elim (Bool-cases (ltb b.used bundle_size)) [
      | inl room ↦ elim (Option-cases (add_slot m b.mem)) [
        | inl e ↦ rw (room, e) rest
        | inr (ys, e) ↦
            rw (room, e)
              (ChainAdded-slot m b bs ys v (ground arith)
                (subst (SlotAdded m b.mem) e (add_slot-SlotAdded m b.mem h)))
      ]
      | inr full ↦ rw full rest
    ]
