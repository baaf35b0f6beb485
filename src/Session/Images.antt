-- ===== src/Session/Images.antt =====
-- The image part of supdrvCleanupSession of vboxdrv/SUPDrv.c leaves the object registry intact: of the
-- objects only destructors are cleared, by supdrvLdrFree.
use virtualbox_drv.Common.{
  ℕ, Bool, true, false, ◌≡◌, refl, ◌∙◌, Option, none, some, List, [], ◌∷◌, if◌then◌else◌,
  Bool-cases, Option-cases, inl, inr, ltb, Returns, ◌>>=◌, contains, ◌&&◌,
}
use virtualbox_drv.HandleTable.Racing.{IfReturns}
use virtualbox_drv.Ldr.{Image, Ldr, LdrUsage, get_image, put_session}
use virtualbox_drv.Ldr.Free.{
  clear_destructors, free_image, cleanup_image, cleanup_images, cleanup_session_images,
  has_destructor_in,
}
use virtualbox_drv.Ldr.Balanced.{BalancedLdr}
use virtualbox_drv.Ldr.Cleanup.{cleanup_session_images-Balanced}
use virtualbox_drv.Obj.{Obj, DevExt}
use virtualbox_drv.Obj.Invariant.{Inv, Cell}

Returns-both :
    {A : Type 0} (P Q : A → Type 0) (m : Option A)
    → Returns P m
    → IfReturns Q m
    → Returns (λ a. P a × Q a) m
Returns-both P Q none h k = h
Returns-both P Q (some a) h k = (h, k)

IfReturns-mono :
    {A : Type 0} {P Q : A → Type 0} (m : Option A)
    → IfReturns P m
    → ((a : A) → P a → Q a)
    → IfReturns Q m
IfReturns-mono none h f = tt
IfReturns-mono (some a) h f = f a h

IfReturns-bind :
    {A B : Type 0} {P : A → Type 0} (Q : B → Type 0) (m : Option A) (k : A → Option B)
    → IfReturns P m
    → ((a : A) → P a → IfReturns Q (k a))
    → IfReturns Q (do a ← m; k a)
IfReturns-bind Q none k h f = tt
IfReturns-bind Q (some a) k h f = f a h

-- The registry is intact, and the sessions are those of `w`.
pub record Kept (w w' : DevExt) : Type 0 where
  pub inv : Inv w'
  pub same : w'.sessions ≡ w.sessions

clear-Cell :
    (b : Bool) (c : Option Obj) (listed held : ℕ)
    → Cell c listed held
    → Cell
        (if b then (elim c [ none ↦ none | some o ↦ some (record o { destructor = 0 }) ]) else c)
        listed
        held
clear-Cell true none listed held k = k
clear-Cell true (some o) listed held k = k
clear-Cell false c listed held k = k

clear_destructors-Kept : (i : Image) (w : DevExt) → Inv w → Kept w (clear_destructors i w)
unfolding clear_destructors
clear_destructors-Kept i w v = record {
  inv = record {
    cells = λ q.
        clear-Cell (contains w.objs q && has_destructor_in i (w.heap q)) (w.heap q) _ _ (v.cells q);
    positive = v.positive;
  };
  same = refl;
}

cleanup_image-Kept :
    (l : Ldr) (u : LdrUsage) → Inv l.dev → IfReturns (λ m. Kept l.dev m.dev) (cleanup_image l u)
unfolding cleanup_image free_image
cleanup_image-Kept l u v = elim (Option-cases (get_image u.image l.images)) [
  | inl gone ↦ rw (gone, cleanup_image) tt
  | inr (i, found) ↦ elim (Bool-cases (ltb u.count i.usage)) [
    | inl more ↦ rw (found, cleanup_image, more) (record { inv = v; same = refl })
    | inr last ↦ rw (found, cleanup_image, last) (clear_destructors-Kept i l.dev v)
  ]
]

cleanup_images-Kept :
    (us : List LdrUsage) (l : Ldr)
    → Inv l.dev
    → IfReturns (λ m. Kept l.dev m.dev) (cleanup_images us l)
unfolding cleanup_images
cleanup_images-Kept [] l v = record { inv = v; same = refl }
cleanup_images-Kept (u ∷ us) l v =
    IfReturns-bind _ (cleanup_image l u) (cleanup_images us) (cleanup_image-Kept l u v) (λ m k.
      IfReturns-mono (cleanup_images us m) (cleanup_images-Kept us m k.inv)
        (λ n h. record { inv = h.inv; same = h.same ∙ k.same }))

-- With the counters of the images right, the cleanup ends and keeps the registry as well.
pub cleanup_session_images-Kept :
    (rest : ℕ → ℕ) (l : Ldr) (s : ℕ)
    → BalancedLdr rest s l
    → Inv l.dev
    → Returns
        (λ m. ((BalancedLdr rest s m) × (m.usage s ≡ [])) × Kept l.dev m.dev)
        (cleanup_session_images l s)
unfolding cleanup_session_images
cleanup_session_images-Kept rest l s b v =
    Returns-both _ _ (cleanup_session_images l s) (cleanup_session_images-Balanced rest l s b)
      (cleanup_images-Kept (l.usage s) (put_session s [] l) v)
