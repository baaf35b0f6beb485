-- ===== src/Ldr/Cleanup.antt =====
-- The image part of supdrvCleanupSession keeps the counters right and leaves no reference behind.
use virtualbox_drv.Common.{
  ℕ, ◌+◌, ◌≡◌, refl, some, List, [], ◌∷◌, arith, ◌==◌, if◌then◌else◌, Bool-cases, eq_self, inl, inr,
  ltb, Returns, Returns-bind, Returns-mono, ap, ◌∙◌,
}
use virtualbox_drv.Ldr.{Image, Ldr, LdrUsage, get_image, put_session}
use virtualbox_drv.Ldr.Free.{free_image, cleanup_image, cleanup_images, cleanup_session_images}
use virtualbox_drv.Ldr.Balance.{uses, get_image-ptr}
use virtualbox_drv.Ldr.Balanced.{
  Balanced, BalancedLdr, cell, held_image, Balanced-set, Balanced-remove,
}

-- What a round leaves: the counters are right for the records that are left.
pub record Round (rest : ℕ → ℕ) (l : Ldr) (us : List LdrUsage) (l' : Ldr) : Type 0 where
  pub balanced : Balanced rest us l'.images
  pub same : l'.usage ≡ l.usage

module _ (rest : ℕ → ℕ) (l : Ldr) (u : LdrUsage) (us : List LdrUsage)
    (b : Balanced rest (u ∷ us) l.images) (i : Image)
    (found : get_image u.image l.images ≡ some i) where
  at_ptr : get_image i.ptr l.images ≡ some i
  at_ptr = ap (λ p. get_image p l.images) (get_image-ptr u.image l.images i found) ∙ found

  less : (q : ℕ) → uses q us + (if i.ptr == q then u.count else 0) ≡ uses q (u ∷ us)
  unfolding uses
  less q = ground (arith, get_image-ptr u.image l.images i found)

  cleanup_image-Round : Returns (Round rest l us) (cleanup_image l u)
  unfolding cleanup_image free_image
  cleanup_image-Round =
      let c = cell rest (u ∷ us) l.images b i at_ptr in
      let same = get_image-ptr u.image l.images i found in
      elim (Bool-cases (ltb u.count i.usage)) [
        | inl more ↦
            rw (found, cleanup_image, more)
              (record {
                balanced =
                    Balanced-set rest (u ∷ us) l.images b i at_ptr us _ b.positive.1
                      (λ q. ground (arith, less q, c)) (ground (arith, c)) (omega arith);
                same = refl;
              })
        | inr gone ↦
            rw (found, cleanup_image, gone)
              (record {
                balanced =
                    Balanced-remove rest (u ∷ us) l.images b i at_ptr us b.positive.1
                      (λ q. ground (arith, less q, less i.ptr, c));
                same = refl;
              })
      ]

pub cleanup_images-Round :
    (us : List LdrUsage) (rest : ℕ → ℕ) (l : Ldr)
    → Balanced rest us l.images
    → Returns (Round rest l []) (cleanup_images us l)
unfolding cleanup_images
cleanup_images-Round [] rest l b = record { balanced = b; same = refl }
cleanup_images-Round (u ∷ us) rest l b =
    let (i, found) =
      held_image rest (u ∷ us) l.images b u.image (unfold uses in ground (arith, b.positive)) in
    Returns-bind (Round rest l us) (Round rest l []) (cleanup_image l u) (cleanup_images us)
      (cleanup_image-Round rest l u us b i found)
      (λ l' r.
        Returns-mono (Round rest l' []) (Round rest l []) (cleanup_images us l')
          (cleanup_images-Round us rest l' r.balanced)
          (λ k h. record { balanced = h.balanced; same = h.same ∙ r.same }))

-- The image part of supdrvCleanupSession ends without a fault. The session is left without usage
-- records, and the counters are right for the references of the other sessions.
pub cleanup_session_images-Balanced :
    (rest : ℕ → ℕ) (l : Ldr) (s : ℕ)
    → BalancedLdr rest s l
    → Returns (λ l'. BalancedLdr rest s l' × (l'.usage s ≡ [])) (cleanup_session_images l s)
unfolding cleanup_session_images
cleanup_session_images-Balanced rest l s b =
    let m = put_session s [] l in
    Returns-mono (Round rest m []) (λ l'. BalancedLdr rest s l' × (l'.usage s ≡ []))
      (cleanup_images (l.usage s) m) (cleanup_images-Round (l.usage s) rest m b)
      (λ l' r.
        let empty : l'.usage s ≡ [] = ap (λ (f : ℕ → List LdrUsage). f s) r.same ∙ rw (eq_self s) in
        (rw empty r.balanced, empty))
