-- ===== src/MemRef/Cleanup.antt =====
-- What the memory part of supdrvCleanupSession of vboxdrv/SUPDrv.c frees.
use virtualbox_drv.Common.{
  ℕ, ◌≡◌, refl, Bool, List, [], ◌∷◌, ◌++◌, ap, ◌∙◌, sym, Bool-cases, inl, inr, if◌then◌else◌,
}
use virtualbox_drv.MemRef.{MemRef, Bundle, is_free, frees, cleanup_entries, cleanup_memory}
use virtualbox_drv.MemRef.Entries.{in_use, entries, in_use-busy}

-- The calls that give all references of a list back, in their order.
unfoldable pub frees_all : List MemRef → List (ℕ × Bool)
frees_all [] = []
frees_all (m ∷ ms) = frees m ++ frees_all ms

append_assoc : (xs ys zs : List (ℕ × Bool)) → (xs ++ ys) ++ zs ≡ xs ++ (ys ++ zs)
append_assoc [] ys zs = refl
append_assoc (x ∷ xs) ys zs = ap (λ l. x ∷ l) (append_assoc xs ys zs)

frees_all-append : (ms ns : List MemRef) → frees_all (ms ++ ns) ≡ frees_all ms ++ frees_all ns
unfolding frees_all
frees_all-append [] ns = refl
frees_all-append (m ∷ ms) ns =
    rw (frees_all-append ms ns) (sym (append_assoc (frees m) (frees_all ms) (frees_all ns)))

cleanup_entries-in_use : (ms : List MemRef) → cleanup_entries ms ≡ frees_all (in_use ms)
unfolding cleanup_entries in_use frees_all
cleanup_entries-in_use [] = refl
cleanup_entries-in_use (m ∷ ms) = elim (Bool-cases (is_free m)) [
  | inl free ↦ rw free (cleanup_entries-in_use ms)
  | inr busy ↦
      ap (λ b. (if b then [] else frees m) ++ cleanup_entries ms) busy
      ∙ ap (λ l. frees m ++ l) (cleanup_entries-in_use ms)
      ∙ ap frees_all (sym (in_use-busy m ms busy))
]

-- The cleanup of a session frees exactly the memory that the entries in use of its bundles refer to,
-- each once and in their order, whatever the counters of the bundles say.
pub cleanup_memory-entries : (bs : List Bundle) → cleanup_memory bs ≡ frees_all (entries bs)
unfolding cleanup_memory entries frees_all
cleanup_memory-entries [] = refl
cleanup_memory-entries (b ∷ bs) =
    rw (cleanup_entries-in_use b.mem, cleanup_memory-entries bs)
      (sym (frees_all-append (in_use b.mem) (entries bs)))
