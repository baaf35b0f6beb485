-- ===== src/MemApi/Outcomes.antt =====
-- What each function of the memory interface of vboxdrv/SUPDrv.c does to the references of the
-- session and to the memory objects, on every path.
use virtualbox_drv.Common.{
  ℕ, ◌+◌, ◌-◌, ◌*◌, ◌/◌, ◌%◌, ◌^◌, ltb, leb, ◌≡◌, ◌≢◌, ◌⊎◌, refl, Bool, true, false, not, ◌||◌,
  List, [], ◌∷◌, ◌++◌, inl, inr, arith, map, Status, success, rt_success, ◌==◌, if◌then◌else◌,
  Option-cases, guard_intro, if_intro, guards_intro, internal_error, subst,
}
use virtualbox_drv.MemRef.{MemRef, Bundle, mem_add, mem_release, matches, frees}
use virtualbox_drv.MemRef.Add.{MemAdded, stored, extended, failed, mem_add-MemAdded}
use virtualbox_drv.MemRef.Entries.{entries, WellFormed, Inserted}
use virtualbox_drv.MemRef.Release.{MemReleased, freed, absent, mem_release-MemReleased}
use virtualbox_drv.MemApi.{
  Call, made, MemEnv, Out, no_out, Outcome, fails, free_object, Request, lock, cont, low, mem, page,
  free, run, record_object, alloc_object, lock_mem, lock_pages, cont_alloc, low_alloc, mem_alloc,
  page_alloc, free_memory, page_size, type_locked, type_cont, type_low, type_mem, type_page,
}
use virtualbox_drv.MemApi as Api
use virtualbox_drv.Obj.{Session, is_session_valid}

-- The creations that a reference stands for.
abbrev pub makes : MemRef → List Call
makes m = made m.mem_obj ∷ (if m.map_obj == 0 then [] else made m.map_obj ∷ [])

-- The releases that undo them, without a request to free mappings.
abbrev pub undoes : MemRef → List Call
undoes m = free_object m.map_obj false ++ free_object m.mem_obj false

-- The type of the references that a request makes.
abbrev pub kind : Request → ℕ
kind (lock r3 n p) = type_locked
kind (cont n a b c) = type_cont
kind (low n a b c) = type_low
kind (mem n a b) = type_mem
kind (page n f a b c) = type_page
kind (free type ptr) = type

-- The outcomes of a request: it is refused and does nothing; or all that it has made is freed, in the
-- reverse order; or it succeeds, and the reference to what it has made is recorded; or a reference
-- that matches is taken out and freed. `base` is the chain when the lock was taken last.
pub data Ran (env : MemEnv) (q : Request) (bs : List Bundle) : Outcome → Type 0 where
  refused : {st : Status} → rt_success st ≡ false → Ran env q bs (fails bs [] st)
  undone :
      {st : Status} {base : List Bundle} (m : MemRef)
      → rt_success st ≡ false
      → (base ≡ bs) ⊎ (base ≡ env.race bs)
      → WellFormed base
      → Ran env q bs (fails base (makes m ++ undoes m) st)
  recorded :
      {cs base : List Bundle} {out : Out} (m : MemRef)
      → (base ≡ bs) ⊎ (base ≡ env.race bs)
      → Inserted m (entries base) (entries cs)
      → WellFormed cs
      → (m.type ≡ kind q) × (m.mem_obj ≡ env.mem)
      → Ran env q bs (record { bundles = cs; calls = makes m; status = success; out = out })
  released :
      {cs : List Bundle} {m : MemRef} (type ptr : ℕ)
      → q ≡ free type ptr
      → Inserted m (entries cs) (entries bs)
      → matches env.addresses ptr type m ≡ true
      → WellFormed cs
      → Ran env q bs (fails cs (map (λ f. Api.freed f.0 f.1) (frees m)) success)

-- The runtime gives a handle that is not NIL_RTR0MEMOBJ with each object that it makes, and other
-- threads keep the chain well-formed.
pub record IsSane (env : MemEnv) (bs : List Bundle) : Type 0 where
  pub object : env.mem ≢ 0
  pub mapping : env.map_obj ≢ 0
  pub raced : WellFormed (env.race bs)

module _ (env : MemEnv) (q : Request) (bs : List Bundle) (v : WellFormed bs)
    (sane : IsSane env bs) where
  abbrev object_of : ℕ → MemRef
  object_of mapping = record { mem_obj = env.mem; map_obj = mapping; type = kind q }

  added-Ran :
      (mapping : ℕ) (out : Out) (r : List Bundle × Status)
      → let m = object_of mapping in
        MemAdded m bs (env.race bs) r
        → Ran env q bs (
            if rt_success r.1
            then record { bundles = r.0; calls = makes m; status = r.1; out = out }
            else fails r.0 (makes m ++ undoes m) r.1)
  added-Ran mapping out _ (stored i w) = recorded (object_of mapping) (inl refl) i w (refl, refl)
  added-Ran mapping out _ (extended full i w l) =
      recorded (object_of mapping) (inr refl) i w (refl, refl)
  added-Ran mapping out _ (failed full) = undone (object_of mapping) refl (inr refl) sane.raced

  record_object-Ran :
      (mapping : ℕ) (cs : List Call) (out : Out)
      → makes (object_of mapping) ≡ cs
      → Ran env q bs (record_object (kind q) env mapping cs out bs)
  unfolding record_object
  record_object-Ran mapping cs out e =
      subst (λ c. Ran env q bs (record_object (kind q) env mapping c out bs)) e
        (added-Ran mapping out (mem_add env.has_memory env.race (object_of mapping) bs) (
          mem_add-MemAdded env.has_memory env.race (object_of mapping) bs
            (ground (arith, sane.object)) v sane.raced))

  -- The object is freed before anything is mapped.
  unmapped-Ran :
      (st : Status)
      → rt_success st ≡ false
      → Ran env q bs (fails bs (made env.mem ∷ free_object env.mem false) st)
  unmapped-Ran st e = undone (object_of 0) e (inl refl) v

  alloc_object-Ran :
      (want_map : Bool) (out : Out) → Ran env q bs (alloc_object (kind q) want_map env out bs)
  unfolding alloc_object
  alloc_object-Ran want_map out =
      let P = Ran env q bs in
      if_intro P (not (rt_success env.created)) _ _ (λ e. refused (ground (arith, e)))
        (λ made_it.
          if_intro P (not want_map) _ _ (λ e. record_object-Ran 0 (made env.mem ∷ []) out refl)
            (λ wanted.
              if_intro P (not (rt_success env.mapped)) _ _
                (λ e. unmapped-Ran env.mapped (ground (arith, e)))
                (λ mapped_it.
                  record_object-Ran env.map_obj (made env.mem ∷ made env.map_obj ∷ []) out
                    (ground (arith, sane.mapping)))))

module _ (env : MemEnv) (x : Session) (bs : List Bundle) (v : WellFormed bs)
    (sane : IsSane env bs) where
  released-Ran :
      (type ptr : ℕ) (r : List Bundle × List (ℕ × Bool) × Status)
      → MemReleased env.addresses ptr type bs r
      → Ran env (free type ptr) bs (fails r.0 (map (λ f. Api.freed f.0 f.1) r.1) r.2)
  released-Ran type ptr _ (freed i h w e) = released type ptr refl i h w
  released-Ran type ptr _ (absent h) = refused refl

  lock_mem-Ran : (r3 n : ℕ) (p : Bool) → Ran env (lock r3 n p) bs (lock_mem env x r3 n p bs)
  unfolding lock_mem
  lock_mem-Ran r3 n p =
      let q = lock r3 n p in
      let P = Ran env q bs in
      guards_intro P (not (is_session_valid x)) (not p)
        (not ((r3 + (page_size - 1)) % 2 ^ 64 / page_size * page_size == r3) || r3 == 0) false _ _
        (refused refl)
        (if_intro P (not (rt_success env.created)) (fails bs [] env.created) _
          (λ e. refused (ground (arith, e)))
          (λ made_it. elim (Option-cases (lock_pages env env.mem n [])) [
            | inl e ↦ rw e (unmapped-Ran env q bs v sane internal_error refl)
            | inr (ps, e) ↦ rw e (record_object-Ran env q bs v sane 0 (made env.mem ∷ []) _ refl)
          ]))

  cont_alloc-Ran : (n : ℕ) (a b c : Bool) → Ran env (cont n a b c) bs (cont_alloc env x n a b c bs)
  unfolding cont_alloc
  cont_alloc-Ran n a b c =
      let P = Ran env (cont n a b c) bs in
      guard_intro P (not (is_session_valid x)) _ _ (refused refl) (λ d.
        guard_intro P (not b || (not a || not c)) _ _ (refused refl) (λ e.
          guard_intro P (ltb n 1 || leb 256 n) _ _ (refused refl)
            (λ f. alloc_object-Ran env (cont n a b c) bs v sane true _)))

  low_alloc-Ran : (n : ℕ) (a b c : Bool) → Ran env (low n a b c) bs (low_alloc env x n a b c bs)
  unfolding low_alloc
  low_alloc-Ran n a b c =
      let P = Ran env (low n a b c) bs in
      guard_intro P (not (is_session_valid x)) _ _ (refused refl) (λ d.
        guard_intro P (not b || (not a || not c)) _ _ (refused refl) (λ e.
          guard_intro P (ltb n 1 || leb 256 n) _ _ (refused refl)
            (λ f. alloc_object-Ran env (low n a b c) bs v sane true _)))

  mem_alloc-Ran : (n : ℕ) (a b : Bool) → Ran env (mem n a b) bs (mem_alloc env x n a b bs)
  unfolding mem_alloc
  mem_alloc-Ran n a b =
      let P = Ran env (mem n a b) bs in
      guard_intro P (not (is_session_valid x)) _ _ (refused refl) (λ d.
        guard_intro P (not a) _ _ (refused refl) (λ e.
          guard_intro P (not b) _ _ (refused refl) (λ f.
            guard_intro P (ltb n 1 || leb (4 * 2 ^ 20) n) _ _ (refused refl)
              (λ g. alloc_object-Ran env (mem n a b) bs v sane true _))))

  page_alloc-Ran :
      (n flags : ℕ) (a b c : Bool)
      → Ran env (page n flags a b c) bs (page_alloc env x n flags a b c bs)
  unfolding page_alloc
  page_alloc-Ran n flags a b c =
      let q = page n flags a b c in
      let P = Ran env q bs in
      guard_intro P (not (is_session_valid x)) _ _ (refused refl) (λ d.
        guard_intro P (not (b || a)) _ _ (refused refl) (λ e.
          guard_intro P (not (flags == 0)) _ _ (refused refl) (λ f.
            guard_intro P (ltb n 1 || ltb (256 * 2 ^ 20 / page_size) n) _ _ (refused refl)
              (λ g. alloc_object-Ran env q bs v sane b _))))

  free_memory-Ran : (type ptr : ℕ) → Ran env (free type ptr) bs (free_memory env x type ptr bs)
  unfolding free_memory
  free_memory-Ran type ptr =
      guard_intro (Ran env (free type ptr) bs) (not (is_session_valid x)) _ _ (refused refl) (λ a.
        released-Ran type ptr (mem_release env.addresses ptr type bs)
          (mem_release-MemReleased env.addresses ptr type bs v))

  -- Every request of the memory interface has one of the outcomes above.
  pub run-Ran : (q : Request) → Ran env q bs (run env x q bs)
  unfolding run
  run-Ran (lock r3 n p) = lock_mem-Ran r3 n p
  run-Ran (cont n a b c) = cont_alloc-Ran n a b c
  run-Ran (low n a b c) = low_alloc-Ran n a b c
  run-Ran (mem n a b) = mem_alloc-Ran n a b
  run-Ran (page n f a b c) = page_alloc-Ran n f a b c
  run-Ran (free type ptr) = free_memory-Ran type ptr
