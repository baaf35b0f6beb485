-- ===== src/Ioctl/Pages.antt =====
-- How many addresses of pages the functions of the memory interface of vboxdrv/SUPDrv.c store.
use virtualbox_drv.Common.{
  ℕ, zero, suc, ◌+◌, ◌*◌, ◌-◌, ◌/◌, ◌%◌, ◌^◌, ◌≡◌, ◌≤◌, ◌<◌, refl, Bool, true, false, not, ◌||◌,
  some, List, [], ◌∷◌, arith, rt_success, length, ltb, leb, ◌==◌, if◌then◌else◌, Option-cases,
  guard_intro, if_intro, inl, inr, guards_intro, ◌⊎◌,
}
use virtualbox_drv.MemApi.{
  MemEnv, Outcome, Out, Request, lock, cont, low, mem, page, free, run, alloc_object, record_object,
  lock_mem, lock_pages, get_pages, page_alloc, free_memory, mem_alloc, page_size, fails, type_low,
  type_page, type_cont,
}
use virtualbox_drv.MemApi as Api
use virtualbox_drv.MemRef.{Bundle, mem_add}
use virtualbox_drv.Obj.{Session, is_session_valid}

length-get_pages :
    (env : MemEnv) (h n : ℕ) (ps : List ℕ) → length (get_pages env h n ps) ≡ n + length ps
unfolding get_pages
length-get_pages env h zero ps = omega arith
length-get_pages env h (suc n) ps = omega (arith, length-get_pages env h n (env.phys h n ∷ ps))

length-lock_pages :
    (env : MemEnv) (h n : ℕ) (ps qs : List ℕ)
    → lock_pages env h n ps ≡ some qs
    → length qs ≡ n + length ps
unfolding lock_pages
length-lock_pages env h zero ps qs e = ground arith
length-lock_pages env h (suc n) ps qs e =
    ground (arith, length-lock_pages env h n (env.phys h n ∷ ps) qs)

module _ (env : MemEnv) (bs : List Bundle) where
  abbrev pub AtMost : ℕ → Outcome → Type 0
  AtMost n o = length o.out.pages ≤ n

  record_object-AtMost :
      (type mapping : ℕ) (cs : List Api.Call) (out : Out) (n : ℕ)
      → length out.pages ≤ n
      → AtMost n (record_object type env mapping cs out bs)
  unfolding record_object
  record_object-AtMost type mapping cs out n h =
      if_intro (AtMost n) (rt_success (mem_add env.has_memory env.race _ bs).1) _ _ (λ e. h)
        (λ e. omega arith)

  alloc_object-AtMost :
      (type : ℕ) (want_map : Bool) (out : Out) (n : ℕ)
      → length out.pages ≤ n
      → AtMost n (alloc_object type want_map env out bs)
  unfolding alloc_object
  alloc_object-AtMost type want_map out n h =
      let P = AtMost n in
      guard_intro P (not (rt_success env.created)) _ _ (omega arith) (λ a.
        if_intro P (not want_map) _ _ (λ b. record_object-AtMost type 0 _ out n h)
          (λ b.
            guard_intro P (not (rt_success env.mapped)) _ _ (omega arith)
              (λ c. record_object-AtMost type env.map_obj _ out n h)))

  pub lock_mem-AtMost : (x : Session) (r3 n : ℕ) (p : Bool) → AtMost n (lock_mem env x r3 n p bs)
  unfolding lock_mem
  lock_mem-AtMost x r3 n p =
      let P = AtMost n in
      guards_intro P (not (is_session_valid x)) (not p)
        (not ((r3 + (page_size - 1)) % 2 ^ 64 / page_size * page_size == r3) || r3 == 0) false _ _
        (omega arith)
        (guard_intro P (not (rt_success env.created)) (fails bs [] env.created) _ (omega arith)
          (λ a. elim (Option-cases (lock_pages env env.mem n [])) [
            | inl e ↦ rw e (omega arith)
            | inr (ps, e) ↦
                let l = length-lock_pages env env.mem n [] ps e in
                rw e (record_object-AtMost 1 0 _ _ n (omega (arith, l)))
          ]))

  pub page_alloc-AtMost :
      (x : Session) (n flags : ℕ) (a b c : Bool) → AtMost n (page_alloc env x n flags a b c bs)
  unfolding page_alloc
  page_alloc-AtMost x n flags a b c =
      let P = AtMost n in
      guard_intro P (not (is_session_valid x)) _ _ (omega arith) (λ d.
        guard_intro P (not (b || a)) _ _ (omega arith) (λ e.
          guard_intro P (not (flags == 0)) _ _ (omega arith) (λ f.
            guard_intro P (ltb n 1 || ltb (256 * 2 ^ 20 / page_size) n) _ _ (omega arith) (λ g.
              alloc_object-AtMost type_page b _ n (
                if_intro (λ ps. length ps ≤ n) c (get_pages env (if b then env.map_obj else 0) n [])
                  [] (λ e. omega (arith, length-get_pages env (if b then env.map_obj else 0) n []))
                  (λ e. omega arith))))))

  -- A successful allocation of low memory is of less than 256 pages.
  abbrev pub IsLow : ℕ → Outcome → Type 0
  IsLow n o = AtMost n o × ((rt_success o.status ≡ false) ⊎ (n < 256))

  pub low_alloc-IsLow :
      (x : Session) (n : ℕ) (a b c : Bool) → IsLow n (Api.low_alloc env x n a b c bs)
  unfolding Api.low_alloc
  low_alloc-IsLow x n a b c =
      let P = IsLow n in
      guard_intro P (not (is_session_valid x)) _ _ (omega arith, inl refl)
        (λ d.
          guard_intro P (not b || (not a || not c)) _ _ (omega arith, inl refl)
            (λ e.
              guard_intro P (ltb n 1 || leb 256 n) _ _ (omega arith, inl refl)
                (λ f. (
                  alloc_object-AtMost type_low true _ n
                      (omega (arith, length-get_pages env env.mem n [])),
                  inr (ground (arith, f)),
                ))))

  pub cont_alloc-AtMost :
      (x : Session) (n : ℕ) (a b c : Bool) → AtMost 1 (Api.cont_alloc env x n a b c bs)
  unfolding Api.cont_alloc
  cont_alloc-AtMost x n a b c =
      let P = AtMost 1 in
      guard_intro P (not (is_session_valid x)) _ _ (omega arith) (λ d.
        guard_intro P (not b || (not a || not c)) _ _ (omega arith) (λ e.
          guard_intro P (ltb n 1 || leb 256 n) _ _ (omega arith)
            (λ f. alloc_object-AtMost type_cont true _ 1 (omega arith))))

  pub free_memory-AtMost : (x : Session) (type ptr : ℕ) → AtMost 0 (free_memory env x type ptr bs)
  unfolding free_memory
  free_memory-AtMost x type ptr =
      guard_intro (AtMost 0) (not (is_session_valid x)) _ _ (omega arith) (λ a. omega arith)
