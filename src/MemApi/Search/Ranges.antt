-- ===== src/MemApi/Search/Ranges.antt =====
-- The ranges that SUPR0PageMapKernel of vboxdrv/SUPDrv.c hands to the runtime are ranges of memory
-- objects of the session, and SUPR0MemGetPhys is about its allocations.
use virtualbox_drv.Common.{
  ◌⊎◌, leb, ℕ, ◌+◌, ◌/◌, ◌%◌, ◌^◌, ◌≡◌, ◌≤◌, ◌<◌, refl, inl, inr, Bool, true, false, not, Option,
  none, some, List, [], arith, Status, success, invalid_parameter, rt_success, ◌==◌, if◌then◌else◌,
  Bool-cases, Option-cases, guard_intro, if_intro, subst, Returns,
}
use virtualbox_drv.MemApi.{MemEnv, get_pages, page_size, type_mem}
use virtualbox_drv.MemApi.Search.{
  find_first, find_last, mem_get_phys, is_in_range, is_mappable, Range, KernelMap, page_map_kernel,
}
use virtualbox_drv.MemRef.{MemRef, Bundle, matches}
use virtualbox_drv.MemRef.Entries.{entries}
use virtualbox_drv.Obj.{Session, is_session_valid}
use virtualbox_drv.MemApi.Search.Found.{Member, Found, find_last-Found, find_first-Found}

-- A range of pages that starts within a memory object and ends within it, or the object is larger
-- than 2 GB.
pub record InObject (size off sub : ℕ) : Type 0 where
  pub pages : (off % page_size ≡ 0) × (sub % page_size ≡ 0)
  pub some_bytes : 0 < sub
  pub starts : off < size
  pub fits : sub ≤ size
  pub ends : (off + sub ≤ size) ⊎ (2 ^ 31 < size)

-- What SUPR0PageMapKernel asks for and answers: without a request the status is
-- VERR_INVALID_PARAMETER; a request is for a range of an object of the session that has the ring-3
-- address, an allocation or locked memory, and the answer of the runtime is passed on.
pub data Mapped (env : MemEnv) (kernel : Range → KernelMap) (r3 : ℕ) (bs : List Bundle)
    : Option Range × Status × Option ℕ → Type 0 where
  rejected : Mapped env kernel r3 bs (none, invalid_parameter, none)
  asked :
      {st : Status} {out : Option ℕ} (r : Range) (m : MemRef)
      → Member m (entries bs)
      → is_mappable env.addresses r3 m ≡ true
      → r.object ≡ m.mem_obj
      → InObject (env.size m.mem_obj) r.off r.sub
      → st ≡ (kernel r).status
      → out ≡ (if rt_success (kernel r).status then some (kernel r).address else none)
      → Mapped env kernel r3 bs (some r, st, out)

pub in_object :
    (size off sub : ℕ)
    → off % page_size ≡ 0
    → sub % page_size ≡ 0
    → (sub == 0) ≡ false
    → is_in_range off sub size ≡ true
    → InObject size off sub
in_object size off sub po ps some_sub e = record {
  pages = (po, ps);
  some_bytes = ground arith;
  starts = ground arith;
  fits = ground arith;
  ends = elim (Bool-cases (leb size (2 ^ 31))) [
    | inl small ↦ inl (ground (arith, small))
    | inr large ↦ inr (ground (arith, large))
  ];
}

module _ (env : MemEnv) (x : Session) (r3 : ℕ) (bs : List Bundle) where
  -- SUPR0PageMapKernel, where it is given a pointer that is not NULL, ends without a fault, and it
  -- asks the runtime for a range of an object of the session only: one that is allocated or locked,
  -- with the ring-3 address, in whole pages that start within the object and are not more than it
  -- has, and, for an object of at most 2 GB, end within it. It passes on what the runtime answers.
  pub page_map_kernel-Mapped :
      (kernel : Range → KernelMap) (off sub flags : ℕ)
      → Returns (Mapped env kernel r3 bs) (page_map_kernel env kernel x r3 off sub flags true bs)
  unfolding page_map_kernel
  page_map_kernel-Mapped kernel off sub flags =
      let P = Returns (Mapped env kernel r3 bs) in
      let f = is_mappable env.addresses r3 in
      guard_intro P (not (is_session_valid x)) _ _ rejected (λ a.
        guard_intro P (not (flags == 0)) _ _ rejected (λ b.
          guard_intro P (not (off % page_size == 0)) _ _ rejected (λ c.
            guard_intro P (not (sub % page_size == 0)) _ _ rejected (λ d.
              guard_intro P (sub == 0) _ _ rejected (λ e.
                elim (Option-cases (find_last f bs none)) [
                  | inl g ↦ rw g rejected
                  | inr (m, g) ↦ rw g (
                      let k = subst (Found f (λ m h. ground arith) (entries bs)) g (
                        find_last-Found f (λ m h. ground arith) (entries bs) bs none (λ r k. k)
                          tt) in
                      let size = env.size m.mem_obj in
                      let r : Range = record { object = m.mem_obj; off = off; sub = sub } in
                      if_intro P (is_in_range off sub size) _ _
                        (λ within.
                          let range =
                            in_object size off sub (ground arith) (ground arith) e within in
                          elim (Bool-cases (rt_success (kernel r).status)) [
                            | inl t ↦ rw t (asked r m k.1 k.0 refl range refl (rw t))
                            | inr n ↦ rw n (asked r m k.1 k.0 refl range refl (rw n))
                          ])
                        (λ outside. rejected))
                ])))))

-- What SUPR0MemGetPhys answers: a failure without addresses; or the address of each page of an
-- allocation of the session at the address that was given.
pub data Located (env : MemEnv) (ptr : ℕ) (bs : List Bundle) : Status × List ℕ → Type 0 where
  unknown : {st : Status} → rt_success st ≡ false → Located env ptr bs (st, [])
  located :
      (m : MemRef)
      → Member m (entries bs)
      → matches env.addresses ptr type_mem m ≡ true
      → Located env ptr bs (success, get_pages env m.mem_obj (env.size m.mem_obj / page_size) [])

-- SUPR0MemGetPhys answers for allocations of the session only.
mem_get_phys-Located :
    (env : MemEnv) (x : Session) (ptr : ℕ) (to_pages : Bool) (bs : List Bundle)
    → Located env ptr bs (mem_get_phys env x ptr to_pages bs)
unfolding mem_get_phys
mem_get_phys-Located env x ptr to_pages bs =
    let P = Located env ptr bs in
    let f = matches env.addresses ptr type_mem in
    guard_intro P (not (is_session_valid x)) _ _ (unknown refl) (λ a.
      guard_intro P (not to_pages) _ _ (unknown refl) (λ b.
        guard_intro P (ptr == 0) _ _ (unknown refl) (λ c. elim (Option-cases (find_first f bs)) [
          | inl g ↦ rw g (unknown refl)
          | inr (m, g) ↦ rw g (
              let k =
                subst (Found f (λ m h. ground arith) (entries bs)) g
                  (find_first-Found f (λ m h. ground arith) bs) in
              located m k.1 k.0)
        ])))
