-- ===== src/Ioctl/Buffers.antt =====
-- Every request that supdrvIOCtl of vboxdrv/SUPDrv.c executes is sound: what the functions of the
-- memory interface store fits into the output buffer, and the input of the others is within bounds.
use virtualbox_drv.Common.{
  ℕ, ◌+◌, ◌*◌, ◌/◌, ◌%◌, ◌^◌, ◌≡◌, ◌≤◌, ◌<◌, refl, Bool, true, false, not, ◌&&◌, ◌||◌, List, arith,
  rt_success, length, ltb, leb, ◌==◌, if◌then◌else◌, Bool-cases, guard_intro, if_intro, inl, inr,
  ◌⊎◌,
}
use virtualbox_drv.Ioctl.{
  Header, Input, cookie, page_lock, page_unlock, cont_alloc, cont_free, low_alloc, low_free,
  page_alloc_ex, page_map_kernel, page_protect, page_free, ldr_open, ldr_load, ldr_free,
  ldr_get_symbol, set_vm_for_fast, Command, get_cookie, memory, map_kernel, protect, open_image,
  load_image, free_image, get_symbol, set_vm, Verdict, rejected, answered, execute, header_size,
  has_sizes, require, has_end, is_open_valid, is_load_valid, dispatch, is_cookie, has_magic,
  check_request, ioc_version,
}
use virtualbox_drv.Ioctl.Tables.{
  OpenSound, LoadSound, is_open_valid-OpenSound, is_load_valid-LoadSound,
}
use virtualbox_drv.MemApi.{
  MemEnv, Outcome, Request, lock, cont, low, mem, page, free, run, page_size,
}
use virtualbox_drv.MemRef.{Bundle}
use virtualbox_drv.Obj.{Session}
use virtualbox_drv.Ioctl.Pages.{
  lock_mem-AtMost, page_alloc-AtMost, low_alloc-IsLow, cont_alloc-AtMost, free_memory-AtMost,
}

-- Where the addresses of pages begin in the output of a request.
abbrev pub pages_at : Request → ℕ
pages_at (lock r3 n p) = 24
pages_at (cont n a b c) = 40
pages_at (low n a b c) = 40
pages_at (mem n a b) = 40
pages_at (page n f a b c) = 40
pages_at (free type ptr) = 24

-- How many bytes of the output a request stores: on a failure the header only.
abbrev pub stored : Request → Outcome → ℕ
stored q o = if rt_success o.status then pages_at q + 8 * length o.out.pages else header_size

-- The soundness of a command, for the header that it came with.
abbrev pub Sound : Header → Command → Type 0
Sound h get_cookie = h.cb_out ≡ 56
Sound h (memory q) =
    (env : MemEnv) (x : Session) (bs : List Bundle) → stored q (run env x q bs) ≤ h.cb_out
Sound h (map_kernel r3 off sub flags) =
    (flags ≡ 0) × (off % page_size ≡ 0) × (0 < sub) × (sub % page_size ≡ 0)
Sound h (protect r3 r0 off sub prot) =
    (prot < 8) × (off % page_size ≡ 0) × (0 < sub) × (sub % page_size ≡ 0)
Sound h (open_image q) = OpenSound q
Sound h (load_image q) = LoadSound h q
Sound h (free_image base) = h.cb_in ≡ 32
Sound h (get_symbol base symbol) = has_end symbol 64 ≡ true
Sound h (set_vm vm) = vm % page_size ≡ 0

abbrev pub SoundVerdict : Header → Verdict → Type 0
SoundVerdict h (rejected st) = Unit {0}
SoundVerdict h (answered st) = Unit {0}
SoundVerdict h (execute c) = Sound h c

module _ (h : Header) (wide : header_size ≤ h.cb_out) where
  require_intro :
      (b : Bool) (v : Verdict) → (b ≡ true → SoundVerdict h v) → SoundVerdict h (require b v)
  require_intro true v k = k refl
  require_intro false v k = tt

  memory-Sound :
      (q : Request)
      → ((env : MemEnv) (x : Session) (bs : List Bundle)
          → (rt_success (run env x q bs).status ≡ false)
            ⊎ (pages_at q + 8 * length (run env x q bs).out.pages ≤ h.cb_out))
      → Sound h (memory q)
  memory-Sound q fits = λ env x bs. elim (Bool-cases (rt_success (run env x q bs).status)) [
    | inl good ↦
        rw good (elim (fits env x bs) [ inl bad ↦ absurd (ground (arith, good, bad)) | inr l ↦ l ])
    | inr bad ↦ rw bad wide
  ]

  free-Sound : (type ptr : ℕ) → h.cb_out ≡ 24 → Sound h (memory (free type ptr))
  unfolding run
  free-Sound type ptr e =
      memory-Sound (free type ptr)
        (λ env x bs. inr (omega (arith, free_memory-AtMost env bs x type ptr, e)))

  low_alloc-Sound :
      (n : ℕ) → h.cb_out ≡ (40 + 8 * n) % 2 ^ 32 → Sound h (memory (low n true true true))
  unfolding run
  low_alloc-Sound n e = memory-Sound (low n true true true) (λ env x bs.
      let k = low_alloc-IsLow env bs x n true true true in
      elim k.1 [ inl bad ↦ inl bad | inr few ↦ inr (omega (arith, k.0, few, e)) ])

  dispatch-Sound : (q : Input) → SoundVerdict h (dispatch h q)
  unfolding dispatch run
  dispatch-Sound (cookie ok v) = require_intro (has_sizes h 48 56) _ (λ e.
      if_intro (SoundVerdict h) (not ok) _ _ (λ a. tt)
        (λ a.
          if_intro (SoundVerdict h) (ltb ioc_version v || not (v / 2 ^ 16 == ioc_version / 2 ^ 16))
            _ _ (λ b. tt) (λ b. ground (arith, e))))
  dispatch-Sound (page_lock r3 n) = require_intro (h.cb_in == 40) _ (λ a.
      require_intro (h.cb_out == 24 + 8 * n) _ (λ b. require_intro (ltb 0 n) _ (λ c.
        require_intro (leb page_size r3) _ (λ d.
          let e : h.cb_out ≡ 24 + 8 * n = ground (arith, b) in
          memory-Sound (lock r3 n true)
            (λ env x bs. inr (omega (arith, lock_mem-AtMost env bs x r3 n true, e)))))))
  dispatch-Sound (page_unlock r3) =
      require_intro (has_sizes h 32 24) _ (λ e. free-Sound _ r3 (ground (arith, e)))
  dispatch-Sound (cont_alloc n) = require_intro (has_sizes h 28 48) _ (λ e.
      let f : h.cb_out ≡ 48 = ground (arith, e) in
      memory-Sound (cont n true true true)
        (λ env x bs. inr (omega (arith, cont_alloc-AtMost env bs x n true true true, f))))
  dispatch-Sound (cont_free r3) =
      require_intro (has_sizes h 32 24) _ (λ e. free-Sound _ r3 (ground (arith, e)))
  dispatch-Sound (low_alloc n) = require_intro (leb h.cb_in 28) _ (λ a.
      require_intro (has_sizes h 28 ((40 + 8 * n) % 2 ^ 32)) _
        (λ b. low_alloc-Sound n (ground (arith, b))))
  dispatch-Sound (low_free r3) =
      require_intro (has_sizes h 32 24) _ (λ e. free-Sound _ r3 (ground (arith, e)))
  dispatch-Sound (page_alloc_ex n kernel user reserved) = require_intro (leb h.cb_in 32) _ (λ a.
      require_intro (has_sizes h 32 (40 + 8 * n)) _ (λ b. require_intro (kernel || user) _ (λ c.
        require_intro user _ (λ d. require_intro (not reserved) _ (λ e.
          let f : h.cb_out ≡ 40 + 8 * n = ground (arith, b) in
          memory-Sound (page n 0 kernel user true) (λ env x bs.
            inr (omega (arith, page_alloc-AtMost env bs x n 0 kernel user true, f))))))))
  dispatch-Sound (page_map_kernel r3 off sub flags) = require_intro (has_sizes h 48 48) _ (λ a.
      require_intro (flags == 0) _ (λ b. require_intro (off % page_size == 0) _ (λ c.
        require_intro (not (sub == 0) && sub % page_size == 0) _ (λ d. ground (arith, b, c, d)))))
  dispatch-Sound (page_protect r3 r0 off sub prot) = require_intro (has_sizes h 56 56) _ (λ a.
      require_intro (prot / 8 == 0) _ (λ b. require_intro (off % page_size == 0) _ (λ c.
        require_intro (not (sub == 0) && sub % page_size == 0) _ (λ d. ground (arith, b, c, d)))))
  dispatch-Sound (page_free r3) =
      require_intro (has_sizes h 32 24) _ (λ e. free-Sound _ r3 (ground (arith, e)))
  dispatch-Sound (ldr_open q) =
      require_intro (has_sizes h 264 40) _
        (λ a. require_intro (is_open_valid q) _ (λ b. is_open_valid-OpenSound q b))
  dispatch-Sound (ldr_load q) =
      require_intro (is_load_valid h q) _ (λ a. is_load_valid-LoadSound h q a)
  dispatch-Sound (ldr_free base) = require_intro (has_sizes h 32 24) _ (λ a. ground (arith, a))
  dispatch-Sound (ldr_get_symbol base symbol) =
      require_intro (has_sizes h 96 32) _ (λ a. require_intro (has_end symbol 64) _ (λ b. b))
  dispatch-Sound (set_vm_for_fast vm is_pointer) = require_intro (has_sizes h 32 24) _ (λ a.
      require_intro (vm == 0 || (is_pointer && vm % page_size == 0)) _ (λ b. ground (arith, b)))

-- An executed request is sound and has the cookies: the initial one if it asks for the cookies, else
-- those of the device and of the session.
abbrev pub Checked : (device session : ℕ) → Header → Input → Verdict → Type 0
Checked device session h q (rejected st) = Unit {0}
Checked device session h q (answered st) = Unit {0}
Checked device session h q (execute c) =
    Sound h c
    × (((is_cookie q ≡ true) × (h.cookie ≡ 0x69726f74))
        ⊎ ((h.cookie ≡ device) × (h.session_cookie ≡ session)))

Checked-both :
    (device session : ℕ) (h : Header) (q : Input) (v : Verdict)
    → SoundVerdict h v
    → ((is_cookie q ≡ true) × (h.cookie ≡ 0x69726f74))
      ⊎ ((h.cookie ≡ device) × (h.session_cookie ≡ session))
    → Checked device session h q v
Checked-both device session h q (rejected st) s a = tt
Checked-both device session h q (answered st) s a = tt
Checked-both device session h q (execute c) s a = (s, a)

-- supdrvIOCtl executes a modelled request only if its cookies are right, and then the request is
-- sound: whatever the runtime answers, what a function of the memory interface stores fits into the
-- output buffer; the ranges of pages are not empty and in whole pages; the name of an image is not
-- empty, ends within its field and has no excluded character; the tables of an image of at most
-- 2 GB lie within it, as the names of all symbols within the string table; a VM is page aligned.
pub check_request-Checked :
    (device session : ℕ) (h : Header) (q : Input)
    → Checked device session h q (check_request device session h q)
unfolding check_request
check_request-Checked device session h q =
    let P = Checked device session h q in
    guard_intro P (not (has_magic h) || (ltb h.cb_in header_size || ltb h.cb_out header_size)) _ _
      tt
      (λ a.
        let t =
          if is_cookie q
          then not (h.cookie == 0x69726f74)
          else not (h.cookie == device) || not (h.session_cookie == session) in
        guard_intro P t _ _ tt (λ b.
          Checked-both device session h q (dispatch h q) (dispatch-Sound h (ground (arith, a)) q)
            (elim (Bool-cases (is_cookie q)) [
              | inl c ↦ inl (c, ground (arith, b, c))
              | inr n ↦ inr (ground (arith, b, n))
            ])))
