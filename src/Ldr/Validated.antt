-- ===== src/Ldr/Validated.antt =====
-- The checks of pointers in supdrvIOCtl_LdrLoad of vboxdrv/SUPDrv.c: what passes them lies in the
-- image.
use virtualbox_drv.Common.{
  ℕ, ◌≡◌, true, false, arith, Bool-cases, inl, inr, ◌⊎◌, Status, rt_success,
}
use virtualbox_drv.Ldr.{Image, is_inside}
use virtualbox_drv.Ldr.Load.{
  Eps, nothing, vmmr0, service, other_type, LoadReq, LoadEnv, ◌then_check◌, validate_pointer,
  validate_eps, validate_load,
}

then_check_lem :
    (a b : Status)
    → rt_success (a then_check b) ≡ true
    → (rt_success a ≡ true) × (rt_success b ≡ true)
then_check_lem a b h = elim (Bool-cases (rt_success a)) [
  | inl t ↦ (t, rw t at h)
  | inr f ↦ absurd (ground (arith, f, h))
]

-- A pointer into the image.
abbrev pub Inside : Image → ℕ → Type 0
Inside i pv = is_inside i.base i.size_bits pv ≡ true

validate_pointer-Inside :
    (env : LoadEnv) (i : Image) (pv : ℕ)
    → rt_success (validate_pointer env i false pv) ≡ true
    → Inside i pv
unfolding validate_pointer
validate_pointer-Inside env i pv h = ground arith

validate_pointer-null :
    (env : LoadEnv) (i : Image) (pv : ℕ)
    → rt_success (validate_pointer env i true pv) ≡ true
    → (pv ≡ 0) ⊎ Inside i pv
unfolding validate_pointer
validate_pointer-null env i pv h = ground arith

-- All entry points of a request lie in the image.
abbrev pub EpsInside : Image → Eps → Type 0
EpsInside i nothing = Unit {0}
EpsInside i (vmmr0 e) =
    Inside i e.vmmr0 × Inside i e.entry_int × Inside i e.entry_fast × Inside i e.entry_ex
EpsInside i (service handler r0 r1 r2) = Inside i handler × (r0 ≡ 0) × (r1 ≡ 0) × (r2 ≡ 0)
EpsInside i other_type = ⊥

abbrev pub ReqInside : Image → LoadReq → Type 0
ReqInside i req =
    EpsInside i req.eps
    × ((req.module_init ≡ 0) ⊎ Inside i req.module_init)
    × ((req.module_term ≡ 0) ⊎ Inside i req.module_term)

validate_eps-EpsInside :
    (env : LoadEnv) (i : Image) (e : Eps) → rt_success (validate_eps env i e) ≡ true → EpsInside i e
unfolding validate_eps
validate_eps-EpsInside env i nothing h = tt
validate_eps-EpsInside env i (vmmr0 e) h =
    let (abc, d) = then_check_lem _ _ h in
    let (ab, c) = then_check_lem _ _ abc in
    let (a, b) = then_check_lem _ _ ab in
    (
      validate_pointer-Inside env i e.vmmr0 a,
      validate_pointer-Inside env i e.entry_int b,
      validate_pointer-Inside env i e.entry_fast c,
      validate_pointer-Inside env i e.entry_ex d,
    )
validate_eps-EpsInside env i (service handler r0 r1 r2) h =
    let (a, b) = then_check_lem _ _ h in
    (validate_pointer-Inside env i handler a, ground arith, ground arith, ground arith)
validate_eps-EpsInside env i other_type h = absurd (cc)

pub validate_load-ReqInside :
    (env : LoadEnv) (i : Image) (req : LoadReq)
    → rt_success (validate_load env i req) ≡ true
    → ReqInside i req
unfolding validate_load
validate_load-ReqInside env i req h =
    let (ab, c) = then_check_lem _ _ h in
    let (a, b) = then_check_lem _ _ ab in
    (
      validate_eps-EpsInside env i req.eps a,
      validate_pointer-null env i req.module_init b,
      validate_pointer-null env i req.module_term c,
    )
