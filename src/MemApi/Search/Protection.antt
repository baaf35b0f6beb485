-- ===== src/MemApi/Search/Protection.antt =====
-- SUPR0PageProtect of vboxdrv/SUPDrv.c changes the protection of ranges of the session's memory only.
use virtualbox_drv.Common.{
  ℕ, ◌/◌, ◌%◌, ◌≡◌, ◌≢◌, ◌⊎◌, refl, inl, inr, true, false, not, ◌&&◌, none, List, [], ◌∷◌, arith,
  Status, invalid_parameter, rt_success, ◌==◌, if◌then◌else◌, Bool-cases, Option-cases, guard_intro,
  if_intro, subst,
}
use virtualbox_drv.MemApi.{MemEnv, page_size}
use virtualbox_drv.MemApi.Search.{
  find_last, is_in_range, Range, is_protectable, protect_objects, page_protect,
}
use virtualbox_drv.MemRef.{MemRef, Bundle, is_free}
use virtualbox_drv.MemRef.Entries.{entries}
use virtualbox_drv.Obj.{Session, is_session_valid}
use virtualbox_drv.MemApi.Search.Found.{Member, Found, find_last-Found}
use virtualbox_drv.MemApi.Search.Ranges.{InObject, in_object}

-- A change of protection is for the object or its mapping, whichever address was given, and for the
-- range of the request.
abbrev IsOf : MemRef → (r3 r0 off sub : ℕ) → Range → Type 0
IsOf m r3 r0 off sub r =
    (((r.object ≡ m.mem_obj) × (r0 ≢ 0)) ⊎ ((r.object ≡ m.map_obj) × (r3 ≢ 0)))
    × (r.off ≡ off)
    × (r.sub ≡ sub)

abbrev AllOf : (Range → Type 0) → List Range → Type 0
AllOf P [] = Unit {0}
AllOf P (r ∷ rs) = P r × AllOf P rs

-- What SUPR0PageProtect changes: nothing, with VERR_INVALID_PARAMETER; or the protection of an
-- allocation of the session with the addresses that were given, in a range within its object, or
-- within its mapping if no ring-0 address was given.
pub data Protected (env : MemEnv) (r3 r0 off sub : ℕ) (bs : List Bundle)
    : List Range × Status → Type 0 where
  untouched : Protected env r3 r0 off sub bs ([], invalid_parameter)
  changed :
      {rs : List Range} {st : Status} (m : MemRef)
      → Member m (entries bs)
      → is_protectable env.addresses r3 r0 m ≡ true
      → InObject (env.size (if r0 == 0 then m.map_obj else m.mem_obj)) off sub
      → AllOf (IsOf m r3 r0 off sub) rs
      → rs ≢ []
      → Protected env r3 r0 off sub bs (rs, st)

object_IsOf :
    (m : MemRef) (r3 r0 off sub : ℕ)
    → (if r0 == 0 then 0 else m.mem_obj) ≢ 0
    → IsOf m r3 r0 off sub
        (record { object = if r0 == 0 then 0 else m.mem_obj; off = off; sub = sub })
object_IsOf m r3 r0 off sub h = elim (Bool-cases (r0 == 0)) [
  | inl e ↦ absurd (ground (arith, e, h))
  | inr n ↦ (inl (rw n refl, ground arith), refl, refl)
]

mapping_IsOf :
    (m : MemRef) (r3 r0 off sub : ℕ)
    → (if r3 == 0 then 0 else m.map_obj) ≢ 0
    → IsOf m r3 r0 off sub
        (record { object = if r3 == 0 then 0 else m.map_obj; off = off; sub = sub })
mapping_IsOf m r3 r0 off sub h = elim (Bool-cases (r3 == 0)) [
  | inl e ↦ absurd (ground (arith, e, h))
  | inr n ↦ (inr (rw n refl, ground arith), refl, refl)
]

looked_at :
    (m : MemRef) (r3 r0 : ℕ)
    → is_free m ≡ false
    → let h0 = if r0 == 0 then 0 else m.mem_obj in
      let h3 = if r3 == 0 then 0 else m.map_obj in
      (h0 == 0 && h3 == 0) ≡ false
      → (if h0 == 0 then h3 else h0) ≡ (if r0 == 0 then m.map_obj else m.mem_obj)
looked_at m r3 r0 busy given = elim (Bool-cases (r0 == 0)) [
  | inl e ↦ elim (Bool-cases (r3 == 0)) [
    | inl f ↦ absurd (ground (arith, e, f, given))
    | inr f ↦ rw (e, f) refl
  ]
  | inr e ↦ rw (e, busy) refl
]

protect_objects-AllOf :
    (P : Range → Type 0) (prot : Range → Status) (h0 h3 off sub : ℕ)
    → (h0 ≢ 0 → P (record { object = h0; off = off; sub = sub }))
    → (h3 ≢ 0 → P (record { object = h3; off = off; sub = sub }))
    → (h0 == 0 && h3 == 0) ≡ false
    → let r = protect_objects prot h0 h3 off sub in AllOf P r.0 × (r.0 ≢ [])
unfolding protect_objects
protect_objects-AllOf P prot h0 h3 off sub object mapping given =
    let Q : List Range × Status → Type 0 = λ r. AllOf P r.0 × (r.0 ≢ []) in
    if_intro Q (h3 == 0) _ _
      (λ a.
        if_intro Q (h0 == 0) _ _ (λ b. absurd (ground (arith, given)))
          (λ b. ((object (ground arith), tt), λ e. absurd (ground (arith, e)))))
      (λ a.
        if_intro Q
          (not (h0 == 0) && rt_success (prot (record { object = h3; off = off; sub = sub }))) _ _
          (λ b. (
            (mapping (ground arith), (object (ground arith), tt)),
            λ e. absurd (ground (arith, e)),
          ))
          (λ b. ((mapping (ground arith), tt), λ e. absurd (ground (arith, e)))))

-- SUPR0PageProtect changes the protection of ranges of the session's own allocations only, in whole
-- pages within the object that it looks at. A request whose object is at most 2 GB large ends within
-- it.
pub page_protect-Protected :
    (env : MemEnv) (x : Session) (r3 r0 : ℕ) (bs : List Bundle) (prot : Range → Status)
    (off sub fprot : ℕ)
    → Protected env r3 r0 off sub bs (page_protect env prot x r3 r0 off sub fprot bs)
unfolding page_protect
page_protect-Protected env x r3 r0 bs prot off sub fprot =
    let P = Protected env r3 r0 off sub bs in
    let f = is_protectable env.addresses r3 r0 in
    guard_intro P (not (is_session_valid x)) _ _ untouched (λ a.
      guard_intro P (not (fprot / 8 == 0)) _ _ untouched (λ b.
        guard_intro P (not (off % page_size == 0)) _ _ untouched (λ c.
          guard_intro P (not (sub % page_size == 0)) _ _ untouched (λ d.
            guard_intro P (sub == 0) _ _ untouched (λ e. elim (Option-cases (find_last f bs none)) [
              | inl g ↦ rw g untouched
              | inr (m, g) ↦ rw g (
                  let k =
                    subst (Found f (λ m h. ground arith) (entries bs)) g (
                      find_last-Found f (λ m h. ground arith) (entries bs) bs none (λ r k. k) tt) in
                  let h0 = if r0 == 0 then 0 else m.mem_obj in
                  let h3 = if r3 == 0 then 0 else m.map_obj in
                  guard_intro P (h0 == 0 && h3 == 0) _ _ untouched (λ given.
                    if_intro P (is_in_range off sub (env.size (if h0 == 0 then h3 else h0))) _ _
                      (λ within.
                        let (all, some_range) =
                          protect_objects-AllOf (IsOf m r3 r0 off sub) prot h0 h3 off sub
                            (λ h. object_IsOf m r3 r0 off sub h)
                            (λ h. mapping_IsOf m r3 r0 off sub h) given in
                        changed m k.1 k.0
                          (subst (λ h. InObject (env.size h) off sub)
                            (looked_at m r3 r0 (ground (arith, k.0)) given)
                            (in_object _ off sub (ground arith) (ground arith) e within))
                          all some_range)
                      (λ outside. untouched)))
            ])))))
