-- ===== src/Obj/Cases.antt =====
-- The branches of SUPR0ObjRelease and SUPR0ObjAddRefEx, as one case rule for each function.
use virtualbox_drv.Common.{
  ℕ, ◌+◌, ◌-◌, ◌<◌, ◌≡◌, ◌≢◌, ◌⊎◌, refl, Bool, true, false, Option, none, some, List, ◌∷◌, arith,
  if◌then◌else◌, Bool-cases, Option-cases, inl, inr, update, inc32, dec32, Status, success,
  invalid_parameter, invalid_pointer, wrong_order, try_again, no_memory,
}
use virtualbox_drv.Obj.{
  Obj, Env, Usage, Session, DevExt, Drop, missing, kept, last, bump_usage, drop_usage, find_session,
  set_usage, supdrvobj_magic, supdrvobj_magic_dead, put_obj, put_usage, obj_release, release_last,
  add_ref_locked, is_session_valid, obj_add_ref_ex, add_ref_blocking,
}

pub Drop-cases :
    (d : Drop)
    → (d ≡ missing) ⊎ ((us : List Usage) × (d ≡ kept us)) ⊎ ((us : List Usage) × (d ≡ last us))
Drop-cases missing = inl refl
Drop-cases (kept us) = inr (inl (us, refl))
Drop-cases (last us) = inr (inr (us, refl))

module _ (P : Option (DevExt × Status) → Type 0) (w : DevExt) (p s : ℕ) (x : Session) (o : Obj)
    (found : find_session s w.sessions ≡ some x) (live : w.heap p ≡ some o) where
  pub release_cases :
      (is_session_valid x ≡ false → P (some (w, invalid_parameter)))
      → (p ≡ 0 → P (some (w, invalid_parameter)))
      → (o.magic ≢ supdrvobj_magic → P (some (w, invalid_parameter)))
      → (o.magic ≡ supdrvobj_magic
          → drop_usage p x.usage ≡ missing
          → P (some (w, invalid_parameter)))
      → ((us : List Usage)
          → o.magic ≡ supdrvobj_magic
          → drop_usage p x.usage ≡ kept us
          → P (
              some (
                put_usage s us (put_obj p (some (record o { count = dec32 o.count })) w),
                success,
              )))
      → ((us : List Usage)
          → o.magic ≡ supdrvobj_magic
          → drop_usage p x.usage ≡ last us
          → P (
              some
                (release_last (record (put_usage s us w) { usage_free = w.usage_free + 1 }) p o)))
      → P (obj_release w p s)
  unfolding obj_release
  release_cases bad null dead missed more gone =
      rw (found, live)
        (elim (Drop-cases (drop_usage p x.usage)) [
          | inl e ↦ rw e (ground arith)
          | inr (inl (us, e)) ↦ rw e (ground (arith, more us))
          | inr (inr (us, e)) ↦ rw e (ground (arith, gone us))
        ])

module _ (P : Option (DevExt × Status) → Type 0) (env : Env) (w : DevExt) (p s : ℕ)
    (no_blocking : Bool) (x : Session) (o : Obj) (found : find_session s w.sessions ≡ some x)
    (live : w.heap p ≡ some o) where
  pub add_ref_cases :
      (is_session_valid x ≡ false → P (some (w, invalid_parameter)))
      → (p ≡ 0 → P (some (w, invalid_pointer)))
      → (o.magic ≢ supdrvobj_magic
          → o.magic ≢ supdrvobj_magic_dead
          → P (some (w, invalid_parameter)))
      → (o.magic ≡ supdrvobj_magic_dead → P (some (w, wrong_order)))
      → (o.magic ≡ supdrvobj_magic
          → 0 < w.usage_free
          → P (add_ref_locked (record w { usage_free = w.usage_free - 1 }) s p true))
      → (o.magic ≡ supdrvobj_magic
          → w.usage_free ≡ 0
          → no_blocking ≡ false
          → P (add_ref_blocking env w s p))
      → (o.magic ≡ supdrvobj_magic
          → w.usage_free ≡ 0
          → no_blocking ≡ true
          → P (add_ref_locked w s p false))
      → P (obj_add_ref_ex env w p s no_blocking)
  unfolding obj_add_ref_ex
  add_ref_cases bad null wild late ready wait now = rw (found, live) (ground arith)

-- With the lock held: the session has a record of the object, or gets the one that is held, or has
-- to give up.
module _ (P : Option (DevExt × Status) → Type 0) (w : DevExt) (p s : ℕ) (pre : Bool) (x : Session)
    (o : Obj) (found : find_session s w.sessions ≡ some x) (live : w.heap p ≡ some o) where
  pub locked_cases :
      ((us : List Usage)
        → bump_usage p x.usage ≡ some us
        → P (
            some (
              record w {
                heap = update w.heap p (some (record o { count = inc32 o.count }));
                sessions = set_usage s us w.sessions;
                usage_free = if pre then w.usage_free + 1 else w.usage_free;
              },
              success,
            )))
      → (bump_usage p x.usage ≡ none
          → pre ≡ true
          → P (
              some (
                record w {
                  heap = update w.heap p (some (record o { count = inc32 o.count }));
                  sessions = set_usage s (record { obj = p; count = 1 } ∷ x.usage) w.sessions;
                },
                success,
              )))
      → (bump_usage p x.usage ≡ none
          → pre ≡ false
          → P (some (put_obj p (some (record o { count = dec32 (inc32 o.count) })) w, try_again)))
      → P (add_ref_locked w s p pre)
  unfolding add_ref_locked
  locked_cases old new full =
      rw (found, live)
        (elim (Option-cases (bump_usage p x.usage)) [
          | inl e ↦
              rw e (elim (Bool-cases pre) [ inl t ↦ rw t (new e t) | inr f ↦ rw f (full e f) ])
          | inr (us, e) ↦ rw e (old us e)
        ])

-- The record was allocated while the lock was left; the object may be gone by then.
module _ (P : Option (DevExt × Status) → Type 0) (env : Env) (w : DevExt) (p s : ℕ) (o : Obj)
    (live : (env.race w).heap p ≡ some o) where
  pub blocking_cases :
      (env.has_memory ≡ false → P (some (env.race w, no_memory)))
      → (o.magic ≢ supdrvobj_magic
          → P (some (record (env.race w) { records = (env.race w).records + 1 }, wrong_order)))
      → (o.magic ≡ supdrvobj_magic
          → P (
              add_ref_locked (record (env.race w) { records = (env.race w).records + 1 }) s p true))
      → P (add_ref_blocking env w s p)
  unfolding add_ref_blocking
  blocking_cases fail late go = elim (Bool-cases env.has_memory) [
    | inl t ↦ rw (t, live) (ground arith)
    | inr f ↦ rw f (fail f)
  ]
