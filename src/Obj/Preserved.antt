-- ===== src/Obj/Preserved.antt =====
-- SUPR0ObjRelease, SUPR0ObjAddRef(Ex), SUPR0ObjRegister and the session cleanup keep the invariant.
use virtualbox_drv.Common.{
  ℕ, ◌+◌, ◌-◌, ◌<◌, ◌≤◌, ◌^◌, ◌≡◌, Bool, true, false, some, List, arith, ◌==◌, Bool-cases, ltb, inl,
  inr, inc32, dec32, Returns, Status,
}
use virtualbox_drv.Obj.{
  Obj, Env, Usage, Session, DevExt, Drop, kept, last, drop_usage, find_session, supdrvobj_magic,
  put_obj, put_usage, obj_release, destroy, release_last, add_ref_locked, obj_add_ref_ex,
  add_ref_blocking,
}
use virtualbox_drv.Obj.Cases.{release_cases, add_ref_cases, locked_cases, blocking_cases}
use virtualbox_drv.Obj.Counts.{
  one, refs, Positive, Dropped, DropPositive, bump_usage-refs, bump_usage-Positive,
  find_session-total, find_session-Positive, drop_usage-Dropped, drop_usage-Positive,
}
use virtualbox_drv.Obj.Invariant.{Inv, live_cell, Inv-put, Inv-destroy}

abbrev pub IsInv : DevExt × Status → Type 0
IsInv r = Inv r.0

-- The numbers that a guard on the magic of an object makes known.
pub held_bounds :
    (w : DevExt) (p s : ℕ) (x : Session) (o : Obj)
    → Inv w
    → find_session s w.sessions ≡ some x
    → w.heap p ≡ some o
    → o.magic ≡ supdrvobj_magic
    → (refs p x.usage ≤ o.count) × (o.count < 2 ^ 32) × Positive x.usage
held_bounds w p s x o v found live m =
    let c = live_cell w p o v live m in
    let b = find_session-total p s w.sessions x found in
    (omega arith, omega arith, find_session-Positive s w.sessions x found v.positive)

-- What `drop_usage` leaves, with the equation of the search put in.
pub drop_facts :
    (p q : ℕ) (us : List Usage) (d : Drop)
    → drop_usage p us ≡ d
    → refs p us < 2 ^ 32
    → Positive us
    → Dropped p q us d × DropPositive d
drop_facts p q us d e h k = rw (← e) (drop_usage-Dropped p q us h k, drop_usage-Positive p us h k)

module _ (w : DevExt) (p s : ℕ) (x : Session) (o : Obj) (v : Inv w)
    (found : find_session s w.sessions ≡ some x) (live : w.heap p ≡ some o) where
  release_last-Inv :
      (us : List Usage)
      → o.magic ≡ supdrvobj_magic
      → Positive us
      → ((q : ℕ) → refs q us + one p q ≡ refs q x.usage)
      → IsInv (release_last (record (put_usage s us w) { usage_free = w.usage_free + 1 }) p o)
  unfolding release_last destroy
  release_last-Inv us m pos same = elim (Bool-cases (ltb 1 o.count)) [
    | inl more ↦ rw more (
        Inv-put w p s o x v live m found us (dec32 o.count) _ _ pos
          (λ q. ground (arith, same q, held_bounds w p s x o v found live m))
          (ground (arith, held_bounds w p s x o v found live m)) (omega arith))
    | inr gone ↦ rw gone (
        Inv-destroy w p s o x v live m found us _ _ _ _ (λ q. ground arith) pos
          (λ q. ground (arith, same q, held_bounds w p s x o v found live m, same p)))
  ]

  -- SUPR0ObjRelease ends without a fault and keeps the invariant, whatever its result is.
  pub obj_release-Inv : Returns IsInv (obj_release w p s)
  obj_release-Inv =
      release_cases (Returns IsInv) w p s x o found live (λ _. v) (λ _. v) (λ _. v) (λ _ _. v)
        (λ us m e.
          let (small, bound, pos) = held_bounds w p s x o v found live m in
          let f = λ (q : ℕ). drop_facts p q x.usage (kept us) e (omega arith) pos in
          Inv-put w p s o x v live m found us (dec32 o.count) _ _ (f p).1 (λ q. ground (arith, f q))
            (ground (arith, f p)) (omega arith))
        (λ us m e.
          let (small, bound, pos) = held_bounds w p s x o v found live m in
          let f = λ (q : ℕ). drop_facts p q x.usage (last us) e (omega arith) pos in
          release_last-Inv us m (f p).1 (λ q. (f q).0))

-- A record of the object is found and raised, or a new one is put in front.
module _ (w : DevExt) (p s : ℕ) (pre : Bool) (x : Session) (o : Obj) (v : Inv w)
    (found : find_session s w.sessions ≡ some x) (live : w.heap p ≡ some o)
    (m : o.magic ≡ supdrvobj_magic) (room : o.count + 1 < 2 ^ 32) where
  restored-Inv : Inv (put_obj p (some (record o { count = dec32 (inc32 o.count) })) w)
  restored-Inv = record {
    cells = λ q. elim (Bool-cases (p == q)) [
      | inl here ↦ ground (arith, live_cell w p o v live m, v.cells p)
      | inr other ↦ rw other (v.cells q)
    ];
    positive = v.positive;
  }

  pub add_ref_locked-Inv : Returns IsInv (add_ref_locked w s p pre)
  add_ref_locked-Inv =
      let b = held_bounds w p s x o v found live m in
      locked_cases (Returns IsInv) w p s pre x o found live
        (λ us e.
          let f = λ (q : ℕ). bump_usage-refs p q x.usage us e (omega arith) in
          Inv-put w p s o x v live m found us (inc32 o.count) _ _
            (bump_usage-Positive p x.usage us e (omega arith) b.2) (λ q. ground (arith, f q))
            (omega arith) (omega arith))
        (λ e t.
          Inv-put w p s o x v live m found _ (inc32 o.count) _ _ (omega arith, b.2)
            (λ q. unfold refs in ground arith) (omega arith) (omega arith))
        (λ e f. restored-Inv)

-- An object that is looked at has a counter below the limit of its 32 bits.
abbrev pub HasRoom : DevExt → ℕ → Type 0
HasRoom w p = (o : Obj) → w.heap p ≡ some o → o.count + 1 < 2 ^ 32

-- The session and the object record are still there.
abbrev pub Present : DevExt → (p s : ℕ) → Type 0
Present w p s =
    (x : Session) × (o : Obj) × (find_session s w.sessions ≡ some x) × (w.heap p ≡ some o)

module _ (env : Env) (w : DevExt) (p s : ℕ) (v : Inv w) (here : Present w p s) (room : HasRoom w p)
    (race_v : Inv (env.race w)) (race_here : Present (env.race w) p s)
    (race_room : HasRoom (env.race w) p) where
  blocking-Inv : Returns IsInv (add_ref_blocking env w s p)
  blocking-Inv =
      let (x, o, found, live) = race_here in
      blocking_cases (Returns IsInv) env w p s o live (λ _. race_v)
        (λ m. record { cells = race_v.cells; positive = race_v.positive })
        (λ m.
          add_ref_locked-Inv (record (env.race w) { records = (env.race w).records + 1 }) p s true x
            o (record { cells = race_v.cells; positive = race_v.positive }) found live m
            (race_room o live))

  -- SUPR0ObjAddRefEx ends without a fault and keeps the invariant, whatever its result is and
  -- whatever other threads did while the lock was left, if they kept the invariant.
  pub obj_add_ref_ex-Inv :
      (no_blocking : Bool) → Returns IsInv (obj_add_ref_ex env w p s no_blocking)
  obj_add_ref_ex-Inv nb =
      let (x, o, found, live) = here in
      add_ref_cases (Returns IsInv) env w p s nb x o found live (λ _. v) (λ _. v) (λ _ _. v)
        (λ _. v)
        (λ m h.
          add_ref_locked-Inv (record w { usage_free = w.usage_free - 1 }) p s true x o
            (record { cells = v.cells; positive = v.positive }) found live m (room o live))
        (λ m h b. blocking-Inv)
        (λ m h b. add_ref_locked-Inv w p s false x o v found live m (room o live))
