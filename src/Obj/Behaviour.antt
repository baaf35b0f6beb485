-- ===== src/Obj/Behaviour.antt =====
-- What SUPR0ObjRelease and SUPR0ObjAddRefEx do on every branch, counted in references.
use virtualbox_drv.Common.{
  ℕ, ◌+◌, ◌-◌, ◌<◌, ◌^◌, ◌≡◌, ◌≢◌, ◌⊎◌, refl, Bool, true, false, none, some, List, ◌∷◌, arith, ◌==◌,
  if◌then◌else◌, Bool-cases, ltb, inl, inr, unlink, update, fun_ext, inc32, dec32, Returns, Status,
  success, object_destroyed, invalid_parameter, invalid_pointer, wrong_order, try_again, no_memory,
}
use virtualbox_drv.Obj.{
  Obj, Env, Usage, Session, DevExt, missing, kept, last, bump_usage, find_session, set_usage,
  supdrvobj_magic, supdrvobj_magic_dead, put_obj, put_usage, obj_release, destroy, release_last,
  add_ref_locked, is_session_valid, obj_add_ref_ex, add_ref_blocking,
}
use virtualbox_drv.Obj.Cases.{release_cases, add_ref_cases, locked_cases, blocking_cases}
use virtualbox_drv.Obj.Counts.{
  one, refs, total, bump_usage-none, bump_usage-refs, total-set_usage, find_session-total,
  find_session-set_usage,
}
use virtualbox_drv.Obj.Invariant.{Inv, live_cell}
use virtualbox_drv.Obj.Preserved.{held_bounds, drop_facts, HasRoom, Present}

-- The sessions after a call: `s` holds `us`, every other session what it held.
abbrev pub OnlyUsage : DevExt → (s : ℕ) → DevExt → Type 0
OnlyUsage w s w' = (us : List Usage) × (w'.sessions ≡ set_usage s us w.sessions)

-- Why a release is refused.
pub data Refused (p : ℕ) (x : Session) (o : Obj) : Type 0 where
  bad_session : is_session_valid x ≡ false → Refused p x o
  null : p ≡ 0 → Refused p x o
  not_alive : o.magic ≢ supdrvobj_magic → Refused p x o
  not_held : refs p x.usage ≡ 0 → Refused p x o

-- The outcomes of a release: refused with nothing changed; one reference less on an object that
-- others still use; or the last reference dropped, the object unlinked, its destructor called with
-- the record marked dead, and the record freed.
pub data Released (w : DevExt) (p s : ℕ) (x : Session) (o : Obj) : DevExt × Status → Type 0 where
  refused : Refused p x o → Released w p s x o (w, invalid_parameter)
  dropped :
      {w' : DevExt}
      → OnlyUsage w s w'
      → ((q : ℕ) → total q w'.sessions + one p q ≡ total q w.sessions)
      → 0 < total p w'.sessions
      → w'.heap p ≡ some (record o { count = total p w'.sessions })
      → w'.destroyed ≡ w.destroyed
      → Released w p s x o (w', success)
  destroyed :
      {w' : DevExt}
      → OnlyUsage w s w'
      → ((q : ℕ) → total q w'.sessions + one p q ≡ total q w.sessions)
      → total p w'.sessions ≡ 0
      → w'.heap p ≡ none
      → w'.objs ≡ unlink p w.objs
      → w'.destroyed ≡ (
          if o.destructor == 0
          then w.destroyed
          else record o { magic = supdrvobj_magic_dead } ∷ w.destroyed)
      → Released w p s x o (w', object_destroyed)

module _ (w : DevExt) (p s : ℕ) (x : Session) (o : Obj) (v : Inv w)
    (found : find_session s w.sessions ≡ some x) (live : w.heap p ≡ some o) where
  less :
      (us : List Usage)
      → ((q : ℕ) → refs q us + one p q ≡ refs q x.usage)
      → (q : ℕ) → total q (set_usage s us w.sessions) + one p q ≡ total q w.sessions
  less us same q = omega (arith, same q, total-set_usage q s us w.sessions x found)

  release_last-Released :
      (us : List Usage)
      → o.magic ≡ supdrvobj_magic
      → ((q : ℕ) → refs q us + one p q ≡ refs q x.usage)
      → Released w p s x o
          (release_last (record (put_usage s us w) { usage_free = w.usage_free + 1 }) p o)
  unfolding release_last destroy
  release_last-Released us m same =
      let c = live_cell w p o v live m in
      let l = less us same in
      elim (Bool-cases (ltb 1 o.count)) [
        | inl more ↦
            rw more (dropped (us, refl) l (ground (arith, l p, c)) (ground (arith, l p, c)) refl)
        | inr gone ↦
            rw gone (destroyed (us, refl) l (ground (arith, l p, c)) (ground arith) refl refl)
      ]

  -- SUPR0ObjRelease ends without a fault in one of the outcomes above; the object is destroyed
  -- exactly when no session holds a reference any more.
  pub obj_release-Released : Returns (Released w p s x o) (obj_release w p s)
  obj_release-Released =
      release_cases (Returns (Released w p s x o)) w p s x o found live
        (λ e. refused (bad_session e)) (λ e. refused (null e)) (λ e. refused (not_alive e))
        (λ m e.
          let (small, bound, pos) = held_bounds w p s x o v found live m in
          refused (not_held ((drop_facts p p x.usage missing e (omega arith) pos).0)))
        (λ us m e.
          let (small, bound, pos) = held_bounds w p s x o v found live m in
          let f = λ (q : ℕ). drop_facts p q x.usage (kept us) e (omega arith) pos in
          let l = less us (λ q. (f q).0.0) in
          let c = live_cell w p o v live m in
          dropped (us, refl) l
            (omega (
              arith,
              (f p).0.1,
              find_session-total p s (set_usage s us w.sessions) (record x { usage = us })
                  (find_session-set_usage s us w.sessions x found),
            ))
            (ground (arith, l p, c)) refl)
        (λ us m e.
          let (small, bound, pos) = held_bounds w p s x o v found live m in
          let f = λ (q : ℕ). drop_facts p q x.usage (last us) e (omega arith) pos in
          release_last-Released us m (λ q. (f q).0))

-- The outcomes of adding a reference. The call is refused for one of four reasons, and nothing has
-- changed. If it may block and no usage record is on the free list, it leaves the lock for an
-- allocation: that fails, or the object has been destroyed meanwhile. It gives up for want of a
-- usage record only if it may not block and the session has no reference yet. Else the session has
-- one reference to `p` more, in the state `b` in which the lock was last taken.
pub data Added (env : Env) (w : DevExt) (p s : ℕ) (no_blocking : Bool) (x : Session) (o : Obj)
    : DevExt × Status → Type 0 where
  bad_session : is_session_valid x ≡ false → Added env w p s no_blocking x o (w, invalid_parameter)
  null : p ≡ 0 → Added env w p s no_blocking x o (w, invalid_pointer)
  no_object :
      o.magic ≢ supdrvobj_magic
      → o.magic ≢ supdrvobj_magic_dead
      → Added env w p s no_blocking x o (w, invalid_parameter)
  dead : o.magic ≡ supdrvobj_magic_dead → Added env w p s no_blocking x o (w, wrong_order)
  no_record :
      o.magic ≡ supdrvobj_magic
      → w.usage_free ≡ 0
      → no_blocking ≡ false
      → env.has_memory ≡ false
      → Added env w p s no_blocking x o (env.race w, no_memory)
  raced :
      (y : Obj)
      → o.magic ≡ supdrvobj_magic
      → w.usage_free ≡ 0
      → no_blocking ≡ false
      → (env.race w).heap p ≡ some y
      → y.magic ≢ supdrvobj_magic
      → Added env w p s no_blocking x o
          (record (env.race w) { records = (env.race w).records + 1 }, wrong_order)
  gave_up :
      {w' : DevExt}
      → o.magic ≡ supdrvobj_magic
      → no_blocking ≡ true
      → w.usage_free ≡ 0
      → refs p x.usage ≡ 0
      → w'.sessions ≡ w.sessions
      → ((q : ℕ) → w'.heap q ≡ w.heap q)
      → Added env w p s no_blocking x o (w', try_again)
  added :
      {w' : DevExt} (b : DevExt)
      → o.magic ≡ supdrvobj_magic
      → (b ≡ w) ⊎ ((b ≡ env.race w) × (no_blocking ≡ false) × (w.usage_free ≡ 0))
      → OnlyUsage b s w'
      → ((q : ℕ) → total q w'.sessions ≡ total q b.sessions + one p q)
      → (y : Obj) → b.heap p ≡ some y
      → y.magic ≡ supdrvobj_magic
      → w'.heap ≡ update b.heap p (some (record y { count = y.count + 1 }))
      → Added env w p s no_blocking x o (w', success)

module _ (env : Env) (w b : DevExt) (n k p s : ℕ) (nb : Bool) (x0 : Session) (o0 : Obj)
    (alive : o0.magic ≡ supdrvobj_magic) (x : Session) (o : Obj) (v : Inv b)
    (found : find_session s b.sessions ≡ some x) (live : b.heap p ≡ some o)
    (m : o.magic ≡ supdrvobj_magic) (room : o.count + 1 < 2 ^ 32)
    (base : (b ≡ w) ⊎ ((b ≡ env.race w) × (nb ≡ false) × (w.usage_free ≡ 0))) where
  more :
      (us : List Usage)
      → ((q : ℕ) → refs q us ≡ refs q x.usage + one p q)
      → (q : ℕ) → total q (set_usage s us b.sessions) ≡ total q b.sessions + one p q
  more us same q = omega (arith, same q, total-set_usage q s us b.sessions x found)

  raised :
      update b.heap p (some (record o { count = inc32 o.count }))
      ≡ update b.heap p (some (record o { count = o.count + 1 }))
  raised = fun_ext (λ q. let e : inc32 o.count ≡ o.count + 1 = omega arith in rw e)

  more_by :
      (us : List Usage) (free : ℕ)
      → ((q : ℕ) → refs q us ≡ refs q x.usage + one p q)
      → Added env w p s nb x0 o0 (
        record b {
          heap = update b.heap p (some (record o { count = inc32 o.count }));
          sessions = set_usage s us b.sessions;
          usage_free = free;
          records = k;
        },
        success,
      )
  more_by us free same = added b alive base (us, refl) (more us same) o live m raised

  locked_Added :
      (pre : Bool)
      → (bump_usage p x.usage ≡ none
          → pre ≡ false
          → Added env w p s nb x0 o0 (
            put_obj p
                (some (record o { count = dec32 (inc32 o.count) }))
                (record b { usage_free = n; records = k }),
            try_again,
          ))
      → Returns
          (Added env w p s nb x0 o0)
          (add_ref_locked (record b { usage_free = n; records = k }) s p pre)
  locked_Added pre full =
      let h = held_bounds b p s x o v found live m in
      locked_cases (Returns (Added env w p s nb x0 o0)) (record b { usage_free = n; records = k }) p
        s pre x o found live
        (λ us e. more_by us _ (λ q. bump_usage-refs p q x.usage us e (omega arith)))
        (λ e t. more_by _ _ (λ q. unfold refs in omega arith)) full

module _ (env : Env) (w : DevExt) (p s : ℕ) (x : Session) (o : Obj) (v : Inv w)
    (found : find_session s w.sessions ≡ some x) (live : w.heap p ≡ some o) (room : HasRoom w p)
    (race_v : Inv (env.race w)) (race_here : Present (env.race w) p s)
    (race_room : HasRoom (env.race w) p) where
  waited_Added :
      o.magic ≡ supdrvobj_magic
      → w.usage_free ≡ 0
      → Returns (Added env w p s false x o) (add_ref_blocking env w s p)
  waited_Added alive none_free =
      let (y, z, y_found, z_live) = race_here in
      blocking_cases (Returns (Added env w p s false x o)) env w p s z z_live
        (no_record alive none_free refl) (raced z alive none_free refl z_live)
        (λ m.
          locked_Added env w (env.race w) (env.race w).usage_free ((env.race w).records + 1) p s
            false x o alive y z race_v y_found z_live m (race_room z z_live)
            (inr (refl, refl, none_free)) true (λ e f. cc))

  -- SUPR0ObjAddRefEx on an existing session and an allocated record ends without a fault in one of the
  -- outcomes above. The registry is intact, other threads keep it so while the lock is left and leave
  -- the session and the record there, and the counter of the object is below 2^32 - 1, at the call and
  -- when the lock is taken again.
  pub obj_add_ref_ex-Added :
      (no_blocking : Bool)
      → Returns (Added env w p s no_blocking x o) (obj_add_ref_ex env w p s no_blocking)
  obj_add_ref_ex-Added nb =
      add_ref_cases (Returns (Added env w p s nb x o)) env w p s nb x o found live bad_session null
        no_object dead
        (λ m h.
          locked_Added env w w (w.usage_free - 1) w.records p s nb x o m x o v found live m
            (room o live) (inl refl) true (λ e f. cc))
        (λ m h b. rw b (waited_Added m h))
        (λ m h b.
          locked_Added env w w w.usage_free w.records p s nb x o m x o v found live m (room o live)
            (inl refl) false
            (λ e f.
              gave_up m b h (bump_usage-none p x.usage e) refl
                (λ q. ground (arith, live, room o live))))
