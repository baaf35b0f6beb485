-- ===== src/Sem/Retain.antt =====
-- The references of vboxdrv/SUPDrvSem.c: the retain callback on an object that the session holds, and
-- the release of such an object.
use virtualbox_drv.Common.{
  ℕ, ◌+◌, ◌-◌, ◌<◌, ◌^◌, ◌≡◌, ◌≢◌, refl, ap, Bool, true, false, Option, none, some, List, arith,
  update, inc32, Returns, Returns-mono, Status, success, rt_success,
}
use virtualbox_drv.Obj.{
  Obj, Usage, Session, DevExt, find_session, set_usage, supdrvobj_magic, add_ref_locked,
  is_session_valid, obj_add_ref_ex, obj_release,
}
use virtualbox_drv.Obj.Behaviour.{Released, Refused, obj_release-Released}
use virtualbox_drv.Obj.Cases.{add_ref_cases, locked_cases}
use virtualbox_drv.Obj.Counts.{
  one, refs, total, bump_usage-none, bump_usage-refs, total-set_usage, find_session-set_usage,
  find_session-total,
}
use virtualbox_drv.Obj.Invariant.{Inv}
use virtualbox_drv.Obj.Preserved.{
  IsInv, HasRoom, Present, held_bounds, obj_add_ref_ex-Inv, obj_release-Inv,
}
use virtualbox_drv.Sem.{handle_retain, no_env}

-- A valid session holds a reference to a live object.
pub record Holds (w : DevExt) (p s : ℕ) (x : Session) (o : Obj) : Type 0 where
  pub found : find_session s w.sessions ≡ some x
  pub valid : is_session_valid x ≡ true
  pub set : p ≢ 0
  pub live : w.heap p ≡ some o
  pub magic : o.magic ≡ supdrvobj_magic
  pub held : 0 < refs p x.usage

abbrev pub IsHeld : DevExt → (p s : ℕ) → Type 0
IsHeld w p s = (x : Session) × (o : Obj) × Holds w p s x o

-- The session holds two references at least.
abbrev pub IsHeldTwice : DevExt → (p s : ℕ) → Type 0
IsHeldTwice w p s = (x : Session) × (o : Obj) × Holds w p s x o × (1 < refs p x.usage)

-- One reference to `p` more, in the hands of the session.
abbrev pub Raised : DevExt → (p s : ℕ) → DevExt → Type 0
Raised w p s w' =
    ((q : ℕ) → total q w'.sessions ≡ total q w.sessions + one p q) × IsHeldTwice w' p s

-- One reference to `p` less.
abbrev pub Lowered : DevExt → (p : ℕ) → DevExt → Type 0
Lowered w p w' = (q : ℕ) → total q w'.sessions + one p q ≡ total q w.sessions

pub Returns-both {ℓ} :
    {A : Type ℓ} (P Q : A → Type 0) (m : Option A)
    → Returns P m
    → Returns Q m
    → Returns (λ a. P a × Q a) m
Returns-both P Q none h k = h
Returns-both P Q (some a) h k = (h, k)

abbrev Retains : DevExt → (p s : ℕ) → DevExt × Status → Type 0
Retains w p s r = (r.1 ≡ success) × Raised w p s r.0

module _ (w : DevExt) (p s : ℕ) (x : Session) (o : Obj) (v : Inv w) (h : Holds w p s x o)
    (room : o.count + 1 < 2 ^ 32) where
  raise :
      (us : List Usage) (n : ℕ)
      → ((q : ℕ) → refs q us ≡ refs q x.usage + one p q)
      → Raised w p s (record w {
        heap = update w.heap p (some (record o { count = inc32 o.count }));
        sessions = set_usage s us w.sessions;
        usage_free = n;
      })
  raise us n same = (
    λ q. omega (arith, same q, total-set_usage q s us w.sessions x h.found),
    (
      record x { usage = us },
      record o { count = inc32 o.count },
      record {
        found = find_session-set_usage s us w.sessions x h.found;
        valid = h.valid;
        set = h.set;
        live = ground arith;
        magic = h.magic;
        held = ground (arith, same p, h.held);
      },
      ground (arith, same p, h.held),
    ),
  )

  locked_raise :
      (n : ℕ) (pre : Bool)
      → Returns (Retains w p s) (add_ref_locked (record w { usage_free = n }) s p pre)
  locked_raise n pre =
      let (small, bound, pos) = held_bounds w p s x o v h.found h.live h.magic in
      locked_cases (Returns (Retains w p s)) (record w { usage_free = n }) p s pre x o h.found
        h.live (λ us e. (refl, raise us _ (λ q. bump_usage-refs p q x.usage us e (omega arith))))
        (λ e t. absurd (omega (arith, bump_usage-none p x.usage e, h.held)))
        (λ e f. absurd (omega (arith, bump_usage-none p x.usage e, h.held)))

  -- The callback succeeds: the session has one reference more, and the invariant is kept.
  pub handle_retain-Raised :
      Returns (λ r. (r.1 ≡ success) × Raised w p s r.0 × Inv r.0) (handle_retain w p s)
  unfolding handle_retain
  handle_retain-Raised =
      let full : HasRoom w p = λ o' e. ground (arith, e, h.live, room) in
      let here : Present w p s = (x, o, h.found, h.live) in
      Returns-mono _ _ (obj_add_ref_ex no_env w p s true)
        (Returns-both (Retains w p s) IsInv (obj_add_ref_ex no_env w p s true)
          (add_ref_cases (Returns (Retains w p s)) no_env w p s true x o h.found h.live
            (λ e. absurd (ground (arith, e, h.valid))) (λ e. absurd (h.set e))
            (λ e f. absurd (e h.magic)) (λ e. absurd (ground (arith, e, h.magic)))
            (λ m n. locked_raise (w.usage_free - 1) true) (λ m n e. cc)
            (λ m n e. locked_raise w.usage_free false))
          (obj_add_ref_ex-Inv no_env w p s v here full v here full true))
        (λ r k. (k.0.0, k.0.1, k.1))

-- A reference that the session holds is released: there is one less, and the invariant is kept.
pub obj_release-Lowered :
    (w : DevExt) (p s : ℕ) (x : Session) (o : Obj)
    → Inv w
    → Holds w p s x o
    → Returns (λ r. (rt_success r.1 ≡ true) × Lowered w p r.0 × Inv r.0) (obj_release w p s)
obj_release-Lowered w p s x o v h =
    Returns-mono _ _ (obj_release w p s)
      (Returns-both (Released w p s x o) IsInv (obj_release w p s)
        (obj_release-Released w p s x o v h.found h.live)
        (obj_release-Inv w p s x o v h.found h.live))
      (λ r k. (status r k.0, lowered r k.0, k.1))
  where
    not_refused : Refused p x o → ⊥
    not_refused (Refused.bad_session e) = ground (arith, e, h.valid)
    not_refused (Refused.null e) = h.set e
    not_refused (Refused.not_alive e) = e h.magic
    not_refused (Refused.not_held e) = omega (arith, e, h.held)

    status : (r : DevExt × Status) → Released w p s x o r → rt_success r.1 ≡ true
    status _ (Released.refused e) = absurd (not_refused e)
    status _ (Released.dropped only less more cell same) = refl
    status _ (Released.destroyed only less end cell list calls) = refl

    lowered : (r : DevExt × Status) → Released w p s x o r → Lowered w p r.0
    lowered _ (Released.refused e) = absurd (not_refused e)
    lowered _ (Released.dropped only less more cell same) = less
    lowered _ (Released.destroyed only less end cell list calls) = less

-- Of two references that the session holds, one is left after a release.
pub obj_release-IsHeld :
    (w : DevExt) (p s : ℕ) (x : Session) (o : Obj)
    → Inv w
    → Holds w p s x o
    → 1 < refs p x.usage
    → Returns (λ r. IsHeld r.0 p s) (obj_release w p s)
obj_release-IsHeld w p s x o v h two =
    Returns-mono _ _ (obj_release w p s) (obj_release-Released w p s x o v h.found h.live) held
  where
    held : (r : DevExt × Status) → Released w p s x o r → IsHeld r.0 p s
    held _ (Released.refused (Refused.bad_session e)) = absurd (ground (arith, e, h.valid))
    held _ (Released.refused (Refused.null e)) = absurd (h.set e)
    held _ (Released.refused (Refused.not_alive e)) = absurd (e h.magic)
    held _ (Released.refused (Refused.not_held e)) = absurd (omega (arith, e, h.held))
    held _ (Released.dropped (us, sessions) less more cell same) = (
      record x { usage = us },
      _,
      record {
        found = rw sessions (find_session-set_usage s us w.sessions x h.found);
        valid = h.valid;
        set = h.set;
        live = cell;
        magic = h.magic;
        held = ground (
          arith,
          less p,
          ap (total p) sessions,
          total-set_usage p s us w.sessions x h.found,
          two,
        );
      },
    )
    held _ (Released.destroyed only less end cell list calls) =
        absurd (ground (arith, less p, end, find_session-total p s w.sessions x h.found, two))
