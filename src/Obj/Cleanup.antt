-- ===== src/Obj/Cleanup.antt =====
-- The object part of supdrvCleanupSession: the session loses every reference, the other sessions
-- none, and the objects that nobody else refers to are destroyed.
use virtualbox_drv.Common.{
  ℕ, ◌+◌, ◌<◌, ◌≤◌, ◌≡◌, refl, false, some, List, [], ◌∷◌, arith, ◌==◌, ltb, if◌then◌else◌,
  Bool-cases, Option-cases, inl, inr, Returns, Returns-bind, Returns-mono, ap, ◌∙◌,
}
use virtualbox_drv.Obj.{
  Obj, Usage, Session, DevExt, find_session, set_usage, supdrvobj_magic, destroy, cleanup_usage,
  cleanup_loop, cleanup_objects,
}
use virtualbox_drv.Obj.Counts.{
  refs, total, Positive, find_session-total, total-set_usage, find_session-Positive,
  find_session-set_usage, find_session-set_usage_ne,
}
use virtualbox_drv.Obj.Invariant.{Inv, live_cell, Inv-put, Inv-destroy}

-- An object that a session refers to is allocated and alive.
pub held-live :
    (w : DevExt) (p : ℕ)
    → Inv w
    → 0 < total p w.sessions
    → (o : Obj) × (w.heap p ≡ some o) × (o.magic ≡ supdrvobj_magic)
held-live w p v h = elim (Option-cases (w.heap p)) [
  | inl e ↦ absurd (let c = rw e at (v.cells p) in omega arith)
  | inr (o, e) ↦ (o, e, let c = rw e at (v.cells p) in ground (arith, c))
]

-- What the cleanup leaves, seen from the state before it.
pub record Cleaned (w : DevExt) (s : ℕ) (us : List Usage) (w' : DevExt) : Type 0 where
  pub inv : Inv w'
  pub session : Session
  pub found : find_session s w'.sessions ≡ some session
  pub empty : session.usage ≡ []
  pub others : (t : ℕ) → (s == t) ≡ false → find_session t w'.sessions ≡ find_session t w.sessions
  pub balance : (q : ℕ) → total q w'.sessions + refs q us ≡ total q w.sessions

-- One round takes off the first record.
record Round (w : DevExt) (s : ℕ) (u : Usage) (us : List Usage) (w' : DevExt) : Type 0 where
  inv : Inv w'
  sessions : w'.sessions ≡ set_usage s us w.sessions

module _ (w : DevExt) (s : ℕ) (u : Usage) (us : List Usage) (x : Session) (v : Inv w)
    (found : find_session s w.sessions ≡ some x) (usage : x.usage ≡ u ∷ us) where
  counts : (q : ℕ) → refs q x.usage ≡ (if u.obj == q then u.count else 0) + refs q us
  unfolding refs
  counts q = rw usage

  positive : (0 < u.count) × Positive us
  positive = rw usage at (find_session-Positive s w.sessions x found v.positive)

  referenced : u.count ≤ total u.obj w.sessions
  referenced = ground (arith, counts u.obj, find_session-total u.obj s w.sessions x found)

  cleanup_usage-Round : Returns (Round w s u us) (cleanup_usage w s u us)
  unfolding cleanup_usage destroy
  cleanup_usage-Round =
      let (o, live, m) = held-live w u.obj v (omega (arith, referenced, positive.0)) in
      let c = live_cell w u.obj o v live m in
      rw live (elim (Bool-cases (ltb u.count o.count)) [
        | inl more ↦ rw more (record {
          inv =
              Inv-put w u.obj s o x v live m found us _ _ _ positive.1
                (λ q. ground (arith, counts q, c)) (ground (arith, c)) (omega arith);
          sessions = refl;
        })
        | inr gone ↦ rw gone (record {
          inv =
              Inv-destroy w u.obj s o x v live m found us _ _ _ _ (λ q. refl) positive.1
                (λ q. ground (arith, counts q, c, referenced));
          sessions = refl;
        })
      ])

  then_Cleaned :
      (y : DevExt) → Round w s u us y → (w' : DevExt) → Cleaned y s us w' → Cleaned w s (u ∷ us) w'
  then_Cleaned y r w' c = record {
    inv = c.inv;
    session = c.session;
    found = c.found;
    empty = c.empty;
    others = λ t h.
        c.others t h
        ∙ ap (find_session t) r.sessions
        ∙ find_session-set_usage_ne s t us w.sessions h;
    balance = λ q. omega (
      arith,
      c.balance q,
      ap (total q) r.sessions,
      ap (refs q) usage,
      total-set_usage q s us w.sessions x found,
    );
  }

pub cleanup_loop-Cleaned :
    (us : List Usage) (w : DevExt) (s : ℕ) (x : Session)
    → Inv w
    → find_session s w.sessions ≡ some x
    → x.usage ≡ us
    → Returns (Cleaned w s us) (cleanup_loop w s us)
unfolding cleanup_loop
cleanup_loop-Cleaned [] w s x v found usage = record {
  inv = v;
  session = x;
  found = found;
  empty = usage;
  others = λ t h. refl;
  balance = λ q. unfold refs in omega arith;
}
cleanup_loop-Cleaned (u ∷ us) w s x v found usage =
    Returns-bind (Round w s u us) (Cleaned w s (u ∷ us)) (cleanup_usage w s u us)
      (λ y. cleanup_loop y s us) (cleanup_usage-Round w s u us x v found usage)
      (λ y r.
        let step =
          ap (find_session s) r.sessions ∙ (find_session-set_usage s us w.sessions x found) in
        Returns-mono (Cleaned y s us) (Cleaned w s (u ∷ us)) (cleanup_loop y s us)
          (cleanup_loop-Cleaned us y s (record x { usage = us }) r.inv step refl)
          (then_Cleaned w s u us x v found usage y r))

-- The cleanup of a session ends without a fault. It leaves the session without references and the
-- other sessions as they are, and keeps the invariant.
pub cleanup_objects-Cleaned :
    (w : DevExt) (s : ℕ) (x : Session)
    → Inv w
    → find_session s w.sessions ≡ some x
    → Returns (Cleaned w s x.usage) (cleanup_objects w s)
unfolding cleanup_objects
cleanup_objects-Cleaned w s x v found = rw found (cleanup_loop-Cleaned x.usage w s x v found refl)
