-- ===== src/Session/Handles.antt =====
-- The destruction of a session's handle table and the cleanup of its references, in
-- supdrvCleanupSession of vboxdrv/SUPDrv.c.
use virtualbox_drv.Common.{
  ℕ, ◌+◌, ◌<◌, ◌≤◌, ◌≡◌, ◌≢◌, refl, ap, ◌∙◌, true, false, some, List, [], ◌∷◌, map, arith, ◌==◌,
  Returns, Returns-bind, Returns-mono, Status,
}
use virtualbox_drv.HandleTable.{HandleTable, handle_table_magic}
use virtualbox_drv.HandleTable.Counted.{IsCounted, destroy_table-used_from}
use virtualbox_drv.HandleTable.Destroy.{Delete, used_from, delete_of}
use virtualbox_drv.HandleTable.WellFormed.{IsWf}
use virtualbox_drv.Obj.{
  Obj, Usage, Session, DevExt, find_session, set_usage, is_session_valid, obj_release,
  cleanup_objects,
}
use virtualbox_drv.Obj.Behaviour.{Released, Refused, obj_release-Released}
use virtualbox_drv.Obj.Cleanup.{Cleaned, held-live, cleanup_objects-Cleaned}
use virtualbox_drv.Obj.Counts.{
  one, refs, total, total-set_usage, find_session-total, find_session-set_usage,
  find_session-set_usage_ne,
}
use virtualbox_drv.Obj.Invariant.{Inv}
use virtualbox_drv.Obj.Preserved.{IsInv, obj_release-Inv}
use virtualbox_drv.Sem.Retain.{Holds, Returns-both}
use virtualbox_drv.Session.{delete_handles, cleanup_handles}

-- How many of the calls are for an object.
unfoldable pub handles : ℕ → List Delete → ℕ
handles q [] = 0
handles q (c ∷ cs) = one c.obj q + handles q cs

abbrev pub NonNull : List Delete → Type 0
NonNull [] = Unit {0}
NonNull (c ∷ cs) = (c.obj ≢ 0) × NonNull cs

-- A release of a reference that the session holds, seen from its usage records.
record Less (w : DevExt) (p s : ℕ) (x : Session) (w' : DevExt) : Type 0 where
  inv : Inv w'
  session : Session
  found : find_session s w'.sessions ≡ some session
  valid : is_session_valid session ≡ true
  fewer : (q : ℕ) → refs q session.usage + one p q ≡ refs q x.usage
  others : (t : ℕ) → (s == t) ≡ false → find_session t w'.sessions ≡ find_session t w.sessions
  balance : (q : ℕ) → total q w'.sessions + one p q ≡ total q w.sessions

module _ (w : DevExt) (p s : ℕ) (x : Session) (o : Obj) (v : Inv w) (h : Holds w p s x o) where
  set_usage-Less :
      (w' : DevExt) (us : List Usage)
      → Inv w'
      → w'.sessions ≡ set_usage s us w.sessions
      → ((q : ℕ) → total q w'.sessions + one p q ≡ total q w.sessions)
      → Less w p s x w'
  set_usage-Less w' us inv e less = record {
    inv = inv;
    session = record x { usage = us };
    found = rw e (find_session-set_usage s us w.sessions x h.found);
    valid = h.valid;
    fewer = λ q. omega (arith, less q, ap (total q) e, total-set_usage q s us w.sessions x h.found);
    others = λ t apart. rw e (find_session-set_usage_ne s t us w.sessions apart);
    balance = less;
  }

  Released-Less : (r : DevExt × Status) → Inv r.0 → Released w p s x o r → Less w p s x r.0
  Released-Less _ inv (Released.refused (Refused.bad_session e)) =
      absurd (ground (arith, e, h.valid))
  Released-Less _ inv (Released.refused (Refused.null e)) = absurd (h.set e)
  Released-Less _ inv (Released.refused (Refused.not_alive e)) = absurd (e h.magic)
  Released-Less _ inv (Released.refused (Refused.not_held e)) = absurd (omega (arith, e, h.held))
  Released-Less _ inv (Released.dropped (us, e) less more cell same) =
      set_usage-Less _ us inv e less
  Released-Less _ inv (Released.destroyed (us, e) less end cell list calls) =
      set_usage-Less _ us inv e less

  obj_release-Less : Returns (λ r. Less w p s x r.0) (obj_release w p s)
  obj_release-Less =
      Returns-mono _ _ (obj_release w p s)
        (Returns-both (Released w p s x o) IsInv (obj_release w p s)
          (obj_release-Released w p s x o v h.found h.live)
          (obj_release-Inv w p s x o v h.found h.live))
        (λ r k. Released-Less r k.1 k.0)

-- The calls of the delete function, each of which gives one reference back.
record Deleted (w : DevExt) (s : ℕ) (x : Session) (cs : List Delete) (w' : DevExt) : Type 0 where
  inv : Inv w'
  session : Session
  found : find_session s w'.sessions ≡ some session
  fewer : (q : ℕ) → refs q session.usage + handles q cs ≡ refs q x.usage
  others : (t : ℕ) → (s == t) ≡ false → find_session t w'.sessions ≡ find_session t w.sessions
  balance : (q : ℕ) → total q w'.sessions + handles q cs ≡ total q w.sessions

delete_handles-Deleted :
    (cs : List Delete) (w : DevExt) (s : ℕ) (x : Session)
    → Inv w
    → find_session s w.sessions ≡ some x
    → is_session_valid x ≡ true
    → NonNull cs
    → ((q : ℕ) → handles q cs ≤ refs q x.usage)
    → Returns (Deleted w s x cs) (delete_handles w s cs)
unfolding delete_handles handles
delete_handles-Deleted [] w s x v found valid set enough = record {
  inv = v;
  session = x;
  found = found;
  fewer = λ q. omega arith;
  others = λ t apart. refl;
  balance = λ q. omega arith;
}
delete_handles-Deleted (c ∷ cs) w s x v found valid set enough =
    let here : 0 < refs c.obj x.usage = ground (arith, enough c.obj) in
    let (o, live, magic) =
      held-live w c.obj v (omega (arith, here, find_session-total c.obj s w.sessions x found)) in
    let holds : Holds w c.obj s x o = record {
      found = found;
      valid = valid;
      set = set.0;
      live = live;
      magic = magic;
      held = here;
    } in
    Returns-bind _ _ (obj_release w c.obj s) _ (obj_release-Less w c.obj s x o v holds) (λ r l.
      Returns-mono _ _ (delete_handles r.0 s cs)
        (delete_handles-Deleted cs r.0 s l.session l.inv l.found l.valid set.1
          (λ q. omega (arith, enough q, l.fewer q)))
        (λ w' d. record {
          inv = d.inv;
          session = d.session;
          found = d.found;
          fewer = λ q. omega (arith, d.fewer q, l.fewer q);
          others = λ t apart. d.others t apart ∙ l.others t apart;
          balance = λ q. omega (arith, d.balance q, l.balance q);
        }))

-- The handles of a table: the calls of the delete function when it is destroyed.
abbrev pub table_handles : HandleTable → List Delete
table_handles t = map (delete_of t) (used_from t.cells 0 t.cur)

-- The cleanup of a session that holds a reference for each of its handles ends without a fault. It
-- leaves the session without references, though each handle gave one back before, leaves the other
-- sessions as they are, takes exactly the references of the session off, and keeps the registry
-- intact.
pub cleanup_handles-Cleaned :
    (w : DevExt) (t : HandleTable) (s : ℕ) (x : Session)
    → Inv w
    → IsWf t
    → IsCounted t
    → t.magic ≡ handle_table_magic
    → find_session s w.sessions ≡ some x
    → is_session_valid x ≡ true
    → NonNull (table_handles t)
    → ((q : ℕ) → handles q (table_handles t) ≤ refs q x.usage)
    → Returns (Cleaned w s x.usage) (cleanup_handles w t s)
unfolding cleanup_handles
cleanup_handles-Cleaned w t s x v wf counted alive found valid set enough =
    rw (destroy_table-used_from t wf.0 wf.1 counted alive) (
      Returns-bind _ _ (delete_handles w s (table_handles t)) (λ d. cleanup_objects d s)
        (delete_handles-Deleted (table_handles t) w s x v found valid set enough)
        (λ d e.
          Returns-mono _ _ (cleanup_objects d s)
            (cleanup_objects-Cleaned d s e.session e.inv e.found)
            (λ w' c. record {
              inv = c.inv;
              session = c.session;
              found = c.found;
              empty = c.empty;
              others = λ t' apart. c.others t' apart ∙ e.others t' apart;
              balance = λ q. omega (arith, c.balance q, e.fewer q, e.balance q);
            })))
