-- ===== src/Obj/Reach.antt =====
-- Histories: the calls of vboxdrv/SUPDrv.c on registered objects, from any session and in any order.
use virtualbox_drv.Common.{
  ℕ, ◌<◌, ◌≤◌, ◌≡◌, refl, Bool, Option, none, some, [], ◌∷◌, arith, Returns, Status, subst,
}
use virtualbox_drv.Obj.{
  Obj, Env, Session, DevExt, find_session, new_obj, bird_inv, supdrvobj_magic, obj_register,
  obj_add_ref_ex, obj_release, cleanup_objects,
}
use virtualbox_drv.Obj.Counts.{refs, total, find_session-total}
use virtualbox_drv.Obj.Invariant.{Inv, live_cell}
use native.Mathlib.Nat.{zero-add}
use virtualbox_drv.Obj.Cleanup.{Cleaned, held-live, cleanup_objects-Cleaned}
use virtualbox_drv.Obj.Preserved.{IsInv, Present, HasRoom, obj_release-Inv, obj_add_ref_ex-Inv}
use virtualbox_drv.Obj.Register.{Before, Registered, obj_register-Registered}

-- The driver just loaded: no object and no session.
abbrev pub loaded : DevExt
loaded = record {
  heap = λ _. none;
  objs = [];
  usage_free = 0;
  records = 0;
  sessions = [];
  destroyed = [];
}

-- One call, or one session more. What the callers and the environment must respect stands in the
-- premises: a call is made on a session that exists and an object record that is allocated, and what
-- other threads do while the lock is left are such calls too.
mutual
  pub data Step : DevExt → DevExt → Type 0 where
    opens :
        (w : DevExt) (s uid gid process : ℕ)
        → Step w (record w {
          sessions =
              record {
                id = s;
                cookie = bird_inv;
                uid = uid;
                gid = gid;
                process = process;
                usage = [];
              }
              ∷ w.sessions;
        })
    registers :
        (env : Env) (w w' : DevExt) (s type destructor user1 user2 r : ℕ) (x : Session)
        → Before env w s x (new_obj x type destructor user1 user2)
        → obj_register env w s type destructor user1 user2 ≡ some (w', r)
        → Step w w'
    adds :
        (env : Env) (w w' : DevExt) (p s : ℕ) (no_blocking : Bool) (st : Status)
        → Present w p s
        → HasRoom w p
        → Reach w (env.race w)
        → Present (env.race w) p s
        → HasRoom (env.race w) p
        → obj_add_ref_ex env w p s no_blocking ≡ some (w', st)
        → Step w w'
    releases :
        (w w' : DevExt) (p s : ℕ) (st : Status)
        → Present w p s
        → obj_release w p s ≡ some (w', st)
        → Step w w'
    cleans :
        (w w' : DevExt) (s : ℕ) (x : Session)
        → find_session s w.sessions ≡ some x
        → cleanup_objects w s ≡ some w'
        → Step w w'

  pub data Reach : DevExt → DevExt → Type 0 where
    here : (w : DevExt) → Reach w w
    next : (w v u : DevExt) → Reach w v → Step v u → Reach w u

Returns-some {ℓ} :
    {A : Type ℓ} (P : A → Type 0) (m : Option A) (a : A) → Returns P m → m ≡ some a → P a
Returns-some P m a h e = subst (Returns P) e h

loaded-Inv : Inv loaded
loaded-Inv = record { cells = λ q. unfold total in (refl, refl); positive = tt }

opens-Inv :
    (w : DevExt) (s uid gid process : ℕ)
    → Inv w
    → Inv (record w {
      sessions =
          record { id = s; cookie = bird_inv; uid = uid; gid = gid; process = process; usage = [] }
          ∷ w.sessions;
    })
opens-Inv w s uid gid process v = record {
  cells = λ q. unfold total refs in rw zero-add (v.cells q);
  positive = (tt, v.positive);
}

mutual
  Step-Inv : {w w' : DevExt} → Step w w' → Inv w → Inv w'
  Step-Inv (opens w s uid gid process) v = opens-Inv w s uid gid process v
  Step-Inv (registers env w w' s type destructor user1 user2 r x b e) v =
      (Returns-some (Registered env.fresh) _ (w', r)
        (obj_register-Registered env w s type destructor user1 user2 x b) e).0
  Step-Inv (adds env w w' p s nb st now room race race_here race_room e) v =
      Returns-some IsInv _ (w', st)
        (obj_add_ref_ex-Inv env w p s v now room (Reach-Inv_from race v) race_here race_room nb) e
  Step-Inv (releases w w' p s st now e) v =
      Returns-some IsInv _ (w', st) (obj_release-Inv w p s now.0 now.1 v now.2 now.3) e
  Step-Inv (cleans w w' s x found e) v =
      (Returns-some (Cleaned w s x.usage) _ w' (cleanup_objects-Cleaned w s x v found) e).inv

  Reach-Inv_from : {w w' : DevExt} → Reach w w' → Inv w → Inv w'
  Reach-Inv_from (here w) v = v
  Reach-Inv_from (next w u w' r st) v = Step-Inv st (Reach-Inv_from r v)

-- After any history since the driver was loaded the invariant holds.
pub Reach-Inv : {w : DevExt} → Reach loaded w → Inv w
Reach-Inv r = Reach-Inv_from r loaded-Inv

-- No history from the loaded driver leaves a session with a reference to a freed or dead object, and
-- the counter of the object is at least the references of the session. In a history, calls are made
-- on existing sessions and allocated records; a reference is added to an object only while its
-- counter is below 2^32 - 1, before and after the lock was left; what other threads do then is such a
-- history too that leaves the session and the record there; while an object is being registered they
-- keep the registry intact and leave the session there and the new object alone; and a new record
-- gets an address that is free.
pub Reach-no_dangling :
    {w : DevExt} (s p : ℕ) (x : Session)
    → Reach loaded w
    → find_session s w.sessions ≡ some x
    → 0 < refs p x.usage
    → (o : Obj) × (w.heap p ≡ some o) × (o.magic ≡ supdrvobj_magic) × (refs p x.usage ≤ o.count)
Reach-no_dangling {w} s p x r found h =
    let v = Reach-Inv r in
    let held = find_session-total p s w.sessions x found in
    let (o, live, m) = held-live w p v (omega arith) in
    (o, live, m, omega (arith, live_cell w p o v live m))
