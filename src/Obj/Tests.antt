-- ===== src/Obj/Tests.antt =====
-- Runs of the object functions of vboxdrv/SUPDrv.c, and the theorems about them at concrete states.
use mathlib.Core.Option
use virtualbox_drv.Common.{
  ℕ, ◌≡◌, ◌≤◌, refl, true, false, none, some, List, [], ◌∷◌, arith, ◌==◌, Bool-cases, inl, inr,
  update, Returns, success, try_again, permission_denied, ◌>>=◌,
}
use virtualbox_drv.Obj.{
  Obj, Usage, Session, DevExt, Env, supdrvobj_magic, bird_inv, find_session, set_usage, bump_usage,
  drop_usage, add_ref_locked, destroy, obj_register, obj_add_ref_ex, obj_release, obj_verify_access,
  cleanup_objects, cleanup_loop, cleanup_usage, take_record, link_obj, new_obj,
}
use virtualbox_drv.Obj.Counts.{refs, total}
use virtualbox_drv.Obj.Invariant.{Inv}
use virtualbox_drv.Obj.Behaviour.{Released, obj_release-Released, Added, obj_add_ref_ex-Added}
use virtualbox_drv.Obj.Cleanup.{Cleaned, cleanup_objects-Cleaned}
use virtualbox_drv.Obj.Preserved.{Present, HasRoom}
use virtualbox_drv.Obj.Register.{Before, Registered, obj_register-Registered, Pending-put}
use virtualbox_drv.Obj.Reach.{
  Reach, loaded, opens, registers, here, next, Reach-Inv, Reach-no_dangling,
}

-- An object that session 1 holds twice and session 2 once.
abbrev event : Obj
event = record {
  magic = supdrvobj_magic;
  type = 4;
  destructor = 77;
  user1 = 0;
  user2 = 0;
  count = 3;
  creator_uid = 10;
  creator_gid = 0;
  creator_process = 0;
}

abbrev session : ℕ → ℕ → List Usage → Session
session s uid us = record { id = s; cookie = bird_inv; uid = uid; gid = 0; process = 0; usage = us }

abbrev first : Session
first = session 1 10 (record { obj = 5; count = 2 } ∷ [])

abbrev second : Session
second = session 2 20 (record { obj = 5; count = 1 } ∷ [])

abbrev shared : DevExt
shared = record {
  heap = update (λ _. none) 5 (some event);
  objs = 5 ∷ [];
  usage_free = 0;
  records = 2;
  sessions = first ∷ second ∷ [];
  destroyed = [];
}

abbrev alone : Env
alone = record { fresh = 9; has_memory = true; race = λ w. w }

shared-Inv : Inv shared
unfolding total refs
shared-Inv = record {
  cells = λ q. elim (Bool-cases (5 == q)) [ inl e ↦ ground arith | inr e ↦ ground arith ];
  positive = omega arith;
}

shared-Present : Present shared 5 1
unfolding find_session
shared-Present = (first, event, refl, refl)

shared-HasRoom : HasRoom shared 5
shared-HasRoom o e = ground arith

-- The first release lowers both counters.
release_once : Option.map (λ r. r.1) (obj_release shared 5 1) ≡ some success
unfolding obj_release find_session drop_usage
release_once = refl

-- Cleaning up both sessions destroys the object once.
cleanup_both :
    Option.map (λ w. w.destroyed) (cleanup_objects shared 1 >>= λ w. cleanup_objects w 2)
    ≡ some (record event { count = 1 } ∷ [])
unfolding cleanup_objects cleanup_loop cleanup_usage find_session set_usage destroy
cleanup_both = refl

-- Without a free usage record a session's first reference cannot be taken in a non-blocking call.
first_reference_no_blocking :
    Option.map
      (λ r. r.1)
      (obj_add_ref_ex alone
        (record shared { sessions = session 3 30 [] ∷ shared.sessions })
        5
        3
        true)
    ≡ some try_again
unfolding obj_add_ref_ex add_ref_locked find_session bump_usage
first_reference_no_blocking = refl

-- Only the creator may access the object.
verify_access :
    (obj_verify_access shared 5 1 ≡ some success)
    × (obj_verify_access shared 5 2 ≡ some permission_denied)
unfolding obj_verify_access find_session
verify_access = (refl, refl)

obj_release-Released_example : Returns (Released shared 5 1 first event) (obj_release shared 5 1)
unfolding find_session
obj_release-Released_example = obj_release-Released shared 5 1 first event shared-Inv refl refl

obj_add_ref_ex-Added_example :
    Returns (Added alone shared 5 1 false first event) (obj_add_ref_ex alone shared 5 1 false)
unfolding find_session
obj_add_ref_ex-Added_example =
    obj_add_ref_ex-Added alone shared 5 1 first event shared-Inv refl refl shared-HasRoom shared-Inv
      shared-Present shared-HasRoom false

cleanup_objects-Cleaned_example : Returns (Cleaned shared 1 first.usage) (cleanup_objects shared 1)
unfolding find_session
cleanup_objects-Cleaned_example = cleanup_objects-Cleaned shared 1 first shared-Inv refl

shared-Before : Before alone shared 1 first (new_obj first 4 77 0 0)
unfolding find_session new_obj
shared-Before = record {
  inv = shared-Inv;
  found = refl;
  free = refl;
  raced = Pending-put shared 9 (new_obj first 4 77 0 0) shared-Inv refl;
  still = (first, refl);
}

obj_register-Registered_example : Returns (Registered 9) (obj_register alone shared 1 4 77 0 0)
obj_register-Registered_example =
    obj_register-Registered alone shared 1 4 77 0 0 first shared-Before

-- A history: session 1 opens and registers an object at address 9.
abbrev opened_state : DevExt
opened_state = record loaded { sessions = session 1 10 [] ∷ [] }

abbrev fresh_obj : Obj
fresh_obj = record {
  magic = supdrvobj_magic;
  type = 4;
  destructor = 77;
  user1 = 0;
  user2 = 0;
  count = 1;
  creator_uid = 10;
  creator_gid = 0;
  creator_process = 0;
}

abbrev registered_state : DevExt
registered_state = record {
  heap = update (λ _. none) 9 (some fresh_obj);
  objs = 9 ∷ [];
  usage_free = 0;
  records = 1;
  sessions = session 1 10 (record { obj = 9; count = 1 } ∷ []) ∷ [];
  destroyed = [];
}

opened-Reach : Reach loaded opened_state
opened-Reach = next loaded loaded opened_state (here loaded) (opens loaded 1 10 0 0)

opened-Before : Before alone opened_state 1 (session 1 10 []) (new_obj (session 1 10 []) 4 77 0 0)
unfolding find_session new_obj
opened-Before = record {
  inv = Reach-Inv opened-Reach;
  found = refl;
  free = refl;
  raced =
      Pending-put opened_state 9 (new_obj (session 1 10 []) 4 77 0 0) (Reach-Inv opened-Reach) refl;
  still = (session 1 10 [], refl);
}

registered_run : obj_register alone opened_state 1 4 77 0 0 ≡ some (registered_state, 9)
unfolding obj_register find_session take_record link_obj new_obj set_usage
registered_run = refl

registered-Reach : Reach loaded registered_state
registered-Reach = next loaded opened_state registered_state opened-Reach (
    registers alone opened_state registered_state 1 4 77 0 0 9 (session 1 10 []) opened-Before
      registered_run)

Reach-no_dangling_example :
    (o : Obj) × (registered_state.heap 9 ≡ some o)
    × (o.magic ≡ supdrvobj_magic)
    × (refs 9 (record { obj = 9; count = 1 } ∷ []) ≤ o.count)
unfolding find_session refs
Reach-no_dangling_example =
    Reach-no_dangling 1 9 (session 1 10 (record { obj = 9; count = 1 } ∷ [])) registered-Reach refl
      (omega arith)
