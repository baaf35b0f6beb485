-- ===== src/Sem/Tests.antt =====
-- Runs of the semaphore functions of vboxdrv/SUPDrvSem.c, and the theorems about them at a concrete
-- session.
use virtualbox_drv.Common.{
  ℕ, ◌≡◌, refl, true, none, some, [], ◌∷◌, arith, Returns, success, update, Bool-cases, inl, inr,
  ◌==◌,
}
use virtualbox_drv.HandleTable.{
  HandleTable, ExpandEnv, new_table, link_table, take_free, lookup_with_ctx, lookup_index,
  find_object,
}
use virtualbox_drv.HandleTable.Creation.{new_table-Wf}
use virtualbox_drv.HandleTable.Expansion.{link_table-Wf, range}
use virtualbox_drv.HandleTable.WellFormed.{IsWf, take_free-Wf}
use virtualbox_drv.Obj.{Obj, Session, DevExt, find_session, new_obj, supdrvobj_magic, bird_inv}
use virtualbox_drv.Obj.Counts.{refs, total}
use virtualbox_drv.Obj.Invariant.{Inv}
use virtualbox_drv.Obj.Register.{Before, Pending-put}
use virtualbox_drv.Sem.{SemState, CreateEnv, event, sem_close, sem_use}
use virtualbox_drv.Sem.Close.{Closed, sem_close-Closed}
use virtualbox_drv.Sem.Lookup.{Linked, behind_handle}
use virtualbox_drv.Sem.Retain.{Holds}
use virtualbox_drv.Sem.Use.{Used, sem_use-Used}

-- The semaphore 70, an object at address 8 with the one reference of its handle.
abbrev semaphore : Obj
semaphore = record {
  magic = supdrvobj_magic;
  type = 4;
  destructor = 77;
  user1 = 70;
  user2 = 0;
  count = 1;
  creator_uid = 10;
  creator_gid = 0;
  creator_process = 0;
}

abbrev owner : Session
owner = record {
  id = 1;
  cookie = bird_inv;
  uid = 10;
  gid = 0;
  process = 0;
  usage = record { obj = 8; count = 1 } ∷ [];
}

abbrev one_object : DevExt
one_object = record {
  heap = update (λ _. none) 8 (some semaphore);
  objs = 8 ∷ [];
  usage_free = 0;
  records = 1;
  sessions = owner ∷ [];
  destroyed = [];
}

one_object-Inv : Inv one_object
unfolding total refs
one_object-Inv = record {
  cells = λ q. elim (Bool-cases (8 == q)) [ inl e ↦ ground arith | inr e ↦ ground arith ];
  positive = omega arith;
}

-- The session's table with the handle 1 of the semaphore.
abbrev one_handle : HandleTable
one_handle = take_free (link_table (new_table 3 1 32768)) 8 4

one_handle-IsWf : IsWf one_handle
one_handle-IsWf = (
  range 1 2047,
  take_free-Wf (link_table (new_table 3 1 32768)) 0 (range 1 2047) 8 4 (
      link_table-Wf (new_table 3 1 32768) [] (new_table-Wf 3 1 32768 (omega arith)) (omega arith)
        (omega arith)),
)

abbrev start : SemState
start = record { dev = one_object; table = one_handle; destroyed = [] }

behind_one : behind_handle one_handle 1 4 ≡ 8
unfolding lookup_with_ctx find_object lookup_index take_free link_table
behind_one = refl

owner-Holds : Holds one_object 8 1 owner semaphore
unfolding find_session refs
owner-Holds = record {
  found = refl;
  valid = refl;
  set = omega arith;
  live = refl;
  magic = refl;
  held = omega arith;
}

start-Linked : Linked one_object one_handle 1 1 4 owner
start-Linked set valid = rw behind_one (semaphore, owner-Holds, omega arith)

sem_use-Used_example :
    Returns
      (Used (λ e. success) (λ d. d) one_object one_handle (event 77) 1 1 owner)
      (sem_use (λ e. success) (λ d. d) one_object one_handle (event 77) 1 1)
unfolding find_session
sem_use-Used_example =
    sem_use-Used (λ e. success) (λ d. d) one_object one_handle (event 77) 1 1 owner one_object-Inv
      refl start-Linked (λ v inv held. (inv, held))

sem_close-Closed_example :
    Returns (Closed start (event 77) 1 1 owner) (sem_close start (event 77) 1 1)
unfolding find_session
sem_close-Closed_example =
    sem_close-Closed start (event 77) 1 1 owner one_object-Inv one_handle-IsWf refl start-Linked

abbrev quiet_envs : ℕ → ExpandEnv
quiet_envs n = record {
  level1_memory = true;
  table_memory = true;
  race_alloc = λ t. t;
  race_level1 = λ t. t;
  race_lost = λ t. t;
}

abbrev creation : ℕ → CreateEnv
creation p = record {
  valid_pointer = true;
  created = success;
  real = 71;
  register = record { fresh = p; has_memory = true; race = λ w. w };
  fuel = 2;
  expand = quiet_envs;
  during = λ d. d;
}

creation-Before : Before (creation 12).register one_object 1 owner (new_obj owner 5 78 71 0)
unfolding find_session new_obj
creation-Before = record {
  inv = one_object-Inv;
  found = refl;
  free = refl;
  raced = Pending-put one_object 12 (new_obj owner 5 78 71 0) one_object-Inv refl;
  still = (owner, refl);
}
