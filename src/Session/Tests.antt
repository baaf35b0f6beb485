-- ===== src/Session/Tests.antt =====
-- Runs of supdrvCreateSession of vboxdrv/SUPDrv.c, and the theorem about supdrvCleanupSession at a
-- concrete session.
use virtualbox_drv.Common.{
  ℕ, ◌≡◌, refl, true, false, none, some, [], ◌∷◌, arith, Returns, success, update, Bool-cases, inl,
  inr, ◌==◌, no_memory, replicate, if◌then◌else◌,
}
use virtualbox_drv.Factory.Registration.{find_reg}
use virtualbox_drv.HandleTable.{HandleTable, new_table, link_table, take_free, create_ex}
use virtualbox_drv.HandleTable.Counted.{IsCounted}
use virtualbox_drv.HandleTable.Counting.{take_free-IsCounted}
use virtualbox_drv.HandleTable.Creation.{new_table-Wf}
use virtualbox_drv.HandleTable.Destroy.{used_from}
use virtualbox_drv.HandleTable.Expansion.{link_table-Wf, range}
use virtualbox_drv.HandleTable.Racing.{link_table-IsCounted}
use virtualbox_drv.HandleTable.WellFormed.{IsWf, take_free-Wf}
use virtualbox_drv.Ldr.{Image, Ldr, opened, no_entry, get_image}
use virtualbox_drv.Ldr.Balance.{uses}
use virtualbox_drv.Ldr.Balanced.{BalancedLdr}
use virtualbox_drv.MemRef.{MemRef, unused}
use virtualbox_drv.Obj.{Obj, Session, DevExt, find_session, supdrvobj_magic, bird_inv}
use virtualbox_drv.Obj.Counts.{refs, total}
use virtualbox_drv.Obj.Invariant.{Inv}
use virtualbox_drv.Session.{State, SessionEnv, create_session, cleanup_session}
use virtualbox_drv.Session.Creation.{Started, create_session-Started}
use virtualbox_drv.Session.Handles.{handles, table_handles}
use virtualbox_drv.Session.Whole.{Sound, Gone, cleanup_session-Gone}

-- A semaphore at address 8, with the reference of its handle and another one of its session.
abbrev semaphore : Obj
semaphore = record {
  magic = supdrvobj_magic;
  type = 4;
  destructor = 77;
  user1 = 70;
  user2 = 0;
  count = 2;
  creator_uid = 10;
  creator_gid = 0;
  creator_process = 0;
}

abbrev owner : Session
owner = record {
  id = 1;
  cookie = bird_inv;
  uid = 10;
  gid = 0;
  process = 0;
  usage = record { obj = 8; count = 2 } ∷ [];
}

abbrev one_object : DevExt
one_object = record {
  heap = update (λ _. none) 8 (some semaphore);
  objs = 8 ∷ [];
  usage_free = 0;
  records = 1;
  sessions = owner ∷ [];
  destroyed = [];
}

one_object-Inv : Inv one_object
unfolding total refs
one_object-Inv = record {
  cells = λ q. elim (Bool-cases (8 == q)) [ inl e ↦ ground arith | inr e ↦ ground arith ];
  positive = omega arith;
}

abbrev base_table : HandleTable
base_table = new_table 3 1 32768

base_table-IsCounted : IsCounted base_table
unfolding used_from
base_table-IsCounted = refl

abbrev one_handle : HandleTable
one_handle = take_free (link_table base_table) 8 4

one_handle-IsWf : IsWf one_handle
one_handle-IsWf = (
  range 1 2047,
  take_free-Wf (link_table base_table) 0 (range 1 2047) 8 4 (
      link_table-Wf base_table [] (new_table-Wf 3 1 32768 (omega arith)) (omega arith)
        (omega arith)),
)

one_handle-IsCounted : IsCounted one_handle
one_handle-IsCounted =
    take_free-IsCounted (link_table base_table) 0 (range 1 2047) 8 4
      (link_table-Wf base_table [] (new_table-Wf 3 1 32768 (omega arith)) (omega arith)
        (omega arith))
      (link_table-IsCounted base_table [] (new_table-Wf 3 1 32768 (omega arith))
        base_table-IsCounted)
      refl

-- The table has one handle, of the object 8.
one_handle-handles : table_handles one_handle ≡ record { handle = 1; obj = 8; ctx = 4 } ∷ []
unfolding take_free link_table used_from
one_handle-handles = refl

-- An image at address 100, opened once by the session 1.
abbrev image : Image
image = record {
  ptr = 100;
  base = 4096;
  alloc = 4090;
  size_tabs = 600;
  size_bits = 512;
  symbols = [];
  strtab = [];
  cb_strtab = 0;
  module_init = 0;
  module_term = 0;
  service = 0;
  state = opened;
  usage = 1;
  native = false;
  name = 97 ∷ [];
}

abbrev loader : Ldr
loader = record {
  images = image ∷ [];
  usage = λ t. if 1 == t then record { image = 100; count = 1 } ∷ [] else [];
  entry = no_entry;
  dev = one_object;
  terms = [];
}

loader-Balanced : BalancedLdr (λ _. 0) 1 loader
unfolding uses get_image
loader-Balanced = record {
  cells = λ q. elim (Bool-cases (100 == q)) [ inl e ↦ ground arith | inr e ↦ ground arith ];
  positive = (omega arith, tt);
  unique = (refl, tt);
}

abbrev memory : MemRef
memory = record { mem_obj = 7; map_obj = 8; type = 3 }

-- Two factories, of which the session 1 has registered the first.
abbrev in_use : State
in_use = record {
  ldr = loader;
  table = one_handle;
  bundles = record { used = 1; mem = memory ∷ replicate 63 unused } ∷ [];
  factories =
      record { factory = 20; session = 1; cch_name = 1 }
      ∷ record { factory = 30; session = 2; cch_name = 1 }
      ∷ [];
  freed = [];
}

in_use-Sound : Sound (λ _. 0) in_use 1 owner
unfolding find_session refs handles take_free link_table find_reg
in_use-Sound = record {
  inv = one_object-Inv;
  table = one_handle-IsWf;
  counted = one_handle-IsCounted;
  magic = refl;
  found = refl;
  valid = refl;
  set = rw one_handle-handles (omega arith, tt);
  backed = λ q.
      rw one_handle-handles
        (elim (Bool-cases (8 == q)) [ inl e ↦ ground arith | inr e ↦ ground arith ]);
  images = loader-Balanced;
  unique = (refl, (refl, tt));
}

cleanup_session-Gone_example : Returns (Gone (λ _. 0) in_use 1 owner) (cleanup_session in_use 1)
cleanup_session-Gone_example = cleanup_session-Gone (λ _. 0) in_use 1 owner in_use-Sound

abbrev environment : ℕ → SessionEnv
environment p = record {
  address = p;
  spinlock = success;
  table_memory = true;
  table_lock = success;
  process = 100;
}

create_session-Started_example :
    Started one_object 2 (create_session (environment 2) one_object true)
create_session-Started_example =
    create_session-Started (environment 2) one_object true one_object-Inv

-- A new session has an empty table of its own.
created : (create_session (environment 2) one_object true).1 ≡ some base_table
unfolding create_session create_ex
created = refl

-- Without memory no session is made.
no_session : create_session (environment 0) one_object true ≡ (one_object, none, no_memory)
unfolding create_session
no_session = refl
