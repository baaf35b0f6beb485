-- ===== src/Session.antt =====
-- The life of a session of vboxdrv/SUPDrv.c: how the parts that other modules model are put together
-- by supdrvCreateSession, supdrvCleanupSession and supdrvCloseSession.
pub mod Handles
pub mod Images
pub mod Whole
pub mod Creation
mod Tests
use virtualbox_drv.Common.{
  ℕ, ◌+◌, ◌-◌, ◌^◌, Bool, true, false, not, Option, none, some, List, [], ◌∷◌, ◌++◌, Status,
  success, no_memory, rt_success, if◌then◌else◌, ◌>>=◌, ◌==◌,
}
use virtualbox_drv.Factory.{FactoryReg, cleanup_factories, nil_r0_process}
use virtualbox_drv.HandleTable.{HandleTable, create_ex}
use virtualbox_drv.HandleTable.Destroy.{Delete, destroy_table}
use virtualbox_drv.Ldr.{Ldr}
use virtualbox_drv.Ldr.Free.{cleanup_session_images}
use virtualbox_drv.MemRef.{Bundle, cleanup_memory}
use virtualbox_drv.Obj.{Session, DevExt, bird_inv, obj_release, cleanup_objects}

-- What a session can hold: references to objects and images (in `ldr`, with the registry), handles,
-- memory, and registrations of factories. `freed` lists the memory objects that were freed.
pub record State : Type 0 where
  pub ldr : Ldr
  pub table : HandleTable
  pub bundles : List Bundle
  pub factories : List FactoryReg
  pub freed : List (ℕ × Bool)

-- supdrvSessionObjHandleDelete, on the calls that RTHandleTableDestroy makes; its status is ignored.
unfoldable pub delete_handles : DevExt → (s : ℕ) → List Delete → Option DevExt
delete_handles w s [] = some w
delete_handles w s (c ∷ cs) = do r ← obj_release w c.obj s; delete_handles r.0 s cs

-- The handles and the objects of supdrvCleanupSession.
unfoldable pub cleanup_handles : DevExt → HandleTable → (s : ℕ) → Option DevExt
cleanup_handles w t s = do d ← delete_handles w s (destroy_table t).0; cleanup_objects d s

-- supdrvCleanupSession, but for the loggers and the mapping of the global information page. The memory
-- has one chain of bundles, of this session.
unfoldable pub cleanup_session : State → (s : ℕ) → Option State
cleanup_session w s = do
  d ← cleanup_handles w.ldr.dev w.table s
  l ← cleanup_session_images (record w.ldr { dev = d }) s
  some (record w {
    ldr = l;
    bundles = [];
    factories = cleanup_factories s w.factories;
    freed = w.freed ++ cleanup_memory w.bundles;
  })

-- What supdrvCreateSession gets from the runtime: the memory of the session at an address, 0 for
-- NULL, the outcomes of its two creations, and the number of the calling process.
pub record SessionEnv : Type 0 where
  pub address : ℕ
  pub spinlock : Status
  pub table_memory : Bool
  pub table_lock : Status
  pub process : ℕ

-- supdrvCreateSession: the session, its handle table and the status.
unfoldable pub create_session :
    SessionEnv → DevExt → (user : Bool) → DevExt × Option HandleTable × Status
create_session env w user = if env.address == 0 then (w, none, no_memory) else (elim env.spinlock [
  | success ↦
      (let r = create_ex env.table_memory env.table_lock 3 1 32768 in
        if rt_success r.1
        then (
          record w {
            sessions =
                record {
                  id = env.address;
                  cookie = bird_inv;
                  uid = 2 ^ 32 - 1;
                  gid = 2 ^ 32 - 1;
                  process = if user then env.process else 2 ^ 32 - 1;
                  usage = [];
                }
                ∷ w.sessions;
          },
          r.0,
          success,
        )
        else (w, none, r.1))
  | other ↦ (w, none, other)
])
