-- ===== src/Sem/Create.antt =====
-- SUPSemEventCreate and SUPSemEventMultiCreate of vboxdrv/SUPDrvSem.c.
use virtualbox_drv.Common.{
  ℕ, ◌≡◌, ◌≢◌, ◌⊎◌, true, false, Option, none, some, ◌∷◌, ap, Status, success, invalid_pointer,
  invalid_parameter, rt_success, ◌>>=◌,
}
use virtualbox_drv.HandleTable.{HandleTable}
use virtualbox_drv.HandleTable.Allocation.{Quiet}
use virtualbox_drv.HandleTable.Taking.{Alloced}
use virtualbox_drv.HandleTable.WellFormed.{IsWf}
use virtualbox_drv.Obj.{Obj, Session, DevExt, find_session, is_session_valid, new_obj}
use virtualbox_drv.Obj.Counts.{total}
use virtualbox_drv.Obj.Invariant.{Inv}
use virtualbox_drv.Obj.Register.{Before}
use virtualbox_drv.Obj.Registering.{obj_register-null}
use virtualbox_drv.Sem.{SemState, Kind, CreateEnv, sem_create}
use virtualbox_drv.Sem.Retain.{IsHeld, Lowered}

-- What SUPR0ObjRegister returns is held by the session.
abbrev NewHeld : (p s : ℕ) → DevExt × ℕ → Type 0
NewHeld p s r = (r.1 ≡ 0) ⊎ ((r.1 ≡ p) × (p ≢ 0) × IsHeld r.0 p s)

-- The outcomes of a creation: refused, with nothing changed; the runtime has no semaphore; the
-- semaphore could not be registered and is destroyed, which the status does not show; there is no
-- handle, and the reference of the registration is gone again; or the new handle, unused before,
-- leads to the new object, which the session holds, and all other handles stay.
pub data Made (env : CreateEnv) (w : SemState) (k : Kind) (s : ℕ) (x : Session)
    : SemState × Status × Option ℕ → Type 0 where
  bad_session : is_session_valid x ≡ false → Made env w k s x (w, invalid_parameter, none)
  bad_pointer : env.valid_pointer ≡ false → Made env w k s x (w, invalid_pointer, none)
  no_semaphore : rt_success env.created ≡ false → Made env w k s x (w, env.created, none)
  unregistered :
      {d : DevExt}
      → Inv d
      → rt_success env.created ≡ true
      → Made env w k s x
          (record w { dev = d; destroyed = env.real ∷ w.destroyed }, env.created, none)
  no_handle :
      {d : DevExt} {st : Status} (v : DevExt)
      → Inv d
      → rt_success st ≡ false
      → total env.register.fresh v.sessions ≡ 1
      → Lowered (env.during v) env.register.fresh d
      → Made env w k s x (record w { dev = d }, st, none)
  made :
      {t : HandleTable} {h : ℕ} (v : DevExt)
      → Inv (env.during v)
      → IsHeld (env.during v) env.register.fresh s
      → total env.register.fresh v.sessions ≡ 1
      → Alloced w.table env.register.fresh k.type (t, success, h)
      → IsWf t
      → Made env w k s x (record w { dev = env.during v; table = t }, success, some h)

-- What the creation relies on: what SUPR0ObjRegister relies on, a session that is valid whenever the
-- registry is looked at, and threads that keep the new reference while the handle is allocated.
pub record CreateBefore (env : CreateEnv) (w : SemState) (k : Kind) (s : ℕ) (x : Session)
    : Type 0 where
  pub register : Before env.register w.dev s x (new_obj x k.type k.destructor env.real 0)
  pub table : IsWf w.table
  pub quiet : Quiet env.expand
  pub valid : is_session_valid register.still.0 ≡ true
  pub others :
      (v : DevExt)
      → Inv v
      → IsHeld v env.register.fresh s
      → Inv (env.during v) × IsHeld (env.during v) env.register.fresh s

-- Out of memory: where the object cannot be allocated the semaphore is destroyed again, no handle is
-- written, and the status is nevertheless that of the runtime's creation, a success.
pub sem_create-no_memory :
    (env : CreateEnv) (w : SemState) (k : Kind) (s : ℕ) (x : Session)
    → find_session s w.dev.sessions ≡ some x
    → is_session_valid x ≡ true
    → env.valid_pointer ≡ true
    → env.created ≡ success
    → env.register.fresh ≡ 0
    → sem_create env w k s ≡ some (record w { destroyed = env.real ∷ w.destroyed }, success, none)
unfolding sem_create
sem_create-no_memory env w k s x found valid pointer created out =
    let null = obj_register-null env.register w.dev s k.type k.destructor env.real 0 x found out in
    let good : rt_success env.created ≡ true = ap rt_success created in
    rw (found, valid, pointer, good, null)
      (ap (λ st. some (record w { destroyed = env.real ∷ w.destroyed }, st, none)) created)
