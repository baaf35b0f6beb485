-- ===== src/Sem.antt =====
-- The event semaphores of vboxdrv/SUPDrvSem.c: objects of the registry behind handles of the
-- session's handle table. The single and the multiple release interface differ in the type of the
-- object, which is the context of the handle too, in the destructor, and in the runtime calls, whose
-- outcomes are arguments.
pub mod Retain
pub mod Lookup
pub mod Use
pub mod Close
pub mod Create
mod Tests
use virtualbox_drv.Common.{
  ℕ, ◌^◌, Bool, true, false, not, Option, none, some, List, [], ◌∷◌, Status, success,
  invalid_handle, invalid_parameter, invalid_pointer, rt_success, leb, ◌==◌, if◌then◌else◌, ◌>>=◌,
}
use virtualbox_drv.HandleTable.{
  HandleTable, ExpandEnv, lookup_with_ctx, free_with_ctx, alloc_with_ctx,
}
use virtualbox_drv.Obj.{
  Obj, Env, Session, DevExt, find_session, is_session_valid, obj_register, obj_add_ref_ex,
  obj_release,
}

-- The device extension, the handle table of the session, and the semaphores that were destroyed by
-- the functions themselves, the latest first.
pub record SemState : Type 0 where
  pub dev : DevExt
  pub table : HandleTable
  pub destroyed : List ℕ

-- One of the two interfaces: SUPDRVOBJTYPE_SEM_EVENT(_MULTI), of which SUPDRV_HANDLE_CTX_EVENT(_MULTI)
-- is the cast, and the address of the destructor.
pub record Kind : Type 0 where
  pub type : ℕ
  pub destructor : ℕ

abbrev pub event : (destructor : ℕ) → Kind
event d = record { type = 4; destructor = d }

abbrev pub event_multi : (destructor : ℕ) → Kind
event_multi d = record { type = 5; destructor = d }

-- supR0SemEventDestructor and supR0SemEventMultiDestructor: the semaphore that they destroy.
abbrev pub destructor_target : Obj → ℕ
destructor_target o = o.user1

-- A call that may not block consults no environment.
abbrev pub no_env : Env
no_env = record { fresh = 0; has_memory = false; race = λ w. w }

-- supdrvSessionObjHandleRetain, the retain callback of the session's handle table.
unfoldable pub handle_retain : DevExt → (obj s : ℕ) → Option (DevExt × Status)
handle_retain w obj s = obj_add_ref_ex no_env w obj s true

-- RTHandleTableLookupWithCtx on a table with that callback: what is found, and the registry.
unfoldable pub lookup_retained : DevExt → HandleTable → (s h ctx : ℕ) → Option (DevExt × ℕ)
lookup_retained w t s h ctx =
    let obj = lookup_with_ctx none t h ctx in
    if obj == 0
    then some (w, 0)
    else do r ← handle_retain w obj s; some (r.0, lookup_with_ctx (some (λ _ _. r.1)) t h ctx)

-- RTHandleTableFreeWithCtx on such a table.
unfoldable pub free_retained :
    DevExt → HandleTable → (s h ctx : ℕ) → Option (DevExt × HandleTable × ℕ)
free_retained w t s h ctx =
    let obj = lookup_with_ctx none t h ctx in
    if obj == 0 then some (w, t, 0) else do
      r ← handle_retain w obj s
      let f = free_with_ctx (some (λ _ _. r.1)) t h ctx
      some (r.0, f.0, f.1)

-- What the environment does during a creation: the outcome of RTSemEvent(Multi)Create, whether the
-- pointer to the result is valid, the environments of SUPR0ObjRegister and of the handle allocation,
-- and what other threads do to the registry while the latter leaves its lock.
pub record CreateEnv : Type 0 where
  pub valid_pointer : Bool
  pub created : Status
  pub real : ℕ
  pub register : Env
  pub fuel : ℕ
  pub expand : ℕ → ExpandEnv
  pub during : DevExt → DevExt

-- The object is there: it gets a handle, or is released again.
unfoldable pub publish :
    CreateEnv → SemState → (k : Kind) (s p : ℕ) → Option (SemState × Status × Option ℕ)
publish env w k s p = do
  r ← alloc_with_ctx env.fuel env.expand w.table p k.type
  let dev = env.during w.dev
  if rt_success r.1
      then some (record w { dev = dev; table = r.0 }, success, some r.2)
      else do d ← obj_release dev p s; some (record w { dev = d.0; table = r.0 }, r.1, none)

-- SUPSemEventCreate and SUPSemEventMultiCreate: the state, the status and the handle written.
unfoldable pub sem_create :
    CreateEnv → SemState → (k : Kind) (s : ℕ) → Option (SemState × Status × Option ℕ)
sem_create env w k s = do
  x ← find_session s w.dev.sessions
  if not (is_session_valid x)
      then some (w, invalid_parameter, none)
      else if not env.valid_pointer
      then some (w, invalid_pointer, none)
      else if not (rt_success env.created)
      then some (w, env.created, none)
      else do
        r ← obj_register env.register w.dev s k.type k.destructor env.real 0
        if r.1 == 0
            then some
                (record w { dev = r.0; destroyed = env.real ∷ w.destroyed }, env.created, none)
            else publish env (record w { dev = r.0 }) k s r.1

-- SUPSemEventClose and SUPSemEventMultiClose.
unfoldable pub sem_close : SemState → (k : Kind) (s h : ℕ) → Option (SemState × Status)
sem_close w k s h = do
  x ← find_session s w.dev.sessions
  if not (is_session_valid x)
      then some (w, invalid_parameter)
      else if h == 0
      then some (w, success)
      else if leb (2 ^ 32) h
      then some (w, invalid_handle)
      else do
        r ← free_retained w.dev w.table s h k.type
        if r.2 == 0 then some (record w { dev = r.0; table = r.1 }, invalid_handle) else do
          a ← obj_release r.0 r.2 s
          b ← obj_release a.0 r.2 s
          some (record w { dev = b.0; table = r.1 }, b.1)

-- What the other functions share. `run` is the runtime call on the semaphore, and `during` what
-- other threads do to the registry meanwhile.
unfoldable pub sem_use :
    (run : ℕ → Status) (during : DevExt → DevExt)
    → DevExt
    → HandleTable
    → (k : Kind) (s h : ℕ) → Option (DevExt × Status)
sem_use run during w t k s h = do
  x ← find_session s w.sessions
  if not (is_session_valid x)
      then some (w, invalid_parameter)
      else if leb (2 ^ 32) h
      then some (w, invalid_handle)
      else do
        r ← lookup_retained w t s h k.type
        if r.1 == 0
            then some (r.0, invalid_handle)
            else do o ← r.0.heap r.1; d ← obj_release (during r.0) r.1 s; some (d.0, run o.user1)

module _ (destructor : ℕ) where
  abbrev pub sem_event_create :
      CreateEnv → SemState → (s : ℕ) → Option (SemState × Status × Option ℕ)
  sem_event_create env w s = sem_create env w (event destructor) s

  abbrev pub sem_event_multi_create :
      CreateEnv → SemState → (s : ℕ) → Option (SemState × Status × Option ℕ)
  sem_event_multi_create env w s = sem_create env w (event_multi destructor) s

  abbrev pub sem_event_close : SemState → (s h : ℕ) → Option (SemState × Status)
  sem_event_close w s h = sem_close w (event destructor) s h

  abbrev pub sem_event_multi_close : SemState → (s h : ℕ) → Option (SemState × Status)
  sem_event_multi_close w s h = sem_close w (event_multi destructor) s h

  -- The runtime calls, on the semaphore, and on the semaphore and the time to wait.
  module _ (call : ℕ → Status) (wait : ℕ → ℕ → Status) (during : DevExt → DevExt) (w : DevExt)
      (t : HandleTable) (s h : ℕ) where
    abbrev pub sem_event_signal : Option (DevExt × Status)
    sem_event_signal = sem_use call during w t (event destructor) s h

    abbrev pub sem_event_wait : (millies : ℕ) → Option (DevExt × Status)
    sem_event_wait millies = sem_use (λ e. wait e millies) during w t (event destructor) s h

    abbrev pub sem_event_wait_no_resume : (millies : ℕ) → Option (DevExt × Status)
    sem_event_wait_no_resume millies =
        sem_use (λ e. wait e millies) during w t (event destructor) s h

    abbrev pub sem_event_multi_signal : Option (DevExt × Status)
    sem_event_multi_signal = sem_use call during w t (event_multi destructor) s h

    abbrev pub sem_event_multi_reset : Option (DevExt × Status)
    sem_event_multi_reset = sem_use call during w t (event_multi destructor) s h

    abbrev pub sem_event_multi_wait : (millies : ℕ) → Option (DevExt × Status)
    sem_event_multi_wait millies =
        sem_use (λ e. wait e millies) during w t (event_multi destructor) s h

    abbrev pub sem_event_multi_wait_no_resume : (millies : ℕ) → Option (DevExt × Status)
    sem_event_multi_wait_no_resume millies =
        sem_use (λ e. wait e millies) during w t (event_multi destructor) s h
