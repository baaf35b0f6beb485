-- ===== src/Obj.antt =====
-- The registered objects of vboxdrv/SUPDrv.c: their records, the per-session usage records, and the
-- functions that count references.
pub mod Behaviour
pub mod Cases
pub mod Cleanup
pub mod Counts
pub mod Preserved
pub mod Reach
mod Tests
pub mod Register
pub mod Registering
pub mod Invariant
use virtualbox_drv.Common.{
  ℕ, ◌+◌, ◌-◌, ◌*◌, ◌^◌, ◌%◌, Bool, true, false, not, ◌&&◌, ◌||◌, Option, none, some, List, [], ◌∷◌,
  Status, success, object_destroyed, invalid_parameter, invalid_pointer, permission_denied,
  wrong_order, try_again, no_memory, ltb, leb, ◌==◌, if◌then◌else◌, ◌>>=◌, inc32, dec32, update,
  unlink,
}

-- SUPDRVOBJ. The chain pointer `pNext` is the list `objs` of the device extension.
pub record Obj : Type 0 where
  pub magic : ℕ
  pub type : ℕ
  pub destructor : ℕ
  pub user1 : ℕ
  pub user2 : ℕ
  pub count : ℕ
  pub creator_uid : ℕ
  pub creator_gid : ℕ
  pub creator_process : ℕ

-- SUPDRVUSAGE.
pub record Usage : Type 0 where
  pub obj : ℕ
  pub count : ℕ

-- The fields of SUPDRVSESSION that the object functions read. `id` is the session's address.
pub record Session : Type 0 where
  pub id : ℕ
  pub cookie : ℕ
  pub uid : ℕ
  pub gid : ℕ
  pub process : ℕ
  pub usage : List Usage

-- The shared state: SUPDRVDEVEXT and all that its lock protects. `heap` says which object records
-- are allocated, `records` counts the usage records that are allocated, `usage_free` those on the
-- free list, and `destroyed` lists the destructor calls that were made, the latest first.
pub record DevExt : Type 0 where
  pub heap : ℕ → Option Obj
  pub objs : List ℕ
  pub usage_free : ℕ
  pub records : ℕ
  pub sessions : List Session
  pub destroyed : List Obj

abbrev pub supdrvobj_magic : ℕ
supdrvobj_magic = 0x18900915

abbrev pub supdrvobj_magic_dead : ℕ
supdrvobj_magic_dead = 0x19760112

abbrev pub bird_inv : ℕ
bird_inv = 0x62697264

abbrev pub objtype_end : ℕ
objtype_end = 6

-- What the environment does during one call: the results of RTMemAlloc, and what other threads do
-- while the lock is left for an allocation.
pub record Env : Type 0 where
  pub fresh : ℕ
  pub has_memory : Bool
  pub race : DevExt → DevExt

-- The session at an address; `none` where there is none.
unfoldable pub find_session : ℕ → List Session → Option Session
find_session s [] = none
find_session s (x ∷ xs) = if x.id == s then some x else find_session s xs

-- A write to the usage list of the session at an address.
unfoldable pub set_usage : ℕ → List Usage → List Session → List Session
set_usage s us [] = []
set_usage s us (x ∷ xs) = if x.id == s then record x { usage = us } ∷ xs else x ∷ set_usage s us xs

-- SUP_IS_SESSION_VALID.
abbrev pub is_session_valid : Session → Bool
is_session_valid x = x.cookie == bird_inv

-- The search for the session's record of an object, with its count raised.
unfoldable pub bump_usage : ℕ → List Usage → Option (List Usage)
bump_usage p [] = none
bump_usage p (u ∷ us) =
    let rest = bump_usage p us in
    if u.obj == p
    then some (record u { count = inc32 u.count } ∷ us)
    else (elim rest [ none ↦ none | some vs ↦ some (u ∷ vs) ])

-- The record of an object in a list, looked for by `SUPR0ObjRelease`: absent, still in use after one
-- reference less, or used up and taken out.
pub data Drop : Type 0 where
  missing : Drop
  kept : List Usage → Drop
  last : List Usage → Drop

abbrev pub behind : Usage → Drop → Drop
behind u missing = missing
behind u (kept us) = kept (u ∷ us)
behind u (last us) = last (u ∷ us)

unfoldable pub drop_usage : ℕ → List Usage → Drop
drop_usage p [] = missing
drop_usage p (u ∷ us) =
    let rest = drop_usage p us in
    if u.obj == p
    then (if ltb 1 u.count then kept (record u { count = dec32 u.count } ∷ us) else last us)
    else behind u rest

-- A write to the record of one object.
abbrev pub put_obj : ℕ → Option Obj → DevExt → DevExt
put_obj p o w = record w { heap = update w.heap p o }

abbrev pub put_usage : ℕ → List Usage → DevExt → DevExt
put_usage s us w = record w { sessions = set_usage s us w.sessions }

-- The usage record for a new object: from the free list, or allocated while the lock is left.
-- `none` beside the state says that the allocation failed.
pub take_record : Env → DevExt → DevExt × Bool
take_record env w =
    if ltb 0 w.usage_free
    then (record w { usage_free = w.usage_free - 1 }, true)
    else (let v = env.race w in
        if env.has_memory then (record v { records = v.records + 1 }, true) else (v, false))

-- The object and its first usage record are linked in.
unfoldable pub link_obj : DevExt → (p s : ℕ) → Option (DevExt × ℕ)
link_obj w p s = do
  x ← find_session s w.sessions
  some (
    record w {
      objs = p ∷ w.objs;
      sessions = set_usage s (record { obj = p; count = 1 } ∷ x.usage) w.sessions;
    },
    p,
  )

unfoldable pub new_obj : Session → ℕ → ℕ → ℕ → ℕ → Obj
new_obj x type destructor user1 user2 = record {
  magic = supdrvobj_magic;
  type = type;
  destructor = destructor;
  user1 = user1;
  user2 = user2;
  count = 1;
  creator_uid = x.uid;
  creator_gid = x.gid;
  creator_process = x.process;
}

-- SUPR0ObjRegister. The result is the object's address, 0 for NULL; `env.fresh` is what the
-- allocation of the object returns.
pub obj_register : Env → DevExt → (s type destructor user1 user2 : ℕ) → Option (DevExt × ℕ)
obj_register env w s type destructor user1 user2 = do
  x ← find_session s w.sessions
  if not (is_session_valid x)
      then some (w, 0)
      else if not (ltb 0 type && ltb type objtype_end)
      then some (w, 0)
      else if destructor == 0
      then some (w, 0)
      else if env.fresh == 0
      then some (w, 0)
      else (let p = env.fresh in
          let (v, got) =
            take_record env (put_obj p (some (new_obj x type destructor user1 user2)) w) in
          if got then link_obj v p s else some (put_obj p none v, 0))

-- The part of SUPR0ObjAddRefEx behind the preallocation; `pre` says whether a usage record is held.
pub add_ref_locked : DevExt → (s p : ℕ) → (pre : Bool) → Option (DevExt × Status)
add_ref_locked w s p pre = do
  x ← find_session s w.sessions
  o ← w.heap p
  elim (bump_usage p x.usage) [
    | some us ↦ some (
      record w {
        heap = update w.heap p (some (record o { count = inc32 o.count }));
        sessions = set_usage s us w.sessions;
        usage_free = if pre then w.usage_free + 1 else w.usage_free;
      },
      success,
    )
    | none ↦
        if pre
        then some (
          record w {
            heap = update w.heap p (some (record o { count = inc32 o.count }));
            sessions = set_usage s (record { obj = p; count = 1 } ∷ x.usage) w.sessions;
          },
          success,
        )
        else some (put_obj p (some (record o { count = dec32 (inc32 o.count) })) w, try_again)
  ]

-- The lock is left for the allocation of a usage record, and the object looked at once more.
pub add_ref_blocking : Env → DevExt → (s p : ℕ) → Option (DevExt × Status)
add_ref_blocking env w s p =
    if not env.has_memory
    then some (env.race w, no_memory)
    else (let v = record (env.race w) { records = (env.race w).records + 1 } in
        do
          o ← v.heap p
          if not (o.magic == supdrvobj_magic)
              then some (v, wrong_order)
              else add_ref_locked v s p true)

-- SUPR0ObjAddRefEx.
pub obj_add_ref_ex : Env → DevExt → (p s : ℕ) → (no_blocking : Bool) → Option (DevExt × Status)
obj_add_ref_ex env w p s no_blocking = do
  x ← find_session s w.sessions
  if not (is_session_valid x)
      then some (w, invalid_parameter)
      else if p == 0
      then some (w, invalid_pointer)
      else do
        o ← w.heap p
        if not (o.magic == supdrvobj_magic || o.magic == supdrvobj_magic_dead)
            then some (w, invalid_parameter)
            else if not (o.magic == supdrvobj_magic)
            then some (w, wrong_order)
            else if ltb 0 w.usage_free
            then add_ref_locked (record w { usage_free = w.usage_free - 1 }) s p true
            else if not no_blocking
            then add_ref_blocking env w s p
            else add_ref_locked w s p false

-- SUPR0ObjAddRef.
pub obj_add_ref : Env → DevExt → (p s : ℕ) → Option (DevExt × Status)
obj_add_ref env w p s = obj_add_ref_ex env w p s false

-- The destructor is called, if there is one, and the record is freed.
pub destroy : ℕ → Obj → DevExt → DevExt
destroy p o w = record w {
  heap = update w.heap p none;
  destroyed = if o.destructor == 0 then w.destroyed else o ∷ w.destroyed;
}

-- The last reference of the session is gone: its record is on the free list already.
pub release_last : DevExt → ℕ → Obj → DevExt × Status
release_last w p o =
    if ltb 1 o.count
    then (put_obj p (some (record o { count = dec32 o.count })) w, success)
    else (let dead = record o { magic = supdrvobj_magic_dead } in
        (
          destroy p dead (record w { heap = update w.heap p (some dead); objs = unlink p w.objs }),
          object_destroyed,
        ))

-- SUPR0ObjRelease.
pub obj_release : DevExt → (p s : ℕ) → Option (DevExt × Status)
obj_release w p s = do
  x ← find_session s w.sessions
  if not (is_session_valid x)
      then some (w, invalid_parameter)
      else if p == 0
      then some (w, invalid_parameter)
      else do
        o ← w.heap p
        if not (o.magic == supdrvobj_magic)
            then some (w, invalid_parameter)
            else (elim (drop_usage p x.usage) [
              | missing ↦ some (w, invalid_parameter)
              | kept us ↦ some (
                put_usage s us (put_obj p (some (record o { count = dec32 o.count })) w),
                success,
              )
              | last us ↦
                  some
                    (release_last (record (put_usage s us w) { usage_free = w.usage_free + 1 }) p o)
            ])

-- SUPR0ObjVerifyAccess, with supdrvOSObjCanAccess of the Linux part, which decides nothing.
pub obj_verify_access : DevExt → (p s : ℕ) → Option Status
obj_verify_access w p s = do
  x ← find_session s w.sessions
  if not (is_session_valid x)
      then some invalid_parameter
      else if p == 0
      then some invalid_parameter
      else do
        o ← w.heap p
        if not (o.magic == supdrvobj_magic)
            then some invalid_parameter
            else if o.creator_uid == x.uid
            then some success
            else some permission_denied

-- One round of the loop of supdrvCleanupSession over the session's usage records: the first record
-- is taken off and freed, the object loses the record's references or is destroyed.
pub cleanup_usage : DevExt → (s : ℕ) → Usage → List Usage → Option DevExt
cleanup_usage w s u us = do
  o ← w.heap u.obj
  let v = put_usage s us w
  let v = record v { records = v.records - 1 }
  some (
      if ltb u.count o.count
      then put_obj u.obj (some (record o { count = (o.count + 2 ^ 32 - u.count) % 2 ^ 32 })) v
      else destroy u.obj o (record v { objs = unlink u.obj v.objs }))

pub cleanup_loop : DevExt → (s : ℕ) → List Usage → Option DevExt
cleanup_loop w s [] = some w
cleanup_loop w s (u ∷ us) = do v ← cleanup_usage w s u us; cleanup_loop v s us

-- The object part of supdrvCleanupSession.
pub cleanup_objects : DevExt → (s : ℕ) → Option DevExt
cleanup_objects w s = do x ← find_session s w.sessions; cleanup_loop w s x.usage
