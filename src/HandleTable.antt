-- ===== src/HandleTable.antt =====
-- The handle tables of common/misc/handletablectx.c, with the entries of common/misc/handletable.h,
-- for handles that carry a context, on a host with 64-bit pointers.
pub mod FreeList
pub mod WellFormed
pub mod Expansion
pub mod Handles
pub mod Taking
pub mod Growth
pub mod Allocation
pub mod Creation
pub mod Destroy
pub mod Counted
pub mod Counting
pub mod Racing
mod Tests
use virtualbox_drv.Common.{
  ℕ, zero, suc, ◌+◌, ◌-◌, ◌*◌, ◌/◌, ◌%◌, ◌^◌, Bool, true, false, not, ◌&&◌, Option, none, some,
  Status, success, invalid_handle, invalid_function, invalid_parameter, no_memory, no_more_handles,
  rt_success, ltb, leb, ◌==◌, if◌then◌else◌, update, inc32, dec32,
}

abbrev pub level2_entries : ℕ
level2_entries = 2048

-- NIL_RTHT_INDEX.
abbrev pub nil_index : ℕ
nil_index = 2 ^ 32 - 1

abbrev pub handle_table_magic : ℕ
handle_table_magic = 0x19830808

-- RTHTENTRYCTX, whose first word is also RTHTENTRYFREE::iNext.
pub record Entry : Type 0 where
  pub word : ℕ
  pub ctx : ℕ

-- RTHT_IS_FREE, RTHT_SET_FREE_IDX and RTHT_GET_FREE_IDX.
abbrev pub is_free_word : ℕ → Bool
is_free_word w = w % 4 == 3

abbrev pub free_word : ℕ → ℕ
free_word i = (i * 4 + 3) % 2 ^ 64

abbrev pub free_index : ℕ → ℕ
free_index w = w / 4 % 2 ^ 32

-- The context of a free entry.
abbrev pub free_ctx : ℕ
free_ctx = 2 ^ 64 - 8

-- RTHANDLETABLEINT. The entry at an index, `papvLevel1[i / 2048][i % 2048]`, is `cells i`; second
-- level tables are only added, at `cur`, so those that exist are the ones below it.
pub record HandleTable : Type 0 where
  pub magic : ℕ
  pub has_context : Bool
  pub base : ℕ
  pub cur : ℕ
  pub max : ℕ
  pub allocated : ℕ
  pub c_level1 : ℕ
  pub free_head : ℕ
  pub free_tail : ℕ
  pub cells : ℕ → Entry

-- rtHandleTableLookupWithCtxIdx and rtHandleTableLookupWithCtx.
unfoldable pub lookup_index : HandleTable → ℕ → Option Entry
lookup_index t i = if ltb i t.cur then some (t.cells i) else none

abbrev pub index_of : HandleTable → (h : ℕ) → ℕ
index_of t h = (h + 2 ^ 32 - t.base) % 2 ^ 32

-- The answer of the retain callback: `pvObj`, or NULL if it fails.
abbrev pub retained : Option (ℕ → ℕ → Status) → (obj ctx : ℕ) → ℕ
retained none obj ctx = obj
retained (some f) obj ctx = if rt_success (f obj ctx) then obj else 0

-- What is found behind a handle with a context: the object after the retain callback, 0 for NULL.
unfoldable pub find_object : Option (ℕ → ℕ → Status) → HandleTable → (h ctx : ℕ) → ℕ
find_object retain t h ctx = elim (lookup_index t (index_of t h)) [
  | none ↦ 0
  | some e ↦
      if not (e.ctx == ctx)
      then 0
      else if is_free_word e.word
      then 0
      else retained retain e.word ctx
]

-- RTHandleTableLookupWithCtx.
unfoldable pub lookup_with_ctx : Option (ℕ → ℕ → Status) → HandleTable → (h ctx : ℕ) → ℕ
lookup_with_ctx retain t h ctx =
    if not (t.magic == handle_table_magic)
    then 0
    else if not t.has_context
    then 0
    else find_object retain t h ctx

-- An entry becomes the tail of the free list.
unfoldable pub link_free : HandleTable → (i : ℕ) → HandleTable
link_free t i =
    let cleared = update t.cells i (record { word = free_word nil_index; ctx = free_ctx }) in
    if t.free_tail == nil_index
    then record t { cells = cleared; free_head = i; free_tail = i; allocated = dec32 t.allocated }
    else record t {
      cells = update cleared t.free_tail (record (cleared t.free_tail) { word = free_word i });
      free_tail = i;
      allocated = dec32 t.allocated;
    }

-- RTHandleTableFreeWithCtx: the table and the object, 0 for NULL.
unfoldable pub free_with_ctx : Option (ℕ → ℕ → Status) → HandleTable → (h ctx : ℕ) → HandleTable × ℕ
free_with_ctx retain t h ctx =
    let obj = lookup_with_ctx retain t h ctx in
    if obj == 0 then (t, 0) else (link_free t (index_of t h), obj)

-- The head of the free list takes the object.
unfoldable pub take_free : HandleTable → (obj ctx : ℕ) → HandleTable
take_free t obj ctx =
    let i = t.free_head in
    let next = free_index (t.cells i).word in
    record t {
      cells = update t.cells i (record { word = obj; ctx = ctx });
      free_head = if i == t.free_tail then nil_index else next;
      free_tail = if i == t.free_tail then nil_index else t.free_tail;
      allocated = inc32 t.allocated;
    }

-- The entries of a new second level table, linked from the first to the last.
abbrev pub new_cells : (cur : ℕ) → (ℕ → Entry) → ℕ → Entry
new_cells cur f j =
    if ltb j cur
    then f j
    else if ltb j (cur + 2047)
    then record { word = free_word (j + 1); ctx = free_ctx }
    else if j == cur + 2047
    then record { word = free_word nil_index; ctx = free_ctx }
    else f j

-- The new table joins the free list.
unfoldable pub link_table : HandleTable → HandleTable
link_table t =
    let f = new_cells t.cur t.cells in
    record t {
      cells =
          if t.free_tail == nil_index
          then f
          else update f t.free_tail (record (f t.free_tail) { word = free_word t.cur });
      free_head = if t.free_tail == nil_index then t.cur else t.free_head;
      free_tail = t.cur + 2047;
      cur = t.cur + 2048;
    }

-- One expansion's environment: the outcomes of the allocations, and what other threads do to the
-- table each time the lock is left.
pub record ExpandEnv : Type 0 where
  pub level1_memory : Bool
  pub table_memory : Bool
  pub race_alloc : HandleTable → HandleTable
  pub race_level1 : HandleTable → HandleTable
  pub race_lost : HandleTable → HandleTable

-- The size of the first level table that is asked for, 0 for none.
abbrev pub level1_request : HandleTable → ℕ
level1_request t =
    let wanted = if leb t.c_level1 (t.cur / 2048) then t.c_level1 + 512 else 0 in
    if ltb (t.max / 2048) wanted then t.max / 2048 else wanted

-- The part of an expansion behind the allocations.
unfoldable pub insert_table : ExpandEnv → (c_level1 : ℕ) → HandleTable → HandleTable
insert_table env c t =
    let grown = if ltb t.c_level1 c then record t { c_level1 = c } else t in
    let u = if c == 0 then t else env.race_level1 grown in
    if ltb (u.cur / 2048) u.c_level1 && ltb u.cur u.max then link_table u else env.race_lost u

-- The outcome of a round of the allocation loop.
pub data AllocRound : Type 0 where
  again : HandleTable → AllocRound
  done : HandleTable → Status → (h : ℕ) → AllocRound

unfoldable pub alloc_round : ExpandEnv → HandleTable → (obj ctx : ℕ) → AllocRound
alloc_round env t obj ctx =
    if not (t.free_head == nil_index)
    then done (take_free t obj ctx) success ((t.free_head + t.base) % 2 ^ 32)
    else if leb t.max t.cur
    then done t no_more_handles ((t.base + 2 ^ 32 - 1) % 2 ^ 32)
    else if not (level1_request t == 0) && not env.level1_memory
    then done t no_memory ((t.base + 2 ^ 32 - 1) % 2 ^ 32)
    else if not env.table_memory
    then done t no_memory ((t.base + 2 ^ 32 - 1) % 2 ^ 32)
    else again (insert_table env (level1_request t) (env.race_alloc t))

-- The allocation loop, with the environments of its rounds; `none` if they are used up.
unfoldable pub alloc_loop :
    (fuel : ℕ) → (ℕ → ExpandEnv) → HandleTable → (obj ctx : ℕ) → Option (HandleTable × Status × ℕ)
alloc_loop zero envs t obj ctx = none
alloc_loop (suc n) envs t obj ctx = elim (alloc_round (envs 0) t obj ctx) [
  | again u ↦ alloc_loop n (λ k. envs (suc k)) u obj ctx
  | done u st h ↦ some (u, st, h)
]

-- RTHandleTableAllocWithCtx; a refusal before the handle is written gives the handle 0.
unfoldable pub alloc_with_ctx :
    (fuel : ℕ) → (ℕ → ExpandEnv) → HandleTable → (obj ctx : ℕ) → Option (HandleTable × Status × ℕ)
alloc_with_ctx fuel envs t obj ctx =
    if not (t.magic == handle_table_magic)
    then some (t, invalid_handle, 0)
    else if not t.has_context
    then some (t, invalid_function, 0)
    else if is_free_word obj
    then some (t, invalid_parameter, 0)
    else alloc_loop fuel envs t obj ctx

-- The number of handles, a multiple of the second level tables.
abbrev pub round_max : ℕ → ℕ
round_max c =
    let capped = if leb (2 ^ 32 - 1 - 2048) c then 2 ^ 32 - 1 - 2048 + 1 else c in
    (capped + 2048 - 1) / 2048 * 2048

-- The table as it is initialized; there are no entries to be read.
abbrev pub new_table : (flags base max : ℕ) → HandleTable
new_table flags base max = record {
  magic = handle_table_magic;
  has_context = flags % 2 == 1;
  base = base;
  cur = 0;
  max = round_max max;
  allocated = 0;
  c_level1 = if ltb (round_max max / 2048) 256 then round_max max / 2048 else 0;
  free_head = nil_index;
  free_tail = nil_index;
  cells = λ _. record { word = 0; ctx = 0 };
}

-- RTHandleTableCreateEx with valid pointers. `has_memory` and `lock` are the outcomes of the
-- allocation and of the creation of the spinlock.
unfoldable pub create_ex :
    (has_memory : Bool) (lock : Status) (flags base max : ℕ) → Option HandleTable × Status
create_ex has_memory lock flags base max =
    if leb 4 flags
    then (none, invalid_parameter)
    else if not (ltb 0 max)
    then (none, invalid_parameter)
    else if not (leb base (2 ^ 32 - 1 - max))
    then (none, invalid_parameter)
    else if not has_memory
    then (none, no_memory)
    else if leb 2 flags && not (rt_success lock)
    then (none, lock)
    else (some (new_table flags base max), success)
