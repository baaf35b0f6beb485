-- ===== src/MpNotify.antt =====
-- The notifications of r0drv/mpnotification-r0drv.c: RTMpNotificationRegister,
-- RTMpNotificationDeregister, rtMpNotificationDoCallbacks, rtR0MpNotificationInit and
-- rtR0MpNotificationTerm.
pub mod Changes
pub mod Delivery
pub mod Registration
mod Tests
use mathlib.Core.Option
use virtualbox_drv.Common.{
  ℕ, zero, suc, ◌+◌, ◌%◌, Bool, true, false, not, ◌&&◌, Option, none, some, List, [], ◌∷◌, ◌++◌,
  map, Status, success, invalid_pointer, wrong_order, already_exists, no_memory, not_found,
  rt_success, ◌==◌, if◌then◌else◌, inc32, length,
}

-- RTMPNOTIFYREG; `id` stands for its address, and no two registrations ever share one.
pub record NotifyReg : Type 0 where
  pub id : ℕ
  pub callback : ℕ
  pub user : ℕ
  pub done : ℕ → Bool

-- The global variables: is there a spinlock, the chain of records, the last done bit, the generation.
pub record Notify : Type 0 where
  pub has_lock : Bool
  pub chain : List NotifyReg
  pub done_bit : ℕ
  pub generation : ℕ

-- The search by which a record is told from others.
abbrev pub is_same : (callback user : ℕ) → NotifyReg → Bool
is_same callback user r = r.user == user && r.callback == callback

unfoldable pub find_reg : (callback user : ℕ) → List NotifyReg → Option NotifyReg
find_reg callback user [] = none
find_reg callback user (r ∷ rs) =
    if is_same callback user r then some r else find_reg callback user rs

unfoldable pub unlink : (callback user : ℕ) → List NotifyReg → List NotifyReg
unlink callback user [] = []
unlink callback user (r ∷ rs) =
    let rest = unlink callback user rs in if is_same callback user r then rs else r ∷ rest

-- The outcome of the allocation, and what other threads do while the lock is not held.
pub record NotifyEnv : Type 0 where
  pub memory : Option ℕ
  pub race : Notify → Notify

-- A status and the records freed.
pub record NotifyResult : Type 0 where
  pub status : Status
  pub after : Notify
  pub freed : List ℕ

abbrev pub fails : Status → Notify → NotifyResult
fails s w = record { status = s; after = w; freed = [] }

-- A new record has all done bits set, so that an event in progress does not call it.
abbrev pub new_reg : (id callback user : ℕ) → NotifyReg
new_reg id callback user = record { id = id; callback = callback; user = user; done = λ i. true }

-- The second part of RTMpNotificationRegister, with the outcome of its search: the new record is put at
-- the end of the chain, or the one that another thread has registered meanwhile is freed.
abbrev pub insert_found : Option NotifyReg → (id callback user : ℕ) → Notify → NotifyResult
insert_found none id callback user w = record {
  status = success;
  after = record w {
    chain = w.chain ++ (new_reg id callback user ∷ []);
    generation = inc32 w.generation;
  };
  freed = [];
}
insert_found (some r) id callback user w = record {
  status = already_exists;
  after = record w { generation = inc32 w.generation };
  freed = r.id ∷ [];
}

abbrev pub insert_reg : (id callback user : ℕ) → Notify → NotifyResult
insert_reg id callback user w = insert_found (find_reg callback user w.chain) id callback user w

-- The rest of RTMpNotificationRegister, with the outcomes of its first search and of the allocation.
abbrev pub register_found :
    Option NotifyReg
    → Option ℕ
    → (race : Notify → Notify) → (callback user : ℕ) → Notify
    → NotifyResult
register_found (some r) memory race callback user w = fails already_exists w
register_found none none race callback user w = fails no_memory w
register_found none (some id) race callback user w = insert_reg id callback user (race w)

-- RTMpNotificationRegister.
unfoldable pub mp_register : NotifyEnv → (callback user : ℕ) → Notify → NotifyResult
mp_register env callback user w =
    if callback == 0
    then fails invalid_pointer w
    else if not w.has_lock
    then fails wrong_order w
    else register_found (find_reg callback user w.chain) env.memory env.race callback user w

-- RTMpNotificationDeregister, with the outcome of its search.
abbrev pub deregister_found : Option NotifyReg → (callback user : ℕ) → Notify → NotifyResult
deregister_found none callback user w = fails not_found w
deregister_found (some r) callback user w = record {
  status = success;
  after = record w { chain = unlink callback user w.chain; generation = inc32 w.generation };
  freed = r.id ∷ [];
}

unfoldable pub mp_deregister : (callback user : ℕ) → Notify → NotifyResult
mp_deregister callback user w =
    if callback == 0
    then fails invalid_pointer w
    else if not w.has_lock
    then fails wrong_order w
    else deregister_found (find_reg callback user w.chain) callback user w

-- rtR0MpNotificationInit, by the outcomes of RTSpinlockCreate and of the native part.
unfoldable pub mp_init : (created native : Status) → Notify → Notify × Status
mp_init created native w =
    if rt_success created then (record w { has_lock = rt_success native }, native) else (w, created)

-- rtR0MpNotificationTerm.
unfoldable pub mp_term : Notify → NotifyResult
mp_term w =
    if w.has_lock
    then record {
      status = success;
      after = record w { has_lock = false; chain = []; generation = inc32 w.generation };
      freed = map (λ r. r.id) w.chain;
    }
    else fails success w

-- ASMAtomicBitClear on all records, and ASMAtomicBitTestAndSet on one.
abbrev pub put_done : Bool → (bit : ℕ) → NotifyReg → NotifyReg
put_done b bit r = record r { done = λ i. if bit == i then b else r.done i }

unfoldable pub clear_all : (bit : ℕ) → List NotifyReg → List NotifyReg
clear_all bit rs = map (put_done false bit) rs

unfoldable pub set_done : (bit id : ℕ) → List NotifyReg → List NotifyReg
set_done bit id [] = []
set_done bit id (r ∷ rs) = (if r.id == id then put_done true bit r else r) ∷ set_done bit id rs

-- The record at an address.
unfoldable pub at_id : ℕ → List NotifyReg → Option NotifyReg
at_id id [] = none
at_id id (r ∷ rs) = if r.id == id then some r else at_id id rs

-- The next record of a walk whose bit is clear, with the rest of the walk. Reading a record that is
-- not in the chain any more is a fault, `none`.
unfoldable pub next_clear :
    (bit : ℕ) → List NotifyReg → (walk : List ℕ) → Option (Option (NotifyReg × List ℕ))
next_clear bit rs [] = some none
next_clear bit rs (p ∷ ps) =
    let rest = next_clear bit rs ps in
    elim (at_id p rs) [ none ↦ none | some r ↦ if r.done bit then rest else some (some (r, ps)) ]

abbrev pub ids : List NotifyReg → List ℕ
ids rs = map (λ r. r.id) rs

-- The callbacks called, and the state after them.
pub record Delivered : Type 0 where
  pub calls : List NotifyReg
  pub after : Notify

abbrev pub called : NotifyReg → Delivered → Delivered
called r d = record d { calls = r ∷ d.calls }

-- The walks of rtMpNotificationDoCallbacks, one call in each round. `acts` is what happens to the
-- chain while the lock is not held for a call. If the list has changed the walk starts again, unless
-- it was at its end.
unfoldable pub deliver :
    (rounds : ℕ)
    → (acts : ℕ → Notify → Notify) → (bit : ℕ) → (walk : List ℕ) → Notify
    → Option Delivered
deliver zero acts bit walk w = none
deliver (suc n) acts bit walk w = elim (next_clear bit w.chain walk) [
  | none ↦ none
  | some none ↦ some (record { calls = []; after = w })
  | some (some (r, rest)) ↦
      let marked = record w { chain = set_done bit r.id w.chain } in
      let next = acts n marked in
      Option.map (called r) (
        if not next.has_lock
        then some (record { calls = []; after = next })
        else deliver n acts bit
            (if next.generation == marked.generation
              then rest
              else (elim rest [ [] ↦ [] | (p ∷ ps) ↦ ids next.chain ]))
            next)
]

-- rtMpNotificationDoCallbacks; `bits` is the number of bits of a pointer.
abbrev pub bits : ℕ
bits = 64

unfoldable pub do_callbacks : (acts : ℕ → Notify → Notify) → Notify → Option Delivered
do_callbacks acts w =
    let bit = inc32 w.done_bit % bits in
    let started = record w { done_bit = inc32 w.done_bit } in
    if not w.has_lock
    then some (record { calls = []; after = started })
    else deliver (suc (length w.chain)) acts bit (ids w.chain)
        (record started { chain = clear_all bit w.chain })
