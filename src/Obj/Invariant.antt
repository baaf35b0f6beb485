-- ===== src/Obj/Invariant.antt =====
-- The invariant of the object registry, and that SUPR0ObjRegister, SUPR0ObjAddRef(Ex),
-- SUPR0ObjRelease and the session cleanup of vboxdrv/SUPDrv.c keep it.
use virtualbox_drv.Common.{
  ℕ, ◌+◌, ◌<◌, ◌^◌, ◌≡◌, ◌≢◌, ◌⊎◌, Option, none, some, List, [], ◌∷◌, arith, ◌==◌, if◌then◌else◌,
  Bool-cases, inl, inr, count, unlink, update,
}
use virtualbox_drv.Obj.{Obj, Usage, Session, DevExt, find_session, set_usage, supdrvobj_magic}
use virtualbox_drv.Obj.Counts.{
  one, refs, total, Positive, AllPositive, total-set_usage, set_usage-AllPositive,
}

-- What the invariant says of one address: its cell, how often the chain of objects names it, and how
-- many references the sessions hold to it. A live object stands in the chain once, and its counter
-- is the number of references, at least one; no session refers to anything else.
abbrev pub Cell : Option Obj → (listed held : ℕ) → Type 0
Cell none listed held = (listed ≡ 0) × (held ≡ 0)
Cell (some o) listed held =
    ((o.magic ≡ supdrvobj_magic) × (listed ≡ 1) × (o.count ≡ held) × (0 < held) × (held < 2 ^ 32))
    ⊎ ((o.magic ≢ supdrvobj_magic) × (listed ≡ 0) × (held ≡ 0))

abbrev pub CellAt : DevExt → ℕ → Type 0
CellAt w q = Cell (w.heap q) (count q w.objs) (total q w.sessions)

pub record Inv (w : DevExt) : Type 0 where
  pub cells : (q : ℕ) → CellAt w q
  pub positive : AllPositive w.sessions

-- Taking a node out of the chain.
pub count-unlink :
    (p q : ℕ) (ps : List ℕ) → 0 < count p ps → count q (unlink p ps) + one p q ≡ count q ps
count-unlink p q [] h = ground arith
count-unlink p q (x ∷ ps) h = ground (arith, count-unlink p q ps)

-- A live cell, from what a guard of the code has read.
pub live_cell :
    (w : DevExt) (p : ℕ) (o : Obj)
    → Inv w
    → w.heap p ≡ some o
    → o.magic ≡ supdrvobj_magic
    → (count p w.objs ≡ 1) × (o.count ≡ total p w.sessions) × (0 < o.count) × (o.count < 2 ^ 32)
live_cell w p o v e m = let c = rw e at (v.cells p) in ground (arith, c)

-- One reference more, or one less, on a live object: its counter follows the usage lists.
module _ (w : DevExt) (p s : ℕ) (o : Obj) (x : Session) (v : Inv w) (live : w.heap p ≡ some o)
    (magic : o.magic ≡ supdrvobj_magic) (found : find_session s w.sessions ≡ some x) where
  pub Inv-put :
      (us : List Usage) (c : ℕ) (free rec : ℕ)
      → Positive us
      → ((q : ℕ) → refs q us + o.count ≡ refs q x.usage + (if p == q then c else o.count))
      → 0 < c
      → c < 2 ^ 32
      → Inv (record w {
        heap = update w.heap p (some (record o { count = c }));
        sessions = set_usage s us w.sessions;
        usage_free = free;
        records = rec;
      })
  Inv-put us c free rec pos same h k = record {
    cells = λ q. elim (Bool-cases (p == q)) [
      | inl here ↦
          ground
            (arith, live_cell w p o v live magic, same p, total-set_usage p s us w.sessions x found)
      | inr other ↦
          rw other (ground (arith, v.cells q, same q, total-set_usage q s us w.sessions x found))
    ];
    positive = set_usage-AllPositive s us w.sessions pos v.positive;
  }

  -- The last references go, and with them the object.
  pub Inv-destroy :
      (us : List Usage) (free rec : ℕ) (calls : List Obj) (heap : ℕ → Option Obj)
      → ((q : ℕ) → heap q ≡ update w.heap p none q)
      → Positive us
      → ((q : ℕ) → refs q us + (if p == q then o.count else 0) ≡ refs q x.usage)
      → Inv (record w {
        heap = heap;
        objs = unlink p w.objs;
        sessions = set_usage s us w.sessions;
        usage_free = free;
        records = rec;
        destroyed = calls;
      })
  Inv-destroy us free rec calls heap cleared pos same = record {
    cells = λ q. rw (cleared q) (elim (Bool-cases (p == q)) [
      | inl here ↦ ground (
        arith,
        live_cell w p o v live magic,
        same p,
        total-set_usage p s us w.sessions x found,
        count-unlink p p w.objs,
      )
      | inr other ↦ rw other (
          ground (
            arith,
            v.cells q,
            same q,
            total-set_usage q s us w.sessions x found,
            count-unlink p q w.objs,
            live_cell w p o v live magic,
          ))
    ]);
    positive = set_usage-AllPositive s us w.sessions pos v.positive;
  }
