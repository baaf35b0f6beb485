-- ===== src/Obj/Register.antt =====
-- SUPR0ObjRegister: the new object is linked in with the reference of its first session.
use virtualbox_drv.Common.{
  ℕ, ◌+◌, ◌≡◌, ◌⊎◌, refl, false, not, ◌&&◌, Option, none, some, List, ◌∷◌, arith, ◌==◌, ltb,
  if◌then◌else◌, Bool-cases, inl, inr, Returns, guards_intro, count,
}
use virtualbox_drv.Obj.{
  Obj, Env, Usage, Session, DevExt, find_session, set_usage, take_record, link_obj, new_obj,
  obj_register, is_session_valid, objtype_end, supdrvobj_magic, put_obj,
}
use virtualbox_drv.Obj.Counts.{
  one, refs, total, AllPositive, total-set_usage, find_session-Positive, set_usage-AllPositive,
}
use virtualbox_drv.Obj.Invariant.{CellAt, Inv}

-- The invariant while a new object is allocated and nobody else knows of it yet.
pub record Pending (w : DevExt) (p : ℕ) (o : Obj) : Type 0 where
  pub fresh : w.heap p ≡ some o
  pub unlisted : count p w.objs ≡ 0
  pub unheld : total p w.sessions ≡ 0
  pub others : (q : ℕ) → (p == q) ≡ false → CellAt w q
  pub positive : AllPositive w.sessions

pub Pending-put :
    (w : DevExt) (p : ℕ) (o : Obj) → Inv w → w.heap p ≡ none → Pending (put_obj p (some o) w) p o
Pending-put w p o v free =
    let c = rw free at (v.cells p) in
    record {
      fresh = ground arith;
      unlisted = c.0;
      unheld = c.1;
      others = λ q h. rw h (v.cells q);
      positive = v.positive;
    }

-- A failed allocation of the usage record: the object is freed again.
Inv-undo : (w : DevExt) (p : ℕ) (o : Obj) → Pending w p o → Inv (put_obj p none w)
Inv-undo w p o h = record {
  cells = λ q. elim (Bool-cases (p == q)) [
    | inl here ↦ ground (arith, h.unlisted, h.unheld)
    | inr other ↦ rw other (h.others q other)
  ];
  positive = h.positive;
}

-- The result is the new object with one reference, or 0 for NULL.
abbrev pub Registered : ℕ → DevExt × ℕ → Type 0
Registered p (w, r) = Inv w × ((r ≡ 0) ⊎ ((r ≡ p) × (total p w.sessions ≡ 1)))

link_obj-Registered :
    (w : DevExt) (p s : ℕ) (o : Obj) (x : Session)
    → Pending w p o
    → o.magic ≡ supdrvobj_magic
    → o.count ≡ 1
    → find_session s w.sessions ≡ some x
    → Returns (Registered p) (link_obj w p s)
unfolding link_obj
link_obj-Registered w p s o x h m one_ref found = rw found (
  record {
    cells = λ q. elim (Bool-cases (p == q)) [
      | inl here ↦ ground (arith, held p, h.unlisted, h.fresh, m, one_ref, added p)
      | inr other ↦ rw other (ground (arith, held q, h.others q other, added q))
    ];
    positive =
        set_usage-AllPositive s _ w.sessions
          (omega arith, find_session-Positive s w.sessions x found h.positive) h.positive;
  },
  inr (refl, ground (arith, held p, h.unheld, added p)),
)
  where
    us : List Usage
    us = record { obj = p; count = 1 } ∷ x.usage

    held :
        (q : ℕ)
        → total q (set_usage s us w.sessions) + refs q x.usage ≡ total q w.sessions + refs q us
    held q = total-set_usage q s us w.sessions x found

    added : (q : ℕ) → refs q us ≡ one p q + refs q x.usage
    added q = unfold refs in refl

-- What the call may rely on: the session is there and is still there after the lock was left, the
-- allocator returns a cell that is not in use, and other threads keep the invariant and do not touch
-- the object that they do not know of.
pub record Before (env : Env) (w : DevExt) (s : ℕ) (x : Session) (o : Obj) : Type 0 where
  pub inv : Inv w
  pub found : find_session s w.sessions ≡ some x
  pub free : w.heap env.fresh ≡ none
  pub raced : Pending (env.race (put_obj env.fresh (some o) w)) env.fresh o
  pub still :
      (y : Session) × (find_session s (env.race (put_obj env.fresh (some o) w)).sessions ≡ some y)

pub Pending-records :
    (w : DevExt) (p n k : ℕ) (o : Obj)
    → Pending w p o
    → Pending (record w { usage_free = n; records = k }) p o
Pending-records w p n k o h = record {
  fresh = h.fresh;
  unlisted = h.unlisted;
  unheld = h.unheld;
  others = h.others;
  positive = h.positive;
}

-- The part of the call behind the checks of its arguments.
unfoldable pub finish : Env → DevExt → (p s : ℕ) → Option (DevExt × ℕ)
finish env w p s =
    let (v, got) = take_record env w in if got then link_obj v p s else some (put_obj p none v, 0)

finish-Registered :
    (env : Env) (w : DevExt) (s : ℕ) (x y : Session) (o : Obj)
    → Pending w env.fresh o
    → Pending (env.race w) env.fresh o
    → find_session s w.sessions ≡ some x
    → find_session s (env.race w).sessions ≡ some y
    → o.magic ≡ supdrvobj_magic
    → o.count ≡ 1
    → Returns (Registered env.fresh) (finish env w env.fresh s)
unfolding finish take_record
finish-Registered env w s x y o now later found still m c = elim (Bool-cases (ltb 0 w.usage_free)) [
  | inl t ↦
      rw t (link_obj-Registered _ env.fresh s o x (Pending-records w env.fresh _ _ o now) m c found)
  | inr f ↦ rw f (elim (Bool-cases env.has_memory) [
    | inl t ↦
        rw t (
          link_obj-Registered _ env.fresh s o y (Pending-records _ env.fresh _ _ o later) m c still)
    | inr g ↦ rw g (Inv-undo _ env.fresh o later, inl refl)
  ])
]

-- SUPR0ObjRegister ends without a fault, keeps the invariant, and returns NULL or the new object,
-- which then has exactly one reference.
pub obj_register-Registered :
    (env : Env) (w : DevExt) (s type destructor user1 user2 : ℕ) (x : Session)
    → Before env w s x (new_obj x type destructor user1 user2)
    → Returns (Registered env.fresh) (obj_register env w s type destructor user1 user2)
unfolding obj_register finish new_obj
obj_register-Registered env w s type destructor user1 user2 x b = rw b.found (
    guards_intro P (not (is_session_valid x)) (not (ltb 0 type && ltb type objtype_end))
      (destructor == 0) (env.fresh == 0) (some (w, 0)) (finish env pending env.fresh s)
      (b.inv, inl refl)
      (finish-Registered env pending s x b.still.0 o (Pending-put w env.fresh o b.inv b.free)
        b.raced b.found b.still.1 refl refl))
  where
    P : Option (DevExt × ℕ) → Type 0
    P = Returns (Registered env.fresh)

    o : Obj
    o = new_obj x type destructor user1 user2

    pending : DevExt
    pending = put_obj env.fresh (some o) w
