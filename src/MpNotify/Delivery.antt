-- ===== src/MpNotify/Delivery.antt =====
-- An event of r0drv/mpnotification-r0drv.c, rtMpNotificationDoCallbacks: which records it calls while
-- the chain changes.
pub mod Walk
pub mod Rounds
use mathlib.Core.Option
use virtualbox_drv.Common.{
  ℕ, zero, suc, ◌+◌, ◌%◌, ◌^◌, ◌≡◌, ◌≢◌, ◌≤◌, ◌<◌, ◌⊎◌, refl, ◌∙◌, inl, inr, sym, subst, ap, Bool,
  true, false, not, ◌&&◌, Option, none, some, List, [], ◌∷◌, ◌++◌, map, arith, Status, ◌==◌,
  if◌then◌else◌, Bool-cases, inc32, length, if_intro, Returns, Returns-mono, eq_self,
}
use virtualbox_drv.MpNotify.{
  NotifyReg, Notify, Delivered, called, put_done, clear_all, set_done, at_id, next_clear, ids,
  deliver, do_callbacks, bits,
}
use virtualbox_drv.MpNotify.Changes.{
  Change, changes, AllFresh, Changed, changes-Changed, changes-same,
}
use virtualbox_drv.MpNotify.Changes.Marks.{Marked, Older, c_clear}
use virtualbox_drv.MpNotify.Delivery.Walk.{
  OneOf, Marked-OneOf, ids-set_done, set_done-Marked, clear_all-Marked, c_clear-set_done, Apart,
  AllDone, Covers, Found, NextOutcome, next_clear-NextOutcome, Once,
}
use virtualbox_drv.MpNotify.Delivery.Rounds.{Walked, Sane, acts, deliver-Walked}

ids-clear_all : (bit : ℕ) (rs : List NotifyReg) → ids (clear_all bit rs) ≡ ids rs
unfolding clear_all
ids-clear_all bit [] = refl
ids-clear_all bit (r ∷ rs) = ap (λ l. r.id ∷ l) (ids-clear_all bit rs)

clear_all-length : (bit : ℕ) (rs : List NotifyReg) → c_clear bit (clear_all bit rs) ≤ length rs
unfolding clear_all c_clear
clear_all-length bit [] = omega arith
clear_all-length bit (r ∷ rs) =
    omega (arith, is_clear-bound (put_done false bit r), clear_all-length bit rs)
  where
    is_clear-bound : (x : NotifyReg) → (if x.done bit then 0 else 1) ≤ 1
    is_clear-bound x = ground arith

-- A record of the chain has its bit clear or set.
either_mark :
    (bit id : ℕ) (rs : List NotifyReg)
    → OneOf id (ids rs)
    → Marked true bit id rs ⊎ Marked false bit id rs
either_mark bit id [] o = absurd o
either_mark bit id (r ∷ rs) (inl e) = elim (Bool-cases (r.done bit)) [
  | inl on ↦ inl (inl (e, on))
  | inr off ↦ inr (inl (e, off))
]
either_mark bit id (r ∷ rs) (inr o) = elim (either_mark bit id rs o) [
  | inl t ↦ inl (inr t)
  | inr t ↦ inr (inr t)
]

-- What an event does: it calls records that were registered when it began, none twice, and unless the
-- runtime has ended all those that are registered still.
pub record Notified (limit : ℕ) (w : Notify) (d : Delivered) : Type 0 where
  pub registered : (id : ℕ) → OneOf id (ids d.calls) → OneOf id (ids w.chain)
  pub once : Once d.calls
  pub complete :
      d.after.has_lock ≡ true
      → (id : ℕ) → id < limit
      → OneOf id (ids d.after.chain)
      → OneOf id (ids d.calls)

-- rtMpNotificationDoCallbacks ends, whatever is registered and deregistered during its calls: it calls
-- no record twice, only records that were registered at its start, and all of these that are still
-- registered at its end, unless the runtime has ended. The records at the start have numbers below a
-- limit and new ones from it on, the generation has 32 bits, and fewer than 2^32 changes are made
-- during one call, each without another thread between its two searches.
pub do_callbacks-Notified :
    (limit : ℕ) (script : ℕ → List Change) (w : Notify)
    → Sane limit script
    → w.generation < 2 ^ 32
    → ((id : ℕ) → OneOf id (ids w.chain) → id < limit)
    → Returns (Notified limit w) (do_callbacks (acts script) w)
unfolding do_callbacks
do_callbacks-Notified limit script w sane b low =
    if_intro (Returns (Notified limit w)) (not w.has_lock) _ _
      (λ off. record {
        registered = λ id o. absurd o;
        once = tt;
        complete = λ on. ground (arith, on, off);
      })
      (λ _.
        Returns-mono (Walked limit bit started) (Notified limit w) _
          (deliver-Walked limit bit script sane (suc (length w.chain)) (ids w.chain) started
            (omega (arith, clear_all-length bit w.chain)) b
            (record {
              apart = λ id t _. clear_all-Marked bit id w.chain t;
              low = λ id m. low id (was_there id m);
            })
            (record {
              covered = was_there;
              present = λ id o. subst (OneOf id) (sym (ids-clear_all bit w.chain)) o;
            }))
          (λ d h. record {
            registered = λ id o. was_there id (h.from id o);
            once = h.once;
            complete = λ on id below o. elim (either_mark bit id d.after.chain o) [
              | inl t ↦ elim (h.traced id t) [
                | inl s ↦ absurd (clear_all-Marked bit id w.chain s)
                | inr (inl q) ↦ q
                | inr (inr far) ↦ ground (arith, below, far)
              ]
              | inr t ↦ absurd (h.complete on id t)
            ];
          }))
  where
    bit : ℕ
    bit = inc32 w.done_bit % bits

    started : Notify
    started = record w { done_bit = inc32 w.done_bit; chain = clear_all bit w.chain }

    was_there : (id : ℕ) → Marked false bit id (clear_all bit w.chain) → OneOf id (ids w.chain)
    was_there id m =
        subst (OneOf id) (ids-clear_all bit w.chain)
          (Marked-OneOf false bit id (clear_all bit w.chain) m)
