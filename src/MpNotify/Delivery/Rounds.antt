-- ===== src/MpNotify/Delivery/Rounds.antt =====
-- The rounds of rtMpNotificationDoCallbacks in r0drv/mpnotification-r0drv.c: a call, and the changes
-- that are made meanwhile.
use mathlib.Core.Option
use virtualbox_drv.Common.{
  ℕ, zero, suc, ◌^◌, ◌≡◌, ◌≢◌, ◌≤◌, ◌<◌, ◌⊎◌, refl, ◌∙◌, inl, inr, sym, subst, ap, true, false, not,
  Option, none, some, List, [], ◌∷◌, arith, ◌==◌, if◌then◌else◌, length, if_intro, Returns,
}
use virtualbox_drv.MpNotify.{
  NotifyReg, Notify, Delivered, called, set_done, next_clear, ids, deliver,
}
use virtualbox_drv.MpNotify.Changes.{
  Change, changes, AllFresh, Changed, changes-Changed, changes-same,
}
use virtualbox_drv.MpNotify.Changes.Marks.{Marked, c_clear}
use virtualbox_drv.MpNotify.Delivery.Walk.{
  OneOf, Marked-OneOf, ids-set_done, set_done-Marked, c_clear-set_done, Apart, AllDone, Covers,
  Found, NextOutcome, next_clear-NextOutcome, Once,
}

-- What the walks do from some state on.
pub record Walked (limit bit : ℕ) (w : Notify) (d : Delivered) : Type 0 where
  pub complete : d.after.has_lock ≡ true → AllDone bit d.after.chain
  pub from : (id : ℕ) → OneOf id (ids d.calls) → Marked false bit id w.chain
  pub once : Once d.calls
  pub traced :
      (id : ℕ)
      → Marked true bit id d.after.chain
      → Marked true bit id w.chain ⊎ (OneOf id (ids d.calls) ⊎ (limit ≤ id))

-- One round: the bit of `r` is set, and the chain changes.
module _ (limit bit n : ℕ) (w v : Notify) (r : NotifyReg) (ps : List ℕ) (f : Found bit w.chain r ps)
    (a : Apart limit bit w.chain)
    (c : Changed limit bit n (record w { chain = set_done bit r.id w.chain }) v) where
  next-false : (id : ℕ) → Marked false bit id v.chain → Marked false bit id w.chain × (id ≢ r.id)
  next-false id m = elim (c.older false id m) [
    | inl k ↦ elim (set_done-Marked false bit r.id id w.chain k) [
      | inl q ↦ q
      | inr q ↦ ground (arith, q.0)
    ]
    | inr q ↦ ground (arith, q.0)
  ]

  next-true :
      (id : ℕ)
      → Marked true bit id v.chain
      → Marked true bit id w.chain ⊎ ((r.id ≡ id) ⊎ (limit ≤ id))
  next-true id m = elim (c.older true id m) [
    | inl k ↦ elim (set_done-Marked true bit r.id id w.chain k) [
      | inl q ↦ inl q.0
      | inr q ↦ inr (inl q.1)
    ]
    | inr q ↦ inr (inr q.1)
  ]

  next-Apart : Apart limit bit v.chain
  next-Apart = record {
    apart = λ id t k.
        (let q = next-false id k in
          elim (next-true id t) [
            | inl u ↦ a.apart id u q.0
            | inr (inl e) ↦ q.1 (sym e)
            | inr (inr far) ↦ ground (arith, far, a.low id q.0)
          ]);
    low = λ id k. a.low id (next-false id k).0;
  }

  -- Where the walk goes on.
  next-Covers : v.chain ≡ set_done bit r.id w.chain → Covers bit ps v.chain
  next-Covers same = record {
    covered = λ id k.
        (let q = next-false id k in
          elim (f.others id q.0) [ inl e ↦ absurd (q.1 (sym e)) | inr o ↦ o ]);
    present =
        λ id o. subst (OneOf id) (sym (ap ids same ∙ ids-set_done bit r.id w.chain)) (f.rest id o);
  }

  end-Covers : ps ≡ [] → Covers bit [] v.chain
  end-Covers none_left = record {
    covered = λ id k.
        (let q = next-false id k in
          elim (f.others id q.0) [
            | inl e ↦ absurd (q.1 (sym e))
            | inr o ↦ subst (OneOf id) none_left o
          ]);
    present = λ id o. absurd o;
  }

  next-fewer : c_clear bit v.chain < c_clear bit w.chain
  next-fewer = omega (arith, c.fewer, (c_clear-set_done bit r.id w.chain).1 f.clear)

  Walked-called : (d : Delivered) → Walked limit bit v d → Walked limit bit w (called r d)
  Walked-called d h = record {
    complete = h.complete;
    from = λ id o. elim o [
      | inl e ↦ subst (λ i. Marked false bit i w.chain) e f.clear
      | inr q ↦ (next-false id (h.from id q)).0
    ];
    once = (λ o. (next-false r.id (h.from r.id o)).1 refl, h.once);
    traced = λ id m. elim (h.traced id m) [
      | inl t ↦ elim (next-true id t) [
        | inl u ↦ inl u
        | inr (inl e) ↦ inr (inl (inl e))
        | inr (inr far) ↦ inr (inr far)
      ]
      | inr (inl o) ↦ inr (inl (inr o))
      | inr (inr far) ↦ inr (inr far)
    ];
  }

restart-Covers : (bit : ℕ) (rs : List NotifyReg) → Covers bit (ids rs) rs
restart-Covers bit rs = record {
  covered = λ id k. Marked-OneOf false bit id rs k;
  present = λ id o. o;
}

done-Walked :
    (limit bit : ℕ) (w : Notify)
    → (w.has_lock ≡ true → AllDone bit w.chain)
    → Walked limit bit w (record { calls = []; after = w })
done-Walked limit bit w h = record {
  complete = h;
  from = λ id o. absurd o;
  once = tt;
  traced = λ id m. inl m;
}

Returns-called :
    (P Q : Delivered → Type 0) (r : NotifyReg) (m : Option Delivered)
    → ((d : Delivered) → P d → Q (called r d))
    → Returns P m
    → Returns Q (Option.map (called r) m)
Returns-called P Q r none k h = h
Returns-called P Q r (some d) k h = k d h

-- At its end a walk is over, else it starts again.
at_end :
    (bit : ℕ) (ps : List ℕ) (rs : List NotifyReg)
    → (ps ≡ [] → Covers bit [] rs)
    → Covers bit (elim ps [ [] ↦ [] | (p ∷ ps) ↦ ids rs ]) rs
at_end bit [] rs over = over refl
at_end bit (p ∷ ps) rs over = restart-Covers bit rs

-- The changes of each round are made with fresh ids, and there are fewer than 2^32 of them.
abbrev pub Sane : (limit : ℕ) → (ℕ → List Change) → Type 0
Sane limit script = (n : ℕ) → AllFresh limit (script n) × (length (script n) < 2 ^ 32)

abbrev pub acts : (ℕ → List Change) → ℕ → Notify → Notify
acts script n = changes (script n)

module _ (limit bit : ℕ) (script : ℕ → List Change) (sane : Sane limit script) where
  pub deliver-Walked :
      (n : ℕ) (walk : List ℕ) (w : Notify)
      → c_clear bit w.chain < n
      → w.generation < 2 ^ 32
      → Apart limit bit w.chain
      → Covers bit walk w.chain
      → Returns (Walked limit bit w) (deliver n (acts script) bit walk w)
  unfolding deliver
  deliver-Walked zero walk w fuel b a c = ground (arith, fuel)
  deliver-Walked (suc n) walk w fuel b a c =
      round (next_clear bit w.chain walk) refl (next_clear-NextOutcome limit bit w.chain a walk c)
        (deliver-Walked n)
    where
      round :
          (o : Option (Option (NotifyReg × List ℕ)))
          → next_clear bit w.chain walk ≡ o
          → NextOutcome bit w.chain o
          → ((walk : List ℕ) (w : Notify)
              → c_clear bit w.chain < n
              → w.generation < 2 ^ 32
              → Apart limit bit w.chain
              → Covers bit walk w.chain
              → Returns (Walked limit bit w) (deliver n (acts script) bit walk w))
          → Returns (Walked limit bit w) (deliver (suc n) (acts script) bit walk w)
      round none e h again = absurd h
      round (some none) e h again = rw (e, deliver) (done-Walked limit bit w (λ _. h))
      round (some (some q)) e h again =
          rw (e, deliver)
            (Returns-called (Walked limit bit next) (Walked limit bit w) q.0 _
              (Walked-called limit bit k.0 w next q.0 q.1 h a k.2)
              (if_intro (Returns (Walked limit bit next)) (not next.has_lock) _ _
                (λ off. done-Walked limit bit next (λ on. ground (arith, on, off)))
                (λ _.
                  again _ next
                    (omega (arith, fuel, next-fewer limit bit k.0 w next q.0 q.1 h a k.2))
                    (omega (arith, k.2.generation))
                    (next-Apart limit bit k.0 w next q.0 q.1 h a k.2)
                    (walk_on
                      (λ same.
                        next-Covers limit bit k.0 w next q.0 q.1 h a k.2
                          (changes-same limit bit (script n) marked (sane n).0 b (sane n).1 same))
                      (λ p. end-Covers limit bit k.0 w next q.0 q.1 h a k.2 p)))))
        where
          marked : Notify
          marked = record w { chain = set_done bit q.0.id w.chain }

          next : Notify
          next = changes (script n) marked

          k : (m : ℕ) × (m ≤ length (script n)) × Changed limit bit m marked next
          k = changes-Changed limit bit (script n) marked (sane n).0 b

          walk_on :
              (next.generation ≡ marked.generation → Covers bit q.1 next.chain)
              → (q.1 ≡ [] → Covers bit [] next.chain)
              → Covers bit
                  (if next.generation == marked.generation
                    then q.1
                    else (elim q.1 [ [] ↦ [] | (p ∷ ps) ↦ ids next.chain ]))
                  next.chain
          walk_on same over =
              if_intro (λ l. Covers bit l next.chain) (next.generation == marked.generation) _ _
                (λ e. same (ground (arith, e))) (λ _. at_end bit q.1 next.chain over)
