-- ===== src/MpNotify/Changes.antt =====
-- What may happen to the notification records of r0drv/mpnotification-r0drv.c while an event calls one
-- of them.
pub mod Marks
use virtualbox_drv.Common.{
  ℕ, zero, suc, ◌+◌, ◌%◌, ◌^◌, ◌≡◌, ◌≢◌, ◌≤◌, ◌<◌, ◌⊎◌, refl, ◌∙◌, inl, inr, sym, subst, ap, Bool,
  true, false, not, ◌&&◌, Option, none, some, List, [], ◌∷◌, ◌++◌, map, arith, Status, ◌==◌,
  if◌then◌else◌, Bool-cases, inc32, length, if_intro, invalid_pointer, wrong_order,
}
use virtualbox_drv.MpNotify.{
  NotifyReg, Notify, NotifyEnv, NotifyResult, fails, insert_found, register_found, deregister_found,
  is_same, find_reg, unlink, new_reg, insert_reg, mp_register, mp_deregister, mp_term, ids,
}
use virtualbox_drv.MpNotify.Changes.Marks.{
  Marked, Older, unlink-Marked, append-Marked, same-Older, trans-Older, c_clear, c_clear-unlink,
  c_clear-append,
}

-- One change: a registration with a fresh record, a deregistration, or the end of the runtime.
pub data Change : Type 0 where
  registers : (memory : Option ℕ) (callback user : ℕ) → Change
  deregisters : (callback user : ℕ) → Change
  terminates : Change

unfoldable pub change : Change → Notify → Notify
change (registers memory callback user) w =
    (mp_register (record { memory = memory; race = λ v. v }) callback user w).after
change (deregisters callback user) w = (mp_deregister callback user w).after
change terminates w = (mp_term w).after

unfoldable pub changes : List Change → Notify → Notify
changes [] w = w
changes (c ∷ cs) w = changes cs (change c w)

-- Every registration has an id from `limit` on.
abbrev pub Fresh : (limit : ℕ) → Change → Type 0
Fresh limit (registers (some id) callback user) = limit ≤ id
Fresh limit _ = Unit {0}

abbrev pub AllFresh : (limit : ℕ) → List Change → Type 0
AllFresh limit [] = Unit {0}
AllFresh limit (c ∷ cs) = Fresh limit c × AllFresh limit cs

-- One change to the chain, counted by the generation.
pub record Changed (limit bit : ℕ) (n : ℕ) (w v : Notify) : Type 0 where
  pub older : Older limit bit w.chain v.chain
  pub generation : v.generation ≡ (w.generation + n) % 2 ^ 32
  pub unchanged : n ≡ 0 → v.chain ≡ w.chain
  pub bounded : w.generation < 2 ^ 32
  pub fewer : c_clear bit v.chain ≤ c_clear bit w.chain

keeps : (limit bit : ℕ) (w : Notify) → w.generation < 2 ^ 32 → Changed limit bit 0 w w
keeps limit bit w b = record {
  older = same-Older limit bit w.chain;
  generation = omega (arith, b);
  unchanged = λ _. refl;
  bounded = b;
  fewer = omega arith;
}

-- At most one step of the generation.
abbrev OneChange : (limit bit : ℕ) (w v : Notify) → Type 0
OneChange limit bit w v = Changed limit bit 0 w v ⊎ Changed limit bit 1 w v

module _ (limit bit : ℕ) where
  insert_found-OneChange :
      (o : Option NotifyReg) (id callback user : ℕ) (w : Notify)
      → limit ≤ id
      → w.generation < 2 ^ 32
      → OneChange limit bit w (insert_found o id callback user w).after
  insert_found-OneChange none id callback user w fresh b = inr (record {
    older = λ d i m. elim (append-Marked w.chain id callback user d bit i m) [
      | inl j ↦ inl j
      | inr e ↦ inr (e.0, omega (arith, fresh, e.1))
    ];
    generation = refl;
    unchanged = λ z. ground (arith, z);
    bounded = b;
    fewer = omega (arith, c_clear-append bit id callback user w.chain);
  })
  insert_found-OneChange (some r) id callback user w fresh b = inr (record {
    older = same-Older limit bit w.chain;
    generation = refl;
    unchanged = λ z. refl;
    bounded = b;
    fewer = omega arith;
  })

  register_found-OneChange :
      (o : Option NotifyReg) (memory : Option ℕ) (callback user : ℕ) (w : Notify)
      → Fresh limit (registers memory callback user)
      → w.generation < 2 ^ 32
      → OneChange limit bit w (register_found o memory (λ v. v) callback user w).after
  register_found-OneChange (some r) memory callback user w fresh b = inl (keeps limit bit w b)
  register_found-OneChange none none callback user w fresh b = inl (keeps limit bit w b)
  register_found-OneChange none (some id) callback user w fresh b =
      insert_found-OneChange (find_reg callback user w.chain) id callback user w fresh b

  deregister_found-OneChange :
      (o : Option NotifyReg) (callback user : ℕ) (w : Notify)
      → w.generation < 2 ^ 32
      → OneChange limit bit w (deregister_found o callback user w).after
  deregister_found-OneChange none callback user w b = inl (keeps limit bit w b)
  deregister_found-OneChange (some r) callback user w b = inr (record {
    older = λ d i m. inl (unlink-Marked callback user w.chain d bit i m);
    generation = refl;
    unchanged = λ z. ground (arith, z);
    bounded = b;
    fewer = omega (arith, c_clear-unlink bit callback user w.chain);
  })

  -- The checks of the callback and of the lock.
  guarded :
      (callback : ℕ) (w : Notify) (y : NotifyResult)
      → OneChange limit bit w w
      → OneChange limit bit w y.after
      → OneChange limit bit w
          (if callback == 0
            then fails invalid_pointer w
            else if not w.has_lock
            then fails wrong_order w
            else y).after
  guarded callback w y p q =
      if_intro (λ (r : NotifyResult). OneChange limit bit w r.after) (callback == 0) _ _ (λ _. p)
        (λ _.
          if_intro (λ (r : NotifyResult). OneChange limit bit w r.after) (not w.has_lock) _ _
            (λ _. p) (λ _. q))

  change-OneChange :
      (c : Change) (w : Notify)
      → Fresh limit c
      → w.generation < 2 ^ 32
      → OneChange limit bit w (change c w)
  unfolding change mp_register mp_deregister mp_term c_clear
  change-OneChange (registers memory callback user) w fresh b =
      guarded callback w _ (inl (keeps limit bit w b))
        (register_found-OneChange (find_reg callback user w.chain) memory callback user w fresh b)
  change-OneChange (deregisters callback user) w fresh b =
      guarded callback w _ (inl (keeps limit bit w b))
        (deregister_found-OneChange (find_reg callback user w.chain) callback user w b)
  change-OneChange terminates w fresh b =
      if_intro (λ (r : NotifyResult). OneChange limit bit w r.after) w.has_lock _ _
        (λ _. inr (record {
          older = λ d i m. absurd m;
          generation = refl;
          unchanged = λ z. ground (arith, z);
          bounded = b;
          fewer = omega arith;
        }))
        (λ _. inl (keeps limit bit w b))

  both :
      (m n : ℕ) (u v w : Notify)
      → Changed limit bit m u v
      → Changed limit bit n v w
      → Changed limit bit (m + n) u w
  both m n u v w p q = record {
    older = trans-Older limit bit u.chain v.chain w.chain p.older q.older;
    generation = omega (arith, p.generation, q.generation);
    unchanged = λ z. q.unchanged (omega (arith, z)) ∙ p.unchanged (omega (arith, z));
    bounded = p.bounded;
    fewer = omega (arith, p.fewer, q.fewer);
  }

  -- Changes are counted by the generation; failed ones are not.
  pub changes-Changed :
      (cs : List Change) (w : Notify)
      → AllFresh limit cs
      → w.generation < 2 ^ 32
      → (n : ℕ) × (n ≤ length cs) × Changed limit bit n w (changes cs w)
  unfolding changes
  changes-Changed [] w fresh b = (0, omega arith, keeps limit bit w b)
  changes-Changed (c ∷ cs) w fresh b = elim (change-OneChange c w fresh.0 b) [
    | inl p ↦
        (let r = changes-Changed cs (change c w) fresh.1 (omega (arith, p.generation)) in
          (0 + r.0, omega (arith, r.1), both 0 r.0 w (change c w) (changes cs (change c w)) p r.2))
    | inr p ↦
        (let r = changes-Changed cs (change c w) fresh.1 (omega (arith, p.generation)) in
          (1 + r.0, omega (arith, r.1), both 1 r.0 w (change c w) (changes cs (change c w)) p r.2))
  ]

  -- If the generation is the same after fewer than 2^32 changes, so is the chain.
  pub changes-same :
      (cs : List Change) (w : Notify)
      → AllFresh limit cs
      → w.generation < 2 ^ 32
      → length cs < 2 ^ 32
      → (changes cs w).generation ≡ w.generation
      → (changes cs w).chain ≡ w.chain
  changes-same cs w fresh b short same =
      let r = changes-Changed cs w fresh b in
      r.2.unchanged (omega (arith, b, short, same, r.1, r.2.generation))
