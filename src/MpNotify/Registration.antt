-- ===== src/MpNotify/Registration.antt =====
-- The registrations of r0drv/mpnotification-r0drv.c: RTMpNotificationRegister and
-- RTMpNotificationDeregister.
use virtualbox_drv.Common.{
  ℕ, ◌≡◌, ◌≢◌, refl, inl, inr, ap, true, false, none, some, List, [], ◌∷◌, ◌++◌, arith, success,
  already_exists, some-injective, eq_self, ◌==◌, Bool-cases, if_intro,
}
use virtualbox_drv.MpNotify.{
  NotifyReg, Notify, NotifyEnv, NotifyResult, is_same, find_reg, unlink, new_reg, insert_found,
  deregister_found, mp_register, mp_deregister, ids,
}
use virtualbox_drv.MpNotify.Delivery.Walk.{OneOf}

find_reg-OneOf :
    (callback user : ℕ) (rs : List NotifyReg) (r : NotifyReg)
    → find_reg callback user rs ≡ some r
    → OneOf r.id (ids rs)
unfolding find_reg
find_reg-OneOf callback user [] r = λ e. ground (arith, e)
find_reg-OneOf callback user (x ∷ rs) r =
    if_intro (λ o. o ≡ some r → OneOf r.id (ids (x ∷ rs))) (is_same callback user x) _ _
      (λ _ e. inl (ap (λ (y : NotifyReg). y.id) (some-injective _ _ e)))
      (λ _ e. inr (find_reg-OneOf callback user rs r e))

is_same-new : (id callback user : ℕ) → is_same callback user (new_reg id callback user) ≡ true
is_same-new id callback user = ground (arith, eq_self user, eq_self callback)

-- The end of a chain that has no such record.
append-found :
    (id callback user : ℕ) (rs : List NotifyReg)
    → find_reg callback user rs ≡ none
    → (find_reg callback user (rs ++ (new_reg id callback user ∷ []))
        ≡ some (new_reg id callback user))
      × (unlink callback user (rs ++ (new_reg id callback user ∷ [])) ≡ rs)
unfolding find_reg unlink
append-found id callback user [] e =
    (rw (is_same-new id callback user) refl, rw (is_same-new id callback user) refl)
append-found id callback user (x ∷ rs) e = elim (Bool-cases (is_same callback user x)) [
  | inl here ↦ ground (arith, here, e)
  | inr other ↦
      (let h = append-found id callback user rs (ground (arith, other, e)) in
        (rw other h.0, rw other (ap (λ l. x ∷ l) h.1)))
]

-- The calls whose checks succeed.
register-inserts :
    (env : NotifyEnv) (w : Notify) (id callback user : ℕ)
    → w.has_lock ≡ true
    → callback ≢ 0
    → env.memory ≡ some id
    → find_reg callback user w.chain ≡ none
    → mp_register env callback user w
      ≡ insert_found (find_reg callback user (env.race w).chain) id callback user (env.race w)
unfolding mp_register
register-inserts env w id callback user lock set memory new =
    rw (is_not_zero callback set, lock, new, memory) refl
  where
    is_not_zero : (n : ℕ) → n ≢ 0 → (n == 0) ≡ false
    is_not_zero n differ = ground (arith, differ)

deregister-searches :
    (w : Notify) (callback user : ℕ)
    → w.has_lock ≡ true
    → callback ≢ 0
    → mp_deregister callback user w
      ≡ deregister_found (find_reg callback user w.chain) callback user w
unfolding mp_deregister
deregister-searches w callback user lock set = rw (is_not_zero callback set, lock) refl
  where
    is_not_zero : (n : ℕ) → n ≢ 0 → (n == 0) ≡ false
    is_not_zero n differ = ground (arith, differ)

-- What RTMpNotificationRegister did, and RTMpNotificationDeregister after it.
pub record Undone (w : Notify) (id : ℕ) (r s : NotifyResult) : Type 0 where
  pub registered : (r.status ≡ success) × (r.freed ≡ []) × (OneOf id (ids r.after.chain))
  pub deregistered : (s.status ≡ success) × (s.freed ≡ id ∷ []) × (s.after.chain ≡ w.chain)

-- After a deregistration of what has just been registered the chain is as before, and the record that
-- was allocated is freed, if there is a lock, a callback, memory and no such registration, and no
-- other thread runs in between.
pub mp_deregister-mp_register :
    (env : NotifyEnv) (w : Notify) (id callback user : ℕ)
    → w.has_lock ≡ true
    → callback ≢ 0
    → env.memory ≡ some id
    → env.race w ≡ w
    → find_reg callback user w.chain ≡ none
    → Undone w id
        (mp_register env callback user w)
        (mp_deregister callback user (mp_register env callback user w).after)
mp_deregister-mp_register env w id callback user lock set memory quiet new =
    rw (register-inserts env w id callback user lock set memory new, quiet, new)
      (rw
        (
          deregister-searches (insert_found none id callback user w).after callback user lock set,
          found.0,
        )
        (record {
          registered = (refl, refl, at_last w.chain);
          deregistered = (refl, refl, found.1);
        }))
  where
    found :
        (find_reg callback user (w.chain ++ (new_reg id callback user ∷ []))
          ≡ some (new_reg id callback user))
        × (unlink callback user (w.chain ++ (new_reg id callback user ∷ [])) ≡ w.chain)
    found = append-found id callback user w.chain new

    at_last : (rs : List NotifyReg) → OneOf id (ids (rs ++ (new_reg id callback user ∷ [])))
    at_last [] = inl refl
    at_last (x ∷ rs) = inr (at_last rs)

-- A record that another thread has registered between the two searches is freed although it stays in
-- the chain, and nothing else is freed.
pub mp_register-raced :
    (env : NotifyEnv) (w : Notify) (r : NotifyReg) (id callback user : ℕ)
    → w.has_lock ≡ true
    → callback ≢ 0
    → env.memory ≡ some id
    → find_reg callback user w.chain ≡ none
    → find_reg callback user (env.race w).chain ≡ some r
    → let s = mp_register env callback user w in
      (s.status ≡ already_exists) × (s.freed ≡ r.id ∷ []) × OneOf r.id (ids s.after.chain)
mp_register-raced env w r id callback user lock set memory new raced =
    rw (register-inserts env w id callback user lock set memory new, raced)
      (refl, refl, find_reg-OneOf callback user (env.race w).chain r raced)
