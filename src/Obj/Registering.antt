-- ===== src/Obj/Registering.antt =====
-- SUPR0ObjRegister once more: its branches as a case rule.
use virtualbox_drv.Common.{
  ℕ, ◌≡◌, ◌≢◌, true, not, ◌&&◌, Option, some, arith, ◌==◌, ltb, Bool-cases, inl, inr, guard_intro,
  refl,
}
use virtualbox_drv.Obj.{
  Obj, Env, Session, DevExt, find_session, take_record, link_obj, new_obj, obj_register,
  is_session_valid, objtype_end, put_obj,
}
use virtualbox_drv.Obj.Register.{Pending, Pending-put, Pending-records, Before, finish}

module _ (P : Option (DevExt × ℕ) → Type 0) (env : Env) (s : ℕ) (o : Obj)
    (null : (v : DevExt) → P (some (v, 0)))
    (link : (v : DevExt) (y : Session)
      → env.fresh ≢ 0
      → Pending v env.fresh o
      → find_session s v.sessions ≡ some y
      → is_session_valid y ≡ true
      → P (link_obj v env.fresh s)) where
  finish_cases :
      (w : DevExt) (x y : Session)
      → env.fresh ≢ 0
      → Pending w env.fresh o
      → Pending (env.race w) env.fresh o
      → find_session s w.sessions ≡ some x
      → find_session s (env.race w).sessions ≡ some y
      → is_session_valid x ≡ true
      → is_session_valid y ≡ true
      → P (finish env w env.fresh s)
  unfolding finish take_record
  finish_cases w x y set now later found still ok ok_still =
      elim (Bool-cases (ltb 0 w.usage_free)) [
        | inl t ↦ rw t (link _ x set (Pending-records w env.fresh _ _ o now) found ok)
        | inr f ↦ rw f (elim (Bool-cases env.has_memory) [
          | inl t ↦ rw t (link _ y set (Pending-records _ env.fresh _ _ o later) still ok_still)
          | inr g ↦ rw g (null _)
        ])
      ]

-- The call returns NULL, or links the new object in, to a session that was looked up before or after
-- the lock was left.
module _ (P : Option (DevExt × ℕ) → Type 0) (env : Env) (w : DevExt)
    (s type destructor user1 user2 : ℕ) (x : Session)
    (b : Before env w s x (new_obj x type destructor user1 user2)) where
  pub register_cases :
      is_session_valid b.still.0 ≡ true
      → ((v : DevExt) → P (some (v, 0)))
      → ((v : DevExt) (y : Session)
          → env.fresh ≢ 0
          → Pending v env.fresh (new_obj x type destructor user1 user2)
          → find_session s v.sessions ≡ some y
          → is_session_valid y ≡ true
          → P (link_obj v env.fresh s))
      → P (obj_register env w s type destructor user1 user2)
  unfolding obj_register finish
  register_cases ok_still null link =
      let o = new_obj x type destructor user1 user2 in
      rw b.found (
        guard_intro P (not (is_session_valid x)) _ _ (null w) (λ ok.
          guard_intro P (not (ltb 0 type && ltb type objtype_end)) _ _ (null w) (λ _.
            guard_intro P (destructor == 0) _ _ (null w) (λ _.
              guard_intro P (env.fresh == 0) _ _ (null w) (λ set.
                finish_cases P env s o null link (put_obj env.fresh (some o) w) x b.still.0
                  (ground (arith, set)) (Pending-put w env.fresh o b.inv b.free) b.raced b.found
                  b.still.1 (ground (arith, ok)) ok_still)))))

-- Without memory for the object the call returns NULL and changes nothing.
pub obj_register-null :
    (env : Env) (w : DevExt) (s type destructor user1 user2 : ℕ) (x : Session)
    → find_session s w.sessions ≡ some x
    → env.fresh ≡ 0
    → obj_register env w s type destructor user1 user2 ≡ some (w, 0)
unfolding obj_register
obj_register-null env w s type destructor user1 user2 x found out =
    let P : Option (DevExt × ℕ) → Type 0 = λ m. m ≡ some (w, 0) in
    rw found (
      guard_intro P (not (is_session_valid x)) _ _ refl (λ _.
        guard_intro P (not (ltb 0 type && ltb type objtype_end)) _ _ refl (λ _.
          guard_intro P (destructor == 0) _ _ refl (λ _.
            guard_intro P (env.fresh == 0) _ _ refl (λ set. absurd (ground (arith, set, out)))))))
