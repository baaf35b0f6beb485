-- ===== src/Session/Creation.antt =====
-- supdrvCreateSession of vboxdrv/SUPDrv.c: what a new session has.
use virtualbox_drv.Common.{
  ℕ, ◌^◌, ◌-◌, ◌≡◌, ◌≢◌, refl, Bool, true, false, Bool-cases, inl, inr, Option, none, some, [], ◌∷◌,
  arith, Status, success, no_memory, rt_success, ◌==◌, if◌then◌else◌, guard_intro, eq_self, subst,
  count,
}
use virtualbox_drv.HandleTable.{HandleTable, create_ex, new_table, handle_table_magic}
use virtualbox_drv.HandleTable.Counted.{IsCounted}
use virtualbox_drv.HandleTable.Creation.{new_table-Wf}
use virtualbox_drv.HandleTable.Destroy.{used_from}
use virtualbox_drv.HandleTable.WellFormed.{IsWf}
use virtualbox_drv.Obj.{Session, DevExt, find_session, is_session_valid, bird_inv}
use virtualbox_drv.Obj.Counts.{refs, total}
use virtualbox_drv.Obj.Invariant.{Inv, Cell}
use virtualbox_drv.Session.{SessionEnv, create_session}
use virtualbox_drv.Session.Handles.{table_handles}

-- No session, and a status that is not VINF_SUCCESS; or a session `x` that refers to no object, in
-- front of the others, with a table that has no handle.
pub data Started (w : DevExt) (p : ℕ) : DevExt × Option HandleTable × Status → Type 0 where
  refused : {st : Status} → st ≢ success → Started w p (w, none, st)
  started :
      {d : DevExt} {t : HandleTable} (x : Session)
      → Inv d
      → d.sessions ≡ x ∷ w.sessions
      → (find_session p d.sessions ≡ some x) × (is_session_valid x ≡ true) × (x.usage ≡ [])
      → IsWf t × IsCounted t × (t.magic ≡ handle_table_magic) × (table_handles t ≡ [])
      → Started w p (d, some t, success)

abbrev new_session : SessionEnv → Bool → Session
new_session env user = record {
  id = env.address;
  cookie = bird_inv;
  uid = 2 ^ 32 - 1;
  gid = 2 ^ 32 - 1;
  process = if user then env.process else 2 ^ 32 - 1;
  usage = [];
}

on_success :
    {A : Type 0} (P : A → Type 0) (st : Status) (a : A) (f : Status → A)
    → P a
    → (st ≢ success → P (f st))
    → P (elim st [ success ↦ a | other ↦ f other ])
on_success P success a f h k = h
on_success P other a f h k = k (λ e. ground (arith, e))

module _ (env : SessionEnv) (w : DevExt) (user : Bool) (v : Inv w) where
  failed : (st : Status) → rt_success st ≡ false → st ≢ success
  failed st e f = ground (arith, e, f)

  made : Started w env.address (
    record w { sessions = new_session env user ∷ w.sessions },
    some (new_table 3 1 32768),
    success,
  )
  unfolding find_session used_from total refs
  made =
      started (new_session env user)
        (record {
          cells = λ q. subst (Cell (w.heap q) (count q w.objs)) (omega arith) (v.cells q);
          positive = (tt, v.positive);
        })
        refl (rw (eq_self env.address), refl, refl)
        (([], new_table-Wf 3 1 32768 (omega arith)), refl, refl, refl)

  created :
      (has_memory : Bool) (lock : Status)
      → let r = create_ex has_memory lock 3 1 32768 in
        Started w env.address (
          if rt_success r.1
          then (record w { sessions = new_session env user ∷ w.sessions }, r.0, success)
          else (w, none, r.1))
  unfolding create_ex
  created false lock = refused (failed no_memory refl)
  created true lock = elim (Bool-cases (rt_success lock)) [
    | inl locked ↦ rw locked made
    | inr fails ↦ rw (fails, fails) (refused (failed lock fails))
  ]

-- Whether supdrvCreateSession succeeds or not, it keeps the registry intact. It fails with no session
-- and a status other than VINF_SUCCESS, or adds a valid session at its address that refers to no
-- object, and whose handle table is well-formed, counted and without handles.
pub create_session-Started :
    (env : SessionEnv) (w : DevExt) (user : Bool)
    → Inv w
    → Started w env.address (create_session env w user)
unfolding create_session
create_session-Started env w user v =
    let P = Started w env.address in
    guard_intro P (env.address == 0) _ _ (refused (λ e. ground (arith, e))) (λ set.
      on_success P env.spinlock _ (λ st. (w, none, st))
        (created env w user v env.table_memory env.table_lock) (λ n. refused n))
