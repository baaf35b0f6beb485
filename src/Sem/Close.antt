-- ===== src/Sem/Close.antt =====
-- SUPSemEventClose and SUPSemEventMultiClose of vboxdrv/SUPDrvSem.c.
use virtualbox_drv.Common.{
  ℕ, ◌≤◌, ◌^◌, ◌≡◌, ◌≢◌, ◌⊎◌, refl, true, false, none, some, arith, leb, ◌==◌, inl, inr,
  if◌then◌else◌, Bool-cases, Returns, Returns-bind, Status, success, invalid_handle,
  invalid_parameter, rt_success, ◌>>=◌, subst,
}
use virtualbox_drv.HandleTable.{HandleTable, free_with_ctx}
use virtualbox_drv.HandleTable.Handles.{Freed, free_with_ctx-Freed}
use virtualbox_drv.HandleTable.WellFormed.{IsWf}
use virtualbox_drv.Obj.{Session, DevExt, find_session, is_session_valid, obj_release}
use virtualbox_drv.Obj.Invariant.{Inv}
use virtualbox_drv.Sem.{SemState, Kind, free_retained, sem_close}
use virtualbox_drv.Sem.Lookup.{behind_handle, Linked, free_retained-Raised}
use virtualbox_drv.Sem.Retain.{
  Raised, Lowered, Returns-both, obj_release-Lowered, obj_release-IsHeld,
}

-- The outcomes of a close: the session is refused, NIL is ignored, there is no such handle; or the
-- handle is freed and one reference to its object is gone.
pub data Closed (w : SemState) (k : Kind) (s h : ℕ) (x : Session) : SemState × Status → Type 0 where
  bad_session : is_session_valid x ≡ false → Closed w k s h x (w, invalid_parameter)
  nil : h ≡ 0 → Closed w k s h x (w, success)
  bad_handle :
      (2 ^ 32 ≤ h) ⊎ (behind_handle w.table h k.type ≡ 0) → Closed w k s h x (w, invalid_handle)
  closed :
      {w' : SemState} {st : Status}
      → is_session_valid x ≡ true
      → rt_success st ≡ true
      → Freed none w.table h k.type (w'.table, behind_handle w.table h k.type)
      → Lowered w.dev (behind_handle w.table h k.type) w'.dev
      → Inv w'.dev
      → w'.destroyed ≡ w.destroyed
      → Closed w k s h x (w', st)

free_with_ctx-found :
    (t : HandleTable) (h ctx : ℕ)
    → behind_handle t h ctx ≢ 0
    → (free_with_ctx none t h ctx).1 ≡ behind_handle t h ctx
unfolding free_with_ctx
free_with_ctx-found t h ctx set =
    let e : (behind_handle t h ctx == 0) ≡ false = ground (arith, set) in rw e refl

module _ (w : SemState) (k : Kind) (s h : ℕ) (x : Session) (v : Inv w.dev) (wf : IsWf w.table)
    (found : find_session s w.dev.sessions ≡ some x)
    (linked : Linked w.dev w.table s h k.type x) where
  release_Closed :
      (d : DevExt)
      → is_session_valid x ≡ true
      → Freed none w.table h k.type
          ((free_with_ctx none w.table h k.type).0, behind_handle w.table h k.type)
      → Raised w.dev (behind_handle w.table h k.type) s d
      → Inv d
      → Returns (Closed w k s h x) (do
        a ← obj_release d (behind_handle w.table h k.type) s
        b ← obj_release a.0 (behind_handle w.table h k.type) s
        some (record w { dev = b.0; table = (free_with_ctx none w.table h k.type).0 }, b.1))
  release_Closed d ok gone raised dv =
      let p = behind_handle w.table h k.type in
      let (y, o, holds, two) = raised.1 in
      Returns-bind _ _ (obj_release d p s) _
        (Returns-both _ _ (obj_release d p s) (obj_release-Lowered d p s y o dv holds)
          (obj_release-IsHeld d p s y o dv holds two))
        (λ a e.
          Returns-bind _ _ (obj_release a.0 p s)
            (λ b.
              some (record w { dev = b.0; table = (free_with_ctx none w.table h k.type).0 }, b.1))
            (obj_release-Lowered a.0 p s e.1.0 e.1.1 e.0.2 e.1.2)
            (λ b f. closed ok f.0 gone (λ q. omega (arith, raised.0 q, e.0.1 q, f.1 q)) f.2 refl))

  found_Closed :
      is_session_valid x ≡ true
      → behind_handle w.table h k.type ≢ 0
      → Returns (Closed w k s h x) (do
        r ← free_retained w.dev w.table s h k.type
        if r.2 == 0 then some (record w { dev = r.0; table = r.1 }, invalid_handle) else do
          a ← obj_release r.0 r.2 s
          b ← obj_release a.0 r.2 s
          some (record w { dev = b.0; table = r.1 }, b.1))
  found_Closed ok set =
      let (o, holds, room) = linked set ok in
      let e : (behind_handle w.table h k.type == 0) ≡ false = ground (arith, set) in
      let same = free_with_ctx-found w.table h k.type set in
      let gone = free_with_ctx-Freed none w.table h k.type wf in
      Returns-bind _ _ (free_retained w.dev w.table s h k.type) _
        (free_retained-Raised w.dev w.table s h k.type x o v holds room)
        (λ r f.
          rw (f.0, f.1, same, e)
            (release_Closed r.0 ok
              (subst (λ p. Freed none w.table h k.type ((free_with_ctx none w.table h k.type).0, p))
                same gone)
              f.2 f.3))

  -- A close by an existing session ends without a fault in one of the outcomes above, if the registry
  -- and the handle table are intact and, where a valid session's handle leads to an object, the
  -- session holds a reference to it and the counter of the object is below 2^32 - 1.
  pub sem_close-Closed : Returns (Closed w k s h x) (sem_close w k s h)
  unfolding sem_close
  sem_close-Closed = rw found (elim (Bool-cases (is_session_valid x)) [
    | inr bad ↦ rw bad (bad_session bad)
    | inl ok ↦ rw ok (elim (Bool-cases (h == 0)) [
      | inl zero ↦ rw zero (nil (ground (arith, zero)))
      | inr some_handle ↦ rw some_handle (elim (Bool-cases (leb (2 ^ 32) h)) [
        | inl big ↦ rw big (bad_handle (inl (ground (arith, big))))
        | inr small ↦ rw small (elim (Bool-cases (behind_handle w.table h k.type == 0)) [
          | inl null ↦ unfold free_retained in rw null (bad_handle (inr (ground (arith, null))))
          | inr set ↦ found_Closed ok (ground (arith, set))
        ])
      ])
    ])
  ])
