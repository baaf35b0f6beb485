-- ===== src/Sem/Lookup.antt =====
-- Looking up and freeing a handle of a session's handle table, with supdrvSessionObjHandleRetain of
-- vboxdrv/SUPDrv.c as the retain callback.
use virtualbox_drv.Common.{
  ℕ, ◌+◌, ◌<◌, ◌^◌, ◌≡◌, ◌≢◌, refl, true, false, none, some, arith, ◌==◌, Returns, Returns-bind,
  success,
}
use virtualbox_drv.HandleTable.{HandleTable, find_object, lookup_with_ctx, free_with_ctx}
use virtualbox_drv.Obj.{Obj, Session, DevExt, is_session_valid}
use virtualbox_drv.Obj.Invariant.{Inv}
use virtualbox_drv.Sem.{handle_retain, lookup_retained, free_retained}
use virtualbox_drv.Sem.Retain.{Holds, Raised, handle_retain-Raised}

-- The object behind a handle, before anything is retained.
abbrev pub behind_handle : HandleTable → (h ctx : ℕ) → ℕ
behind_handle t h ctx = lookup_with_ctx none t h ctx

-- The session holds what its handle leads to, and the counter of that object is not at its limit.
abbrev pub Linked : DevExt → HandleTable → (s h ctx : ℕ) → Session → Type 0
Linked w t s h ctx x =
    behind_handle t h ctx ≢ 0
    → is_session_valid x ≡ true
    → (o : Obj) × Holds w (behind_handle t h ctx) s x o × (o.count + 1 < 2 ^ 32)

pub lookup-success :
    (t : HandleTable) (h ctx : ℕ)
    → lookup_with_ctx (some (λ _ _. success)) t h ctx ≡ lookup_with_ctx none t h ctx
unfolding lookup_with_ctx find_object
lookup-success t h ctx = refl

pub free-success :
    (t : HandleTable) (h ctx : ℕ)
    → free_with_ctx (some (λ _ _. success)) t h ctx ≡ free_with_ctx none t h ctx
unfolding free_with_ctx
free-success t h ctx = rw (lookup-success t h ctx) refl

module _ (w : DevExt) (t : HandleTable) (s h ctx : ℕ) (x : Session) (o : Obj) (v : Inv w)
    (holds : Holds w (behind_handle t h ctx) s x o) (room : o.count + 1 < 2 ^ 32) where
  -- The object is found and the session has one reference to it more.
  pub lookup_retained-Raised :
      Returns
        (λ r. (r.1 ≡ behind_handle t h ctx) × Raised w (behind_handle t h ctx) s r.0 × Inv r.0)
        (lookup_retained w t s h ctx)
  unfolding lookup_retained
  lookup_retained-Raised =
      let e : (behind_handle t h ctx == 0) ≡ false = ground (arith, holds.set) in
      rw e (
        Returns-bind _ _ (handle_retain w (behind_handle t h ctx) s)
          (λ r. some (r.0, lookup_with_ctx (some (λ _ _. r.1)) t h ctx))
          (handle_retain-Raised w (behind_handle t h ctx) s x o v holds room)
          (λ r k. (rw k.0 (lookup-success t h ctx), k.1, k.2)))

  pub free_retained-Raised :
      Returns
        (λ r.
          (r.1 ≡ (free_with_ctx none t h ctx).0)
          × (r.2 ≡ (free_with_ctx none t h ctx).1)
          × Raised w (behind_handle t h ctx) s r.0
          × Inv r.0)
        (free_retained w t s h ctx)
  unfolding free_retained
  free_retained-Raised =
      let e : (behind_handle t h ctx == 0) ≡ false = ground (arith, holds.set) in
      rw e (
        Returns-bind _ _ (handle_retain w (behind_handle t h ctx) s)
          (λ r. some (
            r.0,
            (free_with_ctx (some (λ _ _. r.1)) t h ctx).0,
            (free_with_ctx (some (λ _ _. r.1)) t h ctx).1,
          ))
          (handle_retain-Raised w (behind_handle t h ctx) s x o v holds room)
          (λ r k.
            (rw (k.0, free-success t h ctx) refl, rw (k.0, free-success t h ctx) refl, k.1, k.2)))
