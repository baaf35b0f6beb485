-- ===== src/Sem/Use.antt =====
-- Signalling, resetting and waiting in vboxdrv/SUPDrvSem.c.
use virtualbox_drv.Common.{
  ℕ, ◌≤◌, ◌^◌, ◌≡◌, ◌≢◌, ◌⊎◌, true, false, some, arith, leb, ◌==◌, if◌then◌else◌, inl, inr,
  Bool-cases, Returns, Returns-bind, Status, invalid_handle, invalid_parameter, ◌>>=◌,
}
use virtualbox_drv.HandleTable.{HandleTable}
use virtualbox_drv.Obj.{Obj, Session, DevExt, find_session, is_session_valid, obj_release}
use virtualbox_drv.Obj.Invariant.{Inv}
use virtualbox_drv.Sem.{Kind, lookup_retained, sem_use}
use virtualbox_drv.Sem.Lookup.{behind_handle, Linked, lookup_retained-Raised}
use virtualbox_drv.Sem.Retain.{IsHeld, Raised, Lowered, obj_release-Lowered}

-- The outcomes of a call on a handle.
pub data Used (run : ℕ → Status) (during : DevExt → DevExt) (w : DevExt) (t : HandleTable)
    (k : Kind) (s h : ℕ) (x : Session) : DevExt × Status → Type 0 where
  bad_session : is_session_valid x ≡ false → Used run during w t k s h x (w, invalid_parameter)
  bad_handle :
      (2 ^ 32 ≤ h) ⊎ (behind_handle t h k.type ≡ 0)
      → Used run during w t k s h x (w, invalid_handle)
  ran :
      {w' : DevExt} (v : DevExt) (o : Obj)
      → is_session_valid x ≡ true
      → Raised w (behind_handle t h k.type) s v
      → v.heap (behind_handle t h k.type) ≡ some o
      → Lowered (during v) (behind_handle t h k.type) w'
      → Inv w'
      → Used run during w t k s h x (w', run o.user1)

-- Other threads keep the invariant and the references that this thread works with.
abbrev pub Respects : (DevExt → DevExt) → (p s : ℕ) → Type 0
Respects during p s = (v : DevExt) → Inv v → IsHeld v p s → Inv (during v) × IsHeld (during v) p s

module _ (run : ℕ → Status) (during : DevExt → DevExt) (w : DevExt) (t : HandleTable) (k : Kind)
    (s h : ℕ) (x : Session) (v : Inv w) (found : find_session s w.sessions ≡ some x)
    (linked : Linked w t s h k.type x) (others : Respects during (behind_handle t h k.type) s) where
  release_Used :
      (u : DevExt)
      → is_session_valid x ≡ true
      → Raised w (behind_handle t h k.type) s u
      → Inv u
      → Returns (Used run during w t k s h x) (do
        o ← u.heap (behind_handle t h k.type)
        d ← obj_release (during u) (behind_handle t h k.type) s
        some (d.0, run o.user1))
  release_Used u ok raised uv =
      let (y, o, holds, two) = raised.1 in
      let (dv, (z, p, still)) = others u uv (y, o, holds) in
      rw holds.live (
        Returns-bind _ _ (obj_release (during u) (behind_handle t h k.type) s)
          (λ d. some (d.0, run o.user1))
          (obj_release-Lowered (during u) (behind_handle t h k.type) s z p dv still)
          (λ d e. ran u o ok raised holds.live e.1 e.2))

  found_Used :
      is_session_valid x ≡ true
      → behind_handle t h k.type ≢ 0
      → Returns (Used run during w t k s h x) (do
        r ← lookup_retained w t s h k.type
        if r.1 == 0
            then some (r.0, invalid_handle)
            else do o ← r.0.heap r.1; d ← obj_release (during r.0) r.1 s; some (d.0, run o.user1))
  found_Used ok set =
      let (o, holds, room) = linked set ok in
      let e : (behind_handle t h k.type == 0) ≡ false = ground (arith, set) in
      Returns-bind _ _ (lookup_retained w t s h k.type) _
        (lookup_retained-Raised w t s h k.type x o v holds room)
        (λ r f. rw (f.0, e) (release_Used r.0 ok f.1 f.2))

  -- A signal, reset or wait of an existing session ends without a fault in one of the outcomes above,
  -- if the registry is intact and, where a valid session's handle leads to an object, the session
  -- holds a reference to it and the counter of the object is below 2^32 - 1, and if other threads
  -- keep the registry intact during the call of the runtime and leave the session and its reference.
  pub sem_use-Used : Returns (Used run during w t k s h x) (sem_use run during w t k s h)
  unfolding sem_use
  sem_use-Used = rw found (elim (Bool-cases (is_session_valid x)) [
    | inr bad ↦ rw bad (bad_session bad)
    | inl ok ↦ rw ok (elim (Bool-cases (leb (2 ^ 32) h)) [
      | inl big ↦ rw big (bad_handle (inl (ground (arith, big))))
      | inr small ↦ rw small (elim (Bool-cases (behind_handle t h k.type == 0)) [
        | inl null ↦ unfold lookup_retained in rw null (bad_handle (inr (ground (arith, null))))
        | inr set ↦ found_Used ok (ground (arith, set))
      ])
    ])
  ])
