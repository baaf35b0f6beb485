-- ===== src/Session/Whole.antt =====
-- supdrvCleanupSession of vboxdrv/SUPDrv.c as a whole: what a session leaves behind.
use virtualbox_drv.Common.{
  ℕ, ◌≤◌, ◌≡◌, refl, ◌∙◌, ap, true, none, some, [], ◌++◌, ◌==◌, if◌then◌else◌, Returns,
  Returns-bind,
}
use virtualbox_drv.Factory.Registration.{find_reg, UniqueRegs, find_reg-cleanup_factories}
use virtualbox_drv.HandleTable.{handle_table_magic}
use virtualbox_drv.HandleTable.Counted.{IsCounted}
use virtualbox_drv.HandleTable.WellFormed.{IsWf}
use virtualbox_drv.Ldr.Balanced.{BalancedLdr}
use virtualbox_drv.Ldr.Free.{cleanup_session_images}
use virtualbox_drv.MemRef.Cleanup.{frees_all, cleanup_memory-entries}
use virtualbox_drv.MemRef.Entries.{entries}
use virtualbox_drv.Obj.{Session, DevExt, find_session, is_session_valid}
use virtualbox_drv.Obj.Cleanup.{Cleaned}
use virtualbox_drv.Obj.Counts.{refs}
use virtualbox_drv.Obj.Invariant.{Inv}
use virtualbox_drv.Session.{State, cleanup_handles, cleanup_session}
use virtualbox_drv.Session.Handles.{handles, NonNull, table_handles, cleanup_handles-Cleaned}
use virtualbox_drv.Session.Images.{Kept, cleanup_session_images-Kept}

-- A state whose session `s` is `x`: the registry is intact, the table well-formed with a right
-- counter, each handle stands for a reference of the session, the counters of the images are right
-- for its references and those of the other sessions, `rest`, and no factory is registered twice.
pub record Sound (rest : ℕ → ℕ) (w : State) (s : ℕ) (x : Session) : Type 0 where
  pub inv : Inv w.ldr.dev
  pub table : IsWf w.table
  pub counted : IsCounted w.table
  pub magic : w.table.magic ≡ handle_table_magic
  pub found : find_session s w.ldr.dev.sessions ≡ some x
  pub valid : is_session_valid x ≡ true
  pub set : NonNull (table_handles w.table)
  pub backed : (q : ℕ) → handles q (table_handles w.table) ≤ refs q x.usage
  pub images : BalancedLdr rest s w.ldr
  pub unique : UniqueRegs w.factories

-- What is left: no reference of the session to an object or an image, no memory, no factory of it.
pub record Gone (rest : ℕ → ℕ) (w : State) (s : ℕ) (x : Session) (w' : State) : Type 0 where
  pub objects : Cleaned w.ldr.dev s x.usage w'.ldr.dev
  pub images : BalancedLdr rest s w'.ldr
  pub no_images : w'.ldr.usage s ≡ []
  pub no_memory : w'.bundles ≡ []
  pub freed : w'.freed ≡ w.freed ++ frees_all (entries w.bundles)
  pub factories :
      (f : ℕ)
      → find_reg f w'.factories ≡ (elim (find_reg f w.factories) [
        | none ↦ none
        | some r ↦ if r.session == s then none else some r
      ])

Cleaned-Kept :
    (w d e : DevExt) (s : ℕ) (x : Session)
    → Cleaned w s x.usage d
    → Kept d e
    → Cleaned w s x.usage e
Cleaned-Kept w d e s x c k = record {
  inv = k.inv;
  session = c.session;
  found = ap (find_session s) k.same ∙ c.found;
  empty = c.empty;
  others = λ t apart. ap (find_session t) k.same ∙ c.others t apart;
  balance = λ q. rw k.same (c.balance q);
}

-- supdrvCleanupSession ends without a fault in a sound state. The session is left without references
-- to objects and images, without memory, of which each entry in use is freed once, and without
-- registrations of factories. The registrations of the other sessions stay, as do their references to
-- objects, and the counters of objects and images are right for what the other sessions hold.
pub cleanup_session-Gone :
    (rest : ℕ → ℕ) (w : State) (s : ℕ) (x : Session)
    → Sound rest w s x
    → Returns (Gone rest w s x) (cleanup_session w s)
unfolding cleanup_session
cleanup_session-Gone rest w s x h =
    Returns-bind _ _ (cleanup_handles w.ldr.dev w.table s) _
      (cleanup_handles-Cleaned w.ldr.dev w.table s x h.inv h.table h.counted h.magic h.found h.valid
        h.set h.backed)
      (λ d c.
        Returns-bind _ _ (cleanup_session_images (record w.ldr { dev = d }) s) _
          (cleanup_session_images-Kept rest (record w.ldr { dev = d }) s h.images c.inv)
          (λ l k. record {
            objects = Cleaned-Kept w.ldr.dev d l.dev s x c k.1;
            images = k.0.0;
            no_images = k.0.1;
            no_memory = refl;
            freed = ap (λ f. w.freed ++ f) (cleanup_memory-entries w.bundles);
            factories = λ f. find_reg-cleanup_factories s f w.factories h.unique;
          }))
