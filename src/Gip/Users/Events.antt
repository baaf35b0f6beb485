-- ===== src/Gip/Users/Events.antt =====
-- The events in the life of the sessions that use the global information page of
-- vboxdrv/SUPDrv.c, and the users after any of them.
use virtualbox_drv.Common.{
  ℕ, zero, suc, ◌+◌, ◌^◌, ◌≡◌, ◌≢◌, ◌≤◌, ◌<◌, refl, Bool, true, false, List, [], ◌∷◌, arith,
  success, subst, length,
}
use virtualbox_drv.Gip.{GipSession, GipDev, GipEnv, reference, gip_map, gip_unmap, gip_cleanup}
use virtualbox_drv.Gip.Users.{
  counted, Counted, Keeps, TimerWorks, Mapped, gip_map-Keeps, gip_unmap-Keeps, gip_map-Mapped,
  gip_unmap-Mapped, gip_cleanup-Counted,
}

-- What happens to the sessions: the calls on the one at an index, the end of it, and a new one.
pub data Event : Type 0 where
  map_gip : GipEnv → Bool → ℕ → Event
  unmap_gip : GipEnv → ℕ → Event
  cleanup : GipEnv → ℕ → Event
  begin : Event

abbrev new_session : GipSession
new_session = record { is_valid = true; map_obj = 0; referenced = false }

-- A call on the session at an index.
unfoldable pub at_session :
    (GipDev → GipSession → GipDev × GipSession)
    → ℕ
    → GipDev
    → List GipSession
    → GipDev × List GipSession
at_session f i w [] = (w, [])
at_session f zero w (x ∷ xs) = let r = f w x in (r.0, r.1 ∷ xs)
at_session f (suc i) w (x ∷ xs) = let r = at_session f i w xs in (r.0, x ∷ r.1)

unfoldable pub end_session : GipEnv → ℕ → GipDev → List GipSession → GipDev × List GipSession
end_session env i w [] = (w, [])
end_session env zero w (x ∷ xs) = (gip_cleanup env w x, xs)
end_session env (suc i) w (x ∷ xs) = let r = end_session env i w xs in (r.0, x ∷ r.1)

unfoldable pub run_event : Event → GipDev → List GipSession → GipDev × List GipSession
run_event (map_gip env to_r3 i) w xs =
    at_session (λ w x. let r = gip_map env to_r3 w x in (r.0, r.1)) i w xs
run_event (unmap_gip env i) w xs =
    at_session (λ w x. let r = gip_unmap env w x in (r.0, r.1)) i w xs
run_event (cleanup env i) w xs = end_session env i w xs
run_event begin w xs = (w, new_session ∷ xs)

unfoldable pub c_referenced : List GipSession → ℕ
c_referenced [] = 0
c_referenced (x ∷ xs) = counted x + c_referenced xs

abbrev pub AllMapped : List GipSession → Type 0
AllMapped [] = Unit {0}
AllMapped (x ∷ xs) = Mapped x × AllMapped xs

transport_count : {w : GipDev} {m n : ℕ} → m ≡ n → Counted w m → Counted w n
transport_count {w} e = subst (Counted w) e

counted-bound : (x : GipSession) → counted x ≤ 1
counted-bound x = ground arith

c_referenced-length : (xs : List GipSession) → c_referenced xs ≤ length xs
unfolding c_referenced
c_referenced-length [] = omega arith
c_referenced-length (x ∷ xs) = omega (arith, c_referenced-length xs, counted-bound x)

-- The count of the sessions at an index and of all others.
at_session-Counted :
    (f : GipDev → GipSession → GipDev × GipSession) (i : ℕ) (w : GipDev) (xs : List GipSession)
    → (rest : ℕ) → Keeps f
    → length xs + rest < 2 ^ 32
    → Counted w (c_referenced xs + rest)
    → Counted (at_session f i w xs).0 (c_referenced (at_session f i w xs).1 + rest)
unfolding at_session c_referenced
at_session-Counted f i w [] rest k room c = c
at_session-Counted f zero w (x ∷ xs) rest k room c = transport_count (omega arith) (
    k w x (c_referenced xs + rest) (omega (arith, room, c_referenced-length xs))
      (transport_count (omega arith) c))
at_session-Counted f (suc i) w (x ∷ xs) rest k room c = transport_count (omega arith) (
    at_session-Counted f i w xs (counted x + rest) k (omega (arith, room, counted-bound x))
      (transport_count (omega arith) c))

end_session-Counted :
    (env : GipEnv) (i : ℕ) (w : GipDev) (xs : List GipSession) (rest : ℕ)
    → TimerWorks env
    → env.freed ≡ success
    → AllMapped xs
    → length xs + rest < 2 ^ 32
    → Counted w (c_referenced xs + rest)
    → Counted (end_session env i w xs).0 (c_referenced (end_session env i w xs).1 + rest)
unfolding end_session c_referenced
end_session-Counted env i w [] rest works done ms room c = c
end_session-Counted env zero w (x ∷ xs) rest works done ms room c =
    gip_cleanup-Counted env w x (c_referenced xs + rest)
      (omega (arith, room, c_referenced-length xs)) works done ms.0
      (transport_count (omega arith) c)
end_session-Counted env (suc i) w (x ∷ xs) rest works done ms room c =
    transport_count (omega arith) (
      end_session-Counted env i w xs (counted x + rest) works done ms.1
        (omega (arith, room, counted-bound x)) (transport_count (omega arith) c))

at_session-Mapped :
    (f : GipDev → GipSession → GipDev × GipSession) (i : ℕ) (w : GipDev) (xs : List GipSession)
    → ((w : GipDev) (x : GipSession) → Mapped x → Mapped (f w x).1)
    → AllMapped xs
    → AllMapped (at_session f i w xs).1
unfolding at_session
at_session-Mapped f i w [] k ms = ms
at_session-Mapped f zero w (x ∷ xs) k ms = (k w x ms.0, ms.1)
at_session-Mapped f (suc i) w (x ∷ xs) k ms = (ms.0, at_session-Mapped f i w xs k ms.1)

end_session-Mapped :
    (env : GipEnv) (i : ℕ) (w : GipDev) (xs : List GipSession)
    → AllMapped xs
    → AllMapped (end_session env i w xs).1
unfolding end_session
end_session-Mapped env i w [] ms = ms
end_session-Mapped env zero w (x ∷ xs) ms = ms.1
end_session-Mapped env (suc i) w (x ∷ xs) ms = (ms.0, end_session-Mapped env i w xs ms.1)

-- The page is always mapped into ring 3, mappings have handles, they are freed, and the timer does what
-- it is told.
abbrev pub Sound : Event → Type 0
Sound (map_gip env to_r3 i) = (to_r3 ≡ true) × (env.map_obj ≢ 0) × TimerWorks env
Sound (unmap_gip env i) = (env.freed ≡ success) × TimerWorks env
Sound (cleanup env i) = (env.freed ≡ success) × TimerWorks env
Sound begin = Unit {0}

abbrev pub AllSound : List Event → Type 0
AllSound [] = Unit {0}
AllSound (e ∷ es) = Sound e × AllSound es

unfoldable pub run_events : List Event → GipDev → List GipSession → GipDev × List GipSession
run_events [] w xs = (w, xs)
run_events (e ∷ es) w xs = let r = run_event e w xs in run_events es r.0 r.1

-- One event.
run_event-Counted :
    (e : Event) (w : GipDev) (xs : List GipSession)
    → Sound e
    → AllMapped xs
    → length xs < 2 ^ 32
    → Counted w (c_referenced xs)
    → Counted (run_event e w xs).0 (c_referenced (run_event e w xs).1)
unfolding run_event c_referenced
run_event-Counted (map_gip env to_r3 i) w xs s ms room c = transport_count (omega arith) (
    at_session-Counted _ i w xs 0 (gip_map-Keeps env to_r3 s.2) (omega (arith, room))
      (transport_count (omega arith) c))
run_event-Counted (unmap_gip env i) w xs s ms room c = transport_count (omega arith) (
    at_session-Counted _ i w xs 0 (gip_unmap-Keeps env s.1) (omega (arith, room))
      (transport_count (omega arith) c))
run_event-Counted (cleanup env i) w xs s ms room c = transport_count (omega arith) (
    end_session-Counted env i w xs 0 s.1 s.0 ms (omega (arith, room))
      (transport_count (omega arith) c))
run_event-Counted begin w xs s ms room c = transport_count (omega arith) c

run_event-Mapped :
    (e : Event) (w : GipDev) (xs : List GipSession)
    → Sound e
    → AllMapped xs
    → AllMapped (run_event e w xs).1
unfolding run_event
run_event-Mapped (map_gip env true i) w xs s ms =
    at_session-Mapped _ i w xs (λ w x m. gip_map-Mapped env w x s.1 m) ms
run_event-Mapped (map_gip env false i) w xs s ms = ground (arith, s.0)
run_event-Mapped (unmap_gip env i) w xs s ms =
    at_session-Mapped _ i w xs (λ w x m. gip_unmap-Mapped env w x s.0 m) ms
run_event-Mapped (cleanup env i) w xs s ms = end_session-Mapped env i w xs ms
run_event-Mapped begin w xs s ms = (record { valid = refl; mapping = λ p. ground (arith, p) }, ms)

-- There are fewer than 2^32 sessions whenever one of the events happens.
abbrev pub FewSessions : List Event → GipDev → List GipSession → Type 0
FewSessions [] w xs = Unit {0}
FewSessions (e ∷ es) w xs =
    (length xs < 2 ^ 32) × FewSessions es (run_event e w xs).0 (run_event e w xs).1

-- However often and in whatever order sessions begin, call SUPR0GipMap and SUPR0GipUnmap, and end: if
-- at the start the users are the sessions that are counted, the timer runs exactly while there is one,
-- and all sessions are valid and counted ones mapped into ring 3, then the users are the sessions
-- counted and the timer runs exactly while there is one after it. It is assumed that the page is
-- always mapped into ring 3, that mappings have handles and are freed with VINF_SUCCESS, that
-- RTTimerStart and RTTimerStop succeed, and that at each event there are fewer than 2^32 sessions.
pub run_events-Counted :
    (es : List Event) (w : GipDev) (xs : List GipSession)
    → AllSound es
    → AllMapped xs
    → FewSessions es w xs
    → Counted w (c_referenced xs)
    → Counted (run_events es w xs).0 (c_referenced (run_events es w xs).1)
unfolding run_events
run_events-Counted [] w xs s ms few c = c
run_events-Counted (e ∷ es) w xs s ms few c =
    run_events-Counted es (run_event e w xs).0 (run_event e w xs).1 s.1
      (run_event-Mapped e w xs s.0 ms) few.1 (run_event-Counted e w xs s.0 ms few.0 c)

-- A session that is counted without a mapping in ring 3 leaves the count as it is when it ends: it is
-- one more than the sessions that are left.
gip_cleanup-unmapped :
    (env : GipEnv) (w : GipDev) (rest : ℕ)
    → w.present ≡ true
    → TimerWorks env
    → rest + 1 < 2 ^ 32
    → Counted w rest
    → Counted
        (gip_cleanup env (gip_map env false w new_session).0 (gip_map env false w new_session).1)
        (rest + 1)
unfolding gip_cleanup gip_map reference
gip_cleanup-unmapped env w rest here t room c = ground (arith, here, c, t.starts)
