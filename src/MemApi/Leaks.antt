-- ===== src/MemApi/Leaks.antt =====
-- The memory objects that the memory interface of vboxdrv/SUPDrv.c makes and frees, counted over the
-- life of a session.
use virtualbox_drv.Common.{
  ℕ, ◌+◌, ◌≡◌, ◌≢◌, ◌⊎◌, refl, Bool, List, [], ◌∷◌, ◌++◌, inl, inr, arith, map, ◌==◌, if◌then◌else◌,
  Bool-cases, ap, ◌∙◌,
}
use virtualbox_drv.MemRef.{MemRef, Bundle, frees}
use virtualbox_drv.MemRef.Cleanup.{frees_all, cleanup_memory-entries}
use virtualbox_drv.MemRef.Entries.{entries, WellFormed, Inserted, at, later}
use virtualbox_drv.MemApi.{Call, made, freed, MemEnv, Outcome, Request, run, run_all, run_session}
use virtualbox_drv.MemApi.Outcomes.{
  Ran, refused, undone, recorded, released, IsSane, run-Ran, makes, undoes,
}
use virtualbox_drv.Obj.{Session}

-- The runtime gives no NIL handle with an object, and no other thread runs in between.
abbrev pub AllSane : List (MemEnv × Request) → Type 0
AllSane [] = Unit {0}
AllSane (q ∷ qs) =
    ((q.0.mem ≢ 0) × (q.0.map_obj ≢ 0) × ((bs : List Bundle) → q.0.race bs ≡ bs)) × AllSane qs

abbrev one : ℕ → ℕ → ℕ
one p q = if p == q then 1 else 0

-- How often a handle is made, or freed, by a row of calls.
unfoldable pub made_count : ℕ → List Call → ℕ
made_count h [] = 0
made_count h (made p ∷ cs) = one p h + made_count h cs
made_count h (freed p f ∷ cs) = made_count h cs

unfoldable pub freed_count : ℕ → List Call → ℕ
freed_count h [] = 0
freed_count h (made p ∷ cs) = freed_count h cs
freed_count h (freed p f ∷ cs) = one p h + freed_count h cs

-- How often references name a handle.
abbrev named : ℕ → MemRef → ℕ
named h m = one m.map_obj h + one m.mem_obj h

unfoldable pub held : ℕ → List MemRef → ℕ
held h [] = 0
held h (m ∷ ms) = named h m + held h ms

abbrev freed_calls : List (ℕ × Bool) → List Call
freed_calls = map (λ f. freed f.0 f.1)

made_count-append :
    (h : ℕ) (cs ds : List Call) → made_count h (cs ++ ds) ≡ made_count h cs + made_count h ds
unfolding made_count
made_count-append h [] ds = omega arith
made_count-append h (made p ∷ cs) ds = omega (arith, made_count-append h cs ds)
made_count-append h (freed p f ∷ cs) ds = made_count-append h cs ds

freed_count-append :
    (h : ℕ) (cs ds : List Call) → freed_count h (cs ++ ds) ≡ freed_count h cs + freed_count h ds
unfolding freed_count
freed_count-append h [] ds = omega arith
freed_count-append h (made p ∷ cs) ds = freed_count-append h cs ds
freed_count-append h (freed p f ∷ cs) ds = omega (arith, freed_count-append h cs ds)

held-nil : (h : ℕ) → held h [] ≡ 0
unfolding held
held-nil h = refl

held-Inserted :
    (h : ℕ) {m : MemRef} {xs ys : List MemRef}
    → Inserted m xs ys
    → held h ys ≡ named h m + held h xs
unfolding held
held-Inserted h (at) = refl
held-Inserted h (later i) = omega (arith, held-Inserted h i)

module _ (h : ℕ) (set : h ≢ 0) where
  makes-named : (m : MemRef) → (made_count h (makes m) ≡ named h m) × (freed_count h (makes m) ≡ 0)
  unfolding made_count freed_count
  makes-named m = ground (arith, set, Bool-cases (m.map_obj == 0))

  undoes-named :
      (m : MemRef) → (freed_count h (undoes m) ≡ named h m) × (made_count h (undoes m) ≡ 0)
  unfolding made_count freed_count
  undoes-named m = ground (arith, set, Bool-cases (m.map_obj == 0), Bool-cases (m.mem_obj == 0))

  frees-named :
      (m : MemRef)
      → (freed_count h (freed_calls (frees m)) ≡ named h m)
        × (made_count h (freed_calls (frees m)) ≡ 0)
  unfolding made_count freed_count
  frees-named m = ground (arith, set, Bool-cases (m.map_obj == 0), Bool-cases (m.mem_obj == 0))

  freed_calls-append :
      (xs ys : List (ℕ × Bool)) → freed_calls (xs ++ ys) ≡ freed_calls xs ++ freed_calls ys
  freed_calls-append [] ys = refl
  freed_calls-append (x ∷ xs) ys = ap (λ l. freed x.0 x.1 ∷ l) (freed_calls-append xs ys)

  frees_all-held :
      (ms : List MemRef)
      → (freed_count h (freed_calls (frees_all ms)) ≡ held h ms)
        × (made_count h (freed_calls (frees_all ms)) ≡ 0)
  unfolding frees_all held freed_count made_count
  frees_all-held [] = (refl, refl)
  frees_all-held (m ∷ ms) = rw (freed_calls-append (frees m) (frees_all ms)) (
      omega (
        arith,
        freed_count-append h (freed_calls (frees m)) (freed_calls (frees_all ms)),
        made_count-append h (freed_calls (frees m)) (freed_calls (frees_all ms)),
        frees-named m,
        frees_all-held ms,
      ))

  -- What a row of calls makes and does not free is what the chain holds after it and not before.
  abbrev Balanced : List Bundle → List Call → List Bundle → Type 0
  Balanced bs cs ds = held h (entries bs) + made_count h cs ≡ held h (entries ds) + freed_count h cs

  same_base :
      (env : MemEnv) (bs base : List Bundle)
      → env.race bs ≡ bs
      → (base ≡ bs) ⊎ (base ≡ env.race bs)
      → held h (entries base) ≡ held h (entries bs)
  same_base env bs base quiet (inl e) = ap (λ b. held h (entries b)) e
  same_base env bs base quiet (inr e) = ap (λ b. held h (entries b)) (e ∙ quiet)

  Ran-Balanced :
      (env : MemEnv) (q : Request) (bs : List Bundle) (o : Outcome)
      → WellFormed bs
      → env.race bs ≡ bs
      → Ran env q bs o
      → Balanced bs o.calls o.bundles × WellFormed o.bundles
  Ran-Balanced env q bs _ v quiet (refused e) = (unfold made_count freed_count in refl, v)
  Ran-Balanced env q bs _ v quiet (undone {base = base} m e b w) = (
    omega (
      arith,
      same_base env bs base quiet b,
      made_count-append h (makes m) (undoes m),
      freed_count-append h (makes m) (undoes m),
      makes-named m,
      undoes-named m,
    ),
    w,
  )
  Ran-Balanced env q bs _ v quiet (recorded {base = base} m b i w k) =
      (omega (arith, same_base env bs base quiet b, held-Inserted h i, makes-named m), w)
  Ran-Balanced env q bs _ v quiet (released {m = m} type ptr e i k w) =
      (omega (arith, held-Inserted h i, frees-named m), w)

  run_all-Balanced :
      (x : Session) (qs : List (MemEnv × Request)) (bs : List Bundle)
      → WellFormed bs
      → AllSane qs
      → let r = run_all x qs bs in Balanced bs r.1 r.0 × WellFormed r.0
  unfolding run_all
  run_all-Balanced x [] bs v sane = (unfold made_count freed_count in refl, v)
  run_all-Balanced x (q ∷ qs) bs v sane =
      let o = run q.0 x q.1 bs in
      let s : IsSane q.0 bs = record {
        object = sane.0.0;
        mapping = sane.0.1;
        raced = rw (sane.0.2 bs) v;
      } in
      let (b, w) = Ran-Balanced q.0 q.1 bs o v (sane.0.2 bs) (run-Ran q.0 x bs v s q.1) in
      let (c, k) = run_all-Balanced x qs o.bundles w sane.1 in
      let rest = run_all x qs o.bundles in
      (
        omega
            (arith, b, c, made_count-append h o.calls rest.1, freed_count-append h o.calls rest.1),
        k,
      )

  -- After any row of requests of a session that began with no memory, and the cleanup of the session,
  -- each memory object has been freed exactly as often as it was made: none leaks, whatever failed,
  -- and none is freed twice. The runtime gives no NIL handle with an object, and no other thread of
  -- the session runs in between.
  pub run_session-balanced :
      (x : Session) (qs : List (MemEnv × Request)) (bs : List Bundle)
      → WellFormed bs
      → entries bs ≡ []
      → AllSane qs
      → made_count h (run_session x qs bs) ≡ freed_count h (run_session x qs bs)
  unfolding run_session
  run_session-balanced x qs bs v empty sane =
      let r = run_all x qs bs in
      let (b, w) = run_all-Balanced x qs bs v sane in
      rw (cleanup_memory-entries r.0) (
        omega (
          arith,
          b,
          ap (held h) empty,
          held-nil h,
          frees_all-held (entries r.0),
          made_count-append h r.1 (freed_calls (frees_all (entries r.0))),
          freed_count-append h r.1 (freed_calls (frees_all (entries r.0))),
        ))
