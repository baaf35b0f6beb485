-- ===== src/Gip/Averages.antt =====
-- The average of the TSC intervals in supdrvGipDoUpdateCpu of vboxdrv/SUPDrv.c: it lies between the
-- intervals it is an average of, and so does the frequency that is derived from it.
use virtualbox_drv.Common.{
  ℕ, ◌+◌, ◌*◌, ◌/◌, ◌%◌, ◌^◌, ◌≡◌, ◌≤◌, ◌<◌, refl, arith, leb, ◌==◌, ◌&&◌, ◌||◌, if_intro, subst,
  sym,
}
use virtualbox_drv.Gip.{GipCpu, sub64, tsc_delta, new_history, average, slack, do_update_cpu}

-- The number is in the range.
pub record Between (lo hi n : ℕ) : Type 0 where
  pub low : lo ≤ n
  pub high : n ≤ hi

module _ (lo hi : ℕ) (small : hi < 2 ^ 30) where
  average_four :
      (a b c d : ℕ)
      → Between lo hi a
      → Between lo hi b
      → Between lo hi c
      → Between lo hi d
      → Between lo hi ((a + b + c + d) % 2 ^ 32 / 4)
  average_four a b c d p q r s = record {
    low = omega (arith, small, p.low, q.low, r.low, s.low, p.high, q.high, r.high, s.high);
    high = omega (arith, small, p.high, q.high, r.high, s.high);
  }

  average_two : (a b : ℕ) → Between lo hi a → Between lo hi b → Between lo hi ((a + b) % 2 ^ 32 / 2)
  average_two a b p q = record {
    low = omega (arith, small, p.low, q.low, p.high, q.high);
    high = omega (arith, small, p.high, q.high);
  }

  to32-Between : (a : ℕ) → Between lo hi a → Between lo hi (a % 2 ^ 32)
  to32-Between a p = record {
    low = omega (arith, small, p.low, p.high);
    high = omega (arith, small, p.high);
  }

  average-Between :
      (hz delta head : ℕ) (h : ℕ → ℕ)
      → Between lo hi delta
      → ((i : ℕ) → i < 8 → Between lo hi (h i))
      → Between lo hi (average hz delta head h)
  unfolding average
  average-Between hz delta head h p q =
      if_intro (Between lo hi) (leb 1000 hz) _ _
        (λ _.
          average_two _ _
            (average_four (h 4) (h 5) (h 6) (h 7) (q 4 (omega arith)) (q 5 (omega arith))
              (q 6 (omega arith)) (q 7 (omega arith)))
            (average_four (h 0) (h 1) (h 2) (h 3) (q 0 (omega arith)) (q 1 (omega arith))
              (q 2 (omega arith)) (q 3 (omega arith))))
        (λ _.
          if_intro (Between lo hi) (leb 90 hz) _ _
            (λ _. average_two _ _ (to32-Between delta p) (q ((head + 7) % 8) (omega arith)))
            (λ _. to32-Between delta p))

  slack-bound : (hz avg : ℕ) → slack hz avg ≤ avg / 2 ^ 6
  unfolding slack
  slack-bound hz avg = ground arith

  -- The intervals of a CPU are in the range.
  abbrev pub InRange : GipCpu → Type 0
  InRange c = (i : ℕ) → i < 8 → Between lo hi (c.history i)

  tsc_delta-Between :
      (c : GipCpu) (tsc : ℕ) → Between lo hi (sub64 tsc c.tsc) → tsc_delta c tsc ≡ sub64 tsc c.tsc
  unfolding tsc_delta
  tsc_delta-Between c tsc p = ground (arith, p, small)

  new_history-Between :
      (c : GipCpu) (delta tick : ℕ)
      → Between lo hi delta
      → InRange c
      → (i : ℕ) → i < 8
      → Between lo hi (new_history c delta tick i)
  unfolding new_history
  new_history-Between c delta tick p q i b =
      if_intro (Between lo hi) ((c.head + 1) % 8 == i) _ _ (λ _. to32-Between delta p)
        (λ _.
          if_intro (λ (f : ℕ → ℕ). Between lo hi (f i))
            ((c.transaction == 5 || c.transaction == 7) && (tick == 2 || tick == 3)) _ _
            (λ _. to32-Between delta p) (λ _. q i b))

  -- What an update stores.
  pub record Updated (hz : ℕ) (c d : GipCpu) (nano_ts tsc : ℕ) : Type 0 where
    pub interval : Between lo (hi + hi / 2 ^ 6) d.interval_tsc
    pub cpu_hz : Between (lo * hz) (hi * hz) d.cpu_hz
    pub history : InRange d
    pub times : (d.nano_ts ≡ nano_ts) × (d.tsc ≡ tsc)
    pub errors : d.errors ≡ c.errors

  times-Between : (hz n : ℕ) → Between lo hi n → Between (lo * hz) (hi * hz) (n * hz)
  times-Between hz n p = record { low = grind (arith, p.low); high = grind (arith, p.high) }

  plus-Between :
      (hz n : ℕ) → Between lo hi n → Between lo (hi + hi / 2 ^ 6) ((n + slack hz n) % 2 ^ 32)
  plus-Between hz n p = record {
    low = omega (arith, small, p.low, p.high, slack-bound hz n);
    high = omega (arith, small, p.high, slack-bound hz n);
  }

  -- An update whose TSC interval is in a range that the last eight are in, below 2^30, counts no error
  -- and leaves the intervals in the range; the interval it stores is in the range or up to a 64th above
  -- it, and the frequency is between those of the ends of the range.
  pub do_update_cpu-Updated :
      (hz : ℕ) (c : GipCpu) (nano_ts tsc tick : ℕ)
      → Between lo hi (sub64 tsc c.tsc)
      → InRange c
      → Updated hz c (do_update_cpu hz c nano_ts tsc tick) nano_ts tsc
  unfolding do_update_cpu
  do_update_cpu-Updated hz c nano_ts tsc tick p q = record {
    interval = plus-Between hz _ (avg);
    cpu_hz = times-Between hz _ (avg);
    history = h;
    times = (refl, refl);
    errors = ground (arith, p, small);
  }
    where
      delta : Between lo hi (tsc_delta c tsc)
      delta = subst (Between lo hi) (sym (tsc_delta-Between c tsc p)) p

      h : (i : ℕ) → i < 8 → Between lo hi (new_history c (tsc_delta c tsc) tick i)
      h = new_history-Between c (tsc_delta c tsc) tick delta q

      avg :
          Between lo hi
            (average hz (tsc_delta c tsc) ((c.head + 1) % 8) (new_history c (tsc_delta c tsc) tick))
      avg = average-Between hz _ _ _ delta h
