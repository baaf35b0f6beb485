-- ===== src/Gip/Mode.antt =====
-- The choice of the mode of the global information page in vboxdrv/SUPDrv.c: supdrvDetermineAsyncTsc
-- and supdrvGipDeterminTscMode.
use virtualbox_drv.Common.{
  ℕ, zero, suc, ◌-◌, ◌^◌, ◌≡◌, refl, ◌∙◌, sym, ap, Bool, true, false, not, ◌&&◌, ◌||◌, List, [],
  ◌∷◌, ◌++◌, arith, leb, ltb, ◌==◌, ◌/◌, ◌%◌, if◌then◌else◌, if_intro,
}
use virtualbox_drv.Gip.{sub64}

-- The outcome of RTMpOnSpecific for one CPU, with the time stamp that its worker reads.
pub data TscRead : Type 0 where
  reads : ℕ → TscRead
  unsupported missing : TscRead

-- The variables of the loops; offMax, which is only logged, is left out.
pub record TscScan : Type 0 where
  pub prev : ℕ
  pub off_min : ℕ
  pub is_async : Bool

-- The inner loop over the CPUs, and whether it was left by a break.
unfoldable pub scan_cpus : (first_loop : Bool) → (cpu : ℕ) → List TscRead → TscScan → TscScan × Bool
scan_cpus first_loop cpu [] x = (x, false)
scan_cpus first_loop cpu (unsupported ∷ rs) x = (x, true)
scan_cpus first_loop cpu (missing ∷ rs) x = scan_cpus first_loop (suc cpu) rs x
scan_cpus first_loop cpu (reads tsc ∷ rs) x =
    let off = sub64 tsc x.prev in
    let counts = (not (cpu == 0) || not first_loop) && ltb off x.off_min in
    let rest =
      scan_cpus first_loop (suc cpu) rs
        (record x { prev = tsc; off_min = if counts then off else x.off_min }) in
    if leb tsc x.prev
    then (record x { off_min = sub64 x.prev tsc; is_async = true }, true)
    else rest

-- The outer loop; `rounds` has the outcomes for all CPUs by the number of loops that are left.
unfoldable pub scan_loops : (loops : ℕ) → (rounds : ℕ → List TscRead) → TscScan → TscScan
scan_loops zero rounds x = x
scan_loops (suc k) rounds x =
    let r = scan_cpus (k == 7) 0 (rounds k) x in
    let rest = scan_loops k rounds r.0 in if r.1 then r.0 else rest

-- supdrvDetermineAsyncTsc.
unfoldable pub determine_async_tsc : (rounds : ℕ → List TscRead) → (start : ℕ) → TscScan
determine_async_tsc rounds start =
    scan_loops 8 rounds (record { prev = start; off_min = 2 ^ 64 - 1; is_async = false })

-- What supdrvGipDeterminTscMode asks for: the number of CPUs, whether the asynchronous mode is forced,
-- CPUID leaf 0, whether it names AMD, the last extended leaf and EDX of leaf 0x80000007.
pub record CpuInfo : Type 0 where
  pub c_cpus : ℕ
  pub forced : Bool
  pub leaf_max : ℕ
  pub is_amd : Bool
  pub ext_max : ℕ
  pub power_edx : ℕ

-- supdrvGipDeterminTscMode, true for SUPGIPMODE_ASYNC_TSC. `& 0x3e` is the bits 1 to 5.
unfoldable pub is_async_mode : CpuInfo → (rounds : ℕ → List TscRead) → (start : ℕ) → Bool
is_async_mode i rounds start =
    ltb 1 i.c_cpus
    && (i.forced
        || ((determine_async_tsc rounds start).is_async
            || ((leb 1 i.leaf_max && i.is_amd)
                && (leb 0x80000007 i.ext_max
                    && (i.power_edx / 2 ^ 8 % 2 == 0 && not (i.power_edx / 2 % 2 ^ 5 == 0))))))

-- The time stamps that are read, in their order, up to the first CPU that cannot be asked.
unfoldable pub stamps : List TscRead → List ℕ
stamps [] = []
stamps (reads tsc ∷ rs) = tsc ∷ stamps rs
stamps (missing ∷ rs) = stamps rs
stamps (unsupported ∷ rs) = []

unfoldable pub all_reads : (loops : ℕ) → (rounds : ℕ → List TscRead) → List TscRead
all_reads zero rounds = []
all_reads (suc k) rounds = rounds k ++ all_reads k rounds

-- Each number is greater than the one before.
unfoldable pub is_increasing : ℕ → List ℕ → Bool
is_increasing p [] = true
is_increasing p (t ∷ ts) = ltb p t && is_increasing t ts

-- The result of one loop, before the reads of the others.
record Scanned (r : TscScan × Bool) (rest : List TscRead) (b : Bool) : Type 0 where
  left : r.1 ≡ true → r.0.is_async ≡ not b
  ended : r.1 ≡ false → (r.0.is_async ≡ false) × (b ≡ is_increasing r.0.prev (stamps rest))

scan_cpus-Scanned :
    (first_loop : Bool) (cpu : ℕ) (rs rest : List TscRead) (x : TscScan)
    → x.is_async ≡ false
    → Scanned (scan_cpus first_loop cpu rs x) rest (is_increasing x.prev (stamps (rs ++ rest)))
unfolding scan_cpus is_increasing stamps
scan_cpus-Scanned first_loop cpu [] rest x sync = record {
  left = λ e. ground (arith, e);
  ended = λ e. (sync, refl);
}
scan_cpus-Scanned first_loop cpu (unsupported ∷ rs) rest x sync = record {
  left = λ e. sync;
  ended = λ e. ground (arith, e);
}
scan_cpus-Scanned first_loop cpu (missing ∷ rs) rest x sync =
    scan_cpus-Scanned first_loop (suc cpu) rs rest x sync
scan_cpus-Scanned first_loop cpu (reads tsc ∷ rs) rest x sync =
    if_intro
      (λ (r : TscScan × Bool).
        Scanned r rest (ltb x.prev tsc && is_increasing tsc (stamps (rs ++ rest))))
      (leb tsc x.prev) _ _
      (λ back. record { left = λ e. rw (not_later back) refl; ended = λ e. ground (arith, e) })
      (λ on. rw (later on) (scan_cpus-Scanned first_loop (suc cpu) rs rest _ sync))
  where
    not_later : leb tsc x.prev ≡ true → ltb x.prev tsc ≡ false
    not_later e = ground (arith, e)

    later : leb tsc x.prev ≡ false → ltb x.prev tsc ≡ true
    later e = ground (arith, e)

is_increasing-nil : (p : ℕ) → is_increasing p (stamps []) ≡ true
unfolding is_increasing stamps
is_increasing-nil p = refl

scan_loops-is_increasing :
    (k : ℕ) (rounds : ℕ → List TscRead) (x : TscScan)
    → x.is_async ≡ false
    → (scan_loops k rounds x).is_async ≡ not (is_increasing x.prev (stamps (all_reads k rounds)))
unfolding scan_loops all_reads
scan_loops-is_increasing zero rounds x sync = rw (is_increasing-nil x.prev) sync
scan_loops-is_increasing (suc k) rounds x sync =
    if_intro
      (λ (y : TscScan).
        y.is_async ≡ not (is_increasing x.prev (stamps (rounds k ++ all_reads k rounds))))
      (scan_cpus (k == 7) 0 (rounds k) x).1 _ _ (λ e. s.left e)
      (λ e.
        scan_loops-is_increasing k rounds (scan_cpus (k == 7) 0 (rounds k) x).0 (s.ended e).0
        ∙ ap not (sym (s.ended e).1))
  where
    s :
        Scanned
          (scan_cpus (k == 7) 0 (rounds k) x)
          (all_reads k rounds)
          (is_increasing x.prev (stamps (rounds k ++ all_reads k rounds)))
    s = scan_cpus-Scanned (k == 7) 0 (rounds k) (all_reads k rounds) x sync

-- supdrvDetermineAsyncTsc finds the time stamp counters out of step exactly if the stamps that it reads
-- in eight loops over the CPUs, up to the first CPU that cannot be asked, do not always increase.
pub determine_async_tsc-is_increasing :
    (rounds : ℕ → List TscRead) (start : ℕ)
    → (determine_async_tsc rounds start).is_async
      ≡ not (is_increasing start (stamps (all_reads 8 rounds)))
unfolding determine_async_tsc
determine_async_tsc-is_increasing rounds start =
    scan_loops-is_increasing 8 rounds
      (record { prev = start; off_min = 2 ^ 64 - 1; is_async = false }) refl
