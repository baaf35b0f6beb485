-- ===== src/Gip/Tests.antt =====
-- Runs of the model of the global information page of vboxdrv/SUPDrv.c, and the witnesses.
use virtualbox_drv.Common.{
  if◌then◌else◌, ◌==◌, ◌-◌, ◌*◌, not, ℕ, ◌≡◌, refl, inr, true, false, List, [], ◌∷◌, arith, success,
  Returns, none,
}
use virtualbox_drv.Gip.{
  GipCpu, Gip, GipDev, GipEnv, do_update_cpu, gip_update, gip_map, gip_unmap, gip_cleanup,
  reference, dereference, recalc_hz, average, slack, tsc_delta, new_history,
}
use virtualbox_drv.Gip.Averages.{Updated, do_update_cpu-Updated}
use virtualbox_drv.Gip.Mode.{
  TscRead, reads, missing, determine_async_tsc, scan_loops, scan_cpus, is_increasing, stamps,
  all_reads, determine_async_tsc-is_increasing,
}
use virtualbox_drv.Gip.Updates.{GipUpdated, entry, gip_update-GipUpdated}
use virtualbox_drv.Gip.Users.{Counted, TimerWorks}
use virtualbox_drv.Gip.Users.Events.{
  FewSessions, AllSound, Sound, map_gip, unmap_gip, cleanup, begin, run_events, run_event,
  at_session, end_session, c_referenced, Event, run_events-Counted,
}

abbrev cpu : GipCpu
cpu = record {
  transaction = 0x1000;
  interval_tsc = 2000000;
  nano_ts = 5000000;
  tsc = 10000000;
  cpu_hz = 2000000000;
  errors = 0;
  head = 3;
  history = λ i. 2000000;
  prev_interval_ns = 1000000;
}

abbrev page : Gip
page = record {
  is_async = false;
  update_hz = 1000;
  interval_ns = 1000000;
  last_update_hz = 1000;
  cpus = λ i. cpu;
}

abbrev settled : GipEnv
settled = record {
  mapped = success;
  map_obj = 7;
  freed = success;
  started = success;
  stopped = success;
}

settled-TimerWorks : TimerWorks settled
settled-TimerWorks = record { starts = refl; stops = refl }

abbrev dev : GipDev
dev = record { present = true; users = 0; running = false }

-- Two sessions, of which the first one stops.
abbrev events : List Event
events =
    begin
    ∷ begin
    ∷ map_gip settled true 0
    ∷ map_gip settled true 1
    ∷ map_gip settled true 1
    ∷ unmap_gip settled 0
    ∷ cleanup settled 1
    ∷ []

-- After all of them nobody uses the page.
run_events_users : (run_events events dev []).0.users ≡ 0
unfolding run_events run_event at_session end_session gip_map gip_unmap gip_cleanup reference
    dereference
run_events_users = refl

-- The interval of an update at 1000 Hz.
interval_test : (do_update_cpu 1000 cpu 6000000 12000000 9).interval_tsc ≡ 2000122
unfolding do_update_cpu average slack tsc_delta new_history
interval_test = refl

-- The measurement of the frequency in no time.
recalc_test : recalc_hz page 0x1001 1000 ≡ none
unfolding recalc_hz
recalc_test = refl

events-FewSessions : FewSessions events dev []
unfolding run_event at_session end_session gip_map gip_unmap gip_cleanup reference dereference
events-FewSessions = (
  omega arith,
  (omega arith, (omega arith, (omega arith, (omega arith, (omega arith, (omega arith, tt)))))),
)

events-AllSound : AllSound events
events-AllSound =
    let works = settled-TimerWorks in
    let maps : Sound (map_gip settled true 0) = (refl, omega arith, works) in
    (tt, (tt, (maps, (maps, (maps, ((refl, works), ((refl, works), tt)))))))

run_events-Counted_example :
    Counted (run_events events dev []).0 (c_referenced (run_events events dev []).1)
unfolding c_referenced
run_events-Counted_example =
    run_events-Counted events dev [] events-AllSound tt events-FewSessions
      (record { users = refl; timer = refl })

do_update_cpu-Updated_example :
    Updated 1900000 2100000
      (omega arith)
      1000
      cpu
      (do_update_cpu 1000 cpu 6000000 12000000 9)
      6000000
      12000000
do_update_cpu-Updated_example =
    do_update_cpu-Updated 1900000 2100000 (omega arith) 1000 cpu 6000000 12000000 9
      (record { low = omega arith; high = omega arith })
      (λ i b. record { low = omega arith; high = omega arith })

gip_update-GipUpdated_example :
    Returns
      (λ f. GipUpdated page f (entry page 0) 6000000 12000000)
      (gip_update page 0 6000000 12000000 9)
gip_update-GipUpdated_example = gip_update-GipUpdated page 0 6000000 12000000 9 (inr (omega arith))

-- Two CPUs, of which the second one is behind, and cannot be asked in the second loop.
abbrev two_cpus : ℕ → List TscRead
two_cpus k = reads (1000 - 100 * k) ∷ (if k == 6 then missing else reads (1050 - 110 * k)) ∷ []

determine_test : (determine_async_tsc two_cpus 200).is_async ≡ true
unfolding determine_async_tsc scan_loops scan_cpus
determine_test = refl

determine_async_tsc-is_increasing_example :
    (determine_async_tsc two_cpus 200).is_async
    ≡ not (is_increasing 200 (stamps (all_reads 8 two_cpus)))
determine_async_tsc-is_increasing_example = determine_async_tsc-is_increasing two_cpus 200
