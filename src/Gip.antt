-- ===== src/Gip.antt =====
-- The global information page of vboxdrv/SUPDrv.c: its users, SUPR0GipMap, SUPR0GipUnmap and the GIP
-- part of supdrvCleanupSession, and its updates, supdrvGipDoUpdateCpu, supdrvGipUpdate and
-- supdrvGipUpdatePerCpu.
pub mod Averages
pub mod Mode
pub mod Updates
pub mod Users
mod Tests
use virtualbox_drv.Common.{
  ℕ, zero, suc, ◌+◌, ◌-◌, ◌*◌, ◌/◌, ◌%◌, ◌^◌, Bool, true, false, not, ◌&&◌, ◌||◌, Option, none,
  some, List, [], ◌∷◌, Status, success, invalid_parameter, general_failure, rt_success, ltb, leb,
  ◌==◌, if◌then◌else◌, inc32, dec32, update,
}

-- SUPGIPCPU; the eight intervals are a function from their indices.
pub record GipCpu : Type 0 where
  pub transaction : ℕ
  pub interval_tsc : ℕ
  pub nano_ts : ℕ
  pub tsc : ℕ
  pub cpu_hz : ℕ
  pub errors : ℕ
  pub head : ℕ
  pub history : ℕ → ℕ
  pub prev_interval_ns : ℕ

-- SUPGLOBALINFOPAGE; the 32 entries of aCPUs are a function from their indices.
pub record Gip : Type 0 where
  pub is_async : Bool
  pub update_hz : ℕ
  pub interval_ns : ℕ
  pub last_update_hz : ℕ
  pub cpus : ℕ → GipCpu

abbrev pub c_cpus : ℕ
c_cpus = 32

-- Differences of 64-bit numbers, and their lower halves.
abbrev pub sub64 : ℕ → ℕ → ℕ
sub64 a b = (a + 2 ^ 64 - b) % 2 ^ 64

abbrev pub to32 : ℕ → ℕ
to32 a = a % 2 ^ 32

-- The TSC interval, or the last one if the difference has more than 32 bits.
unfoldable pub tsc_delta : GipCpu → (tsc : ℕ) → ℕ
tsc_delta c tsc = let d = sub64 tsc c.tsc in if d / 2 ^ 32 == 0 then d else c.interval_tsc

-- On the second and the third callout the history is reset; then the interval is entered.
unfoldable pub new_history : GipCpu → (delta tick : ℕ) → ℕ → ℕ
new_history c delta tick =
    update
      (if (c.transaction == 5 || c.transaction == 7) && (tick == 2 || tick == 3)
        then (λ i. to32 delta)
        else c.history)
      ((c.head + 1) % 8) (to32 delta)

-- The average of the last eight, two or one intervals, by the frequency of the updates. `h` is the
-- history with the new interval at `head`.
unfoldable pub average : (hz delta head : ℕ) → (ℕ → ℕ) → ℕ
average hz delta head h =
    if leb 1000 hz
    then to32 (to32 (h 4 + h 5 + h 6 + h 7) / 4 + to32 (h 0 + h 1 + h 2 + h 3) / 4) / 2
    else if leb 90 hz
    then to32 (to32 delta + h ((head + 7) % 8)) / 2
    else to32 delta

unfoldable pub slack : (hz avg : ℕ) → ℕ
slack hz avg = if leb 1000 hz then avg / 2 ^ 14 else if leb 90 hz then avg / 2 ^ 7 else avg / 2 ^ 6

-- supdrvGipDoUpdateCpu.
unfoldable pub do_update_cpu : (hz : ℕ) → GipCpu → (nano_ts tsc tick : ℕ) → GipCpu
do_update_cpu hz c nano_ts tsc tick =
    let delta = tsc_delta c tsc in
    let h = new_history c delta tick in
    let avg = average hz delta ((c.head + 1) % 8) h in
    record c {
      prev_interval_ns = to32 (sub64 nano_ts c.nano_ts);
      nano_ts = nano_ts;
      tsc = tsc;
      errors = if sub64 tsc c.tsc / 2 ^ 32 == 0 then c.errors else inc32 c.errors;
      head = (c.head + 1) % 8;
      history = h;
      interval_tsc = to32 (avg + slack hz avg);
      cpu_hz = avg * hz;
    }

-- The frequency of the updates is measured in every 0x800th of them. `none` is a division by 0.
unfoldable pub recalc_hz : Gip → (transaction nano_ts : ℕ) → Option Gip
recalc_hz g transaction nano_ts =
    if not (transaction % 0x1000 / 2 == 0)
    then some g
    else if g.last_update_hz == 0
    then some (record g { last_update_hz = nano_ts })
    else if sub64 nano_ts g.last_update_hz == 0
    then none
    else (let hz = to32 (1000000000 * 0x800 / sub64 nano_ts g.last_update_hz) in
        some (
          if leb hz 2000 && leb 30 hz
          then record g { update_hz = hz; interval_ns = 1000000000 / hz; last_update_hz = nano_ts }
          else record g { last_update_hz = nano_ts }))

abbrev pub put_cpu : Gip → ℕ → GipCpu → Gip
put_cpu g i c = record g { cpus = update g.cpus i c }

-- An update that meets another one in progress only counts an error.
abbrev pub skip_update : GipCpu → GipCpu
skip_update c = record c { transaction = inc32 (inc32 c.transaction); errors = inc32 c.errors }

-- The update of one entry: the transaction number is odd while it is in progress.
unfoldable pub update_entry : Gip → (i nano_ts tsc tick : ℕ) → Gip
update_entry g i nano_ts tsc tick =
    let c = g.cpus i in
    let d =
      do_update_cpu g.update_hz (record c { transaction = inc32 c.transaction }) nano_ts tsc tick in
    put_cpu g i (record d { transaction = inc32 d.transaction })

-- supdrvGipUpdate; `apic` is the number of the CPU.
unfoldable pub gip_update : Gip → (apic nano_ts tsc tick : ℕ) → Option Gip
gip_update g apic nano_ts tsc tick =
    let i = if g.is_async then apic else 0 in
    if leb c_cpus i
    then some g
    else if inc32 (g.cpus i).transaction % 2 == 0
    then some (put_cpu g i (skip_update (g.cpus i)))
    else (elim (recalc_hz g (inc32 (g.cpus i).transaction) nano_ts) [
      | none ↦ none
      | some f ↦ some (update_entry f i nano_ts tsc tick)
    ])

-- supdrvGipUpdatePerCpu.
unfoldable pub gip_update_per_cpu : Gip → (i nano_ts tsc tick : ℕ) → Gip
gip_update_per_cpu g i nano_ts tsc tick =
    if leb c_cpus i
    then g
    else if inc32 (g.cpus i).transaction % 2 == 0
    then put_cpu g i (skip_update (g.cpus i))
    else update_entry g i nano_ts tsc tick

-- What SUPDRVSESSION has of the page: the ring-3 mapping, 0 for NIL_RTR0MEMOBJ, and whether it is
-- counted as a user.
pub record GipSession : Type 0 where
  pub is_valid : Bool
  pub map_obj : ℕ
  pub referenced : Bool

-- What SUPDRVDEVEXT has of the page: is there one, the users, and does the timer run?
pub record GipDev : Type 0 where
  pub present : Bool
  pub users : ℕ
  pub running : Bool

-- The outcomes of RTR0MemObjMapUser, with its handle, of RTR0MemObjFree, and of RTTimerStart and
-- RTTimerStop, whose status the code ignores.
pub record GipEnv : Type 0 where
  pub mapped : Status
  pub map_obj : ℕ
  pub freed : Status
  pub started : Status
  pub stopped : Status

-- Is the session the first user?
abbrev pub is_first_user : GipDev → GipSession → Bool
is_first_user w x = not x.referenced && inc32 w.users == 1

-- The first user starts the timer; the restart of the transaction numbers and of the times before that
-- is left out.
unfoldable pub reference : GipEnv → GipDev → GipSession → GipDev × GipSession
reference env w x = if x.referenced then (w, x) else (
  record w {
    users = inc32 w.users;
    running = if is_first_user w x && rt_success env.started then true else w.running;
  },
  record x { referenced = true },
)

-- SUPR0GipMap, but for the addresses it stores and the restart of the counters; `to_r3` tells whether
-- a mapping is wanted. The status of the mapping is passed on unless the timer is started.
unfoldable pub gip_map :
    GipEnv → (to_r3 : Bool) → GipDev → GipSession → GipDev × GipSession × Status
gip_map env to_r3 w x =
    if not x.is_valid
    then (w, x, invalid_parameter)
    else if not w.present
    then (w, x, general_failure)
    else if to_r3 && x.map_obj == 0
    then (if rt_success env.mapped
        then (let r = reference env w (record x { map_obj = env.map_obj }) in
            (r.0, r.1, if is_first_user w x then success else env.mapped))
        else (w, x, env.mapped))
    else (let r = reference env w x in (r.0, r.1, success))

-- The last user stops the timer.
unfoldable pub dereference : GipEnv → GipDev → GipSession → GipDev × GipSession
dereference env w x = if not x.referenced then (w, x) else (
  (if ltb 0 w.users
      then record w {
        users = dec32 w.users;
        running = if dec32 w.users == 0 && rt_success env.stopped then false else w.running;
      }
      else w),
  record x { referenced = false },
)

-- `!rc`.
abbrev pub is_zero : Status → Bool
is_zero success = true
is_zero _ = false

-- SUPR0GipUnmap.
unfoldable pub gip_unmap : GipEnv → GipDev → GipSession → GipDev × GipSession × Status
gip_unmap env w x =
    if not x.is_valid
    then (w, x, invalid_parameter)
    else if x.map_obj == 0
    then (let r = dereference env w x in (r.0, r.1, success))
    else if is_zero env.freed
    then (let r = dereference env w (record x { map_obj = 0 }) in (r.0, r.1, success))
    else if rt_success env.freed
    then (w, record x { map_obj = 0 }, env.freed)
    else (w, x, env.freed)

-- The GIP part of supdrvCleanupSession; the session is gone then.
unfoldable pub gip_cleanup : GipEnv → GipDev → GipSession → GipDev
gip_cleanup env w x = if x.map_obj == 0 then w else (gip_unmap env w x).0
