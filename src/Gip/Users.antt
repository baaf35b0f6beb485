-- ===== src/Gip/Users.antt =====
-- The users of the global information page of vboxdrv/SUPDrv.c: their number is that of the sessions
-- that are counted, and the timer runs while there is one.
pub mod Events
use virtualbox_drv.Common.{
  ℕ, zero, suc, ◌+◌, ◌-◌, ◌^◌, ◌%◌, ◌≡◌, ◌≢◌, ◌≤◌, ◌<◌, ◌⊎◌, refl, inl, inr, Bool, true, false, not,
  ◌&&◌, List, [], ◌∷◌, arith, Status, success, invalid_parameter, general_failure, rt_success, ltb,
  ◌==◌, if◌then◌else◌, Bool-cases, guard_intro, if_intro, subst, length, inc32, dec32,
}
use virtualbox_drv.Gip.{
  GipSession, GipDev, GipEnv, reference, gip_map, dereference, gip_unmap, gip_cleanup, is_zero,
}

abbrev pub counted : GipSession → ℕ
counted x = if x.referenced then 1 else 0

-- `n` sessions are counted, and the timer runs exactly if there is one.
pub record Counted (w : GipDev) (n : ℕ) : Type 0 where
  pub users : w.users ≡ n
  pub timer : w.running ≡ ltb 0 n

-- A call on one session keeps the counter right, whatever the others are.
abbrev pub Keeps : (GipDev → GipSession → GipDev × GipSession) → Type 0
Keeps f =
    (w : GipDev) (x : GipSession) (rest : ℕ)
    → rest + 1 < 2 ^ 32
    → Counted w (counted x + rest)
    → Counted (f w x).0 (counted (f w x).1 + rest)

-- The timer does what it is told.
pub record TimerWorks (env : GipEnv) : Type 0 where
  pub starts : rt_success env.started ≡ true
  pub stops : rt_success env.stopped ≡ true

reference-Keeps : (env : GipEnv) → TimerWorks env → Keeps (reference env)
unfolding reference
reference-Keeps env t w x rest room c = ground (arith, c, t.starts)

dereference-Keeps : (env : GipEnv) → TimerWorks env → Keeps (dereference env)
unfolding dereference
dereference-Keeps env t w x rest room c = ground (arith, c, t.stops)

abbrev After : ℕ → GipDev × GipSession × Status → Type 0
After rest r = Counted r.0 (counted r.1 + rest)

pub gip_map-Keeps :
    (env : GipEnv) (to_r3 : Bool)
    → TimerWorks env
    → Keeps (λ w x. let r = gip_map env to_r3 w x in (r.0, r.1))
unfolding gip_map
gip_map-Keeps env to_r3 t w x rest room c =
    guard_intro (After rest) (not x.is_valid) (w, x, invalid_parameter) _ c
      (λ _.
        guard_intro (After rest) (not w.present) (w, x, general_failure) _ c
          (λ _.
            if_intro (After rest) (to_r3 && x.map_obj == 0) _ _
              (λ _.
                if_intro (After rest) (rt_success env.mapped) _ (w, x, env.mapped)
                  (λ _. reference-Keeps env t w (record x { map_obj = env.map_obj }) rest room c)
                  (λ _. c))
              (λ _. reference-Keeps env t w x rest room c)))

pub gip_unmap-Keeps :
    (env : GipEnv) → TimerWorks env → Keeps (λ w x. let r = gip_unmap env w x in (r.0, r.1))
unfolding gip_unmap
gip_unmap-Keeps env t w x rest room c =
    guard_intro (After rest) (not x.is_valid) (w, x, invalid_parameter) _ c
      (λ _.
        if_intro (After rest) (x.map_obj == 0) _ _ (λ _. dereference-Keeps env t w x rest room c)
          (λ _.
            if_intro (After rest) (is_zero env.freed) _ _
              (λ _. dereference-Keeps env t w (record x { map_obj = 0 }) rest room c)
              (λ _.
                if_intro (After rest) (rt_success env.freed)
                  (w, record x { map_obj = 0 }, env.freed) (w, x, env.freed) (λ _. c) (λ _. c))))

-- A session that is counted has a mapping in ring 3.
pub record Mapped (x : GipSession) : Type 0 where
  pub valid : x.is_valid ≡ true
  pub mapping : x.referenced ≡ true → x.map_obj ≢ 0

reference-Mapped :
    (env : GipEnv) (w : GipDev) (x : GipSession)
    → x.is_valid ≡ true
    → x.map_obj ≢ 0
    → Mapped (reference env w x).1
unfolding reference
reference-Mapped env w x valid set = ground (arith, valid, set)

dereference-Mapped :
    (env : GipEnv) (w : GipDev) (x : GipSession)
    → x.is_valid ≡ true
    → Mapped (dereference env w x).1
unfolding dereference
dereference-Mapped env w x valid = ground (arith, valid)

pub gip_map-Mapped :
    (env : GipEnv) (w : GipDev) (x : GipSession)
    → env.map_obj ≢ 0
    → Mapped x
    → Mapped (gip_map env true w x).1
unfolding gip_map
gip_map-Mapped env w x set m = ground (
  arith,
  set,
  m,
  reference-Mapped env w (record x { map_obj = env.map_obj }) m.valid,
  reference-Mapped env w x m.valid,
)

pub gip_unmap-Mapped :
    (env : GipEnv) (w : GipDev) (x : GipSession)
    → env.freed ≡ success
    → Mapped x
    → Mapped (gip_unmap env w x).1
unfolding gip_unmap
gip_unmap-Mapped env w x done m = ground (
  arith,
  done,
  m,
  dereference-Mapped env w (record x { map_obj = 0 }) m.valid,
  dereference-Mapped env w x m.valid,
)

-- The end of a session takes it out of the count.
pub gip_cleanup-Counted :
    (env : GipEnv) (w : GipDev) (x : GipSession) (rest : ℕ)
    → rest + 1 < 2 ^ 32
    → TimerWorks env
    → env.freed ≡ success
    → Mapped x
    → Counted w (counted x + rest)
    → Counted (gip_cleanup env w x) rest
unfolding gip_cleanup gip_unmap dereference
gip_cleanup-Counted env w x rest room t done m c = ground (arith, done, m, c, m.mapping, t.stops)
