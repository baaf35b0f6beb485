-- ===== src/MpNotify/Tests.antt =====
-- Runs of the model of r0drv/mpnotification-r0drv.c, and the witnesses.
use mathlib.Core.Option
use virtualbox_drv.Common.{
  ℕ, ◌+◌, ◌≡◌, ◌<◌, refl, true, none, some, List, [], ◌∷◌, arith, success, already_exists,
  if◌then◌else◌, ◌==◌, ◌^◌, if_intro, length, Returns,
}
use virtualbox_drv.MpNotify.{
  NotifyReg, Notify, NotifyEnv, find_reg, new_reg, mp_register, mp_deregister, ids, do_callbacks,
  deliver, next_clear, set_done, clear_all, at_id, unlink, mp_init, mp_term,
}
use virtualbox_drv.MpNotify.Changes.{Change, AllFresh, registers, deregisters, changes, change}
use virtualbox_drv.MpNotify.Delivery.{Notified, do_callbacks-Notified}
use virtualbox_drv.MpNotify.Delivery.Walk.{OneOf}
use virtualbox_drv.MpNotify.Delivery.Rounds.{acts, Sane}
use virtualbox_drv.MpNotify.Registration.{Undone, mp_deregister-mp_register, mp_register-raced}

abbrev reg : ℕ → NotifyReg
reg i = new_reg i (10 + i) 5

abbrev three : Notify
three = record { has_lock = true; chain = reg 1 ∷ reg 2 ∷ reg 3 ∷ []; done_bit = 7; generation = 3 }

-- The first callback takes out the second registration and makes a new one.
abbrev script : ℕ → List Change
script n = if n == 3 then deregisters 12 5 ∷ registers (some 8) 20 5 ∷ [] else []

-- The records called then.
script_calls : Option.map (λ d. ids d.calls) (do_callbacks (acts script) three) ≡ some (1 ∷ 3 ∷ [])
unfolding do_callbacks deliver next_clear set_done clear_all at_id changes change mp_register
    mp_deregister find_reg unlink
script_calls = refl

-- The runtime starts and ends.
init_term : (mp_term (mp_init success success three).0).freed ≡ 1 ∷ 2 ∷ 3 ∷ []
unfolding mp_term mp_init
init_term = refl

do_callbacks-Notified_example : Returns (Notified 4 three) (do_callbacks (acts script) three)
do_callbacks-Notified_example = do_callbacks-Notified 4 script three script_sane (omega arith) below
  where
    script_sane : Sane 4 script
    script_sane n =
        if_intro (λ cs. AllFresh 4 cs × (length cs < 2 ^ 32)) (n == 3) _ _
          (λ _. ((tt, (omega arith, tt)), omega arith)) (λ _. (tt, omega arith))

    below : (id : ℕ) → OneOf id (ids three.chain) → id < 4
    below id o = ground (arith, o)

abbrev quiet : NotifyEnv
quiet = record { memory = some 9; race = λ w. w }

no_reg : find_reg 30 5 three.chain ≡ none
unfolding find_reg
no_reg = refl

mp_deregister-mp_register_example :
    Undone three 9
      (mp_register quiet 30 5 three)
      (mp_deregister 30 5 (mp_register quiet 30 5 three).after)
mp_deregister-mp_register_example =
    mp_deregister-mp_register quiet three 9 30 5 refl (omega arith) refl refl no_reg

-- Another thread registers the same callback with the record 8.
abbrev racing : NotifyEnv
racing = record {
  memory = some 9;
  race = λ w. (mp_register (record { memory = some 8; race = λ v. v }) 30 5 w).after;
}

raced : find_reg 30 5 (racing.race three).chain ≡ some (new_reg 8 30 5)
unfolding find_reg mp_register
raced = refl

mp_register-raced_example :
    ((mp_register racing 30 5 three).status ≡ already_exists)
    × ((mp_register racing 30 5 three).freed ≡ 8 ∷ [])
    × OneOf 8 (ids (mp_register racing 30 5 three).after.chain)
mp_register-raced_example =
    mp_register-raced racing three (new_reg 8 30 5) 9 30 5 refl (omega arith) refl no_reg raced
