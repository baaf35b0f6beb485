-- ===== src/HandleTable/Creation.antt =====
-- What RTHandleTableCreateEx of common/misc/handletable.c makes.
use virtualbox_drv.Common.{
  ℕ, ◌-◌, ◌%◌, ◌^◌, ◌<◌, ◌≤◌, ◌≡◌, refl, Bool, false, not, ◌&&◌, Option, none, some, [], arith, ltb,
  leb, Status, rt_success, success, guard_intro, ◌⊎◌, Bool-cases, inl, inr,
}
use virtualbox_drv.HandleTable.{HandleTable, create_ex, round_max, new_table, handle_table_magic}
use virtualbox_drv.HandleTable.WellFormed.{Wf, Used}

-- What a creation gives: no table and an error; or a well-formed table without entries, for at least
-- as many handles as asked for, or the largest table there is.
pub data Created (flags base max : ℕ) : Option HandleTable × Status → Type 0 where
  refused : {st : Status} → rt_success st ≡ false → Created flags base max (none, st)
  created :
      {t : HandleTable}
      → Wf t []
      → ((i : ℕ) → Used t i → ⊥)
      → (max ≤ t.max) ⊎ (t.max ≡ 2 ^ 32 - 2048)
      → (t.magic ≡ handle_table_magic) × (t.base ≡ base)
      → Created flags base max (some t, success)

round_max_lem :
    (c : ℕ)
    → (round_max c % 2048 ≡ 0)
      × (round_max c ≤ 2 ^ 32 - 2048)
      × ((c ≤ round_max c) ⊎ (round_max c ≡ 2 ^ 32 - 2048))
round_max_lem c = elim (Bool-cases (leb (2 ^ 32 - 1 - 2048) c)) [
  | inl large ↦ rw large (omega arith, omega arith, inr refl)
  | inr small ↦
      let below : c < 2 ^ 32 - 1 - 2048 = ground (arith, small) in
      rw small (omega arith, omega arith, inl (omega arith))
]

-- A new table is well-formed.
pub new_table-Wf : (flags base max : ℕ) → base < 2 ^ 32 → Wf (new_table flags base max) []
new_table-Wf flags base max h =
    let (whole, limit, enough) = round_max_lem max in
    record {
      chain = (refl, refl);
      distinct = tt;
      cur_whole = refl;
      max_whole = whole;
      cur_max = omega arith;
      max_limit = limit;
      level1 = omega arith;
      base_limit = h;
    }

-- RTHandleTableCreateEx ends in one of the outcomes above.
pub create_ex-Created :
    (has_memory : Bool) (lock : Status) (flags base max : ℕ)
    → base < 2 ^ 32
    → Created flags base max (create_ex has_memory lock flags base max)
unfolding create_ex
create_ex-Created has_memory lock flags base max h =
    let P = Created flags base max in
    guard_intro P (leb 4 flags) _ _ (refused refl) (λ _.
      guard_intro P (not (ltb 0 max)) _ _ (refused refl) (λ _.
        guard_intro P (not (leb base (2 ^ 32 - 1 - max))) _ _ (refused refl) (λ _.
          guard_intro P (not has_memory) _ _ (refused refl) (λ _.
            elim (Bool-cases (leb 2 flags && not (rt_success lock))) [
              | inl fails ↦ rw fails (refused (ground (arith, fails)))
              | inr locked ↦ rw locked (
                  created (new_table-Wf flags base max h) (λ i u. omega (arith, u.0))
                    (round_max_lem max).2 (refl, refl))
            ]))))
