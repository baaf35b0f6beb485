-- ===== src/Common.antt =====
-- The names that the components share: the libraries', passed on, the tests and lists of two
-- children, the status codes of include/iprt/err.h and include/VBox/err.h, and 32-bit counters.
mod Tests
mod Lists
pub use Tests.*
pub use Lists.*
pub use Prim.Native.Nat.{ℕ, zero, suc, ◌+◌, ◌-◌, ◌*◌, ◌/◌, ◌%◌, ◌^◌, ◌≤◌, ◌<◌}
pub use mathlib.Core.Path.{◌≡◌, refl, sym, ap, ◌∙◌, subst, fun_ext}
pub use mathlib.Core.Logic.{◌≢◌, ◌↔◌, ◌⊎◌, inl, inr}
pub use mathlib.Core.Bool.{Bool, true, false, not, ◌&&◌, ◌||◌}
pub use mathlib.Core.Option.{Option, none, some, some-injective}
pub use mathlib.Core.List.{List, [], ◌∷◌, ◌++◌, map}
pub use native.Mathlib.Omega.{arith}

-- The status codes that the modelled functions return.
pub data Status : Type 0 where
  success object_destroyed : Status
  invalid_parameter invalid_pointer invalid_handle invalid_function : Status
  access_denied permission_denied wrong_order try_again no_memory : Status
  already_exists not_found already_loaded general_failure : Status
  module_not_found no_exec_memory no_more_handles : Status
  component_not_found interface_not_supported invalid_uuid_format : Status
  page_count_out_of_range invalid_magic version_mismatch : Status
  internal_error internal_error_2 internal_error_3 internal_error_4 internal_error_5 : Status
  other_failure : ℕ → Status

-- RT_SUCCESS: the two codes that are not negative.
abbrev pub rt_success : Status → Bool
rt_success success = true
rt_success object_destroyed = true
rt_success _ = false

-- `x++` and `x--` on a uint32_t.
abbrev pub inc32 : ℕ → ℕ
inc32 n = (n + 1) % 2 ^ 32

abbrev pub dec32 : ℕ → ℕ
dec32 n = (n + 2 ^ 32 - 1) % 2 ^ 32

-- A write to one cell of a memory.
abbrev pub update {ℓ} : {A : Type ℓ} → (ℕ → A) → ℕ → A → ℕ → A
update f p v q = if p == q then v else f q
