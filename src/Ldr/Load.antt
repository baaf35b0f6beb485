-- ===== src/Ldr/Load.antt =====
-- supdrvLdrValidatePointer and supdrvIOCtl_LdrLoad of vboxdrv/SUPDrv.c.
use virtualbox_drv.Common.{
  ℕ, Bool, true, false, not, ◌&&◌, ◌||◌, Option, none, some, List, [], ◌∷◌, Status, success,
  invalid_handle, invalid_parameter, already_loaded, internal_error_3, internal_error_4, rt_success,
  ◌==◌, if◌then◌else◌, length,
}
use virtualbox_drv.Ldr.{
  Image, Symbol, opened, loaded, Ldr, EntryPoints, set_image, find_usage, is_inside, set_vmmr0_eps,
  unset_vmmr0_eps,
}
use virtualbox_drv.Ldr.Open.{is_opened}

-- The entry points of a load request, by SUPLDRLOADREQ::eEPType.
pub data Eps : Type 0 where
  nothing : Eps
  vmmr0 : EntryPoints → Eps
  service : (handler r0 r1 r2 : ℕ) → Eps
  other_type : Eps

-- The load request; `strtab` and `symbols` are the tables at `offStrTab` and `offSymbols` of the
-- uploaded image, whose bounds supdrvIOCtl has checked.
pub record LoadReq : Type 0 where
  pub base : ℕ
  pub size_tabs : ℕ
  pub size_bits : ℕ
  pub eps : Eps
  pub module_init : ℕ
  pub module_term : ℕ
  pub strtab : List ℕ
  pub symbols : List Symbol

-- The outcomes of the calls below: the allocations of the two tables, the native loader's answers,
-- and the module initialization's status.
pub record LoadEnv : Type 0 where
  pub strtab_memory : Bool
  pub symbol_memory : Bool
  pub native_validate : ℕ → Status
  pub native_load : Status
  pub init_status : Status

-- A failed step ends the call with its status.
infixl 5 ◌then_check◌
abbrev pub ◌then_check◌ : Status → Status → Status
st then_check next = if rt_success st then next else st

-- supdrvLdrValidatePointer.
unfoldable pub validate_pointer : LoadEnv → Image → (may_be_null : Bool) → (pv : ℕ) → Status
validate_pointer env i may_be_null pv =
    if may_be_null && pv == 0
    then success
    else if not (is_inside i.base i.size_bits pv)
    then invalid_parameter
    else if i.native
    then (if rt_success (env.native_validate pv) then success else env.native_validate pv)
    else success

-- The switch over the type of entry points.
unfoldable pub validate_eps : LoadEnv → Image → Eps → Status
validate_eps env i nothing = success
validate_eps env i (vmmr0 e) =
    validate_pointer env i false e.vmmr0
    then_check validate_pointer env i false e.entry_int
    then_check validate_pointer env i false e.entry_fast
    then_check validate_pointer env i false e.entry_ex
validate_eps env i (service handler r0 r1 r2) =
    validate_pointer env i false handler
    then_check (if not (r0 == 0) || (not (r1 == 0) || not (r2 == 0))
        then invalid_parameter
        else success)
validate_eps env i other_type = invalid_parameter

-- All checks of pointers, in the order of the code.
unfoldable pub validate_load : LoadEnv → Image → LoadReq → Status
validate_load env i req =
    validate_eps env i req.eps
    then_check validate_pointer env i true req.module_init
    then_check validate_pointer env i true req.module_term

abbrev pub is_empty {ℓ} : {A : Type ℓ} → List A → Bool
is_empty [] = true
is_empty (_ ∷ _) = false

-- The allocation of the string table and of the symbol table.
unfoldable pub table_status : LoadEnv → LoadReq → Status
table_status env req =
    (if not (is_empty req.strtab) && not env.strtab_memory then internal_error_3 else success)
    then_check (if not (is_empty req.symbols) && not env.symbol_memory
        then internal_error_4
        else success)

-- The entry points of the device and the service handler that a load installs.
unfoldable pub install_eps : EntryPoints → (old_handler : ℕ) → Eps → EntryPoints × ℕ × Status
install_eps old h nothing = (old, h, success)
install_eps old h (vmmr0 e) = let (new, st) = set_vmmr0_eps old e in (new, h, st)
install_eps old h (service handler r0 r1 r2) = (old, handler, success)
install_eps old h other_type = (old, h, success)

-- The image with the uploaded parts.
abbrev pub loaded_image : Image → LoadReq → ℕ → Image
loaded_image i req handler = record i {
  state = loaded;
  symbols = req.symbols;
  strtab = req.strtab;
  cb_strtab = length req.strtab;
  module_init = req.module_init;
  module_term = req.module_term;
  service = handler;
}

-- The image as a failed load leaves it.
abbrev pub reset_image : Image → Image
reset_image i = record i {
  state = opened;
  symbols = [];
  strtab = [];
  cb_strtab = 0;
  module_init = 0;
  module_term = 0;
  service = 0;
}

abbrev pub is_vinf_success : Status → Bool
is_vinf_success success = true
is_vinf_success _ = false

-- The write of an image and of the entry points.
abbrev pub put_image : Ldr → Image → Image → EntryPoints → Ldr
put_image l i j e = record l { images = set_image i.ptr j l.images; entry = e }

-- The call of the module initialization, when the image is copied and its entry points installed.
unfoldable pub init_image : LoadEnv → Ldr → Image → LoadReq → EntryPoints → ℕ → Ldr × Status
init_image env l i req e handler =
    let gone = if e.vmmr0 == i.base then unset_vmmr0_eps e else e in
    if rt_success env.init_status
    then (
      put_image l i (loaded_image i req handler)
          (if is_vinf_success env.init_status then e else gone),
      env.init_status,
    )
    else (put_image l i (reset_image i) gone, env.init_status)

-- The entry points, and the initialization if there is one.
unfoldable pub enter_image : LoadEnv → Ldr → Image → LoadReq → Ldr × Status
enter_image env l i req =
    let (e, handler, st) = install_eps l.entry i.service req.eps in
    if not (rt_success st)
    then (put_image l i (reset_image i) e, st)
    else if req.module_init == 0
    then (put_image l i (loaded_image i req handler) e, st)
    else init_image env l i req e handler

-- The tables and the image bits.
unfoldable pub copy_status : LoadEnv → Image → LoadReq → Status
copy_status env i req =
    table_status env req then_check (if i.native then env.native_load else success)

-- The steps behind the checks.
unfoldable pub do_load : LoadEnv → Ldr → Image → LoadReq → Ldr × Status
do_load env l i req =
    if rt_success (copy_status env i req)
    then enter_image env l i req
    else (put_image l i (reset_image i) l.entry, copy_status env i req)

-- supdrvIOCtl_LdrLoad.
unfoldable pub ldr_load : LoadEnv → Ldr → (s : ℕ) → LoadReq → Option (Ldr × Status)
ldr_load env l s req = elim (find_usage req.base l.images (l.usage s)) [
  | none ↦ none
  | some none ↦ some (l, invalid_handle)
  | some (some i) ↦ some (
      if not (i.size_tabs == req.size_tabs) || not (i.size_bits == req.size_bits)
      then (l, invalid_handle)
      else if not (is_opened i.state)
      then (l, already_loaded)
      else if not (rt_success (validate_load env i req))
      then (l, validate_load env i req)
      else do_load env l i req)
]
