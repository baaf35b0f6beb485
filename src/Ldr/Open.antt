-- ===== src/Ldr/Open.antt =====
-- supdrvIOCtl_LdrOpen of vboxdrv/SUPDrv.c.
use virtualbox_drv.Common.{
  ℕ, ◌+◌, ◌*◌, ◌/◌, Bool, true, false, ◌&&◌, Option, none, some, List, [], ◌∷◌, Status, success,
  internal_error_2, no_exec_memory, rt_success, ◌==◌, if◌then◌else◌, inc32,
}
use virtualbox_drv.Ldr.{
  Image, ImageState, opened, loaded, freed, Ldr, set_image, ldr_add_usage, put_session,
}

-- The request: the name without its terminator, and the sizes.
pub record OpenReq : Type 0 where
  pub name : List ℕ
  pub size_tabs : ℕ
  pub size_bits : ℕ

pub record OpenOut : Type 0 where
  pub image_base : ℕ
  pub needs_loading : Bool
  pub native_loader : Bool

-- The outcomes of the calls below: the allocation of the image record (0 for NULL), of a usage
-- record, and of executable memory, and what the native loader says. `not_supported` is
-- VERR_NOT_SUPPORTED, which the Linux part always returns.
pub data NativeOpen : Type 0 where
  not_supported : NativeOpen
  answered : Status → (base : ℕ) → NativeOpen

pub record OpenEnv : Type 0 where
  pub fresh : ℕ
  pub usage_memory : Bool
  pub exec : ℕ
  pub native_open : NativeOpen

-- RT_ALIGN_P(p, 32).
abbrev pub align32 : ℕ → ℕ
align32 p = (p + 31) / 32 * 32

unfoldable pub same_name : List ℕ → List ℕ → Bool
same_name [] [] = true
same_name [] (_ ∷ _) = false
same_name (_ ∷ _) [] = false
same_name (a ∷ as') (b ∷ bs) = a == b && same_name as' bs

unfoldable pub find_name : List ℕ → List Image → Option Image
find_name n [] = none
find_name n (i ∷ is) = if same_name i.name n then some i else find_name n is

abbrev pub is_opened : ImageState → Bool
is_opened opened = true
is_opened loaded = false
is_opened freed = false

abbrev pub no_out : OpenOut
no_out = record { image_base = 0; needs_loading = false; native_loader = false }

-- Where the image is to lie: by the native loader, or in executable memory allocated here.
unfoldable pub place_image : OpenEnv → ℕ × ℕ × Bool × Status
place_image env = elim env.native_open [
  | not_supported ↦
      (align32 env.exec, env.exec, false, (if env.exec == 0 then no_exec_memory else success))
  | answered st base ↦ (base, 0, true, st)
]

unfoldable pub new_image : OpenEnv → OpenReq → (base alloc : ℕ) → Bool → Image
new_image env req base alloc native = record {
  ptr = env.fresh;
  base = base;
  alloc = alloc;
  size_tabs = req.size_tabs;
  size_bits = req.size_bits;
  symbols = [];
  strtab = [];
  cb_strtab = 0;
  module_init = 0;
  module_term = 0;
  service = 0;
  state = opened;
  usage = 1;
  native = native;
  name = req.name;
}

-- The image is open already: one reference more. The status of supdrvLdrAddUsage is not looked at.
unfoldable pub open_again : OpenEnv → Ldr → (s : ℕ) → Image → Ldr × Status × OpenOut
open_again env l s i = (
  put_session s (ldr_add_usage env.usage_memory i.ptr (l.usage s)).0
      (record l { images = set_image i.ptr (record i { usage = inc32 i.usage }) l.images }),
  success,
  record { image_base = i.base; needs_loading = is_opened i.state; native_loader = i.native },
)

-- The image is new.
unfoldable pub open_new : OpenEnv → Ldr → (s : ℕ) → OpenReq → Ldr × Status × OpenOut
unfolding new_image
open_new env l s req =
    if env.fresh == 0
    then (l, internal_error_2, no_out)
    else (let (base, alloc, native, st) = place_image env in
        if rt_success st
        then (
          put_session s (ldr_add_usage env.usage_memory env.fresh (l.usage s)).0
              (record l { images = new_image env req base alloc native ∷ l.images }),
          success,
          record { image_base = base; needs_loading = true; native_loader = native },
        )
        else (l, st, no_out))

-- supdrvIOCtl_LdrOpen.
unfoldable pub ldr_open : OpenEnv → Ldr → (s : ℕ) → OpenReq → Ldr × Status × OpenOut
ldr_open env l s req = elim (find_name req.name l.images) [
  | some i ↦ open_again env l s i
  | none ↦ open_new env l s req
]
