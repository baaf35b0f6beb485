-- ===== src/Ldr/Tests.antt =====
-- Runs of the loader functions of vboxdrv/SUPDrv.c, and the theorems about them at concrete states.
use mathlib.Core.Option
use virtualbox_drv.Common.{
  ◌≡◌, refl, true, false, none, some, [], ◌∷◌, arith, ◌==◌, Bool-cases, inl, inr, Returns, success,
  ◌+◌, if◌then◌else◌,
}
use virtualbox_drv.Obj.{Obj, DevExt}
use virtualbox_drv.Ldr.{
  Image, Ldr, EntryPoints, opened, loaded, no_entry, get_image, set_image, remove_image, find_usage,
  set_vmmr0_eps,
}
use virtualbox_drv.Ldr.Open.{OpenReq, OpenEnv, not_supported, ldr_open, find_name, same_name}
use virtualbox_drv.Ldr.Load.{
  vmmr0, LoadReq, LoadEnv, ldr_load, validate_pointer, validate_eps, validate_load, table_status,
  install_eps, do_load, enter_image, copy_status, init_image,
}
use virtualbox_drv.Ldr.Free.{ldr_free, free_found, has_dangling, any_destructor_in, free_image}
use virtualbox_drv.Ldr.Symbols.{find_symbol, is_prefix, idc_get_symbol, ldr_get_symbol}
use virtualbox_drv.Ldr.Balance.{uses}
use virtualbox_drv.Ldr.Balanced.{BalancedLdr, ldr_free-Balanced}
use virtualbox_drv.Ldr.Counting.{OpenRoom, ldr_open-Balanced, idc_get_symbol-unbalanced}
use virtualbox_drv.Ldr.Lookup.{SymbolAnswer, ldr_get_symbol-SymbolAnswer}

-- An object whose destructor lies in the image below.
abbrev object : Obj
object = record {
  magic = 0;
  type = 4;
  destructor = 4100;
  user1 = 0;
  user2 = 0;
  count = 1;
  creator_uid = 10;
  creator_gid = 0;
  creator_process = 0;
}

abbrev no_objects : DevExt
no_objects = record {
  heap = λ _. none;
  objs = [];
  usage_free = 0;
  records = 0;
  sessions = [];
  destroyed = [];
}

-- The module "a", with the symbol "f" at offset 16.
abbrev opened_module : Image
opened_module = record {
  ptr = 100;
  base = 4096;
  alloc = 4090;
  size_tabs = 600;
  size_bits = 512;
  symbols = [];
  strtab = [];
  cb_strtab = 0;
  module_init = 0;
  module_term = 0;
  service = 0;
  state = opened;
  usage = 1;
  native = false;
  name = 97 ∷ [];
}

abbrev loaded_module : Image
loaded_module = record opened_module {
  state = loaded;
  symbols = record { off_name = 0; off_symbol = 16 } ∷ [];
  strtab = 102 ∷ 0 ∷ [];
  cb_strtab = 2;
  module_term = 4200;
}

-- Session 1 has opened the module once.
abbrev loader : Image → Ldr
loader i = record {
  images = i ∷ [];
  usage = λ t. if 1 == t then record { image = 100; count = 1 } ∷ [] else [];
  entry = no_entry;
  dev = no_objects;
  terms = [];
}

abbrev one_module : Ldr
one_module = loader opened_module

abbrev one_loaded : Ldr
one_loaded = loader loaded_module

one_module-Balanced : BalancedLdr (λ _. 0) 1 one_module
unfolding uses get_image
one_module-Balanced = record {
  cells = λ q. elim (Bool-cases (100 == q)) [ inl e ↦ ground arith | inr e ↦ ground arith ];
  positive = (omega arith, tt);
  unique = (refl, tt);
}

one_loaded-Balanced : BalancedLdr (λ _. 0) 1 one_loaded
unfolding uses get_image
one_loaded-Balanced = record {
  cells = λ q. elim (Bool-cases (100 == q)) [ inl e ↦ ground arith | inr e ↦ ground arith ];
  positive = (omega arith, tt);
  unique = (refl, tt);
}

abbrev open_env : OpenEnv
open_env = record { fresh = 200; usage_memory = true; exec = 8192; native_open = not_supported }

abbrev open_req : OpenReq
open_req = record { name = 98 ∷ []; size_tabs = 64; size_bits = 32 }

one_module-OpenRoom : OpenRoom open_env one_module
unfolding get_image
one_module-OpenRoom = record { memory = refl; fresh = refl; room = λ p i e. ground arith }

ldr_open-Balanced_example : BalancedLdr (λ _. 0) 1 (ldr_open open_env one_module 1 open_req).0
ldr_open-Balanced_example =
    ldr_open-Balanced (λ _. 0) open_env one_module 1 open_req one_module-Balanced
      one_module-OpenRoom

ldr_free-Balanced_example : Returns (λ r. BalancedLdr (λ _. 0) 1 r.0) (ldr_free one_loaded 1 4096)
ldr_free-Balanced_example = ldr_free-Balanced (λ _. 0) 1 4096 one_loaded one_loaded-Balanced

-- A load request with VMMR0 entry points and a module initialization.
abbrev entries : EntryPoints
entries = record { vmmr0 = 4096; entry_int = 4112; entry_fast = 4128; entry_ex = 4144 }

abbrev load_req : LoadReq
load_req = record {
  base = 4096;
  size_tabs = 600;
  size_bits = 512;
  eps = vmmr0 entries;
  module_init = 4160;
  module_term = 0;
  strtab = 102 ∷ 0 ∷ [];
  symbols = record { off_name = 0; off_symbol = 16 } ∷ [];
}

abbrev load_env : LoadEnv
load_env = record {
  strtab_memory = true;
  symbol_memory = true;
  native_validate = λ _. success;
  native_load = success;
  init_status = success;
}

one_loaded-found :
    find_usage 4096 one_loaded.images (one_loaded.usage 1) ≡ some (some loaded_module)
unfolding find_usage get_image
one_loaded-found = refl

ldr_get_symbol-SymbolAnswer_example :
    Returns (SymbolAnswer loaded_module (102 ∷ [])) (ldr_get_symbol one_loaded 1 4096 (102 ∷ []))
ldr_get_symbol-SymbolAnswer_example =
    ldr_get_symbol-SymbolAnswer one_loaded 1 4096 (102 ∷ []) loaded_module one_loaded-found
      (omega arith) (omega arith)

one_loaded-find_name : find_name (97 ∷ []) one_loaded.images ≡ some loaded_module
unfolding find_name same_name
one_loaded-find_name = refl

one_loaded-find_symbol :
    find_symbol loaded_module (102 ∷ []) loaded_module.symbols
    ≡ some (record { off_name = 0; off_symbol = 16 })
unfolding find_symbol is_prefix
one_loaded-find_symbol = refl

idc_get_symbol-unbalanced_example :
    let r = idc_get_symbol true one_loaded 1 (97 ∷ []) (102 ∷ []) in
    (r.0.images ≡ one_loaded.images)
    × (uses 100 (r.0.usage 1) ≡ uses 100 (one_loaded.usage 1) + 1)
    × ((BalancedLdr (λ _. 0) 1 r.0) → ⊥)
idc_get_symbol-unbalanced_example =
    idc_get_symbol-unbalanced (λ _. 0) one_loaded 1 (97 ∷ []) (102 ∷ []) loaded_module
      (record { off_name = 0; off_symbol = 16 }) one_loaded-Balanced one_loaded-find_name refl
      one_loaded-find_symbol (omega arith)

-- A load installs the entry points; freeing the loaded module calls its termination.
load_installs :
    Option.map (λ r. r.0.entry.entry_fast) (ldr_load load_env one_module 1 load_req) ≡ some 4128
unfolding ldr_load find_usage get_image validate_load validate_eps validate_pointer do_load
    copy_status table_status enter_image init_image install_eps set_vmmr0_eps set_image
load_installs = refl

free_terminates : Option.map (λ r. r.0.terms) (ldr_free one_loaded 1 4096) ≡ some (4200 ∷ [])
unfolding ldr_free find_usage get_image free_found has_dangling any_destructor_in free_image
    remove_image
free_terminates = refl

symbol_address : ldr_get_symbol one_loaded 1 4096 (102 ∷ []) ≡ some (success, 4112)
unfolding ldr_get_symbol find_usage get_image find_symbol is_prefix
symbol_address = refl
