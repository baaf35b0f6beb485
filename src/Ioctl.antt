-- ===== src/Ioctl.antt =====
-- The validation of requests by supdrvIOCtl of vboxdrv/SUPDrv.c, and the request that is executed
-- then, for the sizes of the structures of vboxdrv/SUPDrvIOC.h on 64-bit hosts.
pub mod Buffers
pub mod Pages
pub mod Tables
mod Tests
use virtualbox_drv.Common.{
  ℕ, zero, suc, ◌+◌, ◌*◌, ◌/◌, ◌%◌, ◌^◌, ◌-◌, Bool, true, false, not, ◌&&◌, ◌||◌, Option, none,
  some, List, [], ◌∷◌, Status, success, invalid_parameter, invalid_magic, version_mismatch, ltb,
  leb, ◌==◌, if◌then◌else◌, contains,
}
use virtualbox_drv.Factory.{str_end}
use virtualbox_drv.MemApi.{
  Request, lock, cont, low, page, free, page_size, type_locked, type_cont, type_low, type_page,
}

-- SUPREQHDR without the status.
pub record Header : Type 0 where
  pub cookie : ℕ
  pub session_cookie : ℕ
  pub cb_in : ℕ
  pub cb_out : ℕ
  pub flags : ℕ

-- The input of SUP_IOCTL_LDR_OPEN: the two sizes and the two strings, as their bytes.
pub record OpenInput : Type 0 where
  pub size_tabs : ℕ
  pub size_bits : ℕ
  pub name : List ℕ
  pub filename : List ℕ

-- The input of SUP_IOCTL_LDR_LOAD as far as it is validated: the tables, and the bytes of the image.
pub record LoadInput : Type 0 where
  pub size_tabs : ℕ
  pub off_symbols : ℕ
  pub c_symbols : ℕ
  pub off_strtab : ℕ
  pub cb_strtab : ℕ
  pub image : ℕ → ℕ

-- The modelled requests, with the input that supdrvIOCtl reads.
pub data Input : Type 0 where
  cookie : (magic_ok : Bool) (min_version : ℕ) → Input
  page_lock : (r3 c_pages : ℕ) → Input
  page_unlock : (r3 : ℕ) → Input
  cont_alloc : (c_pages : ℕ) → Input
  cont_free : (r3 : ℕ) → Input
  low_alloc : (c_pages : ℕ) → Input
  low_free : (r3 : ℕ) → Input
  page_alloc_ex : (c_pages : ℕ) (kernel user reserved : Bool) → Input
  page_map_kernel : (r3 off sub flags : ℕ) → Input
  page_protect : (r3 r0 off sub prot : ℕ) → Input
  page_free : (r3 : ℕ) → Input
  ldr_open : OpenInput → Input
  ldr_load : LoadInput → Input
  ldr_free : (base : ℕ) → Input
  ldr_get_symbol : (base : ℕ) (symbol : List ℕ) → Input
  set_vm_for_fast : (vm : ℕ) (is_pointer : Bool) → Input

-- What is executed.
pub data Command : Type 0 where
  get_cookie : Command
  memory : Request → Command
  map_kernel : (r3 off sub flags : ℕ) → Command
  protect : (r3 r0 off sub prot : ℕ) → Command
  open_image : OpenInput → Command
  load_image : LoadInput → Command
  free_image : ℕ → Command
  get_symbol : ℕ → List ℕ → Command
  set_vm : ℕ → Command

-- The request is refused with a status of the call, answered with a status in the header, or
-- executed.
pub data Verdict : Type 0 where
  rejected : Status → Verdict
  answered : Status → Verdict
  execute : Command → Verdict

abbrev pub header_size : ℕ
header_size = 24

-- The sizes of the input and the output, REQ_CHECK_SIZES_EX.
abbrev pub has_sizes : Header → (cb_in cb_out : ℕ) → Bool
has_sizes h cb_in cb_out = h.cb_in == cb_in && h.cb_out == cb_out

abbrev pub require : Bool → Verdict → Verdict
require b v = if b then v else rejected invalid_parameter

-- RTStrEnd(pszString, cchMax): is there a terminator among the first bytes?
abbrev pub has_end : List ℕ → (max : ℕ) → Bool
has_end cs max = elim (str_end cs max) [ none ↦ false | some k ↦ true ]

-- The same on the bytes of an image from an offset on.
unfoldable pub image_has_end : (ℕ → ℕ) → (off max : ℕ) → Bool
image_has_end f off zero = false
image_has_end f off (suc n) = f off == 0 || image_has_end f (off + 1) n

-- supdrvCheckInvalidChar, on the string up to its terminator.
unfoldable pub check_invalid_char : List ℕ → (chars : List ℕ) → Bool
check_invalid_char [] chars = false
check_invalid_char (c ∷ cs) chars =
    let rest = check_invalid_char cs chars in if c == 0 then false else (contains chars c || rest)

-- ";:()[]{}/\\|&*%#@!~`\"'"
abbrev pub invalid_chars : List ℕ
invalid_chars =
    59 ∷ 58 ∷ 40 ∷ 41 ∷ 91 ∷ 93 ∷ 123 ∷ 125 ∷ 47 ∷ 92 ∷ 124 ∷ 38 ∷ 42 ∷ 37 ∷ 35 ∷ 64 ∷ 33 ∷ 126 ∷ 96
    ∷ 34 ∷ 39 ∷ []

abbrev pub first_char : List ℕ → ℕ
first_char [] = 0
first_char (c ∷ cs) = c

-- The validation of SUP_IOCTL_LDR_OPEN.
abbrev pub is_open_valid : OpenInput → Bool
is_open_valid q =
    ltb 0 q.size_tabs
    && (ltb q.size_tabs (16 * 2 ^ 20)
        && (ltb 0 q.size_bits
            && (ltb q.size_bits q.size_tabs
                && (not (first_char q.name == 0)
                    && (has_end q.name 32
                        && (not (check_invalid_char q.name invalid_chars)
                            && has_end q.filename 196))))))

-- A 32-bit number of the image, and the two numbers of a symbol.
abbrev pub word_at : (ℕ → ℕ) → ℕ → ℕ
word_at f p = f p + 2 ^ 8 * f (p + 1) + 2 ^ 16 * f (p + 2) + 2 ^ 24 * f (p + 3)

abbrev pub off_name : LoadInput → ℕ → ℕ
off_name q i = word_at q.image (q.off_symbols + 8 * i)

abbrev pub off_symbol : LoadInput → ℕ → ℕ
off_symbol q i = word_at q.image (q.off_symbols + 8 * i + 4)

-- The checks of one symbol, and the loop over the symbols.
unfoldable pub is_symbol_valid : LoadInput → ℕ → Bool
is_symbol_valid q i =
    ltb (off_symbol q i) q.size_tabs
    && (ltb (off_name q i) q.cb_strtab
        && image_has_end q.image ((q.off_strtab + off_name q i) % 2 ^ 32)
            (q.cb_strtab - off_name q i))

unfoldable pub are_symbols_valid : LoadInput → (i n : ℕ) → Bool
are_symbols_valid q i zero = true
are_symbols_valid q i (suc n) = is_symbol_valid q i && are_symbols_valid q (i + 1) n

-- The tables lie within the image; the sum for the string table is of 32-bit numbers.
abbrev pub are_tables_valid : LoadInput → Bool
are_tables_valid q =
    leb q.c_symbols 16384
    && ((q.c_symbols == 0
          || (ltb q.off_symbols q.size_tabs && leb (q.off_symbols + q.c_symbols * 8) q.size_tabs))
        && (q.cb_strtab == 0
            || (ltb q.off_strtab q.size_tabs
                && (leb ((q.off_strtab + q.cb_strtab) % 2 ^ 32) q.size_tabs
                    && leb q.cb_strtab q.size_tabs))))

unfoldable pub is_load_valid : Header → LoadInput → Bool
is_load_valid h q =
    leb 112 h.cb_in
    && (has_sizes h (108 + q.size_tabs) header_size
        && (are_tables_valid q && are_symbols_valid q 0 q.c_symbols))

-- SUPDRV_IOC_VERSION.
abbrev pub ioc_version : ℕ
ioc_version = 0x140001

-- SUP_IOCTL_COOKIE.
abbrev pub answer_cookie : Header → (magic_ok : Bool) (min_version : ℕ) → Verdict
answer_cookie h magic_ok min_version = require (has_sizes h 48 56) (
    if not magic_ok
    then answered invalid_magic
    else if ltb ioc_version min_version || not (min_version / 2 ^ 16 == ioc_version / 2 ^ 16)
    then answered version_mismatch
    else execute get_cookie)

-- SUP_IOCTL_LOW_ALLOC.
abbrev pub check_low_alloc : Header → (n : ℕ) → Verdict
check_low_alloc h n =
    require (leb h.cb_in 28)
      (require (has_sizes h 28 ((40 + 8 * n) % 2 ^ 32)) (execute (memory (low n true true true))))

-- SUP_IOCTL_PAGE_ALLOC_EX.
abbrev pub check_page_alloc_ex : Header → (n : ℕ) (kernel user reserved : Bool) → Verdict
check_page_alloc_ex h n kernel user reserved = require (leb h.cb_in 32) (
    require (has_sizes h 32 (40 + 8 * n)) (
      require (kernel || user)
        (require user (require (not reserved) (execute (memory (page n 0 kernel user true)))))))

-- SUP_IOCTL_PAGE_MAP_KERNEL.
abbrev pub check_page_map_kernel : Header → (r3 off sub flags : ℕ) → Verdict
check_page_map_kernel h r3 off sub flags = require (has_sizes h 48 48) (
    require (flags == 0) (
      require (off % page_size == 0)
        (require (not (sub == 0) && sub % page_size == 0) (execute (map_kernel r3 off sub flags)))))

-- SUP_IOCTL_PAGE_PROTECT.
abbrev pub check_page_protect : Header → (r3 r0 off sub prot : ℕ) → Verdict
check_page_protect h r3 r0 off sub prot = require (has_sizes h 56 56) (
    require (prot / 8 == 0) (
      require (off % page_size == 0)
        (require (not (sub == 0) && sub % page_size == 0) (execute (protect r3 r0 off sub prot)))))

-- SUP_IOCTL_SET_VM_FOR_FAST.
abbrev pub check_set_vm : Header → (vm : ℕ) (is_pointer : Bool) → Verdict
check_set_vm h vm is_pointer =
    require (has_sizes h 32 24)
      (require (vm == 0 || (is_pointer && vm % page_size == 0)) (execute (set_vm vm)))

-- The cases of the switch.
unfoldable pub dispatch : Header → Input → Verdict
dispatch h (cookie magic_ok min_version) = answer_cookie h magic_ok min_version
dispatch h (page_lock r3 n) = require (h.cb_in == 40) (
    require (h.cb_out == 24 + 8 * n)
      (require (ltb 0 n) (require (leb page_size r3) (execute (memory (lock r3 n true))))))
dispatch h (page_unlock r3) = require (has_sizes h 32 24) (execute (memory (free type_locked r3)))
dispatch h (cont_alloc n) = require (has_sizes h 28 48) (execute (memory (cont n true true true)))
dispatch h (cont_free r3) = require (has_sizes h 32 24) (execute (memory (free type_cont r3)))
dispatch h (low_alloc n) = check_low_alloc h n
dispatch h (low_free r3) = require (has_sizes h 32 24) (execute (memory (free type_low r3)))
dispatch h (page_alloc_ex n kernel user reserved) = check_page_alloc_ex h n kernel user reserved
dispatch h (page_map_kernel r3 off sub flags) = check_page_map_kernel h r3 off sub flags
dispatch h (page_protect r3 r0 off sub prot) = check_page_protect h r3 r0 off sub prot
dispatch h (page_free r3) = require (has_sizes h 32 24) (execute (memory (free type_page r3)))
dispatch h (ldr_open q) =
    require (has_sizes h 264 40) (require (is_open_valid q) (execute (open_image q)))
dispatch h (ldr_load q) = require (is_load_valid h q) (execute (load_image q))
dispatch h (ldr_free base) = require (has_sizes h 32 24) (execute (free_image base))
dispatch h (ldr_get_symbol base symbol) =
    require (has_sizes h 96 32) (require (has_end symbol 64) (execute (get_symbol base symbol)))
dispatch h (set_vm_for_fast vm is_pointer) = check_set_vm h vm is_pointer

-- Is it the request for the cookie, which comes with SUPCOOKIE_INITIAL_COOKIE?
abbrev pub is_cookie : Input → Bool
is_cookie (cookie magic_ok min_version) = true
is_cookie _ = false

-- The masked bits of the flags are SUPREQHDR_FLAGS_MAGIC.
abbrev pub has_magic : Header → Bool
has_magic h = h.flags / 2 ^ 24 % 2 ^ 8 == 0x42 && h.flags % 2 ^ 8 == 0x42

-- supdrvIOCtl up to the execution. The cookies are those of the device and of the session.
unfoldable pub check_request : (device session : ℕ) → Header → Input → Verdict
check_request device session h q =
    if not (has_magic h) || (ltb h.cb_in header_size || ltb h.cb_out header_size)
    then rejected invalid_parameter
    else if (if is_cookie q
        then not (h.cookie == 0x69726f74)
        else not (h.cookie == device) || not (h.session_cookie == session))
    then rejected invalid_parameter
    else dispatch h q
