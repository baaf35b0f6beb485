-- ===== src/Ioctl/Tests.antt =====
-- Requests of a client that supdrvIOCtl of vboxdrv/SUPDrv.c takes and refuses, and the theorem about it.
use virtualbox_drv.Common.{
  ℕ, ◌≡◌, refl, true, [], ◌∷◌, invalid_parameter, version_mismatch, ◌==◌, if◌then◌else◌,
}
use virtualbox_drv.Factory.{str_end}
use virtualbox_drv.Ioctl.{
  Header, LoadInput, cookie, page_lock, ldr_open, ldr_load, memory, load_image, rejected, answered,
  execute, dispatch, check_request, check_invalid_char, is_load_valid, are_symbols_valid,
  is_symbol_valid, image_has_end,
}
use virtualbox_drv.Ioctl.Buffers.{Checked, check_request-Checked}
use virtualbox_drv.MemApi.{lock}

abbrev header : ℕ → ℕ → Header
header cb_in cb_out = record {
  cookie = 11;
  session_cookie = 22;
  cb_in = cb_in;
  cb_out = cb_out;
  flags = 0x42000042;
}

locks_two :
    check_request 11 22 (header 40 40) (page_lock 0x20000 2)
    ≡ execute (memory (lock 0x20000 2 true))
unfolding check_request dispatch
locks_two = refl

-- The output has room for one address only.
too_short : check_request 11 22 (header 40 32) (page_lock 0x20000 2) ≡ rejected invalid_parameter
unfolding check_request dispatch
too_short = refl

wrong_session :
    check_request 11 23 (header 40 40) (page_lock 0x20000 2) ≡ rejected invalid_parameter
unfolding check_request dispatch
wrong_session = refl

old_client :
    check_request 11 22 (record (header 48 56) { cookie = 0x69726f74 }) (cookie true 0x130000)
    ≡ answered version_mismatch
unfolding check_request dispatch
old_client = refl

-- The name "a;".
bad_name :
    check_request 11 22 (header 264 40) (
      ldr_open
        (record { size_tabs = 600; size_bits = 512; name = 97 ∷ 59 ∷ 0 ∷ []; filename = 0 ∷ [] }))
    ≡ rejected invalid_parameter
unfolding check_request dispatch check_invalid_char str_end
bad_name = refl

-- An image of 32 bytes with the symbol "f" at 16; the string table has two bytes at 24.
abbrev loading : LoadInput
loading = record {
  size_tabs = 32;
  off_symbols = 8;
  c_symbols = 1;
  off_strtab = 24;
  cb_strtab = 2;
  image = λ p. if p == 12 then 16 else if p == 24 then 102 else 0;
}

loads : check_request 11 22 (header 140 24) (ldr_load loading) ≡ execute (load_image loading)
unfolding check_request dispatch is_load_valid are_symbols_valid is_symbol_valid image_has_end
loads = refl

check_request-Checked_example :
    Checked 11 22
      (header 140 24)
      (ldr_load loading)
      (check_request 11 22 (header 140 24) (ldr_load loading))
check_request-Checked_example = check_request-Checked 11 22 (header 140 24) (ldr_load loading)
