-- ===== src/Ldr/Symbols.antt =====
-- supdrvIOCtl_LdrGetSymbol and supdrvIDC_LdrGetSymbol of vboxdrv/SUPDrv.c.
use virtualbox_drv.Common.{
  ℕ, zero, suc, ◌+◌, ◌%◌, ◌^◌, Bool, true, false, not, ◌&&◌, Option, none, some, List, [], ◌∷◌,
  ◌++◌, Status, success, invalid_handle, already_loaded, general_failure, module_not_found,
  wrong_order, ◌==◌, if◌then◌else◌, leb, ltb, length,
}
use virtualbox_drv.Ldr.{Image, Symbol, Ldr, find_usage, ldr_add_usage, put_session}
use virtualbox_drv.Ldr.Open.{find_name}
use virtualbox_drv.Ldr.Free.{is_loaded}

abbrev pub drop : ℕ → List ℕ → List ℕ
drop zero xs = xs
drop (suc n) [] = []
drop (suc n) (x ∷ xs) = drop n xs

-- memcmp of a byte string with the front of a table that is long enough.
unfoldable pub is_prefix : List ℕ → List ℕ → Bool
is_prefix [] ys = true
is_prefix (x ∷ xs) [] = false
is_prefix (x ∷ xs) (y ∷ ys) = x == y && is_prefix xs ys

-- A symbol with its terminator, as the comparison takes it.
abbrev pub terminated : List ℕ → List ℕ
terminated name = name ++ 0 ∷ []

abbrev pub symbol_matches : Image → List ℕ → Symbol → Bool
symbol_matches i name y =
    ltb y.off_symbol i.size_bits
    && (leb (y.off_name + length (terminated name)) i.cb_strtab
        && is_prefix (terminated name) (drop y.off_name i.strtab))

-- The search through the symbol table.
unfoldable pub find_symbol : Image → List ℕ → List Symbol → Option Symbol
find_symbol i name [] = none
find_symbol i name (y ∷ ys) = if symbol_matches i name y then some y else find_symbol i name ys

-- supdrvIOCtl_LdrGetSymbol: the status, and the address, 0 for NULL.
unfoldable pub ldr_get_symbol : Ldr → (s base : ℕ) → (name : List ℕ) → Option (Status × ℕ)
ldr_get_symbol l s base name = elim (find_usage base l.images (l.usage s)) [
  | none ↦ none
  | some none ↦ some (invalid_handle, 0)
  | some (some i) ↦ some (
      if not (is_loaded i.state)
      then (already_loaded, 0)
      else (elim (find_symbol i name i.symbols) [
        | none ↦ (general_failure, 0)
        | some y ↦ (success, (i.base + y.off_symbol) % 2 ^ 64)
      ]))
]

-- The module part of supdrvIDC_LdrGetSymbol: a symbol that is found adds a usage record for the
-- session. `none` stands for an output that is left as it was.
unfoldable pub idc_get_symbol :
    (usage_memory : Bool) → Ldr → (s : ℕ) → (mod_name name : List ℕ) → Ldr × Status × Option ℕ
idc_get_symbol usage_memory l s mod_name name = elim (find_name mod_name l.images) [
  | none ↦ (l, module_not_found, none)
  | some i ↦
      if not (is_loaded i.state)
      then (l, wrong_order, none)
      else (elim (find_symbol i name i.symbols) [
        | none ↦ (l, success, none)
        | some y ↦
            let (us, st) = ldr_add_usage usage_memory i.ptr (l.usage s) in
            (put_session s us l, st, some ((i.base + y.off_symbol) % 2 ^ 64))
      ])
]
