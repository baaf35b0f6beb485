-- ===== src/Ldr/Lookup.antt =====
-- What supdrvIOCtl_LdrGetSymbol of vboxdrv/SUPDrv.c finds.
use virtualbox_drv.Common.{
  ℕ, ◌+◌, ◌-◌, ◌<◌, ◌^◌, ◌%◌, ◌≡◌, refl, true, false, none, some, List, [], ◌∷◌, ◌++◌, arith, ap,
  ltb, Bool-cases, Option-cases, inl, inr, Returns, Status, success, already_loaded,
  general_failure,
}
use virtualbox_drv.Ldr.{Image, Symbol, Ldr, find_usage, is_inside}
use virtualbox_drv.Ldr.Free.{is_loaded}
use virtualbox_drv.Ldr.Symbols.{symbol_matches, find_symbol, ldr_get_symbol}

abbrev pub NoMatch : Image → List ℕ → List Symbol → Type 0
NoMatch i name [] = Unit {0}
NoMatch i name (y ∷ ys) = (symbol_matches i name y ≡ false) × NoMatch i name ys

-- The answers of a query: the image is not loaded, no symbol has the name, or the address of the
-- first symbol of the name, which lies in the image.
pub data SymbolAnswer (i : Image) (name : List ℕ) : Status × ℕ → Type 0 where
  unloaded : is_loaded i.state ≡ false → SymbolAnswer i name (already_loaded, 0)
  missing :
      is_loaded i.state ≡ true → NoMatch i name i.symbols → SymbolAnswer i name (general_failure, 0)
  found :
      {a : ℕ} (before later : List Symbol) (y : Symbol)
      → is_loaded i.state ≡ true
      → i.symbols ≡ before ++ y ∷ later
      → NoMatch i name before
      → symbol_matches i name y ≡ true
      → a ≡ (i.base + y.off_symbol) % 2 ^ 64
      → is_inside i.base i.size_bits a ≡ true
      → SymbolAnswer i name (success, a)

find_symbol-none :
    (i : Image) (name : List ℕ) (ys : List Symbol)
    → find_symbol i name ys ≡ none
    → NoMatch i name ys
unfolding find_symbol
find_symbol-none i name [] e = tt
find_symbol-none i name (y ∷ ys) e = elim (Bool-cases (symbol_matches i name y)) [
  | inl hit ↦ absurd (ground (arith, e, hit))
  | inr miss ↦ (miss, find_symbol-none i name ys (ground (arith, e, miss)))
]

find_symbol-some :
    (i : Image) (name : List ℕ) (ys : List Symbol) (y : Symbol)
    → find_symbol i name ys ≡ some y
    → (before : List Symbol) × (later : List Symbol) × (ys ≡ before ++ y ∷ later)
      × NoMatch i name before
      × (symbol_matches i name y ≡ true)
unfolding find_symbol
find_symbol-some i name [] y e = absurd (ground (arith, e))
find_symbol-some i name (x ∷ ys) y e = elim (Bool-cases (symbol_matches i name x)) [
  | inl hit ↦
      let same : x ≡ y = ground (arith, e, hit) in
      ([], ys, ap (λ z. z ∷ ys) same, tt, rw (← same) hit)
  | inr miss ↦
      let (before, later, split, quiet, hit) =
        find_symbol-some i name ys y (ground (arith, e, miss)) in
      (x ∷ before, later, ap (λ zs. x ∷ zs) split, (miss, quiet), hit)
]

offset_inside :
    (base size off : ℕ)
    → base < 2 ^ 64
    → size < 2 ^ 32
    → ltb off size ≡ true
    → is_inside base size ((base + off) % 2 ^ 64) ≡ true
offset_inside base size off h k e =
    let below : off < size = ground (arith, e) in
    let same : ((base + off) % 2 ^ 64 + 2 ^ 64 - base) % 2 ^ 64 ≡ off = omega arith in rw same e

-- A symbol query of an image that the session has opened, whose base is a 64-bit address and whose
-- size has 32 bits, gives one of the answers above.
pub ldr_get_symbol-SymbolAnswer :
    (l : Ldr) (s base : ℕ) (name : List ℕ) (i : Image)
    → find_usage base l.images (l.usage s) ≡ some (some i)
    → i.base < 2 ^ 64
    → i.size_bits < 2 ^ 32
    → Returns (SymbolAnswer i name) (ldr_get_symbol l s base name)
unfolding ldr_get_symbol
ldr_get_symbol-SymbolAnswer l s base name i e h k = elim (Bool-cases (is_loaded i.state)) [
  | inr early ↦ rw (e, ldr_get_symbol, early) (unloaded early)
  | inl ready ↦ elim (Option-cases (find_symbol i name i.symbols)) [
    | inl f ↦ rw (e, ldr_get_symbol, ready, f) (missing ready (find_symbol-none i name i.symbols f))
    | inr (y, f) ↦
        let (before, later, split, quiet, hit) = find_symbol-some i name i.symbols y f in
        rw (e, ldr_get_symbol, ready, f)
          (found before later y ready split quiet hit refl
            (offset_inside i.base i.size_bits y.off_symbol h k (ground (arith, hit))))
  ]
]
