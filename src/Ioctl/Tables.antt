-- ===== src/Ioctl/Tables.antt =====
-- What the validation of SUP_IOCTL_LDR_OPEN and SUP_IOCTL_LDR_LOAD by supdrvIOCtl of
-- vboxdrv/SUPDrv.c ensures of names and of the tables of an image.
use virtualbox_drv.Common.{
  ℕ, zero, suc, ◌+◌, ◌*◌, ◌-◌, ◌%◌, ◌^◌, ◌≡◌, ◌≢◌, ◌≤◌, ◌<◌, ◌⊎◌, inl, inr, true, false, some, List,
  [], ◌∷◌, arith, leb, ◌==◌, contains, Bool-cases, Option-cases, subst,
}
use virtualbox_drv.Factory.{str_end}
use virtualbox_drv.Ioctl.{
  Header, OpenInput, LoadInput, has_end, image_has_end, check_invalid_char, invalid_chars,
  first_char, is_open_valid, off_name, off_symbol, is_symbol_valid, are_symbols_valid,
  is_load_valid,
}

-- The characters before the terminator at `k` are in none of the excluded ones.
abbrev pub Allowed : List ℕ → (k : ℕ) → List ℕ → Type 0
Allowed cs zero chars = Unit {0}
Allowed [] (suc k) chars = Unit {0}
Allowed (c ∷ cs) (suc k) chars = (contains chars c ≡ false) × Allowed cs k chars

-- A name of an image: it is not empty, ends within its field, and has no excluded character.
pub record OpenSound (q : OpenInput) : Type 0 where
  pub sizes : (0 < q.size_bits) × (q.size_bits < q.size_tabs) × (q.size_tabs < 2 ^ 24)
  pub end : ℕ
  pub ends : str_end q.name 32 ≡ some end
  pub nonempty : 0 < end
  pub allowed : Allowed q.name end invalid_chars
  pub filename_ends : has_end q.filename 196 ≡ true

check_invalid_char-Allowed :
    (cs chars : List ℕ) (n k : ℕ)
    → str_end cs n ≡ some k
    → check_invalid_char cs chars ≡ false
    → Allowed cs k chars
unfolding str_end check_invalid_char
check_invalid_char-Allowed cs chars n zero e f = tt
check_invalid_char-Allowed [] chars n (suc k) e f = tt
check_invalid_char-Allowed (c ∷ cs) chars zero (suc k) e f = absurd (ground arith)
check_invalid_char-Allowed (c ∷ cs) chars (suc n) (suc k) e f = elim (Option-cases (str_end cs n)) [
  | inl g ↦ absurd (ground arith)
  | inr (j, g) ↦
      (ground arith, check_invalid_char-Allowed cs chars n k (ground arith) (ground arith))
]

str_end-positive : (cs : List ℕ) (n k : ℕ) → str_end cs n ≡ some k → first_char cs ≢ 0 → 0 < k
unfolding str_end
str_end-positive cs zero k e f = absurd (ground arith)
str_end-positive [] (suc n) k e f = absurd (ground arith)
str_end-positive (c ∷ cs) (suc n) k e f = ground (arith, Option-cases (str_end cs n))

pub is_open_valid-OpenSound : (q : OpenInput) → is_open_valid q ≡ true → OpenSound q
is_open_valid-OpenSound q e = elim (Option-cases (str_end q.name 32)) [
  | inl f ↦ absurd (ground arith)
  | inr (k, f) ↦ record {
    sizes = ground arith;
    end = k;
    ends = f;
    nonempty = str_end-positive q.name 32 k f (ground arith);
    allowed = check_invalid_char-Allowed q.name invalid_chars 32 k f (ground arith);
    filename_ends = ground arith;
  }
]

-- A symbol of the table: its address is within the image, and its name ends within the string table.
pub record SymbolSound (q : LoadInput) (i : ℕ) : Type 0 where
  pub symbol : off_symbol q i < q.size_tabs
  pub end : ℕ
  pub within : off_name q i + end < q.cb_strtab
  pub ends : q.image ((q.off_strtab + off_name q i) % 2 ^ 32 + end) ≡ 0

image_has_end-found :
    (f : ℕ → ℕ) (off n : ℕ) → image_has_end f off n ≡ true → (k : ℕ) × (k < n) × (f (off + k) ≡ 0)
unfolding image_has_end
image_has_end-found f off zero e = absurd (ground arith)
image_has_end-found f off (suc n) e = elim (Bool-cases (f off == 0)) [
  | inl here ↦
      let same : off ≡ off + 0 = omega arith in
      (0, omega arith, subst (λ p. f p ≡ 0) same (ground (arith, here)))
  | inr further ↦
      let (k, less, zero_there) = image_has_end-found f (off + 1) n (ground arith) in
      let same : off + 1 + k ≡ off + (k + 1) = omega arith in
      (k + 1, omega (arith, less), subst (λ p. f p ≡ 0) same zero_there)
]

is_symbol_valid-SymbolSound : (q : LoadInput) (i : ℕ) → is_symbol_valid q i ≡ true → SymbolSound q i
unfolding is_symbol_valid
is_symbol_valid-SymbolSound q i e =
    let (k, less, zero_there) =
      image_has_end-found q.image ((q.off_strtab + off_name q i) % 2 ^ 32)
        (q.cb_strtab - off_name q i) (ground arith) in
    record { symbol = ground arith; end = k; within = omega (arith, less); ends = zero_there }

are_symbols_valid-SymbolSound :
    (q : LoadInput) (i n j : ℕ)
    → are_symbols_valid q i n ≡ true
    → i ≤ j
    → j < i + n
    → SymbolSound q j
unfolding are_symbols_valid
are_symbols_valid-SymbolSound q i zero j e low high = absurd (omega arith)
are_symbols_valid-SymbolSound q i (suc n) j e low high = elim (Bool-cases (i == j)) [
  | inl here ↦
      subst (SymbolSound q) (ground (arith, here)) (is_symbol_valid-SymbolSound q i (ground arith))
  | inr further ↦
      are_symbols_valid-SymbolSound q (i + 1) n j (ground arith) (ground arith) (ground arith)
]

-- The tables of an image of at most 2 GB lie within it, and every symbol is sound. The request is as
-- long as its header, the fixed fields and the image.
pub record LoadSound (h : Header) (q : LoadInput) : Type 0 where
  pub request : h.cb_in ≡ 108 + q.size_tabs
  pub few : q.c_symbols ≤ 16384
  pub symbol_table : (q.c_symbols ≡ 0) ⊎ (q.off_symbols + q.c_symbols * 8 ≤ q.size_tabs)
  pub string_table :
      ((q.cb_strtab ≡ 0) ⊎ (q.off_strtab + q.cb_strtab ≤ q.size_tabs)) ⊎ (2 ^ 31 < q.size_tabs)
  pub symbols : (i : ℕ) → i < q.c_symbols → SymbolSound q i

pub is_load_valid-LoadSound :
    (h : Header) (q : LoadInput) → is_load_valid h q ≡ true → LoadSound h q
unfolding is_load_valid
is_load_valid-LoadSound h q e = record {
  request = ground arith;
  few = ground arith;
  symbol_table = elim (Bool-cases (q.c_symbols == 0)) [
    | inl empty ↦ inl (ground (arith, empty))
    | inr some_symbols ↦ inr (ground (arith, some_symbols))
  ];
  string_table = elim (Bool-cases (leb q.size_tabs (2 ^ 31))) [
    | inl small ↦ elim (Bool-cases (q.cb_strtab == 0)) [
      | inl empty ↦ inl (inl (ground (arith, empty)))
      | inr some_bytes ↦ inl (inr (ground (arith, small, some_bytes)))
    ]
    | inr large ↦ inr (ground (arith, large))
  ];
  symbols = λ i less.
      are_symbols_valid-SymbolSound q 0 q.c_symbols i (ground arith) (omega arith) (omega arith);
}
