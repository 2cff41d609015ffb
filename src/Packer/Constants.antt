-- ===== src/Packer/Constants.antt =====
-- Reading back the constants that the packer writes between the braces of its array.
use hbf.Base.{
  leb, ◌&&◌, suc, ℕ, ◌+◌, ◌-◌, ◌*◌, ◌/◌, ◌%◌, ◌<◌, ◌≡◌, refl, ◌∙◌, ap, true, false, ◌||◌,
  Bool-cases, inl, inr, Option, none, some, [], ◌∷◌, ◌++◌, Bytes, IsByte, All, codes, length, ltb,
  ◌==◌, if◌then◌else◌, hex_digit, print_hex, append_assoc, arith,
}
use hbf.Packer.Source.{newline, write_byte, write_bytes}

-- The kinds of character around the constants.
pub data Character : Type 0 where
  space : Character
  comma : Character
  zero_digit : Character
  close_brace : Character
  other : Character

abbrev pub character_of : ℕ → Character
character_of c =
    if c == 32 || c == 9 || c == 10
    then space
    else if c == 44
    then comma
    else if c == 48
    then zero_digit
    else if c == 125
    then close_brace
    else other

-- The value of a hexadecimal digit in lower case.
unfoldable pub digit_of : ℕ → Option ℕ
digit_of c =
    if leb 48 c && leb c 57
    then some (c - 48)
    else if leb 97 c && leb c 102
    then some (c - 87)
    else none

digit_of-hex_digit : (d : ℕ) → d < 16 → digit_of (hex_digit d) ≡ some d
unfolding digit_of hex_digit
digit_of-hex_digit d h = ground arith

-- Where the reader is: before a constant, behind the 0 or the x of one, behind its first digit, or
-- behind a whole constant.
pub data Place : Type 0 where
  before_constant : Place
  behind_zero : Place
  behind_x : Place
  behind_digit : ℕ → Place
  behind_constant : Place

abbrev pub prepend : ℕ → Option (Bytes × Bytes) → Option (Bytes × Bytes)
prepend b none = none
prepend b (some (bytes, rest)) = some (b ∷ bytes, rest)

-- One or more constants 0xhh of two digits, with a comma between any two and white space around
-- them, up to the closing brace; and what follows.
unfoldable pub read_items : Place → Bytes → Option (Bytes × Bytes)
unfolding digit_of
read_items place [] = none
read_items before_constant (c ∷ cs) = elim (character_of c) [
  | space ↦ read_items before_constant cs
  | comma ↦ none
  | zero_digit ↦ read_items behind_zero cs
  | close_brace ↦ none
  | other ↦ none
]
read_items behind_zero (c ∷ cs) = elim (c == 120) [ true ↦ read_items behind_x cs | false ↦ none ]
read_items behind_x (c ∷ cs) = elim (digit_of c) [
  | none ↦ none
  | some d ↦ read_items (behind_digit d) cs
]
read_items (behind_digit d) (c ∷ cs) = elim (digit_of c) [
  | none ↦ none
  | some e ↦ prepend (d * 16 + e) (read_items behind_constant cs)
]
read_items behind_constant (c ∷ cs) = elim (character_of c) [
  | space ↦ read_items behind_constant cs
  | comma ↦ read_items before_constant cs
  | zero_digit ↦ none
  | close_brace ↦ some ([], cs)
  | other ↦ none
]

read_items-digits :
    (b : ℕ) (rest : Bytes)
    → IsByte b
    → read_items behind_x (print_hex b ++ rest) ≡ prepend b (read_items behind_constant rest)
unfolding read_items print_hex
read_items-digits b rest h =
    rw
      (
        digit_of-hex_digit (b / 16) (omega arith),
        digit_of-hex_digit (b % 16) (omega arith),
        read_items,
      )
      (ap (λ (n : ℕ). prepend n (read_items behind_constant rest)) (omega arith))

-- The constant that is written at index `i`, with the comma behind it where it is not the last.
read_items-write_byte :
    (data_len i b : ℕ) (rest : Bytes)
    → IsByte b
    → read_items before_constant (write_byte data_len i b ++ rest)
      ≡ prepend b
          (read_items (if ltb i (data_len - 1) then before_constant else behind_constant) rest)
unfolding read_items write_byte
read_items-write_byte data_len i b rest h = elim (Bool-cases (i % 12 == 0)) [
  | inl e ↦ elim (Bool-cases (ltb i (data_len - 1))) [
    | inl d ↦ rw (e, d) commas
    | inr d ↦ rw (e, d) last
  ]
  | inr e ↦ elim (Bool-cases (ltb i (data_len - 1))) [
    | inl d ↦ rw (e, d) commas
    | inr d ↦ rw (e, d) last
  ]
]
  where
    commas :
        read_items behind_x ((print_hex b ++ codes ", ") ++ rest)
        ≡ prepend b (read_items before_constant rest)
    commas =
        ap (read_items behind_x) (append_assoc (print_hex b) (codes ", ") rest)
        ∙ read_items-digits b (codes ", " ++ rest) h

    last :
        read_items behind_x ((print_hex b ++ []) ++ rest)
        ≡ prepend b (read_items behind_constant rest)
    last =
        ap (read_items behind_x) (append_assoc (print_hex b) [] rest) ∙ read_items-digits b rest h

pub read_items-write_bytes :
    (data_len i b : ℕ) (bytes rest : Bytes)
    → IsByte b
    → All IsByte bytes
    → i + suc (length bytes) ≡ data_len
    → read_items before_constant
        (write_bytes data_len i (b ∷ bytes) ++ (newline ++ (codes "};" ++ rest)))
      ≡ some (b ∷ bytes, codes ";" ++ rest)
unfolding write_bytes
read_items-write_bytes data_len i b [] rest h hs whole =
    let no_comma : ltb i (data_len - 1) ≡ false = ground arith in
    ap (read_items before_constant)
      (append_assoc (write_byte data_len i b) [] (newline ++ (codes "};" ++ rest)))
    ∙ read_items-write_byte data_len i b _ h
    ∙ rw no_comma (unfold read_items in refl)
read_items-write_bytes data_len i b (b' ∷ bytes) rest h (h', hs) whole =
    let a_comma : ltb i (data_len - 1) ≡ true = ground arith in
    ap (read_items before_constant) (
      append_assoc (write_byte data_len i b) (write_bytes data_len (i + 1) (b' ∷ bytes))
        (newline ++ (codes "};" ++ rest)))
    ∙ read_items-write_byte data_len i b _ h
    ∙ rw a_comma (
        ap (prepend b)
          (read_items-write_bytes data_len (i + 1) b' bytes rest h' hs (omega (arith, whole))))
