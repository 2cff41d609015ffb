-- ===== src/Packer/Reading.antt =====
-- Reading back the C source that the packer writes: the initialiser of the array, as a list of
-- constants by C's grammar, and the value of the length.
use mathlib.Core.List.{flatten}
use hbf.Base.{
  get_property, set_property, get_property-set_property, bytes_eq, bytes_eq_refl, ltb→lt, zero, suc,
  All-append, All-mono, ℕ, ◌+◌, ◌/◌, ◌%◌, ◌^◌, ◌<◌, ◌≡◌, ◌≢◌, refl, ◌∙◌, ap, true, false,
  Bool-cases, inl, inr, Option, none, some, [], ◌∷◌, ◌++◌, Bytes, IsByte, All, codes, length, ltb,
  ◌==◌, if◌then◌else◌, print_size, print_digits, read10, read10-print_digits, arith,
}
use hbf.Packer.Source.{newline, write_bytes, source_text, header_text, write_c_source}
use hbf.Packer.Constants.{read_items, before_constant, read_items-write_bytes}

-- What follows the first such character.
after : ℕ → Bytes → Bytes
after c [] = []
after c (x ∷ xs) = let rest = after c xs in if x == c then xs else rest

-- What precedes it.
before : ℕ → Bytes → Bytes
before c [] = []
before c (x ∷ xs) = let rest = before c xs in if x == c then [] else x ∷ rest

-- The array's elements, from the first opening brace on, and the number behind the equals sign and
-- the space that follow it, up to the semicolon.
pub read_source : Bytes → Option (Bytes × ℕ)
unfolding read_items after before
read_source text = elim (read_items before_constant (after b'{' text)) [
  | none ↦ none
  | some (bytes, rest) ↦ some (bytes, read10 0 (before b';' (after b' ' (after b'=' rest))))
]

after-append : (c : ℕ) (xs ys : Bytes) → All (λ x. x ≢ c) xs → after c (xs ++ ys) ≡ after c ys
unfolding after
after-append c [] ys h = refl
after-append c (x ∷ xs) ys (h, hs) = ground (arith, after-append c xs ys)

before-append : (c : ℕ) (xs ys : Bytes) → All (λ x. x ≢ c) xs → before c (xs ++ c ∷ ys) ≡ xs
unfolding before
before-append c [] ys h = ground arith
before-append c (x ∷ xs) ys (h, hs) = ground (arith, before-append c xs ys)

print_digits-ne_step :
    (fuel n : ℕ)
    → All (λ x. x ≢ b';') (print_digits fuel (n / 10))
    → All (λ x. x ≢ b';') (print_digits (suc fuel) n)
unfolding print_digits
print_digits-ne_step fuel n h = elim (Bool-cases (ltb n 10)) [
  | inl e ↦ rw e (omega (arith, ltb→lt n 10 e), tt)
  | inr e ↦ rw e (
      All-append (λ x. x ≢ b';') (print_digits fuel (n / 10)) ((48 + n % 10) ∷ []) h
        (omega arith, tt))
]

print_digits-ne : (fuel n : ℕ) → All (λ x. x ≢ b';') (print_digits fuel n)
print_digits-ne zero n = unfold print_digits in tt
print_digits-ne (suc fuel) n = print_digits-ne_step fuel n (print_digits-ne fuel (n / 10))

module _ (symbol_name bytes : Bytes) (named : All (λ c. (c ≢ b'{') × (c ≢ b'=')) symbol_name) where
  -- What stands behind the length's digits, and behind the array.
  abbrev behind_digits : Bytes
  behind_digits = codes ";" ++ (newline ++ [])

  abbrev behind_array : Bytes
  behind_array =
      newline
      ++ (newline
          ++ (codes "const size_t "
              ++ (symbol_name
                  ++ (codes "_len = " ++ (print_size (length bytes) ++ behind_digits)))))

  array_lem :
      after b'{' (source_text symbol_name bytes)
      ≡ write_bytes (length bytes) 0 bytes ++ (newline ++ (codes "};" ++ behind_array))
  unfolding source_text flatten after
  array_lem =
      after-append b'{' symbol_name
        (codes "[] = {"
          ++ (write_bytes (length bytes) 0 bytes ++ (newline ++ (codes "};" ++ behind_array))))
        (All-mono symbol_name (λ x h. h.0) named)

  length_lem :
      after b' ' (after b'=' (codes ";" ++ behind_array))
      ≡ print_size (length bytes) ++ behind_digits
  unfolding after
  length_lem = ap (after b' ') (
      after-append b'=' symbol_name
        (codes "_len = " ++ (print_size (length bytes) ++ behind_digits))
        (All-mono symbol_name (λ x h. h.1) named))

  read_length :
      length bytes < 10 ^ 20
      → read10 0 (before b';' (after b' ' (after b'=' (codes ";" ++ behind_array)))) ≡ length bytes
  unfolding print_size
  read_length fits =
      ap (λ (b : Bytes). read10 0 (before b';' b)) length_lem
      ∙ ap (read10 0) (
          before-append b';' (print_digits 20 (length bytes)) newline
            (print_digits-ne 20 (length bytes)))
      ∙ read10-print_digits 20 (length bytes) fits

-- Where both files open at two paths, the text at the source's path has between its braces a list
-- of two-digit hexadecimal constants, separated by commas as C asks, which are exactly the bundle's
-- bytes, and behind it the length in decimal, which is their number; for one or more bytes and a
-- symbol name without braces and equals signs.
pub read_source-write_c_source :
    (output_source output_header symbol_name bytes : Bytes)
    → bytes_eq output_header output_source ≡ false
    → All (λ c. (c ≢ b'{') × (c ≢ b'=')) symbol_name
    → All IsByte bytes
    → bytes ≢ []
    → length bytes < 10 ^ 20
    → (text : Bytes) × (get_property output_source
          (write_c_source true true output_source output_header symbol_name bytes).files
        ≡ some text)
      × (read_source text ≡ some (bytes, length bytes))
unfolding write_c_source
read_source-write_c_source output_source output_header symbol_name [] two named hs some_bytes fits =
    absurd (some_bytes refl)
read_source-write_c_source output_source output_header symbol_name (b ∷ bs) two named hs some_bytes
      fits =
    (
      source_text symbol_name (b ∷ bs),
      get_property-set_property output_source output_header (header_text symbol_name)
            (set_property output_source (source_text symbol_name (b ∷ bs)) [])
          ∙ rw two (
              get_property-set_property output_source output_source
                (source_text symbol_name (b ∷ bs)) []
              ∙ rw (bytes_eq_refl output_source) refl),
      reads,
    )
  where
    items :
        read_items before_constant (after b'{' (source_text symbol_name (b ∷ bs)))
        ≡ some (b ∷ bs, codes ";" ++ behind_array symbol_name (b ∷ bs) named)
    items =
        ap (read_items before_constant) (array_lem symbol_name (b ∷ bs) named)
        ∙ read_items-write_bytes (suc (length bs)) 0 b bs (behind_array symbol_name (b ∷ bs) named)
            hs.0 hs.1 (omega arith)

    reads : read_source (source_text symbol_name (b ∷ bs)) ≡ some (b ∷ bs, suc (length bs))
    reads =
        unfold read_source in
        ap
          (λ o. elim o [
            | none ↦ none
            | some (bytes, rest) ↦
                some (bytes, read10 0 (before b';' (after b' ' (after b'=' rest))))
          ])
          items
        ∙ ap (λ (n : ℕ). some (b ∷ bs, n)) (read_length symbol_name (b ∷ bs) named fits)
