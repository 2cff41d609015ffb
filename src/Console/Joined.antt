-- ===== src/Console/Joined.antt =====
-- What console_module.c writes against what it allocates.
use hbf.Base.{ℕ, ◌+◌, ◌≡◌, refl, true, false, List, [], ◌∷◌, length, length-append, arith}
use hbf.Console.{Argument, js_value_to_string, total_len, join, strdup, concat_args}

-- The characters of all arguments, as the first conversion gives them and as the second does.
unfoldable pub first_characters : List Argument → ℕ
first_characters [] = 0
first_characters (a ∷ rest) = length (js_value_to_string a.first) + first_characters rest

unfoldable pub second_characters : List Argument → ℕ
second_characters [] = 0
second_characters (a ∷ rest) = length (js_value_to_string a.second) + second_characters rest

length-join :
    (args : List Argument)
    → total_len args + second_characters args ≡ length (join args) + first_characters args
unfolding total_len join first_characters second_characters
length-join [] = refl
length-join (a ∷ []) = omega arith
length-join (a ∷ b ∷ rest) =
    let rest_length = length-join (b ∷ rest) in
    rw (length-append (js_value_to_string a.second) (32 ∷ join (b ∷ rest))) (omega arith)

-- Without memory the message fits its allocation exactly. Otherwise the allocation and the message
-- differ by what the arguments' two conversions differ, whatever the separators: the message with
-- its NUL fits exactly where the second conversions are as long in all as the first, and is written
-- beyond the allocation where they are longer.
pub concat_args_lem :
    (args : List Argument)
    → ((concat_args true args).room + second_characters args
        ≡ length (concat_args true args).text + 1 + first_characters args)
      × ((concat_args false args).room ≡ length (concat_args false args).text + 1)
unfolding concat_args strdup first_characters second_characters
concat_args_lem [] = (refl, refl)
concat_args_lem (a ∷ rest) = let joined = length-join (a ∷ rest) in (omega arith, refl)
