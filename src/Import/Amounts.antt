-- ===== src/Import/Amounts.antt =====
-- lib/import/normalizers.ts, `toMinorUnits`: amounts as they are written.
-- A text is the list of its code points.
use finance.Prelude.{
  ℕ, zero, suc, ◌+◌, ◌-◌, ◌*◌, Bool, true, false, not, ◌&&◌, ◌||◌, Option, none, some, List, [],
  ◌∷◌, ◌++◌, ltb, leb, ◌==◌, if◌then◌else◌, length, is_nil, all, select, ◌≡◌, refl,
}
use finance.Prelude.Int.{ℤ, pos, negsuc, neg}

-- A cell of a raw row: a string, a number with the text that `toString` gives, or something else.
pub data RawValue : Type 0 where
  text : List ℕ → RawValue
  number : List ℕ → RawValue
  other : RawValue

-- The white space of `\s` and of `trim`.
unfoldable pub is_space : ℕ → Bool
is_space c =
    (leb 9 c && leb c 13)
    || (c == 32
        || (c == 160
            || (c == 5760
                || ((leb 8192 c && leb c 8202)
                    || (c == 8232
                        || (c == 8233
                            || (c == 8239 || (c == 8287 || (c == 12288 || c == 65279)))))))))

abbrev pub is_digit : ℕ → Bool
is_digit c = leb b'0' c && leb c b'9'

abbrev pub dot : ℕ
dot = b'.'

abbrev pub comma : ℕ
comma = b','

-- `value.replace(/\s+/g, '')`
unfoldable pub strip_spaces : List ℕ → List ℕ
unfolding is_space
strip_spaces s = select (λ c. not (is_space c)) s

-- What is left of a string is null if it is white space only; the caller removes white space.
unfoldable pub normalize_amount_input : Option RawValue → Option (List ℕ)
unfolding strip_spaces
normalize_amount_input none = none
normalize_amount_input (some (number t)) = some t
normalize_amount_input (some (text t)) = if is_nil (strip_spaces t) then none else some t
normalize_amount_input (some other) = none

-- `value.replace(/^[+-]/, '')`
unfoldable pub drop_sign : List ℕ → List ℕ
drop_sign [] = []
drop_sign (c ∷ s) = if (c == b'+') || (c == b'-') then s else c ∷ s

abbrev pub starts_with_minus : List ℕ → Bool
starts_with_minus [] = false
starts_with_minus (c ∷ s) = c == b'-'

-- `/^\d[\d.,]*$/`
unfoldable pub is_amount_text : List ℕ → Bool
is_amount_text [] = false
is_amount_text (c ∷ s) = is_digit c && all (λ d. is_digit d || (d == dot || d == comma)) s

abbrev pub occurrences : ℕ → List ℕ → ℕ
occurrences c [] = 0
occurrences c (d ∷ s) = if d == c then suc (occurrences c s) else occurrences c s

-- The text before the first occurrence of a character, and the text behind it.
unfoldable pub split_first : ℕ → List ℕ → List ℕ × List ℕ
split_first c [] = ([], [])
split_first c (d ∷ s) = if d == c then ([], s) else (d ∷ (split_first c s).0, (split_first c s).1)

-- The same at the last occurrence, which is the first if there is one only.
unfoldable pub split_last : ℕ → List ℕ → List ℕ × List ℕ
split_last c [] = ([], [])
split_last c (d ∷ s) =
    if d == c && (occurrences c s == 0)
    then ([], s)
    else (d ∷ (split_last c s).0, (split_last c s).1)

-- Puts a character in front of the first part, or opens a part before it.
abbrev pub attach : Bool → ℕ → List (List ℕ) → List (List ℕ)
attach opens d [] = []
attach opens d (p ∷ ps) = if opens then [] ∷ p ∷ ps else (d ∷ p) ∷ ps

-- `candidate.split(separator)`
unfoldable pub split_at : ℕ → List ℕ → List (List ℕ)
split_at c [] = [] ∷ []
split_at c (d ∷ s) = attach (d == c) d (split_at c s)

abbrev pub is_three_digits : List ℕ → Bool
is_three_digits p = (length p == 3) && all is_digit p

-- `isGroupedInteger`
unfoldable pub is_grouped : List (List ℕ) → Bool
is_grouped [] = false
is_grouped (p ∷ []) = false
is_grouped (p ∷ q ∷ ps) = leb 1 (length p) && (leb (length p) 3 && all is_three_digits (q ∷ ps))

unfoldable pub is_grouped_integer : List ℕ → ℕ → Bool
unfolding is_grouped split_at
is_grouped_integer candidate separator = is_grouped (split_at separator candidate)

-- `^\d{0,n}$`
abbrev pub at_most_digits : ℕ → List ℕ → Bool
at_most_digits n s = leb (length s) n && all is_digit s

-- The position of the last occurrence, from 1, or 0.
abbrev pub last_position : ℕ → List ℕ → ℕ
last_position c [] = 0
last_position c (d ∷ s) =
    if last_position c s == 0 then (if d == c then 1 else 0) else suc (last_position c s)

abbrev pub remove : ℕ → List ℕ → List ℕ
remove c s = select (λ d. not (d == c)) s

-- The branches that find the integer part and the fraction part; `none` is `return null`.
unfoldable pub both_separators : ℕ → List ℕ → Option (List ℕ × List ℕ)
unfolding is_grouped_integer split_last
both_separators decimals s =
    let decimal = if ltb (last_position dot s) (last_position comma s) then comma else dot in
    let grouping = if decimal == comma then dot else comma in
    let (integer, fraction) = split_last decimal s in
    if not (occurrences decimal s == 1)
      || (not (at_most_digits decimals fraction) || not (is_grouped_integer integer grouping))
    then none
    else some (remove grouping integer, fraction)

unfoldable pub comma_only : ℕ → List ℕ → Option (List ℕ × List ℕ)
unfolding split_first
comma_only decimals s =
    let (integer, fraction) = split_first comma s in
    if not (occurrences comma s == 1)
    then none
    else if not (not (is_nil integer) && all is_digit integer)
        || not (at_most_digits decimals fraction)
    then none
    else some (integer, fraction)

unfoldable pub dot_only : ℕ → List ℕ → Option (List ℕ × List ℕ)
unfolding split_first is_grouped_integer
dot_only decimals s =
    let (integer, fraction) = split_first dot s in
    if (occurrences dot s == 1) && at_most_digits decimals fraction
    then some (integer, fraction)
    else if is_grouped_integer s dot
    then some (remove dot s, [])
    else none

unfoldable pub split_amount : ℕ → List ℕ → Option (List ℕ × List ℕ)
unfolding both_separators comma_only dot_only
split_amount decimals s =
    let has_comma = not (occurrences comma s == 0) in
    let has_dot = not (occurrences dot s == 0) in
    if has_comma && has_dot
    then both_separators decimals s
    else if has_comma
    then comma_only decimals s
    else if has_dot
    then dot_only decimals s
    else some (s, [])

-- `fraction.padEnd(decimals, '0')`
abbrev pub pad_end : ℕ → List ℕ → List ℕ
pad_end zero s = s
pad_end (suc n) [] = b'0' ∷ pad_end n []
pad_end (suc n) (c ∷ s) = c ∷ pad_end n s

-- `BigInt(digits)`
unfoldable pub digits_value : ℕ → List ℕ → ℕ
digits_value acc [] = acc
digits_value acc (c ∷ s) = digits_value (acc * 10 + (c - b'0')) s

abbrev pub signed : Bool → ℕ → ℤ
signed true n = neg (pos n)
signed false n = pos n

unfoldable pub to_minor_units : ℕ → Option RawValue → Option ℤ
unfolding normalize_amount_input strip_spaces drop_sign is_amount_text split_amount digits_value neg
to_minor_units decimals value = elim (normalize_amount_input value) [
  | none ↦ none
  | some input ↦
      let normalized = strip_spaces input in
      let unsigned = drop_sign normalized in
      if not (is_amount_text unsigned) then none else elim (split_amount decimals unsigned) [
        | none ↦ none
        | some (integer, fraction) ↦
            if not (not (is_nil integer) && all is_digit integer) || not (all is_digit fraction)
            then none
            else some (
                signed (starts_with_minus normalized)
                  (digits_value 0 (integer ++ pad_end decimals fraction)))
      ]
]

grouped_text :
    to_minor_units 2 (some (text (b'-' ∷ b'1' ∷ b'.' ∷ b'2' ∷ b'3' ∷ b'4' ∷ b',' ∷ b'5' ∷ [])))
    ≡ some (negsuc 123449)
unfolding to_minor_units
grouped_text = refl
