-- ===== src/Prelude/Text.antt =====
-- Tests on the bytes and characters of a native text: regular expressions of the source, and
-- strings.TrimSpace over the bytes of a message.
use Prim.Native.Nat.{ℕ, zero, suc, ◌≤◌}
use Prim.Native.Char.{code}
use Prim.Native.String.{String, compare}
use text.Mathlib.Text.{is_le}
use native.Mathlib.Omega.{arith}
use mathlib.Core.Bool.{Bool, true, false, ◌&&◌, ◌||◌}
use mathlib.Core.List.{List, [], ◌∷◌, reverse}
use mathlib.Core.Option.{Option, none, some}
use remote_code.Prelude.Tests.{leb, ◌==◌, if◌then◌else◌}
use remote_code.Prelude.Lists.{length, take}

-- The code points of a text.
abbrev pub codes : String → List ℕ
codes String.[] = []
codes (String.◌∷◌ c s) = code c ∷ codes s

abbrev pub all_codes : (ℕ → Bool) → List ℕ → Bool
all_codes p [] = true
all_codes p (c ∷ cs) = p c && all_codes p cs

abbrev pub between : ℕ → ℕ → ℕ → Bool
between lo hi c = leb lo c && leb c hi

abbrev pub is_lower : ℕ → Bool
is_lower c = between b'a' b'z' c

abbrev pub is_letter : ℕ → Bool
is_letter c = is_lower c || between b'A' b'Z' c

abbrev pub is_punctuation : ℕ → Bool
is_punctuation c = c == b'.' || c == b'_' || c == b'-'

abbrev pub is_digit : ℕ → Bool
is_digit c = between b'0' b'9' c

-- `^[first][rest]{0,bound}$`
abbrev pub matches_pattern : (ℕ → Bool) → (ℕ → Bool) → ℕ → List ℕ → Bool
matches_pattern first rest bound [] = false
matches_pattern first rest bound (c ∷ cs) = first c && all_codes rest cs && leb (length cs) bound

-- How many bytes a white-space character at the start of the bytes takes; 0 where there is none.
abbrev white_prefix : List ℕ → ℕ
white_prefix (a ∷ b ∷ c ∷ r) =
    if between 9 13 a || a == 32
    then 1
    else if a == 0xc2 && (b == 0x85 || b == 0xa0)
    then 2
    else if a == 0xe1 && b == 0x9a && c == 0x80
        || a == 0xe2 && b == 0x80 && (between 0x80 0x8a c || c == 0xa8 || c == 0xa9 || c == 0xaf)
        || a == 0xe2 && b == 0x81 && c == 0x9f
        || a == 0xe3 && b == 0x80 && c == 0x80
    then 3
    else 0
white_prefix (a ∷ b ∷ []) =
    if between 9 13 a || a == 32 then 1 else if a == 0xc2 && (b == 0x85 || b == 0xa0) then 2 else 0
white_prefix (a ∷ []) = if between 9 13 a || a == 32 then 1 else 0
white_prefix [] = 0

-- The same at the end of the bytes, which come last first.
abbrev white_suffix : List ℕ → ℕ
white_suffix (c ∷ b ∷ a ∷ r) =
    if between 9 13 c || c == 32
    then 1
    else if b == 0xc2 && (c == 0x85 || c == 0xa0)
    then 2
    else if white_prefix (a ∷ b ∷ c ∷ []) == 3
    then 3
    else 0
white_suffix (c ∷ b ∷ []) =
    if between 9 13 c || c == 32 then 1 else if b == 0xc2 && (c == 0x85 || c == 0xa0) then 2 else 0
white_suffix l = white_prefix l

-- Drops `skip` bytes, then each white-space character in turn.
drop_white : (List ℕ → ℕ) → ℕ → List ℕ → List ℕ
drop_white white skip [] = []
drop_white white (suc skip) (a ∷ r) = drop_white white skip r
drop_white white zero (a ∷ r) = elim (white (a ∷ r)) [ zero ↦ a ∷ r | suc n ↦ drop_white white n r ]

unfoldable pub trim_space : List ℕ → List ℕ
unfolding drop_white
trim_space s = reverse (drop_white white_suffix 0 (reverse (drop_white white_prefix 0 s)))

pub length-take-le {ℓ} : {A : Type ℓ} (n : ℕ) (xs : List A) → length (take n xs) ≤ n
length-take-le zero xs = omega arith
length-take-le (suc n) [] = omega arith
length-take-le (suc n) (x ∷ xs) = omega (arith, length-take-le n xs)

-- sort.Strings, in the order of the bytes.
unfoldable pub insert_sorted : String → List String → List String
insert_sorted s [] = s ∷ []
insert_sorted s (t ∷ ts) = if is_le (compare s t) then s ∷ t ∷ ts else t ∷ insert_sorted s ts

unfoldable pub sort_strings : List String → List String
unfolding insert_sorted
sort_strings [] = []
sort_strings (s ∷ ss) = insert_sorted s (sort_strings ss)

-- The ranges of the bytes that follow the first byte of a character; `none` where no character starts
-- with it.
abbrev rest_ranges : ℕ → Option (List (ℕ × ℕ))
rest_ranges b =
    let tail : ℕ × ℕ = (0x80, 0xbf) in
    if leb b 0x7f
    then some []
    else if between 0xc2 0xdf b
    then some (tail ∷ [])
    else if b == 0xe0
    then some ((0xa0, 0xbf) ∷ tail ∷ [])
    else if b == 0xed
    then some ((0x80, 0x9f) ∷ tail ∷ [])
    else if between 0xe1 0xef b
    then some (tail ∷ tail ∷ [])
    else if b == 0xf0
    then some ((0x90, 0xbf) ∷ tail ∷ tail ∷ [])
    else if between 0xf1 0xf3 b
    then some (tail ∷ tail ∷ tail ∷ [])
    else if b == 0xf4
    then some ((0x80, 0x8f) ∷ tail ∷ tail ∷ [])
    else none

-- utf8.Valid, where the bytes that are due are in the ranges.
unfoldable valid_after : List (ℕ × ℕ) → List ℕ → Bool
valid_after [] [] = true
valid_after (r ∷ due) [] = false
valid_after (r ∷ due) (b ∷ bs) = between r.0 r.1 b && valid_after due bs
valid_after [] (b ∷ bs) = elim (rest_ranges b) [ none ↦ false | some due ↦ valid_after due bs ]

unfoldable pub valid_utf8 : List ℕ → Bool
unfolding valid_after
valid_utf8 bs = valid_after [] bs

unfoldable pub is_blank : List ℕ → Bool
unfolding trim_space
is_blank s = elim (trim_space s) [ [] ↦ true | b ∷ bs ↦ false ]
