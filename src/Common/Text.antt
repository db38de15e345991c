-- ===== src/Common/Text.antt =====
-- What the code asks of Python's texts: joining, splitting at a character, and the decimal digits of
-- a number.
use Prim.Native.Char.{Char, code}
use Prim.Native.Nat.{ℕ, zero, suc, ◌/◌, ◌%◌}
use Prim.Native.String.{String, [], ◌∷◌, ◌++◌}
use mathlib.Core.List.{List}
use mini_alpha.Common.Tests.{◌==◌, if◌then◌else◌, nat_eq, ltb}

-- `"".join(parts)`
abbrev pub join : List String → String
join List.[] = ""
join (List.◌∷◌ s parts) = s ++ join parts

digit : ℕ → String
digit n =
    if n == 0
    then "0"
    else if n == 1
    then "1"
    else if n == 2
    then "2"
    else if n == 3
    then "3"
    else if n == 4
    then "4"
    else if n == 5
    then "5"
    else if n == 6
    then "6"
    else if n == 7
    then "7"
    else if n == 8
    then "8"
    else "9"

digits : ℕ → ℕ → String
digits zero n = ""
digits (suc fuel) n =
    let higher = digits fuel (n / 10) in if ltb n 10 then digit n else higher ++ digit (n % 10)

-- `str(n)`: a number has fewer digits than `n + 1` counts.
unfoldable pub decimal : ℕ → String
unfolding digits digit
decimal n = digits (suc n) n

abbrev in_front : Char → List String → List String
in_front c List.[] = List.◌∷◌ (c ∷ []) List.[]
in_front c (List.◌∷◌ part parts) = List.◌∷◌ (c ∷ part) parts

-- `text.split(separator)`, the separator by its code point
unfoldable pub split : ℕ → String → List String
split separator [] = List.◌∷◌ "" List.[]
split separator (c ∷ text) =
    let rest = split separator text in
    if code c == separator then List.◌∷◌ "" rest else in_front c rest
