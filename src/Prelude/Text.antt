-- ===== src/Prelude/Text.antt =====
-- What the program uses of Go's strings, strconv and fmt.
use Prim.Native.Nat.{ℕ, zero, suc, ◌+◌, ◌-◌, ◌*◌, ◌/◌, ◌%◌}
use Prim.Native.Char.{Char, code}
use Prim.Native.String.{String, ◌++◌}
use mathlib.Core.Bool.{Bool, ◌&&◌, ◌||◌}
use mathlib.Core.Option.{Option, none, some}
use mathlib.Core.List.{List, [], ◌∷◌}
use open_e2b.Prelude.Tests.{ltb, leb, nat_beq, ◌==◌, string_eq, if◌then◌else◌}

abbrev pub digit : ℕ → String
digit d =
    if nat_beq d 0
    then "0"
    else if nat_beq d 1
    then "1"
    else if nat_beq d 2
    then "2"
    else if nat_beq d 3
    then "3"
    else if nat_beq d 4
    then "4"
    else if nat_beq d 5
    then "5"
    else if nat_beq d 6
    then "6"
    else if nat_beq d 7
    then "7"
    else if nat_beq d 8
    then "8"
    else "9"

-- The digits of a number, with the fuel for one digit each.
unfoldable pub digits : ℕ → ℕ → String
digits zero n = ""
digits (suc f) n =
    let front = digits f (n / 10) in if ltb n 10 then digit n else front ++ digit (n % 10)

-- "%d" of an int32, from its bit pattern.
unfoldable pub show_int32 : ℕ → String
unfolding digits
show_int32 w = if ltb w 2147483648 then digits 10 w else "-" ++ digits 10 (4294967296 - w)

-- "%d" of an int, from its bit pattern.
unfoldable pub show_int : ℕ → String
unfolding digits
show_int w =
    if ltb w 9223372036854775808 then digits 20 w else "-" ++ digits 20 (18446744073709551616 - w)

abbrev spaced : List String → String
spaced [] = ""
spaced (x ∷ xs) = " " ++ x ++ spaced xs

-- "%v" of a []string.
unfoldable pub show_strings : List String → String
show_strings [] = "[]"
show_strings (x ∷ xs) = "[" ++ x ++ spaced xs ++ "]"

abbrev cons_head : Char → List String → List String
cons_head c [] = String.◌∷◌ c String.[] ∷ []
cons_head c (x ∷ xs) = String.◌∷◌ c x ∷ xs

-- strings.Split(s, sep), for a separator of one character.
unfoldable pub split : ℕ → String → List String
split sep String.[] = "" ∷ []
split sep (String.◌∷◌ c s) =
    let rest = split sep s in if nat_beq (code c) sep then "" ∷ rest else cons_head c rest

-- The white space of strings.TrimSpace within ASCII.
abbrev is_space : Char → Bool
is_space c = nat_beq (code c) 32 || leb 9 (code c) && leb (code c) 13

unfoldable pub trim_left : String → String
trim_left String.[] = ""
trim_left (String.◌∷◌ c s) = let rest = trim_left s in if is_space c then rest else String.◌∷◌ c s

unfoldable pub trim_right : String → String
trim_right String.[] = ""
trim_right (String.◌∷◌ c s) =
    let rest = trim_right s in if is_space c && (rest == "") then "" else String.◌∷◌ c rest

abbrev pub trim_space : String → String
trim_space s = trim_right (trim_left s)

-- strconv.Atoi, for a text without a sign: none for an error.
unfoldable pub parse_digits : ℕ → String → Option ℕ
parse_digits n String.[] = some n
parse_digits n (String.◌∷◌ c s) =
    let rest = parse_digits (n * 10 + (code c - 48)) s in
    if leb 48 (code c) && leb (code c) 57 then rest else none
