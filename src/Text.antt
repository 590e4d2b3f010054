-- ===== src/Text.antt =====
-- JavaScript strings. A string is a native text; `length` and `slice` count UTF-16 code units as
-- the language does, so a character outside the basic plane counts twice. Where a slice ends in
-- the middle of such a character, the half that is left shows as U+FFFD.
pub mod Decimal
use Prim.Native.Char.{Char, code}
use Prim.Native.String
use Prim.Native.String.{String}
use Prim.Native.Nat.{◌/◌, ◌%◌}
use doppelganger_web.Prelude.{
  zero, suc, ℕ, ◌+◌, ◌-◌, Bool, ◌&&◌, ◌||◌, List, [], ◌∷◌, ltb, leb, ◌==◌, if◌then◌else◌, str_eq,
}

-- The pieces of a template literal, put together.
abbrev pub concat : List String → String
concat [] = ""
concat (s ∷ []) = s
concat (s ∷ rest) = String.◌++◌ s (concat rest)

-- Array.prototype.join, on texts.
unfoldable pub join : String → List String → String
join sep [] = ""
join sep (s ∷ []) = s
join sep (s ∷ rest) = concat (s ∷ sep ∷ join sep rest ∷ [])

-- The number of code units of a character.
abbrev pub units : Char → ℕ
units c = if ltb (code c) 0x10000 then 1 else 2

unfoldable pub length : String → ℕ
length String.[] = 0
length (String.◌∷◌ c s) = units c + length s

-- s.slice(0, n)
unfoldable pub slice_to : ℕ → String → String
slice_to n String.[] = ""
slice_to n (String.◌∷◌ c s) =
    let rest = slice_to (n - units c) s in
    if leb (units c) n then String.◌∷◌ c rest else if n == 0 then "" else "�"

-- The white space and line ends that `trim` removes.
unfoldable pub is_space : Char → Bool
is_space c =
    let n = code c in
    leb 9 n && leb n 13
    || (n == 32
        || (n == 0xA0
            || (n == 0x1680
                || (leb 0x2000 n && leb n 0x200A
                    || (n == 0x2028
                        || (n == 0x2029
                            || (n == 0x202F || (n == 0x205F || (n == 0x3000 || n == 0xFEFF)))))))))

unfoldable pub trim_start : String → String
unfolding is_space
trim_start String.[] = ""
trim_start (String.◌∷◌ c s) = let rest = trim_start s in if is_space c then rest else String.◌∷◌ c s

unfoldable pub trim_end : String → String
unfolding is_space
trim_end String.[] = ""
trim_end (String.◌∷◌ c s) =
    let rest = trim_end s in if is_space c && str_eq rest "" then "" else String.◌∷◌ c rest

unfoldable pub trim : String → String
unfolding trim_start trim_end
trim s = trim_end (trim_start s)

digit : ℕ → String
digit n =
    if n == 0
    then "0"
    else if n == 1
    then "1"
    else if n == 2
    then "2"
    else if n == 3
    then "3"
    else if n == 4
    then "4"
    else if n == 5
    then "5"
    else if n == 6
    then "6"
    else if n == 7
    then "7"
    else if n == 8
    then "8"
    else "9"

-- `rest` is what has been written so far; the fuel bounds the number of digits.
decimal_from : ℕ → ℕ → String → String
unfolding digit
decimal_from zero n rest = rest
decimal_from (suc fuel) n rest =
    let more = decimal_from fuel (n / 10) (String.◌++◌ (digit (n % 10)) rest) in
    if ltb n 10 then String.◌++◌ (digit n) rest else more

-- `String(n)` for a whole number; the fuel `suc n` is more than its digits.
unfoldable pub decimal : ℕ → String
unfolding decimal_from
decimal n = decimal_from (suc n) n ""
