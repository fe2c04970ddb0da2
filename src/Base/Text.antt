-- ===== src/Base/Text.antt =====
-- Texts: decimal numbers, the printing of slices, membership tests, and the bytes of UTF-8.
pub mod Decimal
use Prim.Native.Nat.{ℕ, zero, suc, ◌+◌, ◌-◌, ◌*◌, ◌/◌, ◌%◌}
use Prim.Native.Char.{code}
use Prim.Native.String
use Prim.Native.String.{String}
use mathlib.Core.Path.{◌≡◌, refl, sym, subst}
use mathlib.Core.Bool.{Bool, true, false, ◌&&◌, ◌||◌}
use mathlib.Core.Option.{Option, none, some}
use mathlib.Core.Logic.{inl, inr, ◌↔◌}
use mathlib.Core.List.{List, [], ◌∷◌, ◌++◌}
use native.Mathlib.Omega.{arith}
use text.Mathlib.Text.{◌==◌ as str_eq}
use text.Mathlib.TextEquality.{eq_iff}
use package.dauth.Base.Tests.{ltb, leb, Bool-cases, if◌then◌else◌, ◌==◌}
use package.dauth.Base.Lists.{In}

infixr 65 ◌⧺◌
-- The concatenation of texts.
abbrev pub ◌⧺◌ : String → String → String
s ⧺ t = String.◌++◌ s t

digit : ℕ → String
digit n =
    if n == 0
    then "0"
    else if n == 1
    then "1"
    else if n == 2
    then "2"
    else if n == 3
    then "3"
    else if n == 4
    then "4"
    else if n == 5
    then "5"
    else if n == 6
    then "6"
    else if n == 7
    then "7"
    else if n == 8
    then "8"
    else "9"

show_from : ℕ → ℕ → String
show_from zero n = ""
show_from (suc f) n =
    let rest = show_from f (n / 10) in if ltb n 10 then digit n else rest ⧺ digit (n % 10)

-- `%d` of a number that is not negative; the number bounds its digits.
unfoldable pub show : ℕ → String
unfolding show_from digit
show n = show_from (suc n) n

-- Texts joined by a separator: `strings.Join`.
unfoldable pub join : String → List String → String
join sep [] = ""
join sep (s ∷ []) = s
join sep (s ∷ t ∷ ts) = s ⧺ sep ⧺ join sep (t ∷ ts)

-- `%v` of a slice whose entries print as the given texts.
unfoldable pub show_slice : List String → String
unfolding join
show_slice xs = "[" ⧺ join " " xs ⧺ "]"

-- `slices.Contains`
unfoldable pub contains : List String → String → Bool
contains [] a = false
contains (x ∷ xs) a = str_eq x a || contains xs a

pub contains_iff : (xs : List String) (a : String) → (contains xs a ≡ true) ↔ In a xs
unfolding contains
contains_iff [] a = ground arith
contains_iff (x ∷ xs) a =
    let (to, from) = contains_iff xs a in
    let (eq, back) = eq_iff x a in
    elim (Bool-cases (str_eq x a)) [
      | inl e ↦ (λ _. inl (eq e), λ _. subst (λ b. (b || contains xs a) ≡ true) (sym e) refl)
      | inr e ↦ (
        λ h. inr (to (ground arith)),
        elim [ inl p ↦ ground (arith, back p) | inr m ↦ ground (arith, from m) ],
      )
    ]

-- The bytes of a code point, as Go ranges over the bytes of a string.
utf8 : ℕ → List ℕ
utf8 c =
    if ltb c 0x80
    then c ∷ []
    else if ltb c 0x800
    then (0xC0 + c / 64) ∷ (0x80 + c % 64) ∷ []
    else if ltb c 0x10000
    then (0xE0 + c / 4096) ∷ (0x80 + c / 64 % 64) ∷ (0x80 + c % 64) ∷ []
    else (0xF0 + c / 262144) ∷ (0x80 + c / 4096 % 64) ∷ (0x80 + c / 64 % 64) ∷ (0x80 + c % 64) ∷ []

unfoldable pub bytes : String → List ℕ
unfolding utf8
bytes String.[] = []
bytes (String.◌∷◌ c s) = utf8 (code c) ++ bytes s

hex_digit : ℕ → String
unfolding digit
hex_digit n =
    if ltb n 10
    then digit n
    else if n == 10
    then "a"
    else if n == 11
    then "b"
    else if n == 12
    then "c"
    else if n == 13
    then "d"
    else if n == 14
    then "e"
    else "f"

-- `hex.EncodeToString`
unfoldable pub encode_hex : List ℕ → String
unfolding hex_digit
encode_hex [] = ""
encode_hex (b ∷ bs) = hex_digit (b / 16) ⧺ hex_digit (b % 16) ⧺ encode_hex bs

-- A number in at least two, or at least four digits: `%02d` and `%04d`.
unfoldable pub show_two : ℕ → String
unfolding show
show_two n = if ltb n 10 then "0" ⧺ show n else show n

unfoldable pub show_four : ℕ → String
unfolding show_two
show_four n =
    if ltb n 10
    then "000" ⧺ show n
    else if ltb n 100
    then "00" ⧺ show n
    else if ltb n 1000
    then "0" ⧺ show n
    else show n

-- The number that decimal digits write, after those read so far.
parse_from : ℕ → List ℕ → Option ℕ
parse_from n [] = some n
parse_from n (c ∷ cs) =
    let rest = parse_from (n * 10 + (c - b'0')) cs in
    if leb b'0' c && leb c b'9' then rest else none

unfoldable pub parse_digits : List ℕ → Option ℕ
unfolding parse_from
parse_digits [] = none
parse_digits (c ∷ cs) = parse_from 0 (c ∷ cs)

with_sign : Bool → Option ℕ → Option (Bool × ℕ)
with_sign negative none = none
with_sign negative (some n) = some (negative, n)

-- The sign and the magnitude that big.Int.SetString reads in base 10.
unfoldable pub parse_signed : List ℕ → Option (Bool × ℕ)
unfolding parse_digits with_sign
parse_signed [] = none
parse_signed (c ∷ cs) =
    if c == b'-'
    then with_sign true (parse_digits cs)
    else if c == b'+'
    then with_sign false (parse_digits cs)
    else with_sign false (parse_digits (c ∷ cs))
