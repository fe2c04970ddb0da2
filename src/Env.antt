-- ===== src/Env.antt =====
-- internal/envx/envx.go: the readers of the environment, with what they use of os, strconv and
-- strings. time.ParseDuration is a parameter.
pub mod Lists
pub mod Numbered
use Prim.Native.Char.{Char, code}
use Prim.Native.String
use dauth.Base.{
  ℕ, zero, suc, ◌^◌, String, List, [], ◌∷◌, none, some, Bool, true, false, ltb, leb, ◌&&◌, ◌||◌,
  ◌==◌, if◌then◌else◌, length, bytes, str_eq, lookup, show, ◌⧺◌, parse_signed, parse_digits, ℤ, pos,
  negsuc, Duration, Error, sentinel, wrap, Result, ok, err, map_err,
}

-- The environment of the process, its first entries first.
abbrev pub Environment : Type 0
Environment = List (String × String)

-- os.Getenv
unfoldable pub getenv : Environment → String → String
getenv env key = elim (lookup key env) [ none ↦ "" | some v ↦ v ]

-- String
unfoldable pub string_or : Environment → String → String → String
string_or env key default = let v = getenv env key in if str_eq v "" then default else v

-- The errors of strconv.
unfoldable pub err_syntax : Error
err_syntax = sentinel "invalid syntax"

unfoldable pub err_range : Error
err_range = sentinel "value out of range"

-- The int64 of a sign and a magnitude.
in_range : Bool → ℕ → Result ℤ
in_range false n = if ltb n (2 ^ 63) then ok (pos n) else err err_range
in_range true zero = ok (pos 0)
in_range true (suc n) = if ltb n (2 ^ 63) then ok (negsuc n) else err err_range

-- strconv.Atoi
unfoldable pub atoi : String → Result ℤ
unfolding in_range
atoi s = elim (parse_signed (bytes s)) [ none ↦ err err_syntax | some (sign, n) ↦ in_range sign n ]

-- strconv.ParseUint(s, 10, 64)
unfoldable pub parse_uint : String → Result ℕ
parse_uint s = elim (parse_digits (bytes s)) [
  | none ↦ err err_syntax
  | some n ↦ if ltb n (2 ^ 64) then ok n else err err_range
]

-- The shape that Int, Uint and Duration share: the default where the value is empty, and an error
-- that names the key where it is malformed.
abbrev pub parsed : {A : Type 0} → (String → Result A) → Environment → String → A → Result A
parsed parse env key default =
    let v = getenv env key in
    if str_eq v "" then ok default else map_err (wrap ("parsing " ⧺ key)) (parse v)

-- Int
unfoldable pub int : Environment → String → ℤ → Result ℤ
int env key default = parsed atoi env key default

-- Uint
unfoldable pub uint : Environment → String → ℕ → Result ℕ
uint env key default = parsed parse_uint env key default

-- Duration, over time.ParseDuration.
unfoldable pub duration :
    (String → Result Duration) → Environment → String → Duration → Result Duration
duration parse_duration env key default = parsed parse_duration env key default

-- The loop of Numbered, from the number i on.
unfoldable pub numbered_from : ℕ → ℕ → Environment → String → List String
numbered_from zero i env prefix = []
numbered_from (suc fuel) i env prefix =
    let v = getenv env (prefix ⧺ show i) in
    let rest = numbered_from fuel (suc i) env prefix in if str_eq v "" then [] else v ∷ rest

-- Numbered: each round but the last finds an entry of its own, so it makes no more rounds than the
-- environment has entries, and one.
unfoldable pub numbered : Environment → String → List String
unfolding numbered_from
numbered env prefix = numbered_from (suc (length env)) 1 env prefix

-- unicode.IsSpace
unfoldable pub is_space : Char → Bool
is_space c =
    let n = code c in
    leb 9 n && leb n 13
    || n == 32
    || n == 0x85
    || n == 0xa0
    || n == 0x1680
    || leb 0x2000 n && leb n 0x200a
    || n == 0x2028
    || n == 0x2029
    || n == 0x202f
    || n == 0x205f
    || n == 0x3000

unfoldable pub is_comma : Char → Bool
is_comma c = code c == b','

-- A character set before the first text of a list that is not empty.
unfoldable pub on_first : Char → List String → List String
on_first c [] = []
on_first c (s ∷ ss) = String.◌∷◌ c s ∷ ss

-- strings.Split(s, ",")
unfoldable pub split_commas : String → List String
unfolding on_first is_comma
split_commas String.[] = "" ∷ []
split_commas (String.◌∷◌ c s) =
    let rest = split_commas s in if is_comma c then "" ∷ rest else on_first c rest

-- strings.TrimLeftFunc and strings.TrimRightFunc
unfoldable pub trim_left : (Char → Bool) → String → String
trim_left p String.[] = ""
trim_left p (String.◌∷◌ c s) = let rest = trim_left p s in if p c then rest else String.◌∷◌ c s

unfoldable pub trim_right : (Char → Bool) → String → String
trim_right p String.[] = ""
trim_right p (String.◌∷◌ c s) =
    let rest = trim_right p s in if p c && str_eq rest "" then "" else String.◌∷◌ c rest

-- strings.TrimSpace
unfoldable pub trim_space : String → String
unfolding trim_left trim_right is_space
trim_space s = trim_right is_space (trim_left is_space s)

-- The loop of List: the pieces, trimmed, that are not empty.
unfoldable pub keep_trimmed : List String → List String
unfolding trim_space
keep_trimmed [] = []
keep_trimmed (p ∷ ps) =
    let rest = keep_trimmed ps in let q = trim_space p in if str_eq q "" then rest else q ∷ rest

-- List
unfoldable pub list : String → List String
unfolding split_commas keep_trimmed
list v = if str_eq v "" then [] else keep_trimmed (split_commas v)
