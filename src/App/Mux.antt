-- ===== src/App/Mux.antt =====
-- What cmd/dauth, internal/siwe/server and internal/exchange/app use of net/http: http.ServeMux and
-- http.StripPrefix, parameters with their documented behaviour on the patterns of these files.
use Prim.Native.Char.{code}
use dauth.Base.{
  ℕ, suc, ◌≡◌, String, List, [], ◌∷◌, Option, none, some, Bool, true, false, ◌&&◌, ◌||◌, ◌==◌, not,
  if◌then◌else◌, str_eq, ◌⧺◌,
}
use text.Mathlib.Text.{starts_with}

-- "GET /keys", "GET /{$}", and "GET /swagger/" or "/siwe/".
pub data Pattern : Type 0 where
  exact : String → String → Pattern
  root : String → Pattern
  under : Option String → String → Pattern

-- The choice of a mux among its patterns, by the position of the pattern; none where the mux answers
-- by itself. The path that StripPrefix hands on; none where it answers not found.
pub record Mux : Type 0 where
  pub choose : List Pattern → String → String → Option ℕ
  pub strip_prefix : String → String → Option String

-- A pattern without a method matches every method, and GET matches HEAD too.
unfoldable pub method_matches : Option String → String → Bool
method_matches none m = true
method_matches (some g) m = str_eq g m || (str_eq g "GET" && str_eq m "HEAD")

unfoldable pub matches : Pattern → String → String → Bool
unfolding method_matches
matches (exact g p) m path = method_matches (some g) m && str_eq p path
matches (root g) m path = method_matches (some g) m && str_eq "/" path
matches (under g p) m path = method_matches g m && starts_with path p

-- The positions of the patterns that match.
unfoldable pub matching : ℕ → List Pattern → String → String → List ℕ
unfolding matches
matching i [] m path = []
matching i (p ∷ ps) m path =
    let rest = matching (suc i) ps m path in if matches p m path then i ∷ rest else rest

-- A path without escapes whose segments are neither empty, but the last, nor made of dots, which the
-- mux does not clean. The number counts what the segment has so far: 0 nothing, 1 dots, 2 more.
unfoldable pub plain_from : ℕ → String → Bool
plain_from seen String.[] = not (seen == 1)
plain_from seen (String.◌∷◌ c s) =
    if code c == code "/"
    then seen == 2 && plain_from 0 s
    else if code c == code "%"
    then false
    else if code c == code "."
    then plain_from (if seen == 2 then 2 else 1) s
    else plain_from 2 s

unfoldable pub plain_path : String → Bool
unfolding plain_from
plain_path path = plain_from 2 path

-- On a path that needs no cleaning, the pattern is chosen that alone matches, and none if none does;
-- and StripPrefix removes its prefix.
pub record MuxLaws (mux : Mux) : Type 0 where
  pub only :
      (ps : List Pattern) (m path : String) (i : ℕ)
      → plain_path path ≡ true
      → matching 0 ps m path ≡ i ∷ []
      → mux.choose ps m path ≡ some i
  pub nothing :
      (ps : List Pattern) (m path : String)
      → matching 0 ps m path ≡ []
      → mux.choose ps m path ≡ none
  pub strip : (prefix rest : String) → mux.strip_prefix prefix (prefix ⧺ rest) ≡ some rest
