-- ===== src/Tests/Environments.antt =====
-- A small environment, and what the loaders make of it.
use dauth.Base.{
  ◌≡◌, ◌≢◌, ◌↔◌, inl, inr, refl, String, List, [], ◌∷◌, All, join, pos, ok, err, eq_iff, arith,
  bytes, show, lookup, In, negsuc, second, ◌*◌, parse_signed, parse_digits,
}
use dauth.Env.{
  Environment, getenv, string_or, numbered, list, trim_space, atoi, uint, duration, err_range,
  trim_right, split_commas, on_first, is_comma, keep_trimmed, trim_left, is_space,
}
use dauth.Env.Numbered.{Numbers, numbered_is}
use dauth.Env.Lists.{IsItem, HasNone, list-join}
use dauth.Siwe.Config.{Parsers, Url}
use dauth.Siwe.Config as SiweConfig
use dauth.Siwe.Config.Laws.{IsConfigured, load_iff, settled}
use dauth.Siwe.Config.Laws.Usable.{IsUsable, load-IsUsable}
use dauth.Exchange.Config as ExchangeConfig
use dauth.Exchange.Config.Laws.{IsOrder, Loaded, load-Loaded}
use dauth.Tests.Samples.{eth}

abbrev pub env : Environment
env =
    ("SIWE_ISSUER", "https://example.org/siwe/")
    ∷ ("PUBLIC_BASE_URL", "https://example.org/")
    ∷ ("JWT_AUDIENCE", "app, web,")
    ∷ ("SIWE_ALLOWED_AUDIENCES", "app")
    ∷ ("SIWE_SIGNING_KEY_1", "pem")
    ∷ ("SIWE_SIGNING_KEY_3", "after the gap")
    ∷ ("EXCHANGE_SIGNING_KEY_1", "pem")
    ∷ ("EXCHANGE_ISSUER", "https://example.org/exchange")
    ∷ ("BLOCKCHAIN_NODE_URL", "https://node")
    ∷ ("IDENTITY_URL", "https://identity")
    ∷ ("IPFS_BASE_URL", "https://ipfs")
    ∷ []

-- Every text is an https URL of one host, and every duration a second.
abbrev pub parsers : Parsers
parsers = record {
  parse_url = λ s. ok (record { scheme = "https"; host = "example.org" });
  parse_duration = λ s. ok (pos 1_000_000_000);
}

one_key : numbered env "SIWE_SIGNING_KEY_" ≡ "pem" ∷ []
unfolding numbered getenv lookup show
one_key = refl

numbered_is_example :
    (numbered env "SIWE_SIGNING_KEY_" ≡ "pem" ∷ []) ↔ Numbers env "SIWE_SIGNING_KEY_" 1 ("pem" ∷ [])
numbered_is_example = numbered_is env "SIWE_SIGNING_KEY_" ("pem" ∷ [])

read_list : list " app,, web ," ≡ "app" ∷ "web" ∷ []
unfolding list split_commas on_first is_comma keep_trimmed trim_space trim_left trim_right is_space
read_list = refl

item : (s : String) → s ≢ "" → trim_space s ≡ s → HasNone is_comma s → IsItem s
item s ne t c = record { not_empty = ne; trimmed = t; no_comma = c }

items : All IsItem ("app" ∷ "my web" ∷ [])
unfolding trim_space trim_left trim_right is_space HasNone is_comma
items = (
  item "app" (λ e. ground (arith, eq_iff "app" "")) refl (refl, (refl, (refl, tt))),
  (
    item "my web" (λ e. ground (arith, eq_iff "my web" "")) refl
        (refl, (refl, (refl, (refl, (refl, (refl, tt)))))),
    tt,
  ),
)

list-join_example : list (join "," ("app" ∷ "my web" ∷ [])) ≡ "app" ∷ "my web" ∷ []
list-join_example = list-join ("app" ∷ "my web" ∷ []) items

atoi_runs :
    (atoi "-9223372036854775808" ≡ ok (negsuc 9223372036854775807))
    × (atoi "9223372036854775808" ≡ err err_range)
unfolding atoi bytes parse_signed parse_digits
atoi_runs = (refl, refl)

abbrev pub url : Url
url = record { scheme = "https"; host = "example.org" }

abbrev pub cfg : SiweConfig.Config
cfg = settled env url 137 (pos (5 * 60 * second)) (pos (60 * 60 * second)) (pos (3 * second))

load_iff_example : (SiweConfig.load parsers env ≡ ok cfg) ↔ IsConfigured parsers env cfg
load_iff_example = load_iff parsers env cfg

loads : SiweConfig.load parsers env ≡ ok cfg
unfolding SiweConfig.load SiweConfig.initial getenv lookup list split_commas on_first is_comma
    keep_trimmed trim_space trim_left trim_right is_space SiweConfig.issuer_url
    SiweConfig.public_url SiweConfig.absolute_url SiweConfig.check_database SiweConfig.use_postgres
    numbered show uint duration SiweConfig.trim_slashes string_or
loads = refl

load-IsUsable_example : IsUsable env cfg
load-IsUsable_example = load-IsUsable parsers env cfg loads

-- An order of a map's entries other than that of the list.
abbrev pub swapped : List (String × String) → List (String × String)
swapped [] = []
swapped (d ∷ []) = d ∷ []
swapped (d ∷ e ∷ es) = e ∷ d ∷ es

pub swapped-IsOrder : IsOrder swapped
swapped-IsOrder [] x = (λ m. m, λ m. m)
swapped-IsOrder (d ∷ []) x = (λ m. m, λ m. m)
swapped-IsOrder (d ∷ e ∷ es) x = (swap e d es x, swap d e es x)
  where
    swap :
        (a b : String × String) (l : List (String × String)) (y : String × String)
        → In y (a ∷ b ∷ l)
        → In y (b ∷ a ∷ l)
    swap a b l y (inl h) = inr (inl h)
    swap a b l y (inr (inl h)) = inl h
    swap a b l y (inr (inr h)) = inr (inr h)

load-Loaded_example : Loaded eth env (ExchangeConfig.load eth swapped env)
load-Loaded_example = load-Loaded eth swapped env swapped-IsOrder
