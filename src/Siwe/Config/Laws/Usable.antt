-- ===== src/Siwe/Config/Laws/Usable.antt =====
-- What the loaded settings of the sign-in surface guarantee to the rest of the service.
use dauth.Base.{
  ℕ, ◌≡◌, ◌≢◌, inl, inr, refl, sym, subst, String, List, some, [], Bool-cases, eq_iff, str_eq,
  Duration, All, ok, arith,
}
use dauth.Env.{Environment, getenv, numbered, list}
use dauth.Env.Lists.{
  IsItem, list-IsItem, IsTrimmed, list-IsTrimmed, last, EndsWithout, trim_right-EndsWithout,
}
use dauth.Siwe.Config.{is_slash, Url, Parsers, Config, initial, trim_slashes, load}
use dauth.Siwe.Config.Laws.{settled, load-IsConfigured}

-- What List reads from a value.
pub record ItemsOf (v : String) (xs : List String) : Type 0 where
  pub read : xs ≡ list v
  pub items : All IsItem xs
  pub trimmed : All IsTrimmed xs

-- What the rest of the service relies on: the last character of the issuer and of the base of the URLs
-- is no slash, there is a domain, an audience and a key, and the audiences, the allowed ones included,
-- are what List reads from their variables, each not empty, without a comma and with no space at its
-- ends.
pub record IsUsable (env : Environment) (s : Config) : Type 0 where
  pub issuer : last s.issuer ≢ some "/"
  pub public_base_url : last s.public_base_url ≢ some "/"
  pub domain : s.domain ≢ ""
  pub audience : s.audience ≢ []
  pub audiences : ItemsOf (getenv env "JWT_AUDIENCE") s.audience
  pub allowed : ItemsOf (getenv env "SIWE_ALLOWED_AUDIENCES") s.allowed_audiences
  pub keys : s.signing_keys ≢ []

trim_slashes-last : (s : String) → last (trim_slashes s) ≢ some "/"
unfolding trim_slashes is_slash EndsWithout
trim_slashes-last s h =
    let ends = trim_right-EndsWithout is_slash s in let slash = rw (EndsWithout, h) at ends in cc

list-ItemsOf : (v : String) → ItemsOf v (list v)
list-ItemsOf v = record { read = refl; items = list-IsItem v; trimmed = list-IsTrimmed v }

settled-IsUsable :
    (env : Environment) (u : Url) (n : ℕ) (d1 d2 d3 : Duration)
    → u.host ≢ ""
    → (initial env).audience ≢ []
    → numbered env "SIWE_SIGNING_KEY_" ≢ []
    → IsUsable env (settled env u n d1 d2 d3)
unfolding initial
settled-IsUsable env u n d1 d2 d3 host audience keys = record {
  issuer = trim_slashes-last (getenv env "SIWE_ISSUER");
  public_base_url = trim_slashes-last (getenv env "PUBLIC_BASE_URL");
  domain = elim (Bool-cases (str_eq (getenv env "SIWE_DOMAIN") "")) [
    | inl e ↦ rw e host
    | inr e ↦ rw e (λ empty. ground (arith, (eq_iff (getenv env "SIWE_DOMAIN") "").1 empty))
  ];
  audience = audience;
  audiences = list-ItemsOf (getenv env "JWT_AUDIENCE");
  allowed = list-ItemsOf (getenv env "SIWE_ALLOWED_AUDIENCES");
  keys = keys;
}

pub load-IsUsable :
    (parsers : Parsers) (env : Environment) (s : Config) → load parsers env ≡ ok s → IsUsable env s
load-IsUsable parsers env s h =
    let c = load-IsConfigured parsers env s h in
    subst (IsUsable env) (sym c.is) (
      settled-IsUsable env c.public_url s.chain_id s.challenge_ttl s.token_ttl s.rpc_timeout
        c.public.host c.audience c.keys)
