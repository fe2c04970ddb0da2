-- ===== src/Tests/Keys.antt =====
-- A key set of one 2048-bit key.
use dauth.Base.{
  contains, ◌+◌, ◌^◌, ◌≡◌, refl, List, [], ◌∷◌, none, some, map, ◌⧺◌, ok, err, str_eq,
  if◌then◌else◌, plain,
}
use dauth.Keyset.{
  RsaKey, Crypto, SigningKey, KeySet, load, jwks, public_jwk, sign, active_kid, thumbprint, bit_len,
}
use dauth.Keyset.Laws.{IsLoaded, load-IsLoaded, load-sign}

abbrev pub key : RsaKey
key = record { n = 2 ^ 2047 + 1; e = 65537; d = 3 }

abbrev pub crypto : Crypto
crypto = record {
  decode_pem = λ s. if str_eq s "pem" then some (1 ∷ []) else none;
  parse_pkcs1 = λ b. ok key;
  parse_pkcs8 = λ b. err (plain "no PKCS#8 key");
  sha256 = λ b. b;
  base64_url = λ b. "b64";
}

abbrev pub keys : KeySet
keys = record { keys = record { kid = "b64"; priv = key } ∷ [] }

load_keys : load crypto ("pem" ∷ []) ≡ ok keys
unfolding load bit_len thumbprint contains
load_keys = refl

load-IsLoaded_example : IsLoaded crypto ("pem" ∷ []) keys
load-IsLoaded_example = load-IsLoaded crypto ("pem" ∷ []) keys load_keys

-- The claims are a text, and a token is the header's identifier before it.
load-sign_example :
    (k : SigningKey) × (rest : List SigningKey) × (keys.keys ≡ k ∷ rest)
    × (sign (λ kid claims priv. ok (kid ⧺ "." ⧺ claims)) keys "claims"
        ≡ some (ok (k.kid ⧺ "." ⧺ "claims")))
    × (active_kid keys ≡ some k.kid)
    × (jwks crypto keys ≡ public_jwk crypto k ∷ map (public_jwk crypto) rest)
    × (k.kid ≡ thumbprint crypto k.priv)
load-sign_example =
    load-sign crypto (λ kid claims priv. ok (kid ⧺ "." ⧺ claims)) ("pem" ∷ []) keys "claims"
      load_keys
