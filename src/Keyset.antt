-- ===== src/Keyset.antt =====
-- internal/keyset: the RSA signing keys (keyset.go) and their publication as a JWKS (jwks.go).
-- PEM, the x509 parsers, SHA-256, base64 and the JSON and JWT encoders are parameters; a key is its
-- modulus, its public exponent and its private exponent.
pub mod Laws
use dauth.Base.{
  ℕ, zero, suc, ◌/◌, ◌%◌, String, List, [], ◌∷◌, ◌++◌, map, Option, none, some, ltb, if◌then◌else◌,
  bytes, contains, show, ◌⧺◌, plain, wrap, Result, ok, err,
}

pub record RsaKey : Type 0 where
  pub n : ℕ
  pub e : ℕ
  pub d : ℕ

-- What ParsePKCS8PrivateKey returns: an RSA key, or a key of another type, which is named.
pub data AnyKey : Type 0 where
  rsa : RsaKey → AnyKey
  other : String → AnyKey

pub record Crypto : Type 0 where
  -- pem.Decode, `none` for no block, and the bytes of the block
  pub decode_pem : String → Option (List ℕ)
  pub parse_pkcs1 : List ℕ → Result RsaKey
  pub parse_pkcs8 : List ℕ → Result AnyKey
  pub sha256 : List ℕ → List ℕ
  pub base64_url : List ℕ → String

abbrev pub min_rsa_bits : ℕ
min_rsa_bits = 2048

pub record SigningKey : Type 0 where
  pub kid : String
  pub priv : RsaKey

-- `all`: the first key signs.
pub record KeySet : Type 0 where
  pub keys : List SigningKey

bit_len_from : ℕ → ℕ → ℕ
bit_len_from zero n = 0
bit_len_from (suc f) n = let rest = bit_len_from f (n / 2) in elim n [ zero ↦ 0 | suc k ↦ suc rest ]

-- big.Int.BitLen; the bits are no more than the number.
unfoldable pub bit_len : ℕ → ℕ
unfolding bit_len_from
bit_len n = bit_len_from n n

be_bytes_from : ℕ → ℕ → List ℕ → List ℕ
be_bytes_from zero n acc = acc
be_bytes_from (suc f) n acc =
    let rest = be_bytes_from f (n / 256) (n % 256 ∷ acc) in elim n [ zero ↦ acc | suc k ↦ rest ]

-- big.Int.Bytes: big-endian, with no leading zero.
be_bytes : ℕ → List ℕ
unfolding be_bytes_from
be_bytes n = be_bytes_from n n []

pub record Jwk : Type 0 where
  pub kty : String
  pub key_use : String
  pub alg : String
  pub kid : String
  pub n : String
  pub e : String

module _ (c : Crypto) where
  pub parse_rsa_private_key : String → Result RsaKey
  parse_rsa_private_key p = elim (c.decode_pem p) [
    | none ↦ err (plain "no PEM block found")
    | some block ↦ elim (c.parse_pkcs1 block) [
      | ok key ↦ ok key
      | err _ ↦ elim (c.parse_pkcs8 block) [
        | err e ↦ err (wrap "not a valid PKCS#1 or PKCS#8 RSA key" e)
        | ok (rsa key) ↦ ok key
        | ok (other t) ↦ err (plain ("key is " ⧺ t ⧺ ", not RSA"))
      ]
    ]
  ]

  b64 : List ℕ → String
  b64 b = c.base64_url b

  -- The RFC 7638 thumbprint of the public half.
  unfoldable pub thumbprint : RsaKey → String
  unfolding b64 be_bytes
  thumbprint k = b64 (
      c.sha256 (
        bytes (
          "{\"e\":\""
          ⧺ b64 (be_bytes k.e)
          ⧺ "\",\"kty\":\"RSA\",\"n\":\""
          ⧺ b64 (be_bytes k.n)
          ⧺ "\"}")))

  -- The checks of one round of Load, for the key number i + 1.
  load_key : ℕ → List String → String → Result SigningKey
  unfolding parse_rsa_private_key
  load_key i seen p = elim (parse_rsa_private_key p) [
    | err e ↦ err (wrap ("signing key " ⧺ show (suc i)) e)
    | ok priv ↦
        let kid = thumbprint priv in
        if ltb (bit_len priv.n) min_rsa_bits
        then err (
            plain (
              "signing key "
              ⧺ show (suc i)
              ⧺ ": RSA modulus "
              ⧺ show (bit_len priv.n)
              ⧺ " bits is below the 2048-bit minimum"))
        else if contains seen kid
        then err (
            plain ("signing key " ⧺ show (suc i) ⧺ ": duplicate key (same thumbprint " ⧺ kid ⧺ ")"))
        else ok (record { kid = kid; priv = priv })
  ]

  -- The loop of Load, over the keys loaded so far, in order.
  load_from : ℕ → List String → List SigningKey → List String → Result KeySet
  unfolding load_key
  load_from i seen loaded [] = ok (record { keys = loaded })
  load_from i seen loaded (p ∷ pems) = elim (load_key i seen p) [
    | err e ↦ err e
    | ok k ↦ load_from (suc i) (k.kid ∷ seen) (loaded ++ k ∷ []) pems
  ]

  unfoldable pub load : List String → Result KeySet
  unfolding load_from
  load [] = err (plain "no signing keys provided")
  load (p ∷ pems) = load_from 0 [] [] (p ∷ pems)

  pub public_jwk : SigningKey → Jwk
  unfolding b64 be_bytes
  public_jwk k = record {
    kty = "RSA";
    key_use = "sig";
    alg = "RS256";
    kid = k.kid;
    n = b64 (be_bytes k.priv.n);
    e = b64 (be_bytes k.priv.e);
  }

  -- The keys of the set that JWKS marshals.
  pub jwks : KeySet → List Jwk
  unfolding public_jwk
  jwks ks = map public_jwk ks.keys

-- The key that signs; `none` is the panic of an index out of range on an empty set.
pub active : List SigningKey → Option SigningKey
active [] = none
active (k ∷ ks) = some k

-- Sign, over the JWT encoder `signed_string` of the claims with a header `kid` and a key.
unfoldable pub sign {ℓ} :
    {C : Type ℓ} → (String → C → RsaKey → Result String) → KeySet → C → Option (Result String)
unfolding active
sign signed_string ks claims = elim (active ks.keys) [
  | none ↦ none
  | some k ↦ some (signed_string k.kid claims k.priv)
]

pub active_kid : KeySet → Option String
unfolding active
active_kid ks = elim (active ks.keys) [ none ↦ none | some k ↦ some k.kid ]
