-- ===== src/Keyset/Laws.antt =====
-- What a loaded key set is: never empty, no weak key, no key twice, in the order of the input.
use dauth.Base.{
  ℕ, suc, ◌≤◌, ◌≡◌, ◌≢◌, inl, inr, refl, sym, subst, ◌∙◌, String, List, [], ◌∷◌, ◌++◌, map, some,
  true, false, Result-cases, List-cases, contains, contains_iff, In, arith, Result, ok,
}
use mathlib.Core.List.{append_assoc, append-nil}
use dauth.Keyset.{
  RsaKey, Crypto, min_rsa_bits, SigningKey, KeySet, bit_len, parse_rsa_private_key, thumbprint,
  load_key, load_from, load, public_jwk, jwks, active, sign, active_kid,
}

abbrev pub kids : List SigningKey → List String
kids = map (λ k. k.kid)

-- No text stands twice.
abbrev pub AllDistinct : List String → Type 0
AllDistinct [] = Unit
AllDistinct (x ∷ xs) = ¬ In x xs × AllDistinct xs

-- Each key's identifier is new to those before it.
abbrev Fresh : List String → List SigningKey → Type 0
Fresh seen [] = Unit
Fresh seen (k ∷ ks) = (contains seen k.kid ≡ false) × Fresh (k.kid ∷ seen) ks

Fresh-In :
    (seen : List String) (ks : List SigningKey) (x : String)
    → Fresh seen ks
    → In x seen
    → ¬ In x (kids ks)
Fresh-In seen (k ∷ ks) x (new, f) old (inl same) =
    let found = (contains_iff seen x).1 old in
    let e : contains seen k.kid ≡ true = subst (λ y. contains seen y ≡ true) (sym same) found in cc
Fresh-In seen (k ∷ ks) x (new, f) old (inr later) = Fresh-In (k.kid ∷ seen) ks x f (inr old) later
Fresh-In seen [] x f old h = h

Fresh-AllDistinct :
    (seen : List String) (ks : List SigningKey) → Fresh seen ks → AllDistinct (kids ks)
Fresh-AllDistinct seen [] f = tt
Fresh-AllDistinct seen (k ∷ ks) (new, f) =
    (Fresh-In (k.kid ∷ seen) ks k.kid f (inl refl), Fresh-AllDistinct (k.kid ∷ seen) ks f)

module _ (c : Crypto) where
  -- The key that a text stands for, its identifier and its strength.
  pub record LoadedFrom (p : String) (k : SigningKey) : Type 0 where
    pub parsed : parse_rsa_private_key c p ≡ ok k.priv
    pub kid : k.kid ≡ thumbprint c k.priv
    pub strong : min_rsa_bits ≤ bit_len k.priv.n

  abbrev pub LoadedAll : List String → List SigningKey → Type 0
  LoadedAll [] [] = Unit
  LoadedAll (p ∷ ps) (k ∷ ks) = LoadedFrom p k × LoadedAll ps ks
  LoadedAll _ _ = ⊥

  LoadedAll-ne :
      (pems : List String) (ks : List SigningKey) → LoadedAll pems ks → ks ≡ [] → pems ≡ []
  LoadedAll-ne [] ks a e = refl
  LoadedAll-ne (p ∷ ps) [] a e = absurd a
  LoadedAll-ne (p ∷ ps) (k ∷ ks) a e = cc

  load_key-LoadedFrom :
      (i : ℕ) (seen : List String) (p : String) (k : SigningKey)
      → load_key c i seen p ≡ ok k
      → LoadedFrom p k × (contains seen k.kid ≡ false)
  unfolding load_key
  load_key-LoadedFrom i seen p k h = elim (Result-cases (parse_rsa_private_key c p)) [
    | inr (e, q) ↦ ground arith
    | inl (priv, q) ↦
        (record { parsed = ground arith; kid = ground arith; strong = ground arith }, ground arith)
  ]

  abbrev LoadsMore : List String → List SigningKey → List String → KeySet → Type 0
  LoadsMore seen loaded pems ks =
      (new : List SigningKey) × (ks.keys ≡ loaded ++ new) × LoadedAll pems new × Fresh seen new

  load_from-LoadsMore :
      (i : ℕ) (seen : List String) (loaded : List SigningKey) (pems : List String) (ks : KeySet)
      → load_from c i seen loaded pems ≡ ok ks
      → LoadsMore seen loaded pems ks
  unfolding load_from
  load_from-LoadsMore i seen loaded [] ks h = ([], ground (arith, append-nil loaded), tt, tt)
  load_from-LoadsMore i seen loaded (p ∷ pems) ks h = elim (Result-cases (load_key c i seen p)) [
    | inr (e, q) ↦ absurd (ground arith)
    | inl (k, q) ↦
        let (from, fresh) = load_key-LoadedFrom i seen p k q in
        let (new, same, all, f) =
          load_from-LoadsMore (suc i) (k.kid ∷ seen) (loaded ++ k ∷ []) pems ks (ground arith) in
        (k ∷ new, same ∙ append_assoc loaded (k ∷ []) new, (from, all), (fresh, f))
  ]

  -- A loaded key set: there is a key, the keys are those of the texts, in their order, each of at
  -- least 2048 bits with its own thumbprint for identifier, and no identifier stands twice.
  pub record IsLoaded (pems : List String) (ks : KeySet) : Type 0 where
    pub some_key : ks.keys ≢ []
    pub in_order : LoadedAll pems ks.keys
    pub distinct : AllDistinct (kids ks.keys)

  -- Whatever Load accepts is such a key set, for every list of texts.
  pub load-IsLoaded : (pems : List String) (ks : KeySet) → load c pems ≡ ok ks → IsLoaded pems ks
  unfolding load
  load-IsLoaded [] ks h = absurd (ground arith)
  load-IsLoaded (p ∷ pems) ks h =
      let (new, same, all, f) = load_from-LoadsMore 0 [] [] (p ∷ pems) ks h in
      record {
        some_key = λ gone. let e = LoadedAll-ne (p ∷ pems) new all (sym same ∙ gone) in cc;
        in_order = subst (λ l. LoadedAll (p ∷ pems) l) (sym same) all;
        distinct = subst (λ l. AllDistinct (kids l)) (sym same) (Fresh-AllDistinct [] new f);
      }

  first_kid :
      (pems : List String) (k : SigningKey) (ks : List SigningKey)
      → LoadedAll pems (k ∷ ks)
      → k.kid ≡ thumbprint c k.priv
  first_kid [] k ks a = absurd a
  first_kid (p ∷ ps) k ks (from, _) = from.kid

  -- Signing with a loaded key set never panics: it signs with the first key, whose identifier is
  -- the header's, is ActiveKID, and stands first in the published JWKS with the key's public half.
  pub load-sign {ℓ} :
      {C : Type ℓ} (signed_string : String → C → RsaKey → Result String) (pems : List String)
      (ks : KeySet) (claims : C)
      → load c pems ≡ ok ks
      → (k : SigningKey) × (rest : List SigningKey) × (ks.keys ≡ k ∷ rest)
        × (sign signed_string ks claims ≡ some (signed_string k.kid claims k.priv))
        × (active_kid ks ≡ some k.kid)
        × (jwks c ks ≡ public_jwk c k ∷ map (public_jwk c) rest)
        × (k.kid ≡ thumbprint c k.priv)
  unfolding sign active_kid jwks
  load-sign signed_string pems ks claims h =
      let loaded = load-IsLoaded pems ks h in
      elim (List-cases ks.keys) [
        | inl none' ↦ absurd (loaded.some_key none')
        | inr (k, rest, e) ↦ (
          k,
          rest,
          e,
          rw (e, active),
          rw (e, active),
          rw e,
          first_kid pems k rest (subst (LoadedAll pems) e loaded.in_order),
        )
      ]
