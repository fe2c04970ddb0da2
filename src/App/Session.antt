-- ===== src/App/Session.antt =====
-- A session across the two surfaces of one process: the token of a sign-in at the exchange.
use dauth.Base.{
  ◌*◌, ◌/◌, ◌≤◌, ◌<◌, ◌≡◌, inl, refl, sym, ap, subst, String, List, Option, some, true, In, ◌⧺◌,
  Time, add, second, ok, arith,
}
use dauth.Env.{Environment, trim_space}
use dauth.Ethereum.{AddressLaws, Address}
use dauth.Keyset.{KeySet, SigningKey, sign}
use dauth.Keyset
use dauth.Keyset.Laws.{kids, AllDistinct, load-sign, load-IsLoaded}
use dauth.Oidc.{jwks_json}
use dauth.Siwe.Token.{Claims, Issuer, new_issuer, claims_for}
use dauth.Nonce.{Store, StoreLaws}
use dauth.Siwe.Server.{Handlers, TokenRequest, TokenResponse, granted, token}
use dauth.Siwe.Server.Soundness.{Sound, Reach}
use dauth.Siwe.Server.Width.{AllWide, Reach-AllWide}
use dauth.Siwe.Server.SignIn.{SignedIn, token-SignedIn}
use dauth.Exchange.Middleware.{Jwt, Context, passed, get_user_eth_addr, ethereum_address_claim}
use dauth.Exchange.Auth.{bearer, with_token, auth_middleware}
use dauth.Exchange.Auth.Laws.{Bears, auth_middleware_iff}
use dauth.Exchange.Routes.{background}
use dauth.App.{Externals, Process, sign_with, handlers_of, start}
use dauth.App.Laws.{start-Started, build_siwe-Built, create_servers-Created}

-- What the JWT library and keyfunc do with a sign-in token: a token that a key of the published set
-- has signed, under its identifier and where the identifiers are distinct, is valid from its
-- not-before to its expiry, whose encoding counts seconds, and has its claims; and a signed token is
-- one word.
pub record JwtLaws {D K : Type 0} (x : Externals D K) : Type 0 where
  pub verifies :
      (ks : KeySet) (k : SigningKey) (json : String) (jwks : K) (c : Claims) (s : String)
      (now : Time)
      → jwks_json x.crypto x.marshal ks ≡ ok json
      → x.jwt.new_jwk_set json ≡ ok jwks
      → In k ks.keys
      → AllDistinct (kids ks.keys)
      → x.sign_claims k.kid c k.priv ≡ ok s
      → c.not_before ≤ now
      → now < c.expires_at / second * second
      → (j : Jwt) × (claims : String → Option String) × (x.jwt.parse jwks now s
          ≡ ok (record { token = j; valid = true }))
        × (j.claims ≡ some claims)
        × (claims ethereum_address_claim ≡ some c.ethereum_address)
  pub one_word :
      (k : SigningKey) (c : Claims) (s : String)
      → x.sign_claims k.kid c k.priv ≡ ok s
      → trim_space s ≡ s

module _ {D K : Type 0} (x : Externals D K) (laws : JwtLaws x) where
  -- A text that the key set of the sign-in surface signed.
  signed_by :
      (pems : List String) (ks : KeySet) (c : Claims) (tok : String)
      → Keyset.load x.crypto pems ≡ ok ks
      → sign_with x.sign_claims ks c ≡ ok tok
      → (k : SigningKey) × In k ks.keys × (x.sign_claims k.kid c k.priv ≡ ok tok)
  signed_by pems ks c tok loaded signed =
      let (k, rest, e, by, _, _, _) = load-sign x.crypto x.sign_claims pems ks c loaded in
      (k, subst (λ l. In k l) (sym e) (inl refl), ground arith)

  -- The context of a request that bears the token of a signed claim.
  accepts :
      (pems : List String) (ks : KeySet) (json : String) (jwks : K) (i : Issuer) (later now : Time)
      (jti : String) (addr : Address) (audience : List String) (tok : String)
      → Keyset.load x.crypto pems ≡ ok ks
      → jwks_json x.crypto x.marshal ks ≡ ok json
      → x.jwt.new_jwk_set json ≡ ok jwks
      → i.keys ≡ sign_with x.sign_claims ks
      → x.eth.is_hex_address (x.eth.hex addr) ≡ true
      → x.eth.hex_to_address (x.eth.hex addr) ≡ addr
      → i.keys (claims_for x.eth i later jti addr audience) ≡ ok tok
      → later ≤ now
      → now < add later i.ttl / second * second
      → (ctx : Context) × (auth_middleware x.jwt jwks now (bearer ⧺ tok) background ≡ passed ctx)
        × (get_user_eth_addr x.eth ctx ≡ ok addr)
  unfolding claims_for get_user_eth_addr
  accepts pems ks json jwks i later now jti addr audience tok loaded published trusted keys is_hex
        round signed from until =
      let c = claims_for x.eth i later jti addr audience in
      let by_set = subst (λ sign. sign c ≡ ok tok) keys signed in
      let (k, member, by) = signed_by pems ks c tok loaded by_set in
      let (j, claims, valid, are, claim) =
        laws.verifies ks k json jwks c tok now published trusted member
          (load-IsLoaded x.crypto pems ks loaded).distinct by from until in
      let parsed =
        subst (λ t. x.jwt.parse jwks now t ≡ ok (record { token = j; valid = true }))
          (sym (laws.one_word k c tok by)) valid in
      let bears : Bears x.jwt jwks now (bearer ⧺ tok) background (with_token background j) =
        record { text = tok; token = j; scheme = refl; parsed = parsed; next = refl } in
      (
        with_token background j,
        (auth_middleware_iff x.jwt jwks now (bearer ⧺ tok) background (with_token background j)).1
            bears,
        rw (are, claim, is_hex) (ap ok round),
      )

  -- The exchange takes a token that the sign-in surface of the same process signed: from its issue to
  -- its expiry, counted in seconds, the bearer check passes it and reads the address it was issued for.
  pub accepts_signed :
      (order : List (String × String) → List (String × String)) (env : Environment)
      (p : Process D K) (later now : Time) (jti : String) (addr : Address) (audience : List String)
      (tok : String)
      → start x order env ≡ ok p
      → x.eth.is_hex_address (x.eth.hex addr) ≡ true
      → x.eth.hex_to_address (x.eth.hex addr) ≡ addr
      → let issuer = p.siwe.handlers.issuer in
        issuer.keys (claims_for x.eth issuer later jti addr audience) ≡ ok tok
        → later ≤ now
        → now < add later issuer.ttl / second * second
        → (ctx : Context) × (auth_middleware p.exchange.exchange.parser p.exchange.exchange.jwks now
              (bearer ⧺ tok)
              background
            ≡ passed ctx)
          × (get_user_eth_addr x.eth ctx ≡ ok addr)
  unfolding handlers_of new_issuer
  accepts_signed order env p later now jti addr audience tok started is_hex round signed from
        until =
      let s = start-Started x order env p started in
      let b = build_siwe-Built x s.cfg s.keys p.siwe s.built in
      let c = create_servers-Created x env s.exchange_cfg _ s.jwks p.exchange s.created in
      let keys : p.siwe.handlers.issuer.keys ≡ sign_with x.sign_claims s.keys =
        ap (λ (h : Handlers). h.issuer.keys) b.handles in
      rw (c.parser, c.trusts)
        (accepts s.cfg.signing_keys s.keys s.siwe_jwks s.jwks p.siwe.handlers.issuer later now jti
          addr audience tok s.keys_loaded s.published s.trusted keys is_hex round signed from until)

  -- A session from end to end. In a process that has started, over a store that keeps its promises and in
  -- a state that requests reach from a sound one whose outstanding challenges are for addresses of 20
  -- bytes, a token that the sign-in surface grants is taken by the bearer check of the exchange, from its
  -- issue to its expiry, counted in seconds, for the very address whose signature was verified. It is
  -- relied on that the JWT library verifies what a published key signed, and that an address of 20 bytes
  -- is read back from its hex form.
  pub granted-accepted :
      {S : Type 0} (store : Store S) (store_laws : StoreLaws S store)
      (order : List (String × String) → List (String × String)) (env : Environment)
      (p : Process D K) {first s : S} (req : TokenRequest) (jti : String) (now later at : Time)
      (resp : TokenResponse)
      → start x order env ≡ ok p
      → (addresses : AddressLaws x.eth) → Sound x.eth p.siwe.handlers store store_laws first
      → AllWide x.eth addresses p.siwe.handlers store store_laws first
      → Reach x.eth p.siwe.handlers store store_laws first s
      → (token x.eth store p.siwe.handlers (ok req) jti now later s).0 ≡ granted resp
      → later ≤ at
      → at < add later p.siwe.handlers.issuer.ttl / second * second
      → (w : SignedIn x.eth p.siwe.handlers store store_laws s req jti now later resp.token)
        × (ctx : Context) × (auth_middleware p.exchange.exchange.parser p.exchange.exchange.jwks at
              (bearer ⧺ resp.token)
              background
            ≡ passed ctx)
        × (get_user_eth_addr x.eth ctx ≡ ok w.ch.address)
  granted-accepted store store_laws order env p req jti now later at resp started addresses sound
        wide reach given from until =
      let w =
        token-SignedIn x.eth p.siwe.handlers store store_laws req jti now later resp sound reach
          given in
      let fits =
        Reach-AllWide x.eth addresses p.siwe.handlers store store_laws sound wide reach req.nonce
          w.ch w.outstanding in
      let (ctx, passes, is) =
        accepts_signed order env p later at jti w.ch.address w.ch.audience resp.token started
          (addresses.is_hex w.ch.address fits) (addresses.back w.ch.address fits) w.signed from
          until in
      (w, ctx, passes, is)
