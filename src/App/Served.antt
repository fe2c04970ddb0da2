-- ===== src/App/Served.antt =====
-- What the public handler answers at its paths, over a mux that keeps its documentation.
use dauth.Base.{ℕ, ◌≡◌, refl, String, List, [], ◌∷◌, map, some, true, ◌⧺◌}
use dauth.Httpmw.{recover, max_bytes}
use dauth.Siwe.Server.{token}
use dauth.Oidc.{discovery, jwks_page}
use dauth.Nonce.{Store}
use dauth.Exchange.Template.{Cache}
use dauth.App.{Externals, Process}
use dauth.App.Mux.{Mux, MuxLaws, Pattern, matching, matches, method_matches, plain_path, plain_from}
use dauth.App.Routes.{
  Request, Draws, page, signed_in, failed, Decoders, SiweRoute, serve_siwe_route,
  serve_exchange_route, ExchangeRoute, siwe, exchange, post_token, max_body_bytes, siwe_discovery,
  siwe_jwks, exchange_discovery, exchange_jwks, siwe_routes, exchange_routes, public_routes, nth,
  handler_at, route, serve_siwe, serve_exchange_mux, serve_public_route, serve,
}

module _ {D K : Type 0} (x : Externals D K) (mux : Mux) (laws : MuxLaws mux) where
  -- The handler of the only route that matches.
  route-only :
      {H : Type 0} (routes : List (Pattern × H)) (m path : String) (i : ℕ) (h : H)
      → plain_path path ≡ true
      → matching 0 (map (λ r. r.0) routes) m path ≡ i ∷ []
      → nth (map (λ r. r.1) routes) i ≡ some h
      → route mux routes m path ≡ some h
  unfolding route handler_at
  route-only routes m path i h plain one at =
      rw (laws.only (map (λ r. r.0) routes) m path i plain one) at

  module _ {S : Type 0} (store : Store S) (decode : Decoders) (p : Process D K) where
    -- A request below /siwe, at the only route that matches, on either side of StripPrefix.
    siwe_at :
        (req : Request) (d : Draws) (s : S) (c : Cache) (rest : String) (i : ℕ) (r : SiweRoute)
        → req.path ≡ "/siwe" ⧺ rest
        → plain_path ("/siwe" ⧺ rest) ≡ true
        → matching 0 (map (λ r. r.0) public_routes) req.method ("/siwe" ⧺ rest) ≡ 1 ∷ []
        → plain_path rest ≡ true
        → matching 0 (map (λ r. r.0) siwe_routes) req.method rest ≡ i ∷ []
        → nth (map (λ r. r.1) siwe_routes) i ≡ some r
        → serve x mux store decode p req d (s, c) ≡ (
            let (a, s') =
              serve_siwe_route x mux store decode p.siwe r (record req { path = rest }) d s in
            (a, (s', c)))
    unfolding serve serve_public_route serve_siwe recover nth
    siwe_at req d s c rest i r at plain one plain' one' is =
        let outer = route-only public_routes req.method ("/siwe" ⧺ rest) 1 siwe plain one refl in
        let inner = route-only siwe_routes req.method rest i r plain' one' is in
        rw (serve, at, outer, serve_public_route, at, laws.strip "/siwe" rest, serve_siwe, inner)
          refl

    -- The same below /exchange.
    exchange_at :
        (req : Request) (d : Draws) (s : S) (c : Cache) (rest : String) (i : ℕ) (r : ExchangeRoute)
        → req.path ≡ "/exchange" ⧺ rest
        → plain_path ("/exchange" ⧺ rest) ≡ true
        → matching 0 (map (λ r. r.0) public_routes) req.method ("/exchange" ⧺ rest) ≡ 2 ∷ []
        → plain_path rest ≡ true
        → matching 0 (map (λ r. r.0) exchange_routes) req.method rest ≡ i ∷ []
        → nth (map (λ r. r.1) exchange_routes) i ≡ some r
        → serve x mux store decode p req d (s, c) ≡ (
            let (a, c') =
              serve_exchange_route x mux p.exchange r (record req { path = rest }) d c in
            (recover failed a, (s, c')))
    unfolding serve serve_public_route serve_exchange_mux nth
    exchange_at req d s c rest i r at plain one plain' one' is =
        let outer =
          route-only public_routes req.method ("/exchange" ⧺ rest) 2 exchange plain one refl in
        let inner = route-only exchange_routes req.method rest i r plain' one' is in
        rw
          (
            serve,
            at,
            outer,
            serve_public_route,
            at,
            laws.strip "/exchange" rest,
            serve_exchange_mux,
            inner,
          )
          refl

    -- A page of the sign-in surface, and one of the exchange.
    pub siwe_keys :
        (req : Request) (d : Draws) (st : S × Cache)
        → req.method ≡ "GET"
        → req.path ≡ "/siwe/keys"
        → serve x mux store decode p req d st ≡ (page (jwks_page p.siwe.well_known), st)
    unfolding matching matches method_matches plain_path plain_from nth serve_siwe_route
    siwe_keys req d (s, c) get at =
        siwe_at req d s c "/keys" 3 siwe_jwks at refl (rw get refl) refl (rw get refl) refl

    pub siwe_document :
        (req : Request) (d : Draws) (st : S × Cache)
        → req.method ≡ "GET"
        → req.path ≡ "/siwe/.well-known/openid-configuration"
        → serve x mux store decode p req d st ≡ (page (discovery p.siwe.well_known), st)
    unfolding matching matches method_matches plain_path plain_from nth serve_siwe_route
    siwe_document req d (s, c) get at =
        siwe_at req d s c "/.well-known/openid-configuration" 2 siwe_discovery at refl (rw get refl)
          refl (rw get refl) refl

    pub exchange_keys :
        (req : Request) (d : Draws) (st : S × Cache)
        → req.method ≡ "GET"
        → req.path ≡ "/exchange/keys"
        → serve x mux store decode p req d st ≡ (page (jwks_page p.exchange.well_known), st)
    unfolding matching matches method_matches plain_path plain_from nth serve_exchange_route recover
    exchange_keys req d (s, c) get at =
        exchange_at req d s c "/keys" 1 exchange_jwks at refl (rw get refl) refl (rw get refl) refl

    pub exchange_document :
        (req : Request) (d : Draws) (st : S × Cache)
        → req.method ≡ "GET"
        → req.path ≡ "/exchange/.well-known/openid-configuration"
        → serve x mux store decode p req d st ≡ (page (discovery p.exchange.well_known), st)
    unfolding matching matches method_matches plain_path plain_from nth serve_exchange_route recover
    exchange_document req d (s, c) get at =
        exchange_at req d s c "/.well-known/openid-configuration" 3 exchange_discovery at refl
          (rw get refl) refl (rw get refl) refl

    pub post_token_at :
        (req : Request) (d : Draws) (st : S × Cache)
        → req.method ≡ "POST"
        → req.path ≡ "/siwe/token"
        → let (r, s') =
            token x.eth store p.siwe.handlers
              (decode.token (max_bytes max_body_bytes req.body))
              d.jti
              d.now
              d.later
              st.0 in
          serve x mux store decode p req d st ≡ (signed_in r, (s', st.1))
    unfolding matching matches method_matches plain_path plain_from nth serve_siwe_route
    post_token_at req d (s, c) post at =
        siwe_at req d s c "/token" 1 post_token at refl (rw post refl) refl (rw post refl) refl
