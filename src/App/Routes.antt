-- ===== src/App/Routes.antt =====
-- The routes of the process: NewSIWEHandler of internal/siwe/server/server.go, the mux of
-- createHTTPServer in internal/exchange/app/app.go, and the public handler of run in
-- cmd/dauth/main.go. The API documents are one answer, `docs`; encoding/json is a parameter.
use dauth.Base.{
  ℕ, zero, suc, ◌^◌, ◌*◌, String, List, [], ◌∷◌, map, Option, none, some, Time, Result,
}
use dauth.Httpmw.{Body, max_bytes, recover}
use dauth.Oidc.{Page, discovery, jwks_page}
use dauth.Nonce.{Store}
use dauth.Siwe.Server.{ChallengeRequest, TokenRequest, challenge, token}
use dauth.Siwe.Server
use dauth.Exchange.Template.{Cache}
use dauth.Exchange.Routes.{Clock, Reply, tokens_exchange}
use dauth.App.{Externals, SiweSurface, ExchangeSurface, Process}
use dauth.App.Mux.{Mux, Pattern, exact, root, under}

-- maxBodyBytes
abbrev pub max_body_bytes : ℕ
max_body_bytes = 16 * 2 ^ 10

-- The method and the path of a request, its Authorization header, and the bytes of its body.
pub record Request : Type 0 where
  pub method : String
  pub path : String
  pub authorization : String
  pub body : List ℕ

-- What a request reads of the random sources and of the clock.
pub record Draws : Type 0 where
  pub random : Result (List ℕ)
  pub jti : String
  pub now : Time
  pub later : Time
  pub clock : Clock

-- `unrouted` is a mux's or StripPrefix's own answer: not found, not allowed, or a redirect.
pub data Answer : Type 0 where
  signed_in : Server.Response → Answer
  page : Page → Answer
  exchanged : Reply → Answer
  healthy : String → String → Answer
  docs : Answer
  unrouted : Answer
  failed : ℕ → String → Answer

-- The handlers that are mounted.
pub data SiweRoute : Type 0 where
  post_challenge : SiweRoute
  post_token : SiweRoute
  siwe_discovery : SiweRoute
  siwe_jwks : SiweRoute
  siwe_docs : SiweRoute

pub data ExchangeRoute : Type 0 where
  exchange_docs : ExchangeRoute
  exchange_jwks : ExchangeRoute
  exchange_discovery : ExchangeRoute
  post_exchange : ExchangeRoute

pub data PublicRoute : Type 0 where
  health : PublicRoute
  siwe : PublicRoute
  exchange : PublicRoute

-- The tables, in the order of registration.
abbrev pub siwe_routes : List (Pattern × SiweRoute)
siwe_routes =
    (exact "POST" "/challenge", post_challenge)
    ∷ (exact "POST" "/token", post_token)
    ∷ (exact "GET" "/.well-known/openid-configuration", siwe_discovery)
    ∷ (exact "GET" "/keys", siwe_jwks)
    ∷ (exact "GET" "/.well-known/jwks.json", siwe_jwks)
    ∷ (under (some "GET") "/swagger/", siwe_docs)
    ∷ []

abbrev pub exchange_routes : List (Pattern × ExchangeRoute)
exchange_routes =
    (under (some "GET") "/swagger/", exchange_docs)
    ∷ (exact "GET" "/keys", exchange_jwks)
    ∷ (exact "GET" "/.well-known/jwks.json", exchange_jwks)
    ∷ (exact "GET" "/.well-known/openid-configuration", exchange_discovery)
    ∷ (exact "POST" "/tokens/exchange", post_exchange)
    ∷ []

abbrev pub public_routes : List (Pattern × PublicRoute)
public_routes =
    (root "GET", health) ∷ (under none "/siwe/", siwe) ∷ (under none "/exchange/", exchange) ∷ []

-- The decoders of the two bodies of the sign-in surface.
pub record Decoders : Type 0 where
  pub challenge : Body → Result ChallengeRequest
  pub token : Body → Result TokenRequest

unfoldable pub nth {ℓ} : {A : Type ℓ} → List A → ℕ → Option A
nth [] i = none
nth (a ∷ as') zero = some a
nth (a ∷ as') (suc i) = nth as' i

unfoldable pub handler_at : {H : Type 0} → List (Pattern × H) → Option ℕ → Option H
unfolding nth
handler_at routes none = none
handler_at routes (some i) = nth (map (λ r. r.1) routes) i

-- ServeHTTP's choice among the routes.
unfoldable pub route : {H : Type 0} → Mux → List (Pattern × H) → String → String → Option H
unfolding handler_at
route mux routes m path = handler_at routes (mux.choose (map (λ r. r.0) routes) m path)

abbrev signed : {S : Type 0} → Server.Response × S → Answer × S
signed (r, s) = (signed_in r, s)

abbrev pub traded : {C : Type 0} → Option Reply × C → Option Answer × C
traded (none, c) = (none, c)
traded (some r, c) = (some (exchanged r), c)

-- healthCheck: a content type and a body.
abbrev pub health_check : Answer
health_check = healthy "application/json" "{\"data\":\"Server is up and running\"}"

module _ {D K : Type 0} (x : Externals D K) (mux : Mux) where
  module _ {S : Type 0} (store : Store S) (decode : Decoders) (surface : SiweSurface D) where
    -- A handler of NewSIWEHandler.
    unfoldable pub serve_siwe_route : SiweRoute → Request → Draws → S → Answer × S
    serve_siwe_route post_challenge req d s = signed (
        challenge x.eth store surface.handlers
          (decode.challenge (max_bytes max_body_bytes req.body)) d.random d.now d.later s)
    serve_siwe_route post_token req d s = signed (
        token x.eth store surface.handlers (decode.token (max_bytes max_body_bytes req.body)) d.jti
          d.now d.later s)
    serve_siwe_route siwe_discovery req d s = (page (discovery surface.well_known), s)
    serve_siwe_route siwe_jwks req d s = (page (jwks_page surface.well_known), s)
    serve_siwe_route siwe_docs req d s = (docs, s)

    -- NewSIWEHandler, at a path below the mount point.
    unfoldable pub serve_siwe : Request → Draws → S → Answer × S
    unfolding serve_siwe_route
    serve_siwe req d s = elim (route mux siwe_routes req.method req.path) [
      | none ↦ (unrouted, s)
      | some r ↦ serve_siwe_route r req d s
    ]

  module _ (surface : ExchangeSurface K) where
    -- A handler of createHTTPServer's mux; `none` is a panic.
    unfoldable pub serve_exchange_route :
        ExchangeRoute → Request → Draws → Cache → Option Answer × Cache
    serve_exchange_route exchange_docs req d c = (some docs, c)
    serve_exchange_route exchange_jwks req d c = (some (page (jwks_page surface.well_known)), c)
    serve_exchange_route exchange_discovery req d c =
        (some (page (discovery surface.well_known)), c)
    serve_exchange_route post_exchange req d c = traded (
        tokens_exchange x.eth x.lib surface.exchange
          (record { authorization = req.authorization; body = req.body }) d.clock d.jti c)

    unfoldable pub serve_exchange_mux : Request → Draws → Cache → Option Answer × Cache
    unfolding serve_exchange_route
    serve_exchange_mux req d c = elim (route mux exchange_routes req.method req.path) [
      | none ↦ (some unrouted, c)
      | some r ↦ serve_exchange_route r req d c
    ]

  module _ {S : Type 0} (store : Store S) (decode : Decoders) (p : Process D K) where
    -- A handler of the public mux, under StripPrefix.
    unfoldable pub serve_public_route :
        PublicRoute → Request → Draws → S × Cache → Option Answer × (S × Cache)
    unfolding serve_siwe serve_exchange_mux
    serve_public_route health req d st = (some health_check, st)
    serve_public_route siwe req d (s, c) = elim (mux.strip_prefix "/siwe" req.path) [
      | none ↦ (some unrouted, (s, c))
      | some rest ↦
          let (a, s') = serve_siwe store decode p.siwe (record req { path = rest }) d s in
          (some a, (s', c))
    ]
    serve_public_route exchange req d (s, c) = elim (mux.strip_prefix "/exchange" req.path) [
      | none ↦ (some unrouted, (s, c))
      | some rest ↦
          let (a, c') = serve_exchange_mux p.exchange (record req { path = rest }) d c in
          (a, (s, c'))
    ]

    -- The public handler of run.
    unfoldable pub serve : Request → Draws → S × Cache → Answer × (S × Cache)
    unfolding serve_public_route
    serve req d st = elim (route mux public_routes req.method req.path) [
      | none ↦ (unrouted, st)
      | some r ↦ let (a, st') = serve_public_route r req d st in (recover failed a, st')
    ]
