-- ===== src/App/Guarded.antt =====
-- No path of the public handler leads around the checks of the exchange.
use dauth.Base.{◌≡◌, inl, inr, String, Option, none, some, false, Option-cases, arith}
use dauth.Httpmw.{recover}
use dauth.Nonce.{Store}
use dauth.Exchange.Template.{Cache}
use dauth.Exchange.Controller.{token}
use dauth.Exchange.Routes.{Reply, tokens_exchange, serve_exchange}
use dauth.Exchange.Routes
use dauth.Exchange.Routes.Laws.{Permitted, serve_exchange-Permitted}
use dauth.App.{Externals, SiweSurface, ExchangeSurface, Process}
use dauth.App.Mux.{Mux}
use dauth.App.Routes.{
  Request, Draws, exchanged, failed, traded, Decoders, SiweRoute, post_challenge, post_token,
  siwe_discovery, siwe_jwks, siwe_docs, ExchangeRoute, exchange_docs, exchange_jwks,
  exchange_discovery, post_exchange, health, siwe, exchange, siwe_routes, exchange_routes,
  public_routes, route, serve_siwe_route, serve_siwe, serve_exchange_route, serve_exchange_mux,
  serve_public_route, serve,
}

-- What the route of the exchange takes of a request.
abbrev pub exchange_part : Request → Routes.Request
exchange_part req = record { authorization = req.authorization; body = req.body }

traded-exchanged :
    {C : Type 0} (r : Option Reply × C) (reply : Reply)
    → recover failed (traded r).0 ≡ exchanged reply
    → recover Routes.plain_text r.0 ≡ reply
unfolding recover
traded-exchanged (none, c) reply h = cc
traded-exchanged (some r, c) reply h = ground arith

module _ {D K : Type 0} (x : Externals D K) (mux : Mux) where
  module _ {S : Type 0} (store : Store S) (decode : Decoders) (surface : SiweSurface D) where
    serve_siwe_route-signs :
        (r : SiweRoute) (req : Request) (d : Draws) (s : S) (reply : Reply)
        → ¬ ((serve_siwe_route x mux store decode surface r req d s).0 ≡ exchanged reply)
    unfolding serve_siwe_route
    serve_siwe_route-signs post_challenge req d s reply h = cc
    serve_siwe_route-signs post_token req d s reply h = cc
    serve_siwe_route-signs siwe_discovery req d s reply h = cc
    serve_siwe_route-signs siwe_jwks req d s reply h = cc
    serve_siwe_route-signs siwe_docs req d s reply h = cc

    serve_siwe-signs :
        (req : Request) (d : Draws) (s : S) (reply : Reply)
        → ¬ ((serve_siwe x mux store decode surface req d s).0 ≡ exchanged reply)
    unfolding serve_siwe
    serve_siwe-signs req d s reply h =
        elim (Option-cases (route mux siwe_routes req.method req.path)) [
          | inl e ↦ absurd (ground arith)
          | inr (r, e) ↦ serve_siwe_route-signs r req d s reply (ground arith)
        ]

  module _ (surface : ExchangeSurface K) where
    serve_exchange_route-exchanged :
        (r : ExchangeRoute) (req : Request) (d : Draws) (c : Cache) (reply : Reply)
        → recover failed (serve_exchange_route x mux surface r req d c).0 ≡ exchanged reply
        → (serve_exchange x.eth x.lib surface.exchange (exchange_part req) d.clock d.jti c).0
          ≡ reply
    unfolding serve_exchange_route recover serve_exchange
    serve_exchange_route-exchanged exchange_docs req d c reply h = cc
    serve_exchange_route-exchanged exchange_jwks req d c reply h = cc
    serve_exchange_route-exchanged exchange_discovery req d c reply h = cc
    serve_exchange_route-exchanged post_exchange req d c reply h =
        traded-exchanged
          (tokens_exchange x.eth x.lib surface.exchange (exchange_part req) d.clock d.jti c) reply h

    serve_exchange_mux-exchanged :
        (req : Request) (d : Draws) (c : Cache) (reply : Reply)
        → recover failed (serve_exchange_mux x mux surface req d c).0 ≡ exchanged reply
        → (serve_exchange x.eth x.lib surface.exchange (exchange_part req) d.clock d.jti c).0
          ≡ reply
    unfolding serve_exchange_mux recover
    serve_exchange_mux-exchanged req d c reply h =
        elim (Option-cases (route mux exchange_routes req.method req.path)) [
          | inl e ↦ absurd (ground arith)
          | inr (r, e) ↦ serve_exchange_route-exchanged r req d c reply (ground arith)
        ]

  module _ {S : Type 0} (store : Store S) (decode : Decoders) (p : Process D K) where
    -- An answer of the exchange comes from its route, whatever the path.
    serve-exchanged :
        (req : Request) (d : Draws) (s : S) (c : Cache) (reply : Reply)
        → (serve x mux store decode p req d (s, c)).0 ≡ exchanged reply
        → (serve_exchange x.eth x.lib p.exchange.exchange (exchange_part req) d.clock d.jti c).0
          ≡ reply
    unfolding serve serve_public_route recover
    serve-exchanged req d s c reply h =
        elim (Option-cases (route mux public_routes req.method req.path)) [
          | inl e ↦ absurd (ground arith)
          | inr (health, e) ↦ absurd (ground arith)
          | inr (siwe, e) ↦ elim (Option-cases (mux.strip_prefix "/siwe" req.path)) [
            | inl cut ↦ absurd (ground arith)
            | inr (rest, cut) ↦ absurd (
                serve_siwe-signs store decode p.siwe (record req { path = rest }) d s reply
                  (ground arith))
          ]
          | inr (exchange, e) ↦ elim (Option-cases (mux.strip_prefix "/exchange" req.path)) [
            | inl cut ↦ absurd (ground arith)
            | inr (rest, cut) ↦
                serve_exchange_mux-exchanged p.exchange (record req { path = rest }) d c reply
                  (ground arith)
          ]
        ]

    -- Whatever a client sends to the public handler, with any method and path, and however the mux
    -- routes it: a permission token is answered only to a request whose bearer token the parser takes
    -- for valid, where the address of its claim is a developer licence, the access service lets this
    -- address have what the body, within its cap, asks for, and the token is signed for this request
    -- with this address as its subject; the empty text being no address.
    pub serve-Permitted :
        (req : Request) (d : Draws) (s : S) (c : Cache) (tk : String)
        → x.eth.is_hex_address "" ≡ false
        → (serve x mux store decode p req d (s, c)).0 ≡ exchanged (Routes.exchanged (token tk))
        → Permitted x.eth x.lib p.exchange.exchange (exchange_part req) d.clock d.jti c tk
    serve-Permitted req d s c tk blank h =
        serve_exchange-Permitted x.eth x.lib p.exchange.exchange (exchange_part req) d.clock d.jti c
          tk blank (serve-exchanged req d s c _ h)
