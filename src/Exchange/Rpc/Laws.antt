-- ===== src/Exchange/Rpc/Laws.antt =====
-- When the access check over gRPC says yes.
use mathlib.Core.List.{map, []}
use dauth.Base.{
  ℕ, ◌≡◌, ◌≢◌, ◌↔◌, inl, inr, refl, subst, none, some, true, false, Bool-cases, Option-cases,
  Result-cases, str_eq, eq_iff, Time, as_rich, arith, Error, ok, err,
}
use dauth.Ethereum.{Ethereum}
use dauth.Exchange.Models.{Library, AssetDid, decode_asset_did}
use dauth.Exchange.Rpc.{
  RpcEvent, AccessCheckRequest, Validate, filter_of, denial, request_of, access_check,
}

module _ (eth : Ethereum) (lib : Library) {St : Type 0} (validate_access : Validate St) where
  -- The asset is a DID, there is a grantee, and the access service lets it have the privileges and the
  -- events of the message, a filter of which has no tags.
  pub record Granted (req : AccessCheckRequest) (clock : ℕ → Time) (st : St) : Type 0 where
    pub asset : AssetDid
    pub decoded : decode_asset_did lib req.asset ≡ ok asset
    pub grantee : req.grantee ≢ ""
    pub allowed :
        (validate_access
          (record {
            asset = asset;
            permissions = req.privileges;
            event_filters =
                map
                  (λ (e : RpcEvent). record {
                    event_type = e.event_type;
                    source = e.source;
                    ids = e.ids;
                    tags = [];
                  })
                  req.events;
          })
          (eth.hex_to_address req.grantee)
          clock
          st).0
        ≡ some (ok tt)

  denial-no : (e : Error) → (denial e).has_access ≡ false
  unfolding denial
  denial-no e = elim (Option-cases (as_rich e)) [
    | inl f ↦ rw (f, denial) refl
    | inr (r, f) ↦ rw (f, denial) refl
  ]

  decide_iff :
      (req : AccessCheckRequest) (clock : ℕ → Time) (st : St) (asset : AssetDid)
      → decode_asset_did lib req.asset ≡ ok asset
      → str_eq req.grantee "" ≡ false
      → ((access_check eth lib validate_access req clock st).0
          ≡ some (ok (record { has_access = true; reason = none; rich_error = none })))
        ↔ ((validate_access (request_of asset req) (eth.hex_to_address req.grantee) clock st).0
            ≡ some (ok tt))
  unfolding access_check
  decide_iff req clock st asset d given =
      elim (Option-cases
        (validate_access (request_of asset req) (eth.hex_to_address req.grantee) clock st).0) [
          | inl v ↦ rw (d, given, v, access_check) (λ h. cc, λ h. cc)
          | inr (ok _, v) ↦ rw (d, given, v, access_check) (λ h. refl, λ h. refl)
          | inr (err e, v) ↦
              rw (d, given, v, access_check) (λ h. absurd (ground (arith, denial-no e, h)), λ h. cc)
        ]

  -- The answer says that there is access exactly when the asset decodes, the grantee is given and the
  -- access service accepts, for the grantee, the request for every privilege and every event of the
  -- message, each event with its type, source and identifiers and without tags.
  pub access_check_iff :
      (req : AccessCheckRequest) (clock : ℕ → Time) (st : St)
      → ((access_check eth lib validate_access req clock st).0
          ≡ some (ok (record { has_access = true; reason = none; rich_error = none })))
        ↔ Granted req clock st
  unfolding access_check request_of filter_of
  access_check_iff req clock st = elim (Result-cases (decode_asset_did lib req.asset)) [
    | inr (e, d) ↦ rw (d, access_check) (λ h. cc, λ g. absurd (ground (arith, d, g.decoded)))
    | inl (asset, d) ↦ elim (Bool-cases (str_eq req.grantee "")) [
      | inl empty ↦
          rw (d, empty, access_check)
            (λ h. cc, λ g. absurd (g.grantee ((eq_iff req.grantee "").0 empty)))
      | inr given ↦
          let (to, from) = decide_iff req clock st asset d given in
          (
            λ h. record {
              asset = asset;
              decoded = d;
              grantee = λ e. ground (arith, (eq_iff req.grantee "").1 e);
              allowed = to h;
            },
            λ g.
                let same : g.asset ≡ asset = ground (arith, d, g.decoded) in
                from (
                  subst
                    (λ k.
                      (validate_access (request_of k req) (eth.hex_to_address req.grantee) clock
                        st).0
                      ≡ some (ok tt))
                    same g.allowed),
          )
    ]
  ]
