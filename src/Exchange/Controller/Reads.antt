-- ===== src/Exchange/Controller/Reads.antt =====
-- What the exchange reads in a request: its asset, its permissions and its event filters.
use dauth.Base.{
  ◌≡◌, ◌≢◌, ◌⊎◌, ◌↔◌, inl, inr, refl, ℤ, String, List, [], ◌∷◌, some, true, Bool-cases,
  Option-cases, Result-cases, is_nil, is_nil_iff, if◌then◌else◌, str_eq, eq_iff, ◌==◌, arith,
  Result, ok,
}
use dauth.Ethereum.{Ethereum, Address}
use dauth.Exchange.Models.{Library, AssetDid, erc721, decode_asset_did, get_contract_address}
use dauth.Exchange.Claims.{
  IdTable, name_of, privilege_id_to_name, manufacturer_privilege_id_to_name,
}
use dauth.Exchange.Access.{AccessRequest}
use dauth.Exchange.Controller.{
  TokenRequest, ExchangeController, names_of, get_permissions_from_privileges,
  asset_did_from_token_req, token_req_to_access_req,
}

-- Each identifier has the name in its place.
abbrev pub NamedBy : IdTable → List ℤ → List String → Type 0
NamedBy t [] [] = Unit
NamedBy t (i ∷ is) (n ∷ ns) = (name_of t i ≡ some n) × NamedBy t is ns
NamedBy t _ _ = ⊥

names_of_iff :
    (t : IdTable) (is : List ℤ) (ns : List String)
    → (((names_of t is).1 ≡ []) × ((names_of t is).0 ≡ ns)) ↔ NamedBy t is ns
unfolding names_of
names_of_iff t [] [] = ((λ h. tt), λ h. (refl, refl))
names_of_iff t [] (n ∷ ns) = ((λ h. cc), λ h. absurd h)
names_of_iff t (i ∷ is) [] = (λ h. absurd (names_of_some h), λ h. absurd h)
  where
    names_of_some : ¬ (((names_of t (i ∷ is)).1 ≡ []) × ((names_of t (i ∷ is)).0 ≡ []))
    names_of_some h = elim (Option-cases (name_of t i)) [
      | inl e ↦ ground arith
      | inr (m, e) ↦ ground arith
    ]
names_of_iff t (i ∷ is) (n ∷ ns) =
    let later = names_of_iff t is ns in
    elim (Option-cases (name_of t i)) [
      | inl e ↦ (λ h. absurd (ground arith), λ h. cc)
      | inr (m, e) ↦ (
        λ h. (ground arith, later.0 (ground arith, ground arith)),
        λ h. let (a, b) = later.1 h.1 in (ground arith, ground arith),
      )
    ]

module _ (eth : Ethereum) (lib : Library) {St : Type 0} (t : ExchangeController St) where
  -- The asset by its DID, or by the contract and the token identifier.
  abbrev pub AssetOf : TokenRequest → AssetDid → Type 0
  AssetOf req asset =
      ((req.asset ≢ "") × (decode_asset_did lib req.asset ≡ ok asset))
      ⊎ ((req.asset ≡ "")
          × (eth.is_hex_address req.nft_contract_address ≡ true)
          × (asset
              ≡ erc721 (record {
                chain_id = t.chain_id;
                contract_address = eth.hex_to_address req.nft_contract_address;
                token_id = req.token_id;
              })))

  -- The permissions by name, or by the identifiers in the table of the asset's contract.
  abbrev pub PermissionsOf : TokenRequest → AssetDid → List String → Type 0
  PermissionsOf req asset names =
      ((req.permissions ≢ []) × (names ≡ req.permissions))
      ⊎ ((req.permissions ≡ [])
          × NamedBy
              (if get_contract_address asset == t.contract_address_manufacturer
                then manufacturer_privilege_id_to_name
                else privilege_id_to_name)
              req.privileges names)

  pub record ReadsAs (req : TokenRequest) (bare : AccessRequest) : Type 0 where
    pub asset : AssetOf req bare.asset
    pub permissions : PermissionsOf req bare.asset bare.permissions
    pub event_filters : bare.event_filters ≡ req.cloud_events

  asset_iff :
      (req : TokenRequest) (asset : AssetDid)
      → (asset_did_from_token_req eth lib t req ≡ ok asset) ↔ AssetOf req asset
  unfolding asset_did_from_token_req
  asset_iff req asset = elim (Bool-cases (str_eq req.asset "")) [
    | inr e ↦
        let ne : req.asset ≢ "" = λ is. ground (arith, (eq_iff req.asset "").1 is) in
        elim (Result-cases (decode_asset_did lib req.asset)) [
          | inr (x, d) ↦
              rw (e, d, asset_did_from_token_req)
                (λ h. cc, λ h. elim h [ inl (_, c) ↦ cc | inr (is, _, _) ↦ absurd (ne is) ])
          | inl (k, d) ↦
              rw (e, d, asset_did_from_token_req)
                (λ h. inl (ne, h), λ h. elim h [ inl (_, c) ↦ c | inr (is, _, _) ↦ absurd (ne is) ])
        ]
    | inl e ↦
        let is = (eq_iff req.asset "").0 e in
        elim (Bool-cases (eth.is_hex_address req.nft_contract_address)) [
          | inr x ↦
              rw (e, x, asset_did_from_token_req)
                (λ h. cc, λ h. elim h [ inl (ne, _) ↦ absurd (ne is) | inr (_, c, _) ↦ cc ])
          | inl x ↦
              rw (e, x, asset_did_from_token_req)
                (
                  λ h. inr (is, refl, ground arith),
                  λ h. elim h [ inl (ne, _) ↦ absurd (ne is) | inr (_, _, c) ↦ cc ],
                )
        ]
  ]

  found_iff :
      (privileges : List ℤ) (contract : Address) (names : List String)
      → (get_permissions_from_privileges eth lib t privileges contract ≡ ok names)
        ↔ NamedBy
            (if contract == t.contract_address_manufacturer
              then manufacturer_privilege_id_to_name
              else privilege_id_to_name)
            privileges
            names
  unfolding get_permissions_from_privileges
  found_iff privileges contract names =
      let table =
        if contract == t.contract_address_manufacturer
        then manufacturer_privilege_id_to_name
        else privilege_id_to_name in
      let all = names_of_iff table privileges names in
      elim (Bool-cases (is_nil (names_of table privileges).1)) [
        | inl e ↦ (
          λ h. all.0 ((is_nil_iff _).0 e, ground arith),
          λ h. let (_, is) = all.1 h in ground arith,
        )
        | inr e ↦ (
          λ h. absurd (ground arith),
          λ h. absurd (ground (arith, (is_nil_iff (names_of table privileges).1).1 (all.1 h).0)),
        )
      ]

  permissions_iff :
      (req : TokenRequest) (asset : AssetDid) (names : List String)
      → ((if is_nil req.permissions
            then get_permissions_from_privileges eth lib t req.privileges
                (get_contract_address asset)
            else ok req.permissions)
          ≡ ok names)
        ↔ PermissionsOf req asset names
  permissions_iff req asset names =
      let found = found_iff req.privileges (get_contract_address asset) names in
      elim (Bool-cases (is_nil req.permissions)) [
        | inr e ↦
            let ne : req.permissions ≢ [] =
              λ is. ground (arith, (is_nil_iff req.permissions).1 is) in
            rw e (
              λ h. inl (ne, ground arith),
              λ h. elim h [ inl (_, c) ↦ ground arith | inr (is, _) ↦ absurd (ne is) ],
            )
        | inl e ↦
            let is = (is_nil_iff req.permissions).0 e in
            rw e (
              λ h. inr (is, found.0 h),
              λ h. elim h [ inl (ne, _) ↦ absurd (ne is) | inr (_, c) ↦ found.1 c ],
            )
      ]

  pub token_req_to_access_req_iff :
      (req : TokenRequest) (bare : AccessRequest)
      → (token_req_to_access_req eth lib t req ≡ ok bare) ↔ ReadsAs req bare
  unfolding token_req_to_access_req
  token_req_to_access_req_iff req bare = (
    λ h. elim (Result-cases (asset_did_from_token_req eth lib t req)) [
      | inr (x, e) ↦ absurd (ground arith)
      | inl (asset, e) ↦ elim (Result-cases (permissions_of asset)) [
        | inr (x, f) ↦ absurd (ground arith)
        | inl (names, f) ↦
            let same : bare
                ≡ record { asset = asset; permissions = names; event_filters = req.cloud_events } =
              ground arith in
            rw same (record {
              asset = (asset_iff req asset).0 e;
              permissions = (permissions_iff req asset names).0 f;
              event_filters = refl;
            })
      ]
    ],
    λ r.
        let e = (asset_iff req bare.asset).1 r.asset in
        let f = (permissions_iff req bare.asset bare.permissions).1 r.permissions in
        let g = r.event_filters in ground arith,
  )
    where
      permissions_of : AssetDid → Result (List String)
      permissions_of asset =
          if is_nil req.permissions
          then get_permissions_from_privileges eth lib t req.privileges (get_contract_address asset)
          else ok req.permissions
