-- ===== src/Exchange/Config/Laws.antt =====
-- What Load of the exchange surface accepts, and what it complains of.
use dauth.Base.{
  ℕ, ◌≡◌, ◌≢◌, ◌⊎◌, ◌↔◌, inl, inr, refl, ap, subst, String, List, [], ◌∷◌, Bool-cases, Result-cases,
  In, str_eq, eq_iff, ℤ, pos, Error, plain, ◌⧺◌, Result, ok, err, arith,
}
use dauth.Ethereum.{Ethereum}
use dauth.Env.{Environment, int, uint}
use dauth.Exchange.Config.{Config, initial, required, check_required, load}

-- An order of the entries of a map: each stands in it, and nothing else.
abbrev pub IsOrder : (List (String × String) → List (String × String)) → Type 0
IsOrder order = (l : List (String × String)) (x : String × String) → In x (order l) ↔ In x l

check_required_cases :
    (l : List (String × String)) (s : Config)
    → ((check_required l s ≡ ok s) × ((x : String × String) → In x l → x.1 ≢ ""))
      ⊎ ((name : String) × In (name, "") l
          × (check_required l s ≡ err (plain (name ⧺ " is required"))))
unfolding check_required
check_required_cases [] s = inl (refl, λ x m. absurd m)
check_required_cases ((name, val) ∷ rest) s = elim (Bool-cases (str_eq val "")) [
  | inl e ↦ inr (name, inl (ap (λ v. (name, v)) ((eq_iff val "").0 e)), rw e refl)
  | inr e ↦ elim (check_required_cases rest s) [
    | inr (n, m, is) ↦ inr (n, inr m, rw e is)
    | inl (is, all) ↦ inl (
      rw e is,
      λ x. elim [
        | inl same ↦
            subst (λ (y : String × String). y.1 ≢ "") same
              (λ empty. absurd (ground (arith, (eq_iff val "").1 empty)))
        | inr m ↦ all x m
      ],
    )
  ]
]

-- The settings with the two numbers that were read.
abbrev pub settled : Ethereum → Environment → ℤ → ℕ → Config
settled eth env port chain = record (initial eth env) {
  grpc_port = port;
  dimo_registry_chain_id = chain;
}

-- How Load ends.
pub data Loaded (eth : Ethereum) (env : Environment) : Result Config → Type 0 where
  bad_port : (e : Error) → int env "GRPC_PORT" (pos 8086) ≡ err e → Loaded eth env (err e)
  bad_chain : (e : Error) → uint env "DIMO_REGISTRY_CHAIN_ID" 137 ≡ err e → Loaded eth env (err e)
  missing :
      (port : ℤ) (chain : ℕ) (name : String)
      → In (name, "") (required (settled eth env port chain))
      → Loaded eth env (err (plain (name ⧺ " is required")))
  loaded :
      (s : Config)
      → int env "GRPC_PORT" (pos 8086) ≡ ok s.grpc_port
      → uint env "DIMO_REGISTRY_CHAIN_ID" 137 ≡ ok s.dimo_registry_chain_id
      → s ≡ settled eth env s.grpc_port s.dimo_registry_chain_id
      → s.issuer ≢ ""
      → s.blockchain_node_url ≢ ""
      → s.identity_url ≢ ""
      → s.ipfs_base_url ≢ ""
      → Loaded eth env (ok s)

settled-Loaded :
    (eth : Ethereum) (order : List (String × String) → List (String × String)) (env : Environment)
    (port : ℤ) (chain : ℕ)
    → IsOrder order
    → int env "GRPC_PORT" (pos 8086) ≡ ok port
    → uint env "DIMO_REGISTRY_CHAIN_ID" 137 ≡ ok chain
    → Loaded eth env (
        check_required (order (required (settled eth env port chain))) (settled eth env port chain))
unfolding required
settled-Loaded eth order env port chain is p c =
    let s = settled eth env port chain in
    elim (check_required_cases (order (required s)) s) [
      | inr (name, m, e) ↦ rw e (missing port chain name ((is (required s) (name, "")).0 m))
      | inl (e, all) ↦
          let present : (x : String × String) → In x (required s) → x.1 ≢ "" =
            λ x m. all x ((is (required s) x).1 m) in
          rw e (
            loaded s p c refl (present ("EXCHANGE_ISSUER", s.issuer) (inl refl))
              (present ("BLOCKCHAIN_NODE_URL", s.blockchain_node_url) (inr (inl refl)))
              (present ("IDENTITY_URL", s.identity_url) (inr (inr (inl refl))))
              (present ("IPFS_BASE_URL", s.ipfs_base_url) (inr (inr (inr (inl refl))))))
    ]

-- However the map of the required settings is ranged over, Load ends in one of four ways: by the
-- complaint of a number that cannot be read, by naming a required setting that is empty, or with
-- the settings as they are read, where the four required ones are not empty.
pub load-Loaded :
    (eth : Ethereum) (order : List (String × String) → List (String × String)) (env : Environment)
    → IsOrder order
    → Loaded eth env (load eth order env)
unfolding load
load-Loaded eth order env is = elim (Result-cases (int env "GRPC_PORT" (pos 8086))) [
  | inr (e, p) ↦ rw p (bad_port e p)
  | inl (port, p) ↦ elim (Result-cases (uint env "DIMO_REGISTRY_CHAIN_ID" 137)) [
    | inr (e, c) ↦ rw (p, c) (bad_chain e c)
    | inl (chain, c) ↦ rw (p, c) (settled-Loaded eth order env port chain is p c)
  ]
]
