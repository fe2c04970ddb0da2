-- ===== src/Tests/Samples.antt =====
-- Concrete collaborators for the tests: a toy chain with two accounts, whose signatures name their
-- signer in the first byte, and a toy document store.
use dauth.Base.{
  ◌&&◌, ℕ, zero, suc, ◌++◌, pos, String, List, [], ◌∷◌, true, not, ◌==◌, if◌then◌else◌, str_eq,
  contains, get_or, plain, ok, err, contains_iff, In, ◌↔◌, ◌≡◌,
}
use dauth.Ethereum.{Ethereum, Address, Backend}
use dauth.Exchange.Models.{
  Library, AssetDid, erc721, SacdAgreement, SacdData, RawEvent, TemplateAgreement, Json,
}
use dauth.Exchange.Template.{Service}

abbrev pub alice : Address
alice = 10

abbrev pub bob : Address
bob = 11

abbrev repeat : ℕ → ℕ → List ℕ
repeat zero x = []
repeat (suc n) x = x ∷ repeat n x

-- 65 bytes that name the signer, with the recovery id 27.
abbrev pub signature_of : ℕ → List ℕ
signature_of signer = signer ∷ (repeat 63 0 ++ 27 ∷ [])

abbrev pub eth : Ethereum
eth = record {
  is_hex_address = λ s. not (str_eq s "");
  hex_to_address = λ s. if str_eq s "0xa" then alice else if str_eq s "0xb" then bob else 0;
  hex = λ a. if a == 10 then "0xa" else if a == 11 then "0xb" else "0x0";
  decode_hex = λ s.
      if str_eq s "by alice"
      then ok (signature_of alice)
      else if str_eq s "by bob"
      then ok (signature_of bob)
      else err (plain "hex string without 0x prefix");
  decode_big = λ s. if str_eq s "0xcc" then ok 0xcc else err (plain "hex string without 0x prefix");
  from_hex = λ s. if str_eq s "by alice" then signature_of alice else [];
  text_hash = λ message. 1 ∷ [];
  sig_to_pub = λ hash sig. ok (get_or sig 0 0 ∷ []);
  pubkey_to_address = λ key. get_or key 0 0;
}

-- A contract at bob's address that accepts whatever bob signs.
abbrev pub backend : Backend
backend = record {
  code_at = λ a. ok (if a == 11 then 1 ∷ [] else []);
  new_erc1271 = λ a. ok tt;
  is_valid_signature =
      λ a hash sig. ok (if get_or sig 0 0 == 12 then 0x16 ∷ 0x26 ∷ 0xba ∷ 0x7e ∷ [] else []);
}

abbrev pub lib : Library
lib = record {
  decode_erc721_did = λ s.
      if str_eq s "did:7"
      then ok (record { chain_id = 137; contract_address = 100; token_id = pos 7 })
      else err (plain "invalid DID");
  decode_ethr_did = λ s. err (plain "invalid DID");
  erc721_string = λ d. "did:7";
  ethr_string = λ d. "did:ethr";
  type_sacd = "dimo.sacd";
  type_sacd_template = "dimo.sacd.template";
  set_contains = contains;
}

pub lib-set : (xs : List String) (x : String) → (lib.set_contains xs x ≡ true) ↔ In x xs
lib-set xs x = contains_iff xs x

-- A vehicle, and a document that grants bob its location, under the template 5, and its events.
abbrev pub vehicle : AssetDid
vehicle = erc721 (record { chain_id = 137; contract_address = 100; token_id = pos 7 })

abbrev pub location : String
location = "privilege:GetCurrentLocation"

abbrev pub grant : SacdAgreement
grant = record {
  type = "permission";
  event_type = "";
  ids = [];
  tags = [];
  effective_at = 0;
  expires_at = 100;
  source = "";
  asset = "did:7";
  permissions = record { name = location } ∷ [];
}

abbrev pub sharing : SacdAgreement
sharing = record {
  type = "cloudevent";
  event_type = "dimo.status";
  ids = [];
  tags = [];
  effective_at = 0;
  expires_at = 100;
  source = "*";
  asset = "did:7";
  permissions = [];
}

abbrev pub document : SacdData
document = record {
  grantor = "0xa";
  grantee = "0xb";
  effective_at = 0;
  expires_at = 100;
  asset = "did:7";
  permission_template_id = "5";
  agreements = grant ∷ sharing ∷ [];
}

abbrev pub event : RawEvent
event = record { type = "dimo.sacd"; raw = 1 ∷ []; signature = "by alice" }

abbrev pub template_event : RawEvent
template_event = record { type = "dimo.sacd.template"; raw = 2 ∷ []; signature = "by alice" }

abbrev pub template_agreements : List TemplateAgreement
template_agreements =
    record {
      type = "permission";
      asset = "did:ethr:137:0x0";
      permissions = record { name = location } ∷ [];
    }
    ∷ []

abbrev pub json : Json
json = record {
  event = λ b. ok event;
  sacd = λ b. ok document;
  template = λ b. ok (record { owner = "0xa"; agreements = template_agreements });
}

abbrev pub template_service : Service
template_service = record {
  contract = record { templates = λ id. ok "ipfs://template"; is_template_active = λ id. ok true };
  get_valid_sacd_doc = λ source. ok template_event;
  validate_signature = λ payload signature addr. ok (str_eq signature "by alice" && addr == 10);
}
