-- ===== src/Tests/Grants.antt =====
-- What the sample document grants.
use dauth.Base.{
  ℕ, String, ◌⊎◌, ◌+◌, ◌/◌, ◌≡◌, ◌↔◌, refl, arith, ℤ, pos, List, [], ◌∷◌, none, some, true, All, In,
  bit, Time, ok, lookup, insert, is_zero, parse_int, bytes, show, set_bit,
}
use Prim.Native.Nat.{bit_and}
use dauth.Exchange.Models.{EventFilter, did_string, get_chain_id, get_contract_address}
use dauth.Exchange.Autheval.{Agreements, add_agreement, evaluate_cloud_events}
use dauth.Exchange.Autheval.Events.{FilterCovered, evaluate_cloud_events_iff}
use dauth.Exchange.Autheval.Grants.{granted, TemplateService, user_grant_map}
use dauth.Exchange.Autheval.Grants.Laws.{AllAbout, Given}
use dauth.Exchange.Autheval.Grants.Templates.{TemplateAllows, user_grant_map_grants}
use dauth.Exchange.Autheval.Masks.{evaluate_permissions_bits, int_array_to_2bit_array}
use dauth.Exchange.Autheval.Masks.Laws.{
  InRange, HasBits, int_array_to_2bit_array_bits, evaluate_permissions_bits_masked,
}
use dauth.Exchange.Claims.{privilege_id_to_name, manufacturer_privilege_id_to_name, name_of, id_of}
use dauth.Exchange.Autheval.Sources.{StringSets, SacdAgreements, at_type, get_valid_agreements}
use dauth.Exchange.Autheval.Sources.Laws.{SetLaws, Has, get_valid_agreements_iff}
use dauth.Exchange.Claims.Tables.{privilege_tables}
use dauth.Exchange.Template.{
  Cache, extract_permissions_from_agreements, get_template_permissions, service, clear_cache,
  fetch_agreements,
}
use dauth.Exchange.Template.Laws.{IsFresh, IsSound, get_template_permissions_cached}
use dauth.Tests.Samples.{
  eth, lib, lib-set, json, template_service, template_agreements, vehicle, document, location,
}

abbrev clock : ℕ → Time
clock i = 50 + i

abbrev agreements : Agreements
agreements =
    record { event_type = "dimo.status"; source = "*"; ids = "*" ∷ []; tags = "*" ∷ [] } ∷ []

abbrev filter : EventFilter
filter = record { event_type = "dimo.status"; source = ""; ids = "x" ∷ "y" ∷ []; tags = [] }

abbrev templates : TemplateService Cache
templates = service eth json template_service

granted_by_document :
    (user_grant_map lib templates document vehicle clock []).0
    ≡ ok ((location, true) ∷ [], agreements)
unfolding user_grant_map is_zero did_string get_template_permissions lookup parse_int bytes
    extract_permissions_from_agreements show get_chain_id get_contract_address insert granted
    add_agreement
granted_by_document = refl

user_grant_map_grants_example :
    AllAbout lib vehicle clock 0 document.agreements
    × ((granted ((location, true) ∷ []) location ≡ true) ↔ (
        Given clock 0 document.agreements location
        × TemplateAllows lib templates document vehicle clock []))
user_grant_map_grants_example =
    user_grant_map_grants lib templates document vehicle clock [] ((location, true) ∷ []) agreements
      location granted_by_document

evaluate_cloud_events_iff_example :
    (evaluate_cloud_events lib agreements (filter ∷ []) ≡ none)
    ↔ All (FilterCovered agreements) (filter ∷ [])
evaluate_cloud_events_iff_example = evaluate_cloud_events_iff lib lib-set agreements (filter ∷ [])

-- The permissions 1 and 3.
mask_of_two : int_array_to_2bit_array (pos 1 ∷ pos 3 ∷ []) 128 ≡ ok 0xcc
unfolding int_array_to_2bit_array set_bit
mask_of_two = refl

evaluate_permissions_bits_masked_example :
    (evaluate_permissions_bits (pos 1 ∷ pos 3 ∷ []) (bit_and 0xffc 0xcc)
      ≡ evaluate_permissions_bits (pos 1 ∷ pos 3 ∷ []) 0xffc)
    × ((lack : List ℤ) × (evaluate_permissions_bits (pos 1 ∷ pos 3 ∷ []) 0xffc ≡ some lack))
    × ((evaluate_permissions_bits (pos 1 ∷ pos 3 ∷ []) 0xffc ≡ some [])
        ↔ All (HasBits 0xffc) (pos 1 ∷ pos 3 ∷ []))
evaluate_permissions_bits_masked_example =
    evaluate_permissions_bits_masked (pos 1 ∷ pos 3 ∷ []) 128 0xffc 0xcc (omega arith) mask_of_two

int_array_to_2bit_array_bits_example :
    All (InRange 128) (pos 1 ∷ pos 3 ∷ [])
    × ((bit 0xcc 7 ≡ 1) ↔ In (pos (7 / 2)) (pos 1 ∷ pos 3 ∷ []))
int_array_to_2bit_array_bits_example =
    int_array_to_2bit_array_bits (pos 1 ∷ pos 3 ∷ []) 128 0xcc 7 mask_of_two

privilege_tables_example :
    ((name_of privilege_id_to_name (pos 3) ≡ some location)
      ↔ (id_of privilege_id_to_name location ≡ some (pos 3)))
    × ((name_of manufacturer_privilege_id_to_name (pos 3) ≡ some location)
        ↔ (id_of manufacturer_privilege_id_to_name location ≡ some (pos 3)))
privilege_tables_example = privilege_tables (pos 3) location

abbrev cache : Cache
cache = ("5", template_agreements) ∷ []

cache-IsFresh : IsFresh eth json template_service cache
unfolding fetch_agreements parse_int bytes
cache-IsFresh = (refl, tt)

get_template_permissions_cached_example :
    ((get_template_permissions eth json template_service "5" vehicle cache).0
      ≡ (get_template_permissions eth json template_service "5" vehicle (clear_cache cache)).0)
    × IsFresh eth json template_service
        (get_template_permissions eth json template_service "5" vehicle cache).1
    × IsSound eth json template_service
        (get_template_permissions eth json template_service "5" vehicle cache).1
get_template_permissions_cached_example =
    get_template_permissions_cached eth json template_service "5" vehicle cache cache-IsFresh

-- A set of texts is a list of them.
abbrev sets : StringSets (List String)
sets = record { new = []; add = λ s xs. s ∷ xs; slice = λ xs. xs }

sets_hold : SetLaws sets
sets_hold = record { new_empty = refl; add_iff = λ y x t. (λ h. h, λ h. h) }

abbrev by_type : SacdAgreements (List String)
by_type =
    ("dimo.status", ("oracle", "1" ∷ []) ∷ [])
    ∷ ("*", ("oracle", "2" ∷ []) ∷ ("app", "3" ∷ []) ∷ [])
    ∷ []

get_valid_agreements_iff_example :
    Has sets sets_hold (get_valid_agreements sets by_type "dimo.status") "oracle" "2" ↔ (
      Has sets sets_hold (at_type by_type "dimo.status") "oracle" "2"
      ⊎ Has sets sets_hold (at_type by_type "*") "oracle" "2")
unfolding at_type lookup
get_valid_agreements_iff_example =
    get_valid_agreements_iff sets sets_hold by_type "dimo.status" "oracle" "2" (refl, tt)
      (refl, (refl, tt))
