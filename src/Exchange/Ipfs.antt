-- ===== src/Exchange/Ipfs.antt =====
-- internal/exchange/services/ipfs_service.go: documents from IPFS.
use Prim.Native.String
use Prim.Native.String.{len}
use text.Mathlib.Text.{starts_with}
use dauth.Base.{
  ℕ, String, List, not, ◌&&◌, ◌==◌, if◌then◌else◌, str_eq, show, ◌⧺◌, plain, wrap, rich, rich_of,
  Duration, second, pos, int_eq, ◌*◌, Result, ok, err,
}
use dauth.Exchange.Models.{Library, Json, RawEvent}

pub record Response : Type 0 where
  pub status_code : ℕ
  pub body : Result (List ℕ)

-- net/url and net/http, for a client of one base URL with its timeout: JoinPath of the base, the
-- construction of the request, and the sending of it.
pub record Http : Type 0 where
  pub join_path : String → String
  pub new_request : String → Result (Unit {0})
  pub send : String → Result Response

abbrev pub default_ipfs_timeout : Duration
default_ipfs_timeout = pos (30 * second)

-- NewIPFSClient, over url.Parse, time.ParseDuration and the client of a base URL and a timeout.
unfoldable pub new_ipfs_client :
    {U : Type 0}
    → (String → Result U)
    → (String → Result Duration)
    → (U → Duration → Http)
    → String
    → String
    → Result Http
new_ipfs_client parse_url parse_duration client ipfs_base_url ipfs_timeout =
    elim (parse_url ipfs_base_url) [
      | err e ↦ err (wrap "invalid IPFS base URL" e)
      | ok url ↦ elim (parse_duration ipfs_timeout) [
        | err e ↦ err (wrap "failed to parse ipfs duration" e)
        | ok timeout ↦
            ok (client url (if int_eq timeout (pos 0) then default_ipfs_timeout else timeout))
      ]
    ]

-- strings.TrimPrefix
pub trim_prefix : String → String → String
trim_prefix s prefix = if starts_with s prefix then String.slice s (len prefix) (len s) else s

module _ (lib : Library) (json : Json) (http : Http) where
  pub fetch : String → Result (List ℕ)
  unfolding trim_prefix
  fetch cid =
      let uri = http.join_path (trim_prefix cid "ipfs://") in
      elim (http.new_request uri) [
        | err e ↦ err (wrap "failed to create HTTP request" e)
        | ok _ ↦ elim (http.send uri) [
          | err e ↦ err (wrap "failed to execute request" e)
          | ok resp ↦ elim resp.body [
            | err e ↦ err (wrap "failed to read response body" e)
            | ok body ↦
                if not (resp.status_code == 200)
                then err (plain ("invalid ipfs status code: " ⧺ show resp.status_code))
                else ok body
          ]
        ]
      ]

  pub get_valid_sacd_doc : String → Result RawEvent
  unfolding fetch
  get_valid_sacd_doc source = elim (fetch source) [
    | err e ↦ err (
        rich_of 400 "failed to fetch source document from IPFS"
          (wrap "failed to fetch source document from IPFS" e))
    | ok doc ↦ elim (json.event doc) [
      | err e ↦ err (rich_of 400 "failed to parse sacd data" (wrap "failed to parse sacd data" e))
      | ok record' ↦
          if not (str_eq record'.type lib.type_sacd)
            && not (str_eq record'.type lib.type_sacd_template)
          then err (
              rich 400 (
                "invalid type: expected '" ⧺ lib.type_sacd ⧺ "' or '" ⧺ lib.type_sacd_template
                ⧺ "', got '" ⧺ record'.type ⧺ "'"))
          else ok record'
    ]
  ]
