-- ===== src/Import/Query.antt =====
-- src/import.rs: what a link's query says of the transport, TLS and REALITY, and the decoders.
use tauri_vpn_plugin.Common.{
  ℕ, ◌%◌, String, Bool, true, false, ◌||◌, List, [], ◌∷◌, Option, none, some, ◌==◌, string_eq,
  nat_eq, if◌then◌else◌,
}
use tauri_vpn_plugin.Common.Bytes.{Bytes}
use tauri_vpn_plugin.Common.Dict.{Dict, get, insert, contains_key}
use tauri_vpn_plugin.Common.Text.{is_blank, len, replace, split}
use tauri_vpn_plugin.Errors.{import_failed, Result, ◌+s◌}
use tauri_vpn_plugin.Models.{
  Transport, TransportKind, tcp, web_socket, grpc, http_upgrade, xhttp, quic, TlsOptions,
  RealityOptions,
}
use tauri_vpn_plugin.Models.Json.{Value}
use tauri_vpn_plugin.Olcrtc.Settings.{or_else, unwrap_or}
use tauri_vpn_plugin.Engine.Calls.{Tried, map_err}

-- What `url::Url` gives of a link.
pub record Url : Type 0 where
  pub scheme : String
  pub username : String
  pub password : Option String
  pub host_str : Option String
  pub port : Option ℕ
  pub path : String
  pub query_pairs : List (String × String)
  pub fragment : Option String

-- `Url::parse`, `form_urlencoded::parse`, the standard decoder of base64, `String::from_utf8` and
-- `serde_json::from_slice`.
pub record Crates : Type 0 where
  pub parse_url : String → Tried Url
  pub form_parse : String → List (String × String)
  pub decode : String → Tried Bytes
  pub from_utf8 : Bytes → Tried String
  pub from_slice : Bytes → Tried Value

-- `collect` into a map: of pairs with one key, the last stays.
abbrev collected : Dict String String → List (String × String) → Dict String String
collected m [] = m
collected m ((k, v) ∷ pairs) = collected (insert k v m) pairs

unfoldable pub query_map : Url → Dict String String
query_map url = collected [] url.query_pairs

abbrev joined : String → List (String × String) → String
joined value [] = value
joined value ((k, v) ∷ pairs) = k +s v

unfoldable pub percent_decode : Crates → String → String
percent_decode c value = joined value (c.form_parse value)

abbrev non_blank_of : Crates → Option String → Option String
non_blank_of c none = none
non_blank_of c (some value) =
    if is_blank (percent_decode c value) then none else some (percent_decode c value)

unfoldable pub fragment_name : Crates → Url → Option String
fragment_name c url = non_blank_of c url.fragment

abbrev padding : ℕ → String
padding missing =
    if missing == 0 then "" else if missing == 1 then "===" else if missing == 2 then "==" else "="

-- The text that is decoded: the standard alphabet, padded.
unfoldable pub padded : String → String
unfolding replace len
padded input =
    let normalized = replace b'_' "/" (replace b'-' "+" input) in
    normalized +s padding (len normalized % 4)

unfoldable pub decode_base64 : Crates → String → Result Bytes
decode_base64 c input =
    map_err (λ text. import_failed ("invalid base64: " +s text)) (c.decode (padded input))

abbrev pub is_one : Option String → String → Bool
is_one none s = false
is_one (some t) s = t == s

abbrev pub kind_of : Option String → TransportKind
kind_of kind =
    if is_one kind "ws" || is_one kind "websocket"
    then web_socket
    else if is_one kind "grpc"
    then grpc
    else if is_one kind "httpupgrade"
    then http_upgrade
    else if is_one kind "xhttp"
    then xhttp
    else if is_one kind "quic"
    then quic
    else tcp

unfoldable pub parse_transport : Dict String String → Transport
parse_transport query = record {
  kind = kind_of (or_else (get "type" query) (get "security" query));
  path = get "path" query;
  host = get "host" query;
  service_name = or_else (get "serviceName" query) (get "service_name" query);
  headers = [];
}

abbrev alpn_of : Option String → List String
alpn_of none = []
alpn_of (some value) = split b',' value

unfoldable pub parse_tls : Dict String String → Option TlsOptions
parse_tls query =
    let security = get "security" query in
    let insecure = or_else (get "allowInsecure" query) (get "insecure" query) in
    if is_one security "tls" || is_one security "reality" || contains_key "sni" query
    then some (record {
      enabled = true;
      server_name = or_else (get "sni" query) (get "peer" query);
      alpn = alpn_of (get "alpn" query);
      insecure = is_one insecure "1" || is_one insecure "true";
      fingerprint = get "fp" query;
    })
    else none

unfoldable pub parse_reality : Dict String String → Option RealityOptions
parse_reality query =
    if is_one (get "security" query) "reality"
    then some (record {
      public_key = unwrap_or (get "pbk" query) "";
      short_id = get "sid" query;
      spider_x = get "spx" query;
    })
    else none
