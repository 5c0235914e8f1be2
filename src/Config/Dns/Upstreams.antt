-- ===== src/Config/Dns/Upstreams.antt =====
-- src/config.rs: the DNS upstreams and the servers that are configured for them.
use tauri_vpn_plugin.Common.{
  ℕ, suc, String, Bool, true, ◌≡◌, refl, List, [], ◌∷◌, map, Option, none, some, arith, string_eq,
  Option-cases, inl, inr, filterb, All,
}
use tauri_vpn_plugin.Common.Text.{trim, contains}
use tauri_vpn_plugin.Common.Dict.{get}
use tauri_vpn_plugin.Models.{ConnectOptions}
use tauri_vpn_plugin.Models.Json.{Value, string, object, fields}
use tauri_vpn_plugin.Config.Dns.{
  is_ipv4_text, or_default, dns_tag, dns_upstreams_for_options, public_doh_server_name,
  dns_server_for_upstream, servers_from, bootstrap_server, dns_servers_for_upstreams,
}

-- A field of an object.
abbrev pub member : String → Value → Option Value
member key (object fs) = get key (fields fs)
member key _ = none

filterb-All : (p : String → Bool) (xs : List String) → All (λ s. p s ≡ true) (filterb p xs)
filterb-All p [] = tt
filterb-All p (x ∷ xs) = ground (arith, filterb-All p xs)

or_default-All :
    (xs : List String)
    → All (λ s. is_ipv4_text s ≡ true) xs
    → All (λ s. is_ipv4_text s ≡ true) (or_default xs)
unfolding contains
or_default-All [] h = (refl, (refl, tt))
or_default-All (x ∷ xs) h = h

or_default-cons : (xs : List String) → (s : String) × (ss : List String) × (or_default xs ≡ s ∷ ss)
or_default-cons [] = (_, _, refl)
or_default-cons (x ∷ xs) = (x, xs, refl)

-- What the server for an upstream is: it carries the upstream's address and the tag of its index,
-- and its queries go through the proxy.
pub record IsTunnelled (index : ℕ) (upstream : String) (v : Value) : Type 0 where
  pub tag : member "tag" v ≡ some (string (dns_tag index))
  pub server : member "server" v ≡ some (string upstream)
  pub detour : member "detour" v ≡ some (string "proxy")

pub dns_server-IsTunnelled : (i : ℕ) (s : String) → IsTunnelled i s (dns_server_for_upstream i s)
unfolding get dns_server_for_upstream
dns_server-IsTunnelled i s = elim (Option-cases (public_doh_server_name s)) [
  | inl e ↦ rw (e, dns_server_for_upstream) (record { tag = refl; server = refl; detour = refl })
  | inr (n, e) ↦
      rw (e, dns_server_for_upstream) (record { tag = refl; server = refl; detour = refl })
]

-- The servers of the upstreams, one for each in order.
abbrev pub AreTunnelled : ℕ → List String → List Value → Type 0
AreTunnelled i [] [] = Unit
AreTunnelled i (s ∷ ss) (v ∷ vs) = IsTunnelled i s v × AreTunnelled (suc i) ss vs
AreTunnelled i _ _ = ⊥

servers_from-AreTunnelled : (i : ℕ) (ss : List String) → AreTunnelled i ss (servers_from i ss)
unfolding servers_from
servers_from-AreTunnelled i [] = tt
servers_from-AreTunnelled i (s ∷ ss) =
    (dns_server-IsTunnelled i s, servers_from-AreTunnelled (suc i) ss)

-- Whatever servers the options name, there is an upstream, and no upstream is empty or contains a
-- colon. The configured servers are a bootstrap server, with the address of the first upstream and
-- no detour, then one server for each upstream in order, tagged by its index from "dns-0" on, with
-- the upstream's address and the proxy as its detour.
pub dns_servers-AreTunnelled :
    (options : ConnectOptions)
    → let upstreams = dns_upstreams_for_options options in
      All (λ s. is_ipv4_text s ≡ true) upstreams
      × ((s : String) × (ss : List String) × (vs : List Value) × (upstreams ≡ s ∷ ss)
          × (dns_servers_for_upstreams upstreams ≡ bootstrap_server s ∷ vs)
          × (member "detour" (bootstrap_server s) ≡ none)
          × AreTunnelled 0 (s ∷ ss) vs)
unfolding dns_upstreams_for_options dns_servers_for_upstreams get
dns_servers-AreTunnelled options =
    let kept = filterb is_ipv4_text (map trim options.dns.servers) in
    let (s, ss, e) = or_default-cons kept in
    (
      or_default-All kept (filterb-All is_ipv4_text (map trim options.dns.servers)),
      (s, ss, servers_from 0 (s ∷ ss), e, rw e refl, refl, servers_from-AreTunnelled 0 (s ∷ ss)),
    )
