-- ===== src/Config/Routes/Order.antt =====
-- src/config.rs: the order of the routing rules, of which sing-box takes the first that matches.
use tauri_vpn_plugin.Common.{
  String, Bool, true, ◌≡◌, refl, ◌∙◌, ap, List, [], ◌∷◌, ◌++◌, Option, none, some, arith,
  if◌then◌else◌,
}
use tauri_vpn_plugin.Models.{VpnProfile, is_olc_rtc}
use tauri_vpn_plugin.Models.Json.{Value}
use tauri_vpn_plugin.Platform.{TargetOs}
use tauri_vpn_plugin.Config.Routes.{
  mobile_dns_rules, dns_hijack_rules, direct_cidrs_rule, local_network_cidrs, bypass_cidrs,
  bypass_rules, reject_icmp_rule, catch_all_rule, olc_rtc_rules, route_rules_for_profile,
}

-- The first rule that matches a connection.
abbrev pub first_match : (Value → Bool) → List Value → Option Value
first_match hit [] = none
first_match hit (r ∷ rs) = if hit r then some r else first_match hit rs

-- The rules before the one that sends all traffic to the proxy.
abbrev pub rules_before : TargetOs → List String → List String → List Value
rules_before os route_bypass_cidrs upstreams =
    mobile_dns_rules os upstreams
    ++ (dns_hijack_rules
        ++ (direct_cidrs_rule local_network_cidrs
            ∷ (bypass_rules (bypass_cidrs route_bypass_cidrs) ++ (reject_icmp_rule ∷ []))))

-- The first match of two lists in turn.
abbrev pub or_next : Option Value → Option Value → Option Value
or_next none o = o
or_next (some r) o = some r

first_match-append :
    (hit : Value → Bool) (xs ys : List Value)
    → first_match hit (xs ++ ys) ≡ or_next (first_match hit xs) (first_match hit ys)
first_match-append hit [] ys = refl
first_match-append hit (x ∷ xs) ys = ground (arith, first_match-append hit xs ys)

append-snoc :
    (b : List Value) (i : Value) (rest : List Value) → b ++ (i ∷ rest) ≡ (b ++ (i ∷ [])) ++ rest
append-snoc [] i rest = refl
append-snoc (x ∷ b) i rest = ap (λ l. x ∷ l) (append-snoc b i rest)

append-split :
    (a b : List Value) (d e l i : Value) (rest : List Value)
    → a ++ (d ∷ e ∷ l ∷ (b ++ (i ∷ rest))) ≡ (a ++ (d ∷ e ∷ l ∷ (b ++ (i ∷ [])))) ++ rest
append-split [] b d e l i rest = ap (λ t. d ∷ e ∷ l ∷ t) (append-snoc b i rest)
append-split (x ∷ a) b d e l i rest = ap (λ t. x ∷ t) (append-split a b d e l i rest)

rules_split :
    (os : TargetOs) (p : VpnProfile) (cidrs upstreams : List String)
    → route_rules_for_profile os p cidrs upstreams
      ≡ rules_before os cidrs upstreams
        ++ (catch_all_rule ∷ (if is_olc_rtc p.protocol then olc_rtc_rules else []))
unfolding route_rules_for_profile
rules_split os p cidrs upstreams =
    append-split (mobile_dns_rules os upstreams) (bypass_rules (bypass_cidrs cidrs)) _ _ _ _ _

-- A connection that the rule for all TCP and UDP traffic matches is decided by the first matching rule
-- of those before it, and by that rule itself if none of them matches, for every profile: the rules
-- that an OLC RTC profile adds behind it, which route its signalling hosts and media ports around
-- the tunnel, do not decide such a connection.
pub route_rules-first_match :
    (os : TargetOs) (p : VpnProfile) (cidrs upstreams : List String) (hit : Value → Bool)
    → hit catch_all_rule ≡ true
    → first_match hit (route_rules_for_profile os p cidrs upstreams)
      ≡ or_next (first_match hit (rules_before os cidrs upstreams)) (some catch_all_rule)
route_rules-first_match os p cidrs upstreams hit h =
    ap (first_match hit) (rules_split os p cidrs upstreams)
    ∙ first_match-append hit _ _
    ∙ ap
        (λ b. or_next (first_match hit (rules_before os cidrs upstreams)) (
          if b
          then some catch_all_rule
          else first_match hit (if is_olc_rtc p.protocol then olc_rtc_rules else [])))
        h
