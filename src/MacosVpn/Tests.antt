-- ===== src/MacosVpn/Tests.antt =====
-- Runs of src/macos_vpn.rs over a framework that keeps a list of managers.
use tauri_vpn_plugin.Common.{
  ℕ, suc, ◌+◌, ◌≤◌, ◌≡◌, refl, true, List, [], ◌∷◌, none, some, arith, nat_eq, string_eq,
}
use tauri_vpn_plugin.Errors.{ok}
use tauri_vpn_plugin.Engine.Calls.{value}
use tauri_vpn_plugin.MacosVpn.Framework
use tauri_vpn_plugin.MacosVpn.Framework.{Manager, done, Framework}
use tauri_vpn_plugin.MacosVpn.Profile.{
  find_manager, configured, save_vpn_profile, load_manager, start_vpn_profile,
}
use tauri_vpn_plugin.MacosVpn.Store.{store, IsFresh, IsStore, others}
use tauri_vpn_plugin.MacosVpn.Starts.{IsOwn, start_vpn_profile-starts}
use tauri_vpn_plugin.MacosVpn.Succeeds.{IsResponsive, start_vpn_profile-ok}

abbrev next_reference : List Manager → ℕ
next_reference [] = 0
next_reference (m ∷ managers) = suc (m.reference + next_reference managers)

next_reference-IsFresh :
    (n : ℕ) (managers : List Manager) → next_reference managers ≤ n → IsFresh n managers
next_reference-IsFresh n [] h = tt
next_reference-IsFresh n (m ∷ managers) h =
    (λ e. omega (arith, e, h), next_reference-IsFresh n managers (omega arith))

abbrev keeping : Framework (List Manager)
keeping = record {
  load_all = λ s. (done (some s), s);
  new_manager = λ s. (
    record {
      reference = next_reference s;
      localized_description = none;
      protocol_configuration = none;
      enabled = true;
    },
    s,
  );
  save = λ m s. (done tt, store m s);
  is_tunnel_session = λ m s. true;
  start_tunnel = λ m options s. (value tt, s);
  stop_tunnel = λ m s. s;
  connection_status = λ m s. Framework.connected;
}

keeping-IsStore : IsStore keeping (λ s. s)
keeping-IsStore = record {
  loads = λ s managers e. cc;
  load_keeps = λ s. refl;
  makes_new = λ s. next_reference-IsFresh _ s (omega arith);
  new_keeps = λ s. refl;
  saves = λ m s e. refl;
}

keeping-IsResponsive : IsResponsive keeping
keeping-IsResponsive = record {
  loads = λ s. (some s, refl);
  saves = λ m s. refl;
  sessions = λ m s. refl;
  starts = λ m options s. refl;
}

-- Another program's manager.
abbrev work : Manager
work = record {
  reference = 5;
  localized_description = some "Work";
  protocol_configuration = none;
  enabled = true;
}

start_vpn_profile-ok_example : (start_vpn_profile keeping "{}" (some "id") (work ∷ [])).0 ≡ ok tt
start_vpn_profile-ok_example =
    start_vpn_profile-ok keeping (λ s. s) keeping-IsStore keeping-IsResponsive "{}" (some "id")
      (work ∷ []) (tt, tt)

start_vpn_profile-starts_example :
    (m : Manager) × (t : List Manager) × IsOwn m (work ∷ [])
    × (t ≡ store (configured (some "id") m) (work ∷ []))
    × (others m.reference t ≡ others m.reference (work ∷ []))
    × (keeping.is_tunnel_session (configured (some "id") m) t ≡ true)
    × (keeping.start_tunnel (configured (some "id") m) (("configContent", "{}") ∷ []) t
        ≡ (value tt, (start_vpn_profile keeping "{}" (some "id") (work ∷ [])).1))
unfolding start_vpn_profile save_vpn_profile load_manager find_manager configured store
start_vpn_profile-starts_example =
    start_vpn_profile-starts keeping (λ s. s) keeping-IsStore "{}" (some "id") (work ∷ []) (tt, tt)
      refl
