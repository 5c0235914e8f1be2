-- ===== src/MacosVpn/Succeeds.antt =====
-- src/macos_vpn.rs: a start over a framework whose calls all complete and succeed.
use tauri_vpn_plugin.Common.{◌≡◌, refl, String, true, List, Option, none, some}
use tauri_vpn_plugin.Common.Dict.{Dict}
use tauri_vpn_plugin.Errors.{ok}
use tauri_vpn_plugin.Engine.Calls.{value}
use tauri_vpn_plugin.MacosVpn.Framework.{Manager, done, Framework}
use tauri_vpn_plugin.MacosVpn.Profile.{
  ◌>>=◌, find_manager, configured, tunnel_description, save_vpn_profile, load_manager,
  start_vpn_profile, start_session, loaded, configure_and_save, found_or_new,
}
use tauri_vpn_plugin.MacosVpn.Store.{IsDistinct, IsStore}
use tauri_vpn_plugin.MacosVpn.Starts.{find-store, save_vpn_profile-store}

-- A framework whose calls all complete and succeed.
pub record IsResponsive {S : Type 0} (fw : Framework S) : Type 0 where
  pub loads : (s : S) → (managers : Option (List Manager)) × ((fw.load_all s).0 ≡ done managers)
  pub saves : (m : Manager) (s : S) → (fw.save m s).0 ≡ done tt
  pub sessions : (m : Manager) (s : S) → fw.is_tunnel_session m s ≡ true
  pub starts :
      (m : Manager) (options : Dict String String) (s : S)
      → (fw.start_tunnel m options s).0 ≡ value tt

module _ {S : Type 0} (fw : Framework S) (contents : S → List Manager) (law : IsStore fw contents)
    (responds : IsResponsive fw) where
  save_found-ok :
      (profile_id : Option String) (found : Option Manager) (s : S)
      → (configure_and_save fw profile_id (found_or_new fw found s)).0 ≡ ok tt
  save_found-ok profile_id none s = rw (responds.saves _ _) refl
  save_found-ok profile_id (some m) s = rw (responds.saves _ _) refl

  save_vpn_profile-ok :
      (config_json profile_id : Option String) (s : S)
      → (save_vpn_profile fw config_json profile_id s).0 ≡ ok tt
  unfolding save_vpn_profile
  save_vpn_profile-ok config_json profile_id s =
      let (managers, e) = responds.loads s in
      rw e (save_found-ok profile_id (find_manager managers tunnel_description) (fw.load_all s).1)

  load_manager-ok :
      (s : S) (m : Manager)
      → find_manager (some (contents s)) tunnel_description ≡ some m
      → (load_manager fw s).0 ≡ ok m
  unfolding load_manager
  load_manager-ok s m found =
      let (managers, e) = responds.loads s in
      rw e (rw (law.loads s managers e) (rw (found, loaded) refl))

  start_session-responds :
      (config_json : String) (m : Manager) (s : S) → (start_session fw config_json m s).0 ≡ ok tt
  start_session-responds config_json m s = rw (responds.sessions m s, responds.starts m _ s) refl

  -- While the framework's calls complete and succeed, and it keeps the managers as it documents, a start
  -- succeeds whatever managers are saved under distinct references: the profile is made where there is
  -- none, and is always found again after the save.
  pub start_vpn_profile-ok :
      (config_json : String) (profile_id : Option String) (s : S)
      → IsDistinct (contents s)
      → (start_vpn_profile fw config_json profile_id s).0 ≡ ok tt
  unfolding start_vpn_profile
  start_vpn_profile-ok config_json profile_id s distinct =
      let saved = save_vpn_profile-ok (some config_json) profile_id s in
      let (m, own, stored) =
        save_vpn_profile-store fw contents law (some config_json) profile_id s saved in
      let u = (save_vpn_profile fw (some config_json) profile_id s).1 in
      let there : find_manager (some (contents u)) tunnel_description
          ≡ some (configured profile_id m) =
        rw stored (find-store profile_id (contents s) m distinct own) in
      rw (saved, ◌>>=◌)
        (rw (load_manager-ok u (configured profile_id m) there, ◌>>=◌)
          (start_session-responds config_json _ _))
