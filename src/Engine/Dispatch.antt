-- ===== src/Engine/Dispatch.antt =====
-- src/engine.rs: `start` and `stop`, which choose the code of the target.
use tauri_vpn_plugin.Common.{String, Bool, List, if◌then◌else◌}
use tauri_vpn_plugin.Models.{ConnectOptions}
use tauri_vpn_plugin.Platform.{TargetOs, is_mobile}
use tauri_vpn_plugin.Engine.Calls.{Action, Tried}
use tauri_vpn_plugin.Engine.Desktop.{StartAnswers, start_desktop}
use tauri_vpn_plugin.Engine.Stop.{StopAnswers, stop_desktop}
use tauri_vpn_plugin.Engine.Mobile.{MobileAnswers, start_mobile, stop_mobile}

abbrev pub start : TargetOs → MobileAnswers → StartAnswers → ConnectOptions → Action (List String)
start os mobile desktop options =
    if is_mobile os then start_mobile os mobile options else start_desktop os desktop options

abbrev pub stop : TargetOs → Bool → Tried (Unit {0}) → StopAnswers → Action (Unit {0})
stop os handle native_stop desktop =
    if is_mobile os then stop_mobile handle native_stop else stop_desktop os desktop
