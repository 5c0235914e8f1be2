-- ===== src/Platform.antt =====
-- src/platform.rs. The target that the code is compiled for is an argument; so is what Windows says
-- about the rights of the process.
pub mod Elevation
use tauri_vpn_plugin.Common.{
  String, Bool, true, false, not, ◌&&◌, ◌||◌, List, [], ◌∷◌, ◌++◌, if◌then◌else◌,
}
use tauri_vpn_plugin.Errors.{platform, Result, ok, err}

pub data TargetOs : Type 0 where
  windows macos linux android ios other_os : TargetOs

abbrev pub is_windows : TargetOs → Bool
is_windows windows = true
is_windows _ = false

abbrev pub is_macos : TargetOs → Bool
is_macos macos = true
is_macos _ = false

abbrev pub is_linux : TargetOs → Bool
is_linux linux = true
is_linux _ = false

abbrev pub is_ios : TargetOs → Bool
is_ios ios = true
is_ios _ = false

abbrev pub is_android : TargetOs → Bool
is_android android = true
is_android _ = false

-- `any(target_os = "android", target_os = "ios")`
abbrev pub is_mobile : TargetOs → Bool
is_mobile os = is_android os || is_ios os

-- A list of one text, if the condition holds: a conditional `push`.
abbrev pub push_if : Bool → String → List String
push_if b s = if b then s ∷ [] else []

abbrev pub supported_platforms : List String
supported_platforms = "windows" ∷ "macos" ∷ "linux" ∷ "android" ∷ "ios" ∷ []

abbrev pub default_core_name : TargetOs → String
default_core_name os = if is_windows os then "sing-box.exe" else "sing-box"

-- `is_elevated`, which is always true but on Windows.
abbrev pub is_elevated : TargetOs → Bool → Bool
is_elevated os token = if is_windows os then token else true

unfoldable pub check_platform_requirements : TargetOs → Bool → Result (List String)
check_platform_requirements os token =
    if is_windows os && not (is_elevated os token)
    then err (platform "Windows TUN mode requires running KOSTRA VPN as Administrator")
    else ok (
        push_if (is_linux os) "Linux TUN mode may require CAP_NET_ADMIN or root privileges"
        ++ (push_if (is_macos os)
              "macOS system tunnel requires administrator approval to configure the TUN interface"
            ++ (push_if (is_ios os) "iOS requires NetworkExtension entitlements and an app group"
                ++ push_if (is_android os)
                    "Android requires VpnService consent before connecting")))
