-- ===== src/MacosVpn/Framework.antt =====
-- src/macos_vpn.rs: what it calls of NetworkExtension, and the values that it hands over.
use tauri_vpn_plugin.Common.{ℕ, String, Bool, List, Option}
use tauri_vpn_plugin.Common.Dict.{Dict}
use tauri_vpn_plugin.Engine.Calls.{Tried}

-- NETunnelProviderProtocol
pub record TunnelProtocol : Type 0 where
  pub provider_bundle_identifier : Option String
  pub server_address : Option String
  pub provider_configuration : Option (Dict String String)

-- NETunnelProviderManager: a reference that tells one from another, and the properties that are set.
pub record Manager : Type 0 where
  pub reference : ℕ
  pub localized_description : Option String
  pub protocol_configuration : Option TunnelProtocol
  pub enabled : Bool

-- NEVPNStatus
pub data NeVpnStatus : Type 0 where
  invalid disconnected connecting connected reasserting disconnecting : NeVpnStatus

-- What a completion handler is called with: a value, or an error with its localized description.
pub data Completion (A : Type 0) : Type 0 where
  done : A → Completion A
  fails : Option String → Completion A
  waits : Completion A

pub record Framework (S : Type 0) : Type 0 where
  pub load_all : S → Completion (Option (List Manager)) × S
  pub new_manager : S → Manager × S
  pub save : Manager → S → Completion (Unit {0}) × S
  pub is_tunnel_session : Manager → S → Bool
  pub start_tunnel : Manager → Dict String String → S → Tried (Unit {0}) × S
  pub stop_tunnel : Manager → S → S
  pub connection_status : Manager → S → NeVpnStatus
