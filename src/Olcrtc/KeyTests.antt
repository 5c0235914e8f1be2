-- ===== src/Olcrtc/KeyTests.antt =====
-- Runs of src/olcrtc/crypto.rs.
use tauri_vpn_plugin.Common.{ℕ, zero, suc, String, [], ◌∷◌, Option, none, some, arith, nat_eq}
use tauri_vpn_plugin.Common.Bytes.{Bytes}
use tauri_vpn_plugin.Olcrtc.Crypto.{Aead}
use tauri_vpn_plugin.Olcrtc.Crypto.Sealing.{IsCipher}

-- A cipher that adds a byte, as a tag, behind the plaintext.
abbrev pub open_tagged : Bytes → Option Bytes
open_tagged [] = none
open_tagged (tag ∷ plaintext) = some plaintext

abbrev pub tagging : Aead
tagging = record {
  seal = λ key nonce plaintext. some (0 ∷ plaintext);
  open_sealed = λ key nonce sealed. open_tagged sealed;
  error = "aead::Error";
}

pub tagging-IsCipher : IsCipher tagging
tagging-IsCipher key nonce plaintext sealed e = ground arith

abbrev pub zeros : ℕ → Bytes
zeros zero = []
zeros (suc n) = 0 ∷ zeros n

abbrev key_hex : String
key_hex = "00000000000000000000000000000000000000000000000000000000000000ff"
