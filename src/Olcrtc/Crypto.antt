-- ===== src/Olcrtc/Crypto.antt =====
-- src/olcrtc/crypto.rs. XChaCha20Poly1305 is a parameter (`Aead`), and so is the random nonce, an
-- argument of `encrypt`. Where the source may panic, the result is an `Option` with `none` for that.
pub mod Hex
pub mod Sealing
use tauri_vpn_plugin.Common.{
  ℕ, zero, suc, ◌+◌, ◌-◌, ◌*◌, String, Bool, true, false, ◌&&◌, not, List, [], ◌∷◌, ◌++◌, Option,
  none, some, leb, ltb, ◌==◌, nat_eq, if◌then◌else◌, length, take, drop,
}
use Prim.Native.Char.{code}
use tauri_vpn_plugin.Common.Bytes.{Bytes}
use tauri_vpn_plugin.Common.Text.{len, utf8_width}
use tauri_vpn_plugin.Errors.{VpnError, invalid_profile, engine, Result, ok, err, ◌+s◌}

-- The value of a hexadecimal digit: `char::to_digit(16)`.
abbrev pub digit : ℕ → Option ℕ
digit c =
    if leb b'0' c && leb c b'9'
    then some (c - b'0')
    else if leb b'a' c && leb c b'f'
    then some (c - b'a' + 10)
    else if leb b'A' c && leb c b'F'
    then some (c - b'A' + 10)
    else none

abbrev pub two_digits : Option ℕ → Option ℕ → Option ℕ
two_digits (some a) (some b) = some (a * 16 + b)
two_digits (some a) none = none
two_digits none b = none

-- `u8::from_str_radix(…, 16)` of two ASCII characters: a `+` may stand before the digits.
abbrev pub from_str_radix : ℕ → ℕ → Option ℕ
from_str_radix a b = if a == b'+' then digit b else two_digits (digit a) (digit b)

-- The two bytes of a slice that starts at a character boundary: two ASCII characters, or one
-- character of two bytes, which is no digit; any other slice ends inside a character and panics.
pub data Pair : Type 0 where
  ascii : ℕ → ℕ → String → Pair
  wide : Pair
  broken : Pair

abbrev second_byte : ℕ → String → Pair
second_byte a String.[] = broken
second_byte a (String.◌∷◌ c s) = if utf8_width (code c) == 1 then ascii a (code c) s else broken

abbrev next_pair : String → Pair
next_pair String.[] = broken
next_pair (String.◌∷◌ c s) =
    if utf8_width (code c) == 1
    then second_byte (code c) s
    else if utf8_width (code c) == 2
    then wide
    else broken

abbrev not_hexadecimal : VpnError
not_hexadecimal = invalid_profile "OLC RTC shared key must be hexadecimal"

abbrev push : ℕ → Option (Result Bytes) → Option (Result Bytes)
push b none = none
push b (some (err e)) = some (err e)
push b (some (ok bs)) = some (ok (b ∷ bs))

abbrev decode_byte : Option ℕ → Option (Result Bytes) → Option (Result Bytes)
decode_byte none rest = some (err not_hexadecimal)
decode_byte (some byte) rest = push byte rest

abbrev decode_pair : Pair → (String → Option (Result Bytes)) → Option (Result Bytes)
decode_pair broken decode = none
decode_pair wide decode = some (err not_hexadecimal)
decode_pair (ascii a b rest) decode = decode_byte (from_str_radix a b) (decode rest)

-- The loop over `index`, from the input that is left.
decode_pairs : ℕ → String → Option (Result Bytes)
decode_pairs zero s = some (ok [])
decode_pairs (suc n) s = decode_pair (next_pair s) (decode_pairs n)

unfoldable pub decode_hex_32 : String → Option (Result Bytes)
unfolding decode_pairs
decode_hex_32 input =
    if not (len input == 64)
    then some (err (invalid_profile "OLC RTC shared key must be a 32-byte hex string"))
    else decode_pairs 32 input

-- The cipher: a key of 32 bytes, and the library's calls with their error's text.
pub record Aead : Type 0 where
  pub seal : Bytes → Bytes → Bytes → Option Bytes
  pub open_sealed : Bytes → Bytes → Bytes → Option Bytes
  pub error : String

pub record OlcCipher : Type 0 where
  pub key : Bytes

abbrev pub to_cipher : Option (Result Bytes) → Option (Result OlcCipher)
to_cipher none = none
to_cipher (some (err e)) = some (err e)
to_cipher (some (ok key)) = some (ok (record { key = key }))

unfoldable pub from_hex : String → Option (Result OlcCipher)
from_hex key_hex = to_cipher (decode_hex_32 key_hex)

module _ (aead : Aead) where
  unfoldable pub encrypt : OlcCipher → Bytes → Bytes → Result Bytes
  encrypt c nonce plaintext = elim (aead.seal c.key nonce plaintext) [
    | none ↦ err (engine ("OLC RTC encrypt failed: " +s aead.error))
    | some encrypted ↦ ok (nonce ++ encrypted)
  ]

  unfoldable pub decrypt : OlcCipher → Bytes → Result Bytes
  decrypt c ciphertext =
      if ltb (length ciphertext) 24
      then err (engine "OLC RTC ciphertext shorter than nonce")
      else elim (aead.open_sealed c.key (take 24 ciphertext) (drop 24 ciphertext)) [
        | none ↦ err (engine ("OLC RTC decrypt failed: " +s aead.error))
        | some plaintext ↦ ok plaintext
      ]
