-- ===== src/Olcrtc/Crypto/Hex.antt =====
-- src/olcrtc/crypto.rs, `decode_hex_32`.
use tauri_vpn_plugin.Common.{
  ℕ, zero, suc, ◌+◌, ◌-◌, ◌*◌, ◌≡◌, refl, String, true, [], ◌∷◌, Option, none, some, arith, length,
  leb, Bool-cases, inl, inr, nat_eq, nat_beq_iff, if◌then◌else◌, ◌==◌,
}
use Prim.Native.Char.{code}
use tauri_vpn_plugin.Common.Bytes.{Bytes}
use tauri_vpn_plugin.Common.Text.{len, utf8_width, all_chars, is_ascii_hexdigit}
use tauri_vpn_plugin.Errors.{Result, ok, err}
use tauri_vpn_plugin.Olcrtc.Crypto.{
  push, Pair, broken, wide, ascii, decode_byte, decode_pair, from_str_radix, next_pair,
  decode_pairs, decode_hex_32,
}

-- The bytes that a text of hexadecimal digits stands for, two digits to a byte.
abbrev pub digit_value : ℕ → ℕ
digit_value c = if leb c b'9' then c - b'0' else if leb b'a' c then c - b'a' + 10 else c - b'A' + 10

abbrev pub hex_bytes : String → Bytes
hex_bytes String.[] = []
hex_bytes (String.◌∷◌ a String.[]) = []
hex_bytes (String.◌∷◌ a (String.◌∷◌ b s)) =
    (digit_value (code a) * 16 + digit_value (code b)) ∷ hex_bytes s

hexdigit-width : (c : ℕ) → is_ascii_hexdigit c ≡ true → utf8_width c ≡ 1
unfolding is_ascii_hexdigit
hexdigit-width c h = ground arith

pair-value :
    (a b : ℕ)
    → is_ascii_hexdigit a ≡ true
    → is_ascii_hexdigit b ≡ true
    → from_str_radix a b ≡ some (digit_value a * 16 + digit_value b)
unfolding is_ascii_hexdigit
pair-value a b p q = ground arith

decode_pairs-hex :
    (n : ℕ) (s : String)
    → len s ≡ n + n
    → all_chars is_ascii_hexdigit s ≡ true
    → decode_pairs n s ≡ some (ok (hex_bytes s))
unfolding decode_pairs len all_chars
decode_pairs-hex zero String.[] e h = refl
decode_pairs-hex zero (String.◌∷◌ a s) e h = ground (arith, hexdigit-width (code a))
decode_pairs-hex (suc n) String.[] e h = absurd (omega arith)
decode_pairs-hex (suc n) (String.◌∷◌ a String.[]) e h =
    absurd (ground (arith, hexdigit-width (code a)))
decode_pairs-hex (suc n) (String.◌∷◌ a (String.◌∷◌ b s)) e h = ground (
  arith,
  hexdigit-width (code a),
  hexdigit-width (code b),
  pair-value (code a) (code b),
  decode_pairs-hex n s,
)

-- A key of 64 hexadecimal digits decodes, without a panic, to the bytes that its digits stand for.
pub decode_hex_32-hex :
    (s : String)
    → len s ≡ 64
    → all_chars is_ascii_hexdigit s ≡ true
    → decode_hex_32 s ≡ some (ok (hex_bytes s))
unfolding decode_hex_32
decode_hex_32-hex s e h = rw e (decode_pairs-hex 32 s (omega arith) h)

push-length :
    (n b : ℕ) (r : Option (Result Bytes)) (key : Bytes)
    → ((k : Bytes) → r ≡ some (ok k) → length k ≡ n)
    → push b r ≡ some (ok key)
    → length key ≡ suc n
push-length n b none key ih h = absurd (cc)
push-length n b (some (err e)) key ih h = absurd (cc)
push-length n b (some (ok k)) key ih h = ground (arith, ih k refl)

module _ (n : ℕ) (key : Bytes)
    (ih : (s : String) (k : Bytes) → decode_pairs n s ≡ some (ok k) → length k ≡ n) where
  byte-length :
      (byte : Option ℕ) (rest : String)
      → decode_byte byte (decode_pairs n rest) ≡ some (ok key)
      → length key ≡ suc n
  byte-length none rest h = absurd (cc)
  byte-length (some b) rest h = push-length n b (decode_pairs n rest) key (ih rest) h

  pair-length : (p : Pair) → decode_pair p (decode_pairs n) ≡ some (ok key) → length key ≡ suc n
  pair-length broken h = absurd (cc)
  pair-length wide h = absurd (cc)
  pair-length (ascii a b rest) h = byte-length (from_str_radix a b) rest h

decode_pairs-length :
    (n : ℕ) (s : String) (key : Bytes) → decode_pairs n s ≡ some (ok key) → length key ≡ n
unfolding decode_pairs
decode_pairs-length zero s key h = ground arith
decode_pairs-length (suc n) s key h = pair-length n key (decode_pairs-length n) (next_pair s) h

-- A key that decodes has 32 bytes, and its text 64.
pub decode_hex_32-length :
    (s : String) (key : Bytes) → decode_hex_32 s ≡ some (ok key) → (length key ≡ 32) × (len s ≡ 64)
unfolding decode_hex_32
decode_hex_32-length s key h = elim (Bool-cases (len s == 64)) [
  | inl e ↦ (decode_pairs-length 32 s key (rw e at h), (nat_beq_iff _ _).0 e)
  | inr e ↦ absurd (ground arith)
]
