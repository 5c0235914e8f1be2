-- ===== src/Olcrtc/Client/Requests.antt =====
-- src/olcrtc/client.rs: what the SOCKS5 server makes of the requests that RFC 1928 describes.
use tauri_vpn_plugin.Common.{
  ℕ, zero, suc, ◌^◌, ◌<◌, ◌≡◌, refl, String, [], ◌∷◌, ◌++◌, Option, some, arith, length, nat_eq,
}
use tauri_vpn_plugin.Common.Bytes.{Bytes, u16_to_be_bytes, u16_from-to}
use tauri_vpn_plugin.Errors.{ok}
use tauri_vpn_plugin.Olcrtc.Client.{
  read_exact, socks5_handshake, AddressTexts, read_address, socks5_request,
}

read_exact-append : (n : ℕ) (xs ys : Bytes) → length xs ≡ n → read_exact n (xs ++ ys) ≡ ok (xs, ys)
unfolding read_exact
read_exact-append zero [] ys h = refl
read_exact-append zero (x ∷ xs) ys h = absurd (omega arith)
read_exact-append (suc n) [] ys h = absurd (omega arith)
read_exact-append (suc n) (x ∷ xs) ys h = rw (read_exact-append n xs ys (omega arith)) refl

-- A greeting of version 5 with any list of methods is answered by version 5 and method 0, and
-- exactly the greeting is taken from the input.
pub socks5_handshake_greeting :
    (methods rest : Bytes)
    → socks5_handshake (5 ∷ length methods ∷ (methods ++ rest)) ≡ ok (5 ∷ 0 ∷ [], rest)
unfolding socks5_handshake read_exact
socks5_handshake_greeting methods rest =
    rw (read_exact-append (length methods) methods rest refl) refl

-- The destinations of a request.
pub data Address : Type 0 where
  ipv4 : Bytes → Address
  domain : Bytes → Address
  ipv6 : Bytes → Address

abbrev pub IsAddress : Address → Type 0
IsAddress (ipv4 ip) = length ip ≡ 4
IsAddress (domain name) = length name < 256
IsAddress (ipv6 ip) = length ip ≡ 16

-- Type and bytes of a destination, before `rest`.
abbrev pub encode : Address → Bytes → Bytes
encode (ipv4 ip) rest = 1 ∷ (ip ++ rest)
encode (domain name) rest = 3 ∷ length name ∷ (name ++ rest)
encode (ipv6 ip) rest = 4 ∷ (ip ++ rest)

abbrev pub text_of : AddressTexts → Address → Option String
text_of texts (ipv4 ip) = some (texts.ipv4_text ip)
text_of texts (domain name) = texts.from_utf8 name
text_of texts (ipv6 ip) = some (texts.ipv6_text ip)

-- A connect request for an IPv4 or IPv6 address or a domain of at most 255 bytes of UTF-8 gives the
-- text of the destination and the port, and exactly the request is taken from the input.
pub socks5_request-encode :
    (texts : AddressTexts) (a : Address) (text : String) (port : ℕ) (rest : Bytes)
    → IsAddress a
    → text_of texts a ≡ some text
    → port < 2 ^ 16
    → socks5_request texts (5 ∷ 1 ∷ 0 ∷ encode a (u16_to_be_bytes port ++ rest))
      ≡ ok (text, port, rest)
unfolding socks5_request read_address read_exact
socks5_request-encode texts (ipv4 ip) text port rest h e lt =
    ground (arith, read_exact-append 4 ip (u16_to_be_bytes port ++ rest) h, u16_from-to port lt)
socks5_request-encode texts (domain name) text port rest h e lt =
    rw (read_exact-append (length name) name (u16_to_be_bytes port ++ rest) refl, e)
      (ground (arith, u16_from-to port lt))
socks5_request-encode texts (ipv6 ip) text port rest h e lt =
    rw (read_exact-append 16 ip (u16_to_be_bytes port ++ rest) h)
      (ground (arith, u16_from-to port lt))
