-- ===== src/Olcrtc/Crypto/Sealing.antt =====
-- src/olcrtc/crypto.rs, `encrypt` and `decrypt`.
use tauri_vpn_plugin.Common.{
  ℕ, zero, suc, ◌≡◌, refl, ap, [], ◌∷◌, ◌++◌, some, arith, length, length-append, take, drop,
  Option-cases, inl, inr,
}
use tauri_vpn_plugin.Common.Bytes.{Bytes}
use tauri_vpn_plugin.Errors.{ok}
use tauri_vpn_plugin.Olcrtc.Crypto.{Aead, OlcCipher, encrypt, decrypt}

-- What the cipher promises: what it seals, it opens again under the same key and nonce.
abbrev pub IsCipher : Aead → Type 0
IsCipher aead =
    (key nonce plaintext sealed : Bytes)
    → aead.seal key nonce plaintext ≡ some sealed
    → aead.open_sealed key nonce sealed ≡ some plaintext

take_prefix : (n : ℕ) (xs ys : Bytes) → length xs ≡ n → take n (xs ++ ys) ≡ xs
take_prefix zero [] ys h = refl
take_prefix zero (x ∷ xs) ys h = absurd (omega arith)
take_prefix (suc n) [] ys h = absurd (omega arith)
take_prefix (suc n) (x ∷ xs) ys h = ap (λ r. x ∷ r) (take_prefix n xs ys (omega arith))

drop_prefix : (n : ℕ) (xs ys : Bytes) → length xs ≡ n → drop n (xs ++ ys) ≡ ys
drop_prefix zero [] ys h = refl
drop_prefix zero (x ∷ xs) ys h = absurd (omega arith)
drop_prefix (suc n) [] ys h = absurd (omega arith)
drop_prefix (suc n) (x ∷ xs) ys h = drop_prefix n xs ys (omega arith)

pub encrypt-sealed :
    (aead : Aead) (c : OlcCipher) (nonce plaintext sealed : Bytes)
    → aead.seal c.key nonce plaintext ≡ some sealed
    → encrypt aead c nonce plaintext ≡ ok (nonce ++ sealed)
unfolding encrypt
encrypt-sealed aead c nonce plaintext sealed made = rw (made, encrypt)

module _ (aead : Aead) (law : IsCipher aead) where
  -- With a cipher that opens what it seals, a ciphertext that `encrypt` made with a nonce of 24
  -- bytes decrypts to the plaintext.
  pub decrypt-encrypt :
      (c : OlcCipher) (nonce plaintext ciphertext : Bytes)
      → length nonce ≡ 24
      → encrypt aead c nonce plaintext ≡ ok ciphertext
      → decrypt aead c ciphertext ≡ ok plaintext
  unfolding encrypt decrypt
  decrypt-encrypt c nonce plaintext ciphertext h e =
      elim (Option-cases (aead.seal c.key nonce plaintext)) [
        | inl failed ↦ ground arith
        | inr (sealed, made) ↦
            let same : nonce ++ sealed ≡ ciphertext = ground arith in
            rw (← same) (
              ground (
                arith,
                length-append nonce sealed,
                take_prefix 24 nonce sealed h,
                drop_prefix 24 nonce sealed h,
                law c.key nonce plaintext sealed made,
              ))
      ]
