-- ===== src/Olcrtc/Frame/Chunks.antt =====
-- src/olcrtc/mux.rs, `data.chunks(CHUNK_SIZE)`: the chunks make up the data, and none is empty or
-- longer than the given size.
use tauri_vpn_plugin.Common.{
  ℕ, List, ◌≢◌, zero, suc, ◌<◌, ◌≤◌, ◌≡◌, refl, ap, ◌∙◌, [], ◌∷◌, ◌++◌, arith, length, take, drop,
  concat, All, take-append-drop, length-drop, length-take-le,
}
use tauri_vpn_plugin.Common.Bytes.{Bytes}
use tauri_vpn_plugin.Olcrtc.Frame.{chunks_fuel, chunks}

concat-chunks_fuel :
    (fuel size : ℕ) (bs : Bytes) → length bs ≤ fuel → concat (chunks_fuel fuel (suc size) bs) ≡ bs
unfolding chunks_fuel
concat-chunks_fuel fuel size [] h = refl
concat-chunks_fuel zero size (b ∷ bs) h = absurd (omega arith)
concat-chunks_fuel (suc fuel) size (b ∷ bs) h =
    ap (λ r. take (suc size) (b ∷ bs) ++ r)
      (concat-chunks_fuel fuel size (drop size bs) (omega (arith, length-drop size bs)))
    ∙ take-append-drop (suc size) (b ∷ bs)

pub concat-chunks : (size : ℕ) (bs : Bytes) → 0 < size → concat (chunks size bs) ≡ bs
unfolding chunks
concat-chunks zero bs h = absurd (omega arith)
concat-chunks (suc size) bs h = concat-chunks_fuel (length bs) size bs (omega arith)

abbrev pub IsChunk : ℕ → Bytes → Type 0
IsChunk size bs = (0 < length bs) × (length bs ≤ size)

All-chunks_fuel :
    (fuel size : ℕ) (bs : Bytes) → All (IsChunk (suc size)) (chunks_fuel fuel (suc size) bs)
unfolding chunks_fuel
All-chunks_fuel fuel size [] = tt
All-chunks_fuel zero size (b ∷ bs) = tt
All-chunks_fuel (suc fuel) size (b ∷ bs) =
    ((omega arith, length-take-le (suc size) (b ∷ bs)), All-chunks_fuel fuel size (drop size bs))

pub All-chunks : (size : ℕ) (bs : Bytes) → 0 < size → All (IsChunk size) (chunks size bs)
unfolding chunks
All-chunks zero bs h = absurd (omega arith)
All-chunks (suc size) bs h = All-chunks_fuel (length bs) size bs

pub chunks-cons :
    (size : ℕ) (bs : Bytes) → bs ≢ [] → (c : Bytes) × (cs : List Bytes) × (chunks size bs ≡ c ∷ cs)
unfolding chunks chunks_fuel
chunks-cons size [] h = absurd (h refl)
chunks-cons size (b ∷ bs) h = (_, _, refl)
