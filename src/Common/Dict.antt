-- ===== src/Common/Dict.antt =====
-- Ordered maps (`BTreeMap`) as association lists. `IsDict` says that no key stands twice; every
-- operation keeps it. The order of the keys is not modelled.
use Prim.Native.Nat.{◌+◌, ◌≤◌, ◌<◌}
use mathlib.Core.Path.{◌≡◌, refl}
use mathlib.Core.Logic.{◌≢◌}
use mathlib.Core.Bool.{Bool}
use mathlib.Core.Option.{Option, none, some}
use mathlib.Core.List.{List, [], ◌∷◌}
use native.Mathlib.Omega.{arith}
use tauri_vpn_plugin.Common.Tests.{Eq, ◌==◌, if◌then◌else◌, is_some}
use tauri_vpn_plugin.Common.Lists.{length}

abbrev pub Dict {ℓ κ} : Type ℓ → Type κ → Type (ℓ ⊔ κ)
Dict K V = List (K × V)

-- What `retain` leaves under a key.
abbrev pub kept {κ} : {V : Type κ} → (V → Bool) → Option V → Option V
kept keep none = none
kept keep (some v) = if keep v then some v else none

module _ {ℓ κ} {K : Type ℓ} ⦃e : Eq K⦄ {V : Type κ} where
  unfoldable pub get : K → Dict K V → Option V
  get k [] = none
  get k ((j, v) ∷ m) = if j == k then some v else get k m

  unfoldable pub insert : K → V → Dict K V → Dict K V
  insert key value [] = (key, value) ∷ []
  insert key value ((j, old) ∷ rest) =
      if j == key then (key, value) ∷ rest else (j, old) ∷ insert key value rest

  unfoldable pub remove : K → Dict K V → Dict K V
  remove k [] = []
  remove k ((j, v) ∷ m) = let rest = remove k m in if j == k then rest else (j, v) ∷ rest

  unfoldable pub retain : (V → Bool) → Dict K V → Dict K V
  retain keep [] = []
  retain keep ((j, v) ∷ m) = let rest = retain keep m in if keep v then (j, v) ∷ rest else rest

  abbrev pub contains_key : K → Dict K V → Bool
  contains_key k m = is_some (get k m)

  -- No key stands twice.
  abbrev pub IsDict : Dict K V → Type κ
  IsDict [] = Unit
  IsDict ((k, v) ∷ m) = (get k m ≡ none) × IsDict m

  pub get-insert :
      (k j : K) (v : V) (m : Dict K V) → get j (insert k v m) ≡ (if k == j then some v else get j m)
  unfolding get insert
  get-insert k j v [] = refl
  get-insert k j v ((i, w) ∷ m) =
      ground (arith, e.beq_iff k j, e.beq_iff i k, e.beq_iff i j, get-insert k j v m)

  pub get-insert_self : (k : K) (v : V) (m : Dict K V) → get k (insert k v m) ≡ some v
  get-insert_self k v m = ground (arith, get-insert k k v m, e.beq_iff k k)

  pub get-insert_ne : (k j : K) (v : V) (m : Dict K V) → k ≢ j → get j (insert k v m) ≡ get j m
  get-insert_ne k j v m h = ground (arith, get-insert k j v m, e.beq_iff k j)

  pub get-remove :
      (k j : K) (m : Dict K V) → get j (remove k m) ≡ (if k == j then none else get j m)
  unfolding get remove
  get-remove k j [] = ground arith
  get-remove k j ((i, w) ∷ m) =
      ground (arith, e.beq_iff k j, e.beq_iff i k, e.beq_iff i j, get-remove k j m)

  pub insert-IsDict : (k : K) (v : V) (m : Dict K V) → IsDict m → IsDict (insert k v m)
  unfolding insert get
  insert-IsDict k v [] h = (refl, tt)
  insert-IsDict k v ((i, w) ∷ m) h =
      ground (arith, e.beq_iff i k, e.beq_iff k i, get-insert k i v m, insert-IsDict k v m h.1)

  pub remove-IsDict : (k : K) (m : Dict K V) → IsDict m → IsDict (remove k m)
  unfolding remove get
  remove-IsDict k [] h = tt
  remove-IsDict k ((i, w) ∷ m) h =
      ground (arith, e.beq_iff k i, get-remove k i m, remove-IsDict k m h.1)

  pub get-retain-none :
      (keep : V → Bool) (k : K) (m : Dict K V) → get k m ≡ none → get k (retain keep m) ≡ none
  unfolding retain get
  get-retain-none keep k [] h = refl
  get-retain-none keep k ((i, w) ∷ m) h = ground (arith, get-retain-none keep k m)

  pub retain-IsDict : (keep : V → Bool) (m : Dict K V) → IsDict m → IsDict (retain keep m)
  unfolding retain get
  retain-IsDict keep [] h = tt
  retain-IsDict keep ((i, w) ∷ m) h =
      ground (arith, get-retain-none keep i m h.0, retain-IsDict keep m h.1)

  pub get-retain :
      (keep : V → Bool) (k : K) (m : Dict K V)
      → IsDict m
      → get k (retain keep m) ≡ kept keep (get k m)
  unfolding retain get
  get-retain keep k [] h = refl
  get-retain keep k ((i, w) ∷ m) h =
      ground (arith, e.beq_iff i k, get-retain keep k m h.1, get-retain-none keep i m h.0)

  pub length-insert-le : (k : K) (v : V) (m : Dict K V) → length (insert k v m) ≤ length m + 1
  unfolding insert
  length-insert-le k v [] = omega arith
  length-insert-le k v ((i, w) ∷ m) = ground (arith, length-insert-le k v m)

  pub length-remove-le : (k : K) (m : Dict K V) → length (remove k m) ≤ length m
  unfolding remove
  length-remove-le k [] = omega arith
  length-remove-le k ((i, w) ∷ m) = ground (arith, length-remove-le k m)

  pub length-remove-lt :
      (k : K) (v : V) (m : Dict K V) → get k m ≡ some v → length (remove k m) < length m
  unfolding remove get
  length-remove-lt k v [] h = cc
  length-remove-lt k v ((i, w) ∷ m) h = ground (arith, length-remove-le k m, length-remove-lt k v m)

  pub remove_absent : (k : K) (m : Dict K V) → get k m ≡ none → remove k m ≡ m
  unfolding remove get
  remove_absent k [] h = refl
  remove_absent k ((i, w) ∷ m) h = ground (arith, remove_absent k m)

  pub length-le-remove : (k : K) (m : Dict K V) → IsDict m → length m ≤ length (remove k m) + 1
  unfolding remove get
  length-le-remove k [] h = omega arith
  length-le-remove k ((i, w) ∷ m) h =
      ground (arith, e.beq_iff i k, length-le-remove k m h.1, remove_absent k m)
