-- ===== src/MacosVpn/Store.antt =====
-- src/macos_vpn.rs: the saved managers, as the framework documents them: a load that completes gives them,
-- and a save that completes replaces the manager or adds it at the end.
use tauri_vpn_plugin.Common.{
  ℕ, ◌≡◌, ◌≢◌, refl, sym, ap, ◌∙◌, String, true, false, List, [], ◌∷◌, Option, none, some, arith,
  subst, filterb, not, ◌==◌, nat_eq, nat_beq_iff, string_eq, if◌then◌else◌, All, Bool-cases, inl,
  inr,
}
use tauri_vpn_plugin.MacosVpn.Framework.{Manager, done, Framework}
use tauri_vpn_plugin.MacosVpn.Profile.{find_manager, is_described, configured, tunnel_description}

unfoldable pub store : Manager → List Manager → List Manager
store m [] = m ∷ []
store m (x ∷ xs) = let rest = store m xs in if x.reference == m.reference then m ∷ xs else x ∷ rest

-- No manager of the list has the reference.
abbrev pub IsFresh : ℕ → List Manager → Type 0
IsFresh reference managers = All (λ x. x.reference ≢ reference) managers

abbrev pub IsDistinct : List Manager → Type 0
IsDistinct [] = Unit
IsDistinct (x ∷ xs) = IsFresh x.reference xs × IsDistinct xs

-- The documented behaviour, on the managers that a state of the framework holds.
pub record IsStore {S : Type 0} (fw : Framework S) (contents : S → List Manager) : Type 0 where
  pub loads :
      (s : S) (managers : Option (List Manager))
      → (fw.load_all s).0 ≡ done managers
      → managers ≡ some (contents s)
  pub load_keeps : (s : S) → contents (fw.load_all s).1 ≡ contents s
  pub makes_new : (s : S) → IsFresh (fw.new_manager s).0.reference (contents s)
  pub new_keeps : (s : S) → contents (fw.new_manager s).1 ≡ contents s
  pub saves :
      (m : Manager) (s : S)
      → (fw.save m s).0 ≡ done tt
      → contents (fw.save m s).1 ≡ store m (contents s)

module _ (description : String) (x : Manager) (xs : List Manager) where
  find-here : is_described description x ≡ true → find_manager (some (x ∷ xs)) description ≡ some x
  unfolding find_manager
  find-here same = rw same

  find-next :
      is_described description x ≡ false
      → find_manager (some (x ∷ xs)) description ≡ find_manager (some xs) description
  unfolding find_manager
  find-next other = rw other

module _ (m x : Manager) (xs : List Manager) where
  store-here : x.reference ≡ m.reference → store m (x ∷ xs) ≡ m ∷ xs
  unfolding store
  store-here same = ground (arith, nat_beq_iff x.reference m.reference)

  store-next : x.reference ≢ m.reference → store m (x ∷ xs) ≡ x ∷ store m xs
  unfolding store
  store-next other = ground (arith, nat_beq_iff x.reference m.reference)

-- The manager that is found is one of the list.
All-find {ℓ} :
    (P : Manager → Type ℓ) (managers : List Manager) (m : Manager)
    → find_manager (some managers) tunnel_description ≡ some m
    → All P managers
    → P m
unfolding find_manager
All-find P [] m e h = cc
All-find P (x ∷ xs) m e h = elim (Bool-cases (is_described tunnel_description x)) [
  | inl same ↦
      let found : some x ≡ some m = sym (find-here tunnel_description x xs same) ∙ e in
      subst P (cc) h.0
  | inr other ↦ All-find P xs m (sym (find-next tunnel_description x xs other) ∙ e) h.1
]

module _ (profile_id : Option String) where
  -- Where a manager that is not described so comes first, it stays first.
  find-store_next :
      (x m : Manager) (xs : List Manager)
      → is_described tunnel_description x ≡ false
      → x.reference ≢ m.reference
      → find_manager (some (store (configured profile_id m) (x ∷ xs))) tunnel_description
        ≡ find_manager (some (store (configured profile_id m) xs)) tunnel_description
  unfolding configured
  find-store_next x m xs other differs =
      ap (λ ms. find_manager (some ms) tunnel_description)
        (store-next (configured profile_id m) x xs differs)
      ∙ find-next tunnel_description x _ other

  -- Replacing the manager that was found, where it stands.
  pub find-store_found :
      (managers : List Manager) (m : Manager)
      → IsDistinct managers
      → find_manager (some managers) tunnel_description ≡ some m
      → find_manager (some (store (configured profile_id m) managers)) tunnel_description
        ≡ some (configured profile_id m)
  unfolding configured
  find-store_found [] m h e = unfold find_manager in cc
  find-store_found (x ∷ xs) m (fresh, h) e = elim (Bool-cases (is_described tunnel_description x)) [
    | inl same ↦
        let found : some x ≡ some m = sym (find-here tunnel_description x xs same) ∙ e in
        let reference : x.reference ≡ m.reference = cc in
        rw (store-here (configured profile_id m) x xs reference)
          (find-here tunnel_description (configured profile_id m) xs refl)
    | inr other ↦
        let later = sym (find-next tunnel_description x xs other) ∙ e in
        find-store_next x m xs other
          (λ same. All-find (λ y. y.reference ≢ x.reference) xs m later fresh (sym same))
        ∙ find-store_found xs m h later
  ]

  -- Adding one where none was found.
  pub find-store_new :
      (managers : List Manager) (m : Manager)
      → IsFresh m.reference managers
      → find_manager (some managers) tunnel_description ≡ none
      → find_manager (some (store (configured profile_id m) managers)) tunnel_description
        ≡ some (configured profile_id m)
  unfolding configured
  find-store_new [] m h e = unfold store in find-here tunnel_description _ [] refl
  find-store_new (x ∷ xs) m (differs, h) e = elim (Bool-cases (is_described tunnel_description x)) [
    | inl same ↦ let found : some x ≡ none = sym (find-here tunnel_description x xs same) ∙ e in cc
    | inr other ↦
        let later = sym (find-next tunnel_description x xs other) ∙ e in
        find-store_next x m xs other differs ∙ find-store_new xs m h later
  ]

-- The managers under other references.
abbrev pub others : ℕ → List Manager → List Manager
others reference managers = filterb (λ x. not (x.reference == reference)) managers

pub others-store :
    (m : Manager) (managers : List Manager)
    → others m.reference (store m managers) ≡ others m.reference managers
unfolding store
others-store m [] = ground (arith, nat_beq_iff m.reference m.reference)
others-store m (x ∷ xs) = ground (
  arith,
  nat_beq_iff x.reference m.reference,
  nat_beq_iff m.reference m.reference,
  others-store m xs,
)
