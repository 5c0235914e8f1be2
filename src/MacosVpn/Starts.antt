-- ===== src/MacosVpn/Starts.antt =====
-- src/macos_vpn.rs: which manager is saved, started and asked for its status, over a framework that keeps the
-- managers as it documents.
use tauri_vpn_plugin.Common.{
  ◌≡◌, refl, sym, ap, ◌∙◌, ◌⊎◌, String, true, List, [], ◌∷◌, Option, none, some, arith, inl, inr,
  Bool-cases, subst,
}
use tauri_vpn_plugin.Errors.{VpnError, Result, ok, err, Result-cases}
use tauri_vpn_plugin.Engine.Calls.{Tried, value, error, map_err}
use tauri_vpn_plugin.MacosVpn.Framework.{Manager, Completion, done, fails, waits, Framework}
use tauri_vpn_plugin.MacosVpn.Profile.{
  ◌>>=◌, Over, find_manager, configured, tunnel_description, save_vpn_profile, load_manager,
  start_vpn_profile, start_session, saved, loaded, configure_and_save, found_or_new, save_loaded,
}
use tauri_vpn_plugin.MacosVpn.Store.{
  store, IsFresh, IsDistinct, IsStore, others, others-store, find-store_found, find-store_new,
}

-- The plugin's manager: the first of that description, or a new one where there is none.
abbrev pub IsOwn : Manager → List Manager → Type 0
IsOwn m managers =
    (find_manager (some managers) tunnel_description ≡ some m)
    ⊎ ((find_manager (some managers) tunnel_description ≡ none) × IsFresh m.reference managers)

pub find-store :
    (profile_id : Option String) (managers : List Manager) (m : Manager)
    → IsDistinct managers
    → IsOwn m managers
    → find_manager (some (store (configured profile_id m) managers)) tunnel_description
      ≡ some (configured profile_id m)
find-store profile_id managers m h (inl found) = find-store_found profile_id managers m h found
find-store profile_id managers m h (inr (new, fresh)) =
    find-store_new profile_id managers m fresh new

Completion-cases :
    {A : Type 0} (c : Completion A)
    → ((a : A) × (c ≡ done a)) ⊎ (((x : Option String) × (c ≡ fails x)) ⊎ (c ≡ waits))
Completion-cases (done a) = inl (a, refl)
Completion-cases (fails x) = inr (inl (x, refl))
Completion-cases waits = inr (inr refl)

>>=-ok :
    {S A B : Type 0} (first : Over S A) (next : A → Over S B) (s : S) (b : B)
    → ((first >>= next) s).0 ≡ ok b
    → (a : A) × ((first s).0 ≡ ok a) × ((first >>= next) s ≡ next a (first s).1)
>>=-ok first next s b e = elim (Result-cases (first s).0) [
  | inl (a, first_ok) ↦ (a, first_ok, rw (first_ok, ◌>>=◌) refl)
  | inr (x, failed) ↦ let bad : err x ≡ ok b = rw (failed, ◌>>=◌) at e in absurd (cc)
]

started_value :
    {S : Type 0} (f : String → VpnError) (x : Tried (Unit {0}) × S)
    → map_err f x.0 ≡ ok tt
    → x ≡ (value tt, x.1)
started_value f (value u, s) e = refl
started_value f (error text, s) e = cc

not_a_session : {x : VpnError} → ¬ (◌≡◌ {A = Result (Unit {0})} (err x) (ok tt))
not_a_session e = cc

others-configured :
    (profile_id : Option String) (m : Manager) (managers : List Manager)
    → others m.reference (store (configured profile_id m) managers) ≡ others m.reference managers
unfolding configured
others-configured profile_id m managers = others-store (configured profile_id m) managers

module _ {S : Type 0} (fw : Framework S) (contents : S → List Manager)
    (law : IsStore fw contents) where
  saved-done : (c : Completion (Unit {0})) → saved fw c ≡ ok tt → c ≡ done tt
  saved-done (done u) e = refl
  saved-done (fails x) e = cc
  saved-done waits e = cc

  configure_and_save-store :
      (profile_id : Option String) (m : Manager) (s : S)
      → (configure_and_save fw profile_id (m, s)).0 ≡ ok tt
      → contents (configure_and_save fw profile_id (m, s)).1
        ≡ store (configured profile_id m) (contents s)
  configure_and_save-store profile_id m s e = law.saves (configured profile_id m) s (saved-done _ e)

  save_found-store :
      (profile_id : Option String) (found : Option Manager) (s : S)
      → find_manager (some (contents s)) tunnel_description ≡ found
      → (configure_and_save fw profile_id (found_or_new fw found s)).0 ≡ ok tt
      → (m : Manager) × IsOwn m (contents s)
        × (contents (configure_and_save fw profile_id (found_or_new fw found s)).1
            ≡ store (configured profile_id m) (contents s))
  save_found-store profile_id (some m) s e saved =
      (m, inl e, configure_and_save-store profile_id m s saved)
  save_found-store profile_id none s e saved =
      let (m, s') = fw.new_manager s in
      (
        m,
        inr (e, law.makes_new s),
        configure_and_save-store profile_id m s' saved
            ∙ ap (store (configured profile_id m)) (law.new_keeps s),
      )

  refused_load :
      (x : Option String) (profile_id : Option String) (s : S)
      → ¬ ((save_loaded fw profile_id (fails x, s)).0 ≡ ok tt)
  refused_load x profile_id s e = cc

  waiting_load :
      (profile_id : Option String) (s : S) → ¬ ((save_loaded fw profile_id (waits, s)).0 ≡ ok tt)
  waiting_load profile_id s e = cc

  -- A save that succeeds has stored the plugin's manager, configured, and nothing else.
  pub save_vpn_profile-store :
      (config_json profile_id : Option String) (s : S)
      → (save_vpn_profile fw config_json profile_id s).0 ≡ ok tt
      → (m : Manager) × IsOwn m (contents s)
        × (contents (save_vpn_profile fw config_json profile_id s).1
            ≡ store (configured profile_id m) (contents s))
  unfolding save_vpn_profile
  save_vpn_profile-store config_json profile_id s saved =
      elim (Completion-cases (fw.load_all s).0) [
        | inl (managers, e) ↦
            let all = law.loads s managers e in
            let keeps = law.load_keeps s in
            let found = find_manager managers tunnel_description in
            let at : find_manager (some (contents (fw.load_all s).1)) tunnel_description ≡ found =
              rw (keeps, all) refl in
            let done_found : (configure_and_save fw profile_id
                  (found_or_new fw found (fw.load_all s).1)).0
                ≡ ok tt =
              rw e at saved in
            let (m, own, stored) =
              save_found-store profile_id found (fw.load_all s).1 at done_found in
            (
              m,
              subst (IsOwn m) keeps own,
              rw e (stored ∙ ap (store (configured profile_id m)) keeps),
            )
        | inr (inl (x, e)) ↦ absurd (refused_load x profile_id (fw.load_all s).1 (rw e at saved))
        | inr (inr e) ↦ absurd (waiting_load profile_id (fw.load_all s).1 (rw e at saved))
      ]

  loaded-find :
      (c : Completion (Option (List Manager))) (managers : List Manager) (m : Manager)
      → ((found : Option (List Manager)) → c ≡ done found → found ≡ some managers)
      → loaded fw c ≡ ok m
      → find_manager (some managers) tunnel_description ≡ some m
  loaded-find (done found) managers m all e =
      let same = all found refl in rw (← same) (ground arith)
  loaded-find (fails x) managers m all e = cc
  loaded-find waits managers m all e = cc

  -- A load that succeeds gives the manager that is found among the saved ones.
  pub load_manager-find :
      (s : S) (m : Manager)
      → (load_manager fw s).0 ≡ ok m
      → (find_manager (some (contents s)) tunnel_description ≡ some m)
        × (contents (load_manager fw s).1 ≡ contents s)
  unfolding load_manager
  load_manager-find s m e =
      (loaded-find (fw.load_all s).0 (contents s) m (law.loads s) e, law.load_keeps s)

module _ {S : Type 0} (fw : Framework S) (contents : S → List Manager)
    (law : IsStore fw contents) where
  start_session-ok :
      (config_json : String) (m : Manager) (t : S)
      → (start_session fw config_json m t).0 ≡ ok tt
      → (fw.is_tunnel_session m t ≡ true)
        × (fw.start_tunnel m (("configContent", config_json) ∷ []) t
            ≡ (value tt, (start_session fw config_json m t).1))
  start_session-ok config_json m t e = elim (Bool-cases (fw.is_tunnel_session m t)) [
    | inl session ↦ (session, rw session (started_value _ _ (rw session at e)))
    | inr other ↦ absurd (not_a_session (rw other at e))
  ]

  -- A start that succeeds has configured the plugin's own manager (the first of its description, or a
  -- new one where there is none) for the profile, saved it and left every other saved manager as it
  -- was, found it again among the saved ones, and started its tunnel with the configuration as option
  -- "configContent". The managers are told apart by their references, and the framework keeps them as it
  -- documents.
  pub start_vpn_profile-starts :
      (config_json : String) (profile_id : Option String) (s : S)
      → IsDistinct (contents s)
      → (start_vpn_profile fw config_json profile_id s).0 ≡ ok tt
      → (m : Manager) × (t : S) × IsOwn m (contents s)
        × (contents t ≡ store (configured profile_id m) (contents s))
        × (others m.reference (contents t) ≡ others m.reference (contents s))
        × (fw.is_tunnel_session (configured profile_id m) t ≡ true)
        × (fw.start_tunnel (configured profile_id m) (("configContent", config_json) ∷ []) t
            ≡ (value tt, (start_vpn_profile fw config_json profile_id s).1))
  unfolding start_vpn_profile
  start_vpn_profile-starts config_json profile_id s distinct started =
      let (u, saved, rest) =
        >>=-ok (save_vpn_profile fw (some config_json) profile_id)
          (λ u. load_manager fw >>= start_session fw config_json) s tt started in
      let u1 = (save_vpn_profile fw (some config_json) profile_id s).1 in
      let (found, loaded, end) =
        >>=-ok (load_manager fw) (start_session fw config_json) u1 tt (rw (← rest) started) in
      let t = (load_manager fw u1).1 in
      let (m, own, stored) =
        save_vpn_profile-store fw contents law (some config_json) profile_id s saved in
      let (among, kept) = load_manager-find fw contents law u1 found loaded in
      let there : find_manager (some (contents u1)) tunnel_description
          ≡ some (configured profile_id m) =
        rw stored (find-store profile_id (contents s) m distinct own) in
      let same : found ≡ configured profile_id m = cc in
      let ended : (start_session fw config_json found t).0 ≡ ok tt =
        ap (λ x. x.0) (sym (rest ∙ end)) ∙ started in
      let (session, ran) = start_session-ok config_json found t (ended) in
      (
        m,
        t,
        own,
        kept ∙ stored,
        ap (others m.reference) (kept ∙ stored) ∙ others-configured profile_id m (contents s),
        rw (← same) session,
        rw (← same) (ran ∙ ap (λ x. (value tt, x.1)) (sym (rest ∙ end))),
      )
