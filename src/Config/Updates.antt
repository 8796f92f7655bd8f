-- ===== src/Config/Updates.antt =====
-- commons/config/provider.tsx: the configuration after any replies.
use mwdb_core.Common.{
  true, none, some, List, [], ◌∷◌, ◌++◌, ◌≡◌, refl, All, subst, ◌∙◌, ◌⊎◌, inl, inr, Option-cases,
}
use mwdb_core.Common.Text.{Text, text}
use mwdb_core.Suggest.Structure.{Json}
use mwdb_core.Config.Reducer.{
  Config, ConfigState, Action, config_update, config_error, merge, server_config_reducer,
  dispatch_all, is_truthy, is_ready,
}

-- The action does not set this key.
abbrev pub Leaves : Text → Action → Type 0
Leaves k (config_update c) = c k ≡ none
Leaves k (config_error e) = Unit

reducer-Leaves :
    (s : ConfigState) (k : Text) (a : Action)
    → Leaves k a
    → (server_config_reducer s a).config k ≡ s.config k
unfolding server_config_reducer merge
reducer-Leaves s k (config_update c) h = rw h refl
reducer-Leaves s k (config_error e) h = refl

dispatch_all-Leaves :
    (s : ConfigState) (k : Text) (actions : List Action)
    → All (Leaves k) actions
    → (dispatch_all s actions).config k ≡ s.config k
unfolding dispatch_all
dispatch_all-Leaves s k [] h = refl
dispatch_all-Leaves s k (a ∷ actions) (h, hs) =
    dispatch_all-Leaves (server_config_reducer s a) k actions hs ∙ reducer-Leaves s k a h

reducer-update :
    (s : ConfigState) (k : Text) (c : Config) (v : Json)
    → c k ≡ some v
    → (server_config_reducer s (config_update c)).config k ≡ some v
unfolding server_config_reducer merge
reducer-update s k c v h = rw h refl

-- A key of the configuration has the value of the last update that sets it, however many updates of
-- other keys and errors come after it.
pub dispatch_all-update :
    (s : ConfigState) (before : List Action) (c : Config) (later : List Action) (k : Text)
    (v : Json)
    → c k ≡ some v
    → All (Leaves k) later
    → (dispatch_all s (before ++ config_update c ∷ later)).config k ≡ some v
unfolding dispatch_all
dispatch_all-update s [] c later k v h hs =
    dispatch_all-Leaves (server_config_reducer s (config_update c)) k later hs
    ∙ reducer-update s k c v h
dispatch_all-update s (a ∷ before) c later k v h hs =
    dispatch_all-update (server_config_reducer s a) before c later k v h hs

-- The action leaves the version of the server alone or sets a version that counts as true.
abbrev pub HasVersion : Action → Type 0
HasVersion (config_update c) =
    (c (text "server_version") ≡ none) ⊎ (is_truthy (c (text "server_version")) ≡ true)
HasVersion (config_error e) = Unit

reducer-is_ready :
    (s : ConfigState) (a : Action)
    → HasVersion a
    → is_ready s ≡ true
    → is_ready (server_config_reducer s a) ≡ true
unfolding is_ready server_config_reducer merge
reducer-is_ready s (config_error e) h ready = ready
reducer-is_ready s (config_update c) (inl e) ready = rw e ready
reducer-is_ready s (config_update c) (inr e) ready =
    elim (Option-cases (c (text "server_version"))) [
      | inl n ↦ rw n ready
      | inr (v, n) ↦ rw n (subst (λ t. is_truthy t ≡ true) n e)
    ]

-- Once the configuration is ready it stays so, whatever errors and updates come, as long as an update
-- that sets the version of the server sets one that counts as true.
pub dispatch_all-is_ready :
    (s : ConfigState) (actions : List Action)
    → is_ready s ≡ true
    → All HasVersion actions
    → is_ready (dispatch_all s actions) ≡ true
unfolding dispatch_all
dispatch_all-is_ready s [] ready h = ready
dispatch_all-is_ready s (a ∷ actions) ready (h, hs) =
    dispatch_all-is_ready (server_config_reducer s a) actions (reducer-is_ready s a h ready) hs
