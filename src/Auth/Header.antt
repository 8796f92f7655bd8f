-- ===== src/Auth/Header.antt =====
-- commons/auth/provider.tsx: the header of the requests against the storage.
use mwdb_core.Common.{
  ℕ, Bool, false, Option, none, some, [], ◌∷◌, ◌≡◌, refl, Option-cases, inl, inr, subst, sym, ◌⊎◌,
}
use mwdb_core.Common.Text.{Text}
use mwdb_core.Auth.Session.{
  User, Verdict, valid, invalid, throws, Platform, is_session_valid, keep_valid, read_parsed,
  get_stored_auth_session, set_token_for_api,
}
use mwdb_core.Auth.Provider.{Provider}

module _ (p : Platform) where
  abbrev parsed_token : Option (Option User) → Option Text
  parsed_token none = none
  parsed_token (some u) = set_token_for_api u

  -- The token of the session in the storage.
  unfoldable pub stored_token : Option Text → Option Text
  stored_token none = none
  stored_token (some []) = none
  stored_token (some (c ∷ s)) = parsed_token (p.parse (c ∷ s))

  keep_valid-token :
      (c : ℕ) (s : Text) (u : Option User) (v : Verdict)
      → p.parse (c ∷ s) ≡ some u
      → set_token_for_api (keep_valid p (some (c ∷ s)) u v).0
        ≡ stored_token (keep_valid p (some (c ∷ s)) u v).1
  unfolding stored_token set_token_for_api
  keep_valid-token c s u valid h = rw h refl
  keep_valid-token c s u invalid h = refl
  keep_valid-token c s u throws h = refl

  pub get_stored-token :
      (now : ℕ) (t : Option Text)
      → set_token_for_api (get_stored_auth_session p now t).0
        ≡ stored_token (get_stored_auth_session p now t).1
  unfolding get_stored_auth_session stored_token set_token_for_api
  get_stored-token now none = refl
  get_stored-token now (some []) = refl
  get_stored-token now (some (c ∷ s)) = elim (Option-cases (p.parse (c ∷ s))) [
    | inl e ↦ rw e refl
    | inr (u, e) ↦
        subst
          (λ (x : Option (Option User)).
            set_token_for_api (read_parsed p now (some (c ∷ s)) x).0
            ≡ stored_token (read_parsed p now (some (c ∷ s)) x).1)
          (sym e) (keep_valid-token c s u (is_session_valid p now u) e)
  ]

  -- The token is that of an item that a reading of the storage has found invalid and removed, and the
  -- storage is empty.
  unfoldable pub IsRemoved : Option Text → Option Text → Type 0
  IsRemoved token storage =
      (storage ≡ none)
      × (item : Text) × (now : ℕ) × ((get_stored_auth_session p now (some item)).1 ≡ none)
      × (token ≡ stored_token (some item))

  module _ (is_equal : Option User → Option User → Bool) where
    abbrev pub HasStoredToken : Provider → Type 0
    HasStoredToken s = s.header ≡ stored_token s.storage

    -- Unless another window has written since.
    abbrev pub IsSynced : Provider → Type 0
    IsSynced s = s.notice ≡ false → HasStoredToken s ⊎ IsRemoved s.header s.storage
