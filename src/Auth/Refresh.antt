-- ===== src/Auth/Refresh.antt =====
-- commons/auth/provider.tsx: the session after `updateSession`, after a storage event, and after a
-- late reply to `refreshSession`.
use mathlib.Core.Option.{some-injective}
use mwdb_core.Common.{
  ℕ, Bool, true, Option, none, some, [], ◌∷◌, ◌≡◌, refl, ap, inl, inr, ◌≢◌, Bool-cases, arith,
}
use mwdb_core.Common.Text.{Text}
use mwdb_core.Auth.Session.{
  User, Verdict, valid, invalid, throws, Platform, is_text, is_session_valid, keep_valid,
  read_parsed, get_stored_auth_session, set_token_for_api,
}
use mwdb_core.Auth.Provider.{
  Provider, Reason, omit_token, next_session, set_session, update_session, refreshed, logout, mount,
  synchronize_session_state,
}

-- `JSON.parse` reads back what `JSON.stringify` writes for this user, which is not the empty text.
pub record ReadsBack (p : Platform) (u : User) : Type 0 where
  pub parse_stringify : p.parse (p.stringify u) ≡ some (some u)
  pub filled : is_text (some (p.stringify u)) ≡ true

-- The session without its token.
abbrev pub without_token : Option User → Option User
without_token none = none
without_token (some u) = some (omit_token u)

module _ (p : Platform) where
  valid-token :
      (now : ℕ) (u : User) → is_session_valid p now (some u) ≡ valid → is_text u.token ≡ true
  unfolding is_session_valid
  valid-token now u h = ground (arith, h)

  read-valid :
      (now : ℕ) (u : User) (t : Text)
      → is_text (some t) ≡ true
      → p.parse t ≡ some (some u)
      → is_session_valid p now (some u) ≡ valid
      → get_stored_auth_session p now (some t) ≡ (some u, some t)
  unfolding get_stored_auth_session
  read-valid now u [] f e h = cc
  read-valid now u (c ∷ s) f e h = rw (e, h) refl

  stored-valid :
      (now : ℕ) (u : User)
      → ReadsBack p u
      → is_session_valid p now (some u) ≡ valid
      → get_stored_auth_session p now (some (p.stringify u)) ≡ (some u, some (p.stringify u))
  stored-valid now u b h = read-valid now u (p.stringify u) b.filled b.parse_stringify h

  header-token : (u : User) → is_text u.token ≡ true → set_token_for_api (some u) ≡ u.token
  unfolding set_token_for_api
  header-token u h = rw h refl

  module _ (is_equal : Option User → Option User → Bool) where
    abbrev pub IsSound : Type 0
    IsSound = (a b : Option User) → is_equal a b ≡ true → a ≡ b

    -- Where the provider calls it with the session that it shows, an update with a valid session
    -- stores the session, sends its token in the header, and shows it without the token.
    pub update_session_agrees :
        IsSound
        → (now : ℕ) (u : User) (s : Provider) → ReadsBack p u
        → is_session_valid p now (some u) ≡ valid
        → update_session p is_equal now s.session (some u) s
          ≡ some (record s {
            storage = some (p.stringify u);
            header = u.token;
            session = some (omit_token u);
          })
    unfolding update_session set_session
    update_session_agrees sound now u s b h =
        rw (h, stored-valid now u b h, header-token u (valid-token now u h))
          (elim (Bool-cases (is_equal s.session (some (omit_token u)))) [
            | inl e ↦ rw e (rw (sound s.session (some (omit_token u)) e) refl)
            | inr e ↦ rw e refl
          ])

    -- A reply to a refresh that comes after a logout, with the session that the call has seen, stores
    -- the session and its token in the header again, while the provider shows no session.
    pub refreshed-logout :
        (now later : ℕ) (reason : Reason) (seen : Option User) (u : User) (s : Provider)
        → ReadsBack p u
        → is_session_valid p later (some u) ≡ valid
        → is_equal seen (some (omit_token u)) ≡ true
        → refreshed p is_equal later seen u (logout p is_equal now reason s)
          ≡ record (logout p is_equal now reason s) {
            storage = some (p.stringify u);
            header = u.token;
            session = none;
          }
    unfolding refreshed update_session set_session logout
    refreshed-logout now later reason seen u s b h e =
        rw (h, stored-valid later u b h, header-token u (valid-token later u h), e) refl

    abbrev HasToken : Option User → Type 0
    HasToken none = Unit
    HasToken (some u) = is_text u.token ≡ true

    keep_valid-HasToken :
        (now : ℕ) (t : Option Text) (o : Option User) (v : Verdict)
        → is_session_valid p now o ≡ v
        → HasToken (keep_valid p t o v).0
    unfolding is_session_valid
    keep_valid-HasToken now t none valid h = tt
    keep_valid-HasToken now t (some u) valid h = valid-token now u h
    keep_valid-HasToken now t o invalid h = tt
    keep_valid-HasToken now t o throws h = tt

    read_parsed-HasToken :
        (now : ℕ) (t : Option Text) (o : Option (Option User)) → HasToken (read_parsed p now t o).0
    read_parsed-HasToken now t none = tt
    read_parsed-HasToken now t (some o) =
        keep_valid-HasToken now t o (is_session_valid p now o) refl

    get_stored-HasToken : (now : ℕ) (t : Option Text) → HasToken (get_stored_auth_session p now t).0
    unfolding get_stored_auth_session
    get_stored-HasToken now none = tt
    get_stored-HasToken now (some []) = tt
    get_stored-HasToken now (some (c ∷ s)) =
        read_parsed-HasToken now (some (c ∷ s)) (p.parse (c ∷ s))

    not-omitted : (first : Option User) (u : User) → HasToken first → first ≢ some (omit_token u)
    not-omitted none u h e = cc
    not-omitted (some v) u h e =
        absurd (cc (h, ap (λ (x : User). is_text x.token) (some-injective _ _ e)))

    next_session-first :
        IsSound
        → (first current new_session : Option User) → HasToken first
        → next_session p is_equal first current new_session ≡ without_token new_session
    next_session-first sound first current none h = refl
    next_session-first sound first current (some u) h =
        elim (Bool-cases (is_equal first (some (omit_token u)))) [
          | inl e ↦ absurd (not-omitted first u h (sound first (some (omit_token u)) e))
          | inr e ↦ rw e refl
        ]

    -- After a storage event the provider shows the session in the storage without its token, or no
    -- session if the storage holds no valid one, although the listener has seen the first render only.
    pub synchronize_session_state_agrees :
        IsSound
        → (mounted_at : ℕ) (mounted_with : Option Text) (now : ℕ) (s : Provider)
        → (synchronize_session_state p is_equal now
            (mount p is_equal mounted_at mounted_with).session
            s).session
          ≡ without_token (get_stored_auth_session p now s.storage).0
    unfolding synchronize_session_state set_session mount
    synchronize_session_state_agrees sound mounted_at mounted_with now s =
        next_session-first sound (get_stored_auth_session p mounted_at mounted_with).0 s.session
          (get_stored_auth_session p now s.storage).0 (get_stored-HasToken mounted_at mounted_with)
