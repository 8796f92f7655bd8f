-- ===== src/Auth/Session.antt =====
-- commons/auth/provider.tsx: `isSessionValid`, `getStoredAuthSession` and `setTokenForAPI`. The time is
-- in milliseconds, the expiry in seconds. `JSON.parse`, `JSON.stringify` and the decoder of the token
-- are parameters.
use mwdb_core.Common.{
  ℕ, ◌*◌, Bool, true, false, Option, none, some, List, [], ◌∷◌, if◌then◌else◌, leb, ◌&&◌, any,
}
use mwdb_core.Common.Text.{Text, text_eq}

-- The members that the provider reads; `none` is a member that is missing or null.
pub record User : Type 0 where
  pub token : Option Text
  pub login : Option Text
  pub groups : Option (List Text)
  pub capabilities : Option (List Text)
  pub provider : Option Text

-- What `JSON.parse(atob(token.split(".")[0])).exp` gives.
pub data Expiry : Type 0 where
  malformed no_expiry : Expiry
  expires : ℕ → Expiry

-- The outcome of `isSessionValid`, which throws where the token cannot be decoded.
pub data Verdict : Type 0 where
  valid invalid throws : Verdict

abbrev pub is_text : Option Text → Bool
is_text none = false
is_text (some []) = false
is_text (some (c ∷ s)) = true

abbrev is_list : Option (List Text) → Bool
is_list none = false
is_list (some _) = true

abbrev pub members_verdict : User → Verdict
members_verdict u =
    if is_text u.login && (is_list u.groups && is_list u.capabilities) then valid else invalid

abbrev expiry_verdict : ℕ → User → Expiry → Verdict
expiry_verdict now u malformed = throws
expiry_verdict now u no_expiry = members_verdict u
expiry_verdict now u (expires t) = if leb (t * 1000) now then invalid else members_verdict u

-- `localStorage` may hold other texts; `parse` gives `none` where `JSON.parse` throws, and the value
-- `null` as `some none`.
pub record Platform : Type 0 where
  pub parse : Text → Option (Option User)
  pub stringify : User → Text
  pub expiry : Text → Expiry

module _ (p : Platform) where
  unfoldable pub is_session_valid : ℕ → Option User → Verdict
  is_session_valid now none = invalid
  is_session_valid now (some u) = elim u.token [
    | none ↦ invalid
    | some [] ↦ invalid
    | some (c ∷ s) ↦ expiry_verdict now u (p.expiry (c ∷ s))
  ]

  -- What is read, and what is in the storage behind it.
  abbrev pub keep_valid : Option Text → Option User → Verdict → Option User × Option Text
  keep_valid stored u valid = (u, stored)
  keep_valid stored u invalid = (none, none)
  keep_valid stored u throws = (none, none)

  abbrev pub read_parsed : ℕ → Option Text → Option (Option User) → Option User × Option Text
  read_parsed now stored none = (none, none)
  read_parsed now stored (some u) = keep_valid stored u (is_session_valid now u)

  unfoldable pub get_stored_auth_session : ℕ → Option Text → Option User × Option Text
  get_stored_auth_session now none = (none, none)
  get_stored_auth_session now (some []) = (none, some [])
  get_stored_auth_session now (some (c ∷ s)) = read_parsed now (some (c ∷ s)) (p.parse (c ∷ s))

-- `setTokenForAPI(session && session.token)`: the token in the header, if there is a header.
unfoldable pub set_token_for_api : Option User → Option Text
set_token_for_api none = none
set_token_for_api (some u) = if is_text u.token then u.token else none

unfoldable pub has_capability : Option User → Text → Bool
has_capability none capability = false
has_capability (some u) capability = elim u.capabilities [
  | none ↦ false
  | some cs ↦ any (λ c. text_eq c capability) cs
]
