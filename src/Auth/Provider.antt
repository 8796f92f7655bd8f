-- ===== src/Auth/Provider.antt =====
-- commons/auth/provider.tsx: the state of `AuthProvider` and its operations. A function of the provider
-- closes over the session of the render that made it: where the code may run an old one, `seen` is that
-- session. `isEqual` of lodash is a parameter. `Step` has what can happen to the provider: other
-- windows may write to the storage at any time, and the notice of it comes later; and the provider may be
-- rendered again at any time.
use mwdb_core.Common.{
  ℕ, Bool, true, false, Option, none, some, List, [], ◌∷◌, ◌++◌, if◌then◌else◌, ◌≡◌,
}
use mwdb_core.Common.Text.{Text}
use mwdb_core.Auth.Session.{
  User, Verdict, valid, invalid, throws, Platform, is_session_valid, get_stored_auth_session,
  set_token_for_api,
}

-- The reason that `logout` hands to the login page.
pub data Reason : Type 0 where
  error : Text → Reason
  success : Reason

-- `storage` is the item "user" of `localStorage`, `notice` a storage event that is still to come,
-- `pending` the sessions that the refreshes under way have seen, and `login_page` the state of the
-- last navigation to the login page.
pub record Provider : Type 0 where
  pub storage : Option Text
  pub header : Option Text
  pub session : Option User
  pub notice : Bool
  pub pending : List (Option User)
  pub login_page : Option Reason

-- `omit(user, "token")`
abbrev pub omit_token : User → User
omit_token u = record u { token = none }

module _ (p : Platform) (is_equal : Option User → Option User → Bool) where
  abbrev pub next_session : Option User → Option User → Option User → Option User
  next_session seen current none = none
  next_session seen current (some u) =
      if is_equal seen (some (omit_token u)) then current else some (omit_token u)

  unfoldable pub set_session : ℕ → Option User → Option User → Provider → Provider
  set_session now seen new_session s =
      let stored = get_stored_auth_session p now s.storage in
      record s {
        storage = stored.1;
        header = set_token_for_api stored.0;
        session = next_session seen s.session new_session;
      }

  abbrev pub store : ℕ → Option User → User → Provider → Verdict → Option Provider
  store now seen u s valid =
      some (set_session now seen (some u) (record s { storage = some (p.stringify u) }))
  store now seen u s invalid = none
  store now seen u s throws = none

  -- `none` is the error that is thrown before anything is written.
  unfoldable pub update_session : ℕ → Option User → Option User → Provider → Option Provider
  update_session now seen none s = some (set_session now seen none (record s { storage = none }))
  update_session now seen (some u) s = store now seen u s (is_session_valid p now (some u))

  abbrev pub or_else : Provider → Option Provider → Provider
  or_else s none = s
  or_else s (some s') = s'

  -- The call of `refreshSession` by a function that has seen this session.
  unfoldable pub refresh_session : Option User → Provider → Provider
  refresh_session none s = s
  refresh_session (some u) s = record s { pending = s.pending ++ some u ∷ [] }

  -- The rest of `refreshSession` when the reply comes; what it throws is caught.
  unfoldable pub refreshed : ℕ → Option User → User → Provider → Provider
  refreshed now seen u s = or_else s (update_session now seen (some u) s)

  unfoldable pub logout : ℕ → Reason → Provider → Provider
  logout now reason s = record (set_session now s.session none (record s { storage = none })) {
    login_page = some reason;
  }

  -- The first render, with what the storage holds.
  unfoldable pub mount : ℕ → Option Text → Provider
  mount now storage =
      let stored = get_stored_auth_session p now storage in
      record {
        storage = stored.1;
        header = set_token_for_api stored.0;
        session = stored.0;
        notice = false;
        pending = [];
        login_page = none;
      }

  -- A later render, which reads the storage again for the argument of `useState` and leaves aside what
  -- it has read.
  unfoldable pub render_again : ℕ → Provider → Provider
  render_again now s = record s { storage = (get_stored_auth_session p now s.storage).1 }

  -- `synchronizeSessionState`, whose `setSession` is that of the first render.
  unfoldable pub synchronize_session_state : ℕ → Option User → Provider → Provider
  synchronize_session_state now first s =
      let stored = get_stored_auth_session p now s.storage in
      record (set_session now first stored.0 (record s { storage = stored.1 })) { notice = false }

  -- The effect that takes the token out of the session.
  unfoldable pub drop_token : Provider → Provider
  drop_token s = elim s.session [ none ↦ s | some u ↦ record s { session = some (omit_token u) } ]

  -- What can happen to a provider whose first render saw the session `first`.
  pub data Step (first : Option User) : Provider → Provider → Type 0 where
    updates :
        (now : ℕ) (seen new_session : Option User) (s s' : Provider)
        → update_session now seen new_session s ≡ some s'
        → Step first s s'
    logs_out : (now : ℕ) (reason : Reason) (s : Provider) → Step first s (logout now reason s)
    refreshes : (s : Provider) → Step first s (refresh_session s.session s)
    is_forbidden : (s : Provider) → Step first s (refresh_session first s)
    gets_reply :
        (now : ℕ) (seen : Option User) (u : User) (s : Provider) (before after : List (Option User))
        → s.pending ≡ before ++ seen ∷ after
        → Step first s (refreshed now seen u (record s { pending = before ++ after }))
    loses_reply :
        (seen : Option User) (s : Provider) (before after : List (Option User))
        → s.pending ≡ before ++ seen ∷ after
        → Step first s (record s { pending = before ++ after })
    drops_token : (s : Provider) → Step first s (drop_token s)
    other_window_writes :
        (storage : Option Text) (s : Provider)
        → Step first s (record s { storage = storage; notice = true })
    renders_again : (now : ℕ) (s : Provider) → Step first s (render_again now s)
    is_notified : (now : ℕ) (s : Provider) → Step first s (synchronize_session_state now first s)

  -- The states that a provider gets to, which is mounted with this in the storage.
  pub data Reachable (now : ℕ) (storage : Option Text) : Provider → Type 0 where
    mounted : Reachable now storage (mount now storage)
    after :
        {s s' : Provider}
        → Reachable now storage s
        → Step (mount now storage).session s s'
        → Reachable now storage s'
