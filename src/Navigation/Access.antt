-- ===== src/Navigation/Access.antt =====
-- AppRoutes.tsx: for whom the routes open, against a table of what the locations ask for.
use mwdb_core.Common.{
  Bool, true, false, Option, List, [], ◌∷◌, if◌then◌else◌, every, any, All, ◌&&◌, ◌≡◌, refl, ap,
  ◌∙◌, Bool-cases, inl, inr, arith,
}
use mwdb_core.Common.Text.{Text, text, text_eq, text_eq_sound}
use mwdb_core.Auth.Session.{User, has_capability}
use mwdb_core.Navigation.Guards.{
  view, requires_auth, requires_capability, sample_route_fallback, navigate_for_404, index,
  pathless, path, none_left, Branch, branches, branches_of, is_authenticated, render, is_open,
}
use mwdb_core.Navigation.Routes.{app_routes}

pub data Guard : Type 0 where
  session_needed : Guard
  capability_needed : Text → Guard

abbrev pub passes : Option User → Guard → Bool
passes session session_needed = is_authenticated session
passes session (capability_needed c) = has_capability session c

-- The paths on a branch.
abbrev pub segments : Branch → List Text
segments [] = []
segments ((path s, e) ∷ b) = s ∷ segments b
segments ((index, e) ∷ b) = segments b
segments ((pathless, e) ∷ b) = segments b

abbrev is_among : Text → List Text → Bool
is_among s = any (λ t. text_eq t s)

abbrev public_paths : List Text
public_paths =
    text "login"
    ∷ text "register"
    ∷ text "recover_password"
    ∷ text "setpasswd"
    ∷ text "oauth/callback"
    ∷ text "*"
    ∷ []

-- What a location asks for: nothing on the public pages, users' management for all settings, and the
-- right to add what is uploaded.
abbrev pub required : List Text → List Guard
required [] = session_needed ∷ []
required (s ∷ ss) =
    if is_among s public_paths
    then []
    else if text_eq s (text "settings")
    then session_needed ∷ capability_needed (text "manage_users") ∷ []
    else if text_eq s (text "upload")
    then session_needed ∷ capability_needed (text "adding_files") ∷ []
    else if text_eq s (text "blob_upload")
    then session_needed ∷ capability_needed (text "adding_blobs") ∷ []
    else if text_eq s (text "config_upload")
    then session_needed ∷ capability_needed (text "adding_configs") ∷ []
    else session_needed ∷ []

abbrev pub allows : Option User → List Text → Bool
allows session segments = every (passes session) (required segments)

-- The guards on a branch.
abbrev guards : Branch → List Guard
guards [] = []
guards ((p, view v) ∷ b) = guards b
guards ((p, requires_auth) ∷ b) = session_needed ∷ guards b
guards ((p, requires_capability c v) ∷ b) = capability_needed c ∷ guards b
guards ((p, sample_route_fallback) ∷ b) = []
guards ((p, navigate_for_404) ∷ b) = []

is_open-render :
    (session : Option User) (hash : Text) (b : Branch)
    → is_open (render session hash b) ≡ every (passes session) (guards b)
unfolding render
is_open-render session hash [] = refl
is_open-render session hash ((p, view v) ∷ b) = is_open-render session hash b
is_open-render session hash ((p, requires_auth) ∷ b) =
    elim (Bool-cases (is_authenticated session)) [
      | inl e ↦ rw e (is_open-render session hash b)
      | inr e ↦ rw e refl
    ]
is_open-render session hash ((p, requires_capability c v) ∷ b) =
    elim (Bool-cases (has_capability session c)) [
      | inl e ↦ rw e (is_open-render session hash b)
      | inr e ↦ rw e refl
    ]
is_open-render session hash ((p, sample_route_fallback) ∷ b) = refl
is_open-render session hash ((p, navigate_for_404) ∷ b) = refl

abbrev guard_eq : Guard → Guard → Bool
guard_eq session_needed session_needed = true
guard_eq (capability_needed c) (capability_needed d) = text_eq c d
guard_eq _ _ = false

abbrev guards_eq : List Guard → List Guard → Bool
guards_eq [] [] = true
guards_eq (g ∷ gs) (h ∷ hs) = guard_eq g h && guards_eq gs hs
guards_eq _ _ = false

guard_eq_sound : (g h : Guard) → guard_eq g h ≡ true → g ≡ h
guard_eq_sound session_needed session_needed e = refl
guard_eq_sound (capability_needed c) (capability_needed d) e =
    ap capability_needed (text_eq_sound c d e)
guard_eq_sound session_needed (capability_needed d) e = absurd (cc e)
guard_eq_sound (capability_needed c) session_needed e = absurd (cc e)

guards_eq_sound : (gs hs : List Guard) → guards_eq gs hs ≡ true → gs ≡ hs
guards_eq_sound [] [] e = refl
guards_eq_sound (g ∷ gs) (h ∷ hs) e = ground (arith, guard_eq_sound g h, guards_eq_sound gs hs)
guards_eq_sound [] (h ∷ hs) e = absurd (cc e)
guards_eq_sound (g ∷ gs) [] e = absurd (cc e)

abbrev is_guarded : Branch → Bool
is_guarded b = guards_eq (guards b) (required (segments b))

every_guarded :
    (session : Option User) (hash : Text) (bs : List Branch)
    → every is_guarded bs ≡ true
    → All (λ b. is_open (render session hash b) ≡ allows session (segments b)) bs
every_guarded session hash [] e = tt
every_guarded session hash (b ∷ bs) e = elim (Bool-cases (is_guarded b)) [
  | inl g ↦ (
    is_open-render session hash b
        ∙ ap (every (passes session)) (guards_eq_sound (guards b) (required (segments b)) g),
    every_guarded session hash bs (cc (e, g)),
  )
  | inr g ↦ absurd (cc (e, g))
]

-- Where no plugin adds routes, whichever branch the router takes, the user is neither sent to the login
-- page nor refused exactly if the session is one that the location asks for: none on the public
-- pages, any elsewhere, but one with the right to manage users for all settings, and one with the
-- right to add files, blobs or configurations for their uploads.
pub render-allows :
    (session : Option User) (hash : Text)
    → All
        (λ b. is_open (render session hash b) ≡ allows session (segments b))
        (branches (app_routes none_left none_left))
unfolding branches branches_of app_routes text_eq
render-allows session hash =
    every_guarded session hash (branches (app_routes none_left none_left)) refl
