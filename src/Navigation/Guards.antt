-- ===== src/Navigation/Guards.antt =====
-- commons/navigation and commons/ui: RequiresAuth.tsx, RequiresCapability.tsx, NavigateFor404.tsx and
-- SampleRouteFallback.tsx, and what is shown for a branch of a tree of routes. react-router chooses
-- the branch for a location: nothing is said about which one that is.
use mwdb_core.Common.{
  Bool, true, false, Option, none, some, List, [], ◌∷◌, ◌++◌, map, if◌then◌else◌, every,
}
use mwdb_core.Common.Text.{Text, text}
use mwdb_core.Auth.Session.{User, has_capability}

abbrev pub manage_users : Text
manage_users = text "manage_users"

abbrev pub adding_files : Text
adding_files = text "adding_files"

abbrev pub adding_configs : Text
adding_configs = text "adding_configs"

abbrev pub adding_blobs : Text
adding_blobs = text "adding_blobs"

-- The `element` of a route. A view is the name of its component.
pub data Element : Type 0 where
  view : Text → Element
  requires_auth : Element
  requires_capability : Text → Text → Element
  sample_route_fallback navigate_for_404 : Element

pub data RoutePath : Type 0 where
  index pathless : RoutePath
  path : Text → RoutePath

infixr 5 ◌&◌
mutual
  pub data Route : Type 0 where
    route : RoutePath → Element → Routes → Route

  pub data Routes : Type 0 where
    none_left : Routes
    ◌&◌ : Route → Routes → Routes

abbrev pub joined : Routes → Routes → Routes
joined none_left rs = rs
joined (r & qs) rs = r & joined qs rs

-- The routes from the root to one of the tree.
abbrev pub Branch : Type 0
Branch = List (RoutePath × Element)

unfoldable mutual
  pub branches : Routes → List Branch
  branches none_left = []
  branches (r & rs) = branches_of r ++ branches rs

  pub branches_of : Route → List Branch
  branches_of (route p e children) = ((p, e) ∷ []) ∷ map (λ b. (p, e) ∷ b) (branches children)

pub data Output : Type 0 where
  shows navigates : Text → Output
  to_login not_permitted : Output

abbrev pub is_authenticated : Option User → Bool
is_authenticated none = false
is_authenticated (some u) = true

abbrev pub show_if_authenticated : Option User → List Output → List Output
show_if_authenticated session outlet = if is_authenticated session then outlet else to_login ∷ []

abbrev pub show_if_capable : Option User → Text → Text → List Output → List Output
show_if_capable session c v outlet =
    if has_capability session c then shows v ∷ outlet else not_permitted ∷ []

abbrev pub show_sample_fallback : Text → List Output
show_sample_fallback hash = navigates (text "/file/" ++ hash) ∷ []

abbrev pub show_404 : List Output
show_404 = navigates (text "/") ∷ []

-- For the session, the parameter `hash` of the location, and what stands in the outlet.
abbrev pub render_element : Option User → Text → Element → List Output → List Output
render_element session hash (view v) outlet = shows v ∷ outlet
render_element session hash requires_auth outlet = show_if_authenticated session outlet
render_element session hash (requires_capability c v) outlet = show_if_capable session c v outlet
render_element session hash sample_route_fallback outlet = show_sample_fallback hash
render_element session hash navigate_for_404 outlet = show_404

-- A view that has routes below it shows their part in its outlet.
unfoldable pub render : Option User → Text → Branch → List Output
render session hash [] = []
render session hash ((p, e) ∷ b) = render_element session hash e (render session hash b)

abbrev is_granted : Output → Bool
is_granted (shows v) = true
is_granted (navigates to) = true
is_granted to_login = false
is_granted not_permitted = false

-- Nobody is sent away for a lack of rights.
abbrev pub is_open : List Output → Bool
is_open = every is_granted
