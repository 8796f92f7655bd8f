-- ===== src/Plugins/Tests.antt =====
-- Two plugins, of which one fails.
use mwdb_core.Common.{ℕ, none, some, List, [], ◌∷◌, ◌≡◌, refl, Option}
use mwdb_core.Common.Text.{Text, text, text_eq}
use mwdb_core.Plugins.Loader.{
  spec_element, load_plugins, from_plugins, extension, children_only, show_extension,
  show_extendable,
}

abbrev loaders : List (Text × Option (List (Text × List ℕ)))
loaders = (text "broken", none) ∷ (text "karton", some ((text "boxAfter", 7 ∷ []) ∷ [])) ∷ []

shown_after :
    show_extendable (load_plugins loaders) (text "box") (some (text "card"))
    ≡ children_only (text "card") ∷ extension 7 none ∷ []
unfolding show_extendable show_extension from_plugins load_plugins spec_element text_eq
shown_after = refl
