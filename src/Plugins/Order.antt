-- ===== src/Plugins/Order.antt =====
-- loader.tsx: plugins that fail, and the order of what the others add.
use mwdb_core.Common.{
  Option, none, some, List, [], ◌∷◌, ◌++◌, ◌≡◌, refl, sym, ap, ◌∙◌, append_assoc,
}
use mwdb_core.Common.Text.{Text}
use mwdb_core.Plugins.Loader.{spec_element, load_plugins, from_plugins}

module _ {P : Type 0} where
  abbrev pub added : Text → List (Text × Option (List (Text × List P))) → List P
  added element loaders = from_plugins (load_plugins loaders) element

  -- What two groups of plugins add is what the first adds and then what the second adds.
  pub added-append :
      (element : Text) (first second : List (Text × Option (List (Text × List P))))
      → added element (first ++ second) ≡ added element first ++ added element second
  unfolding load_plugins from_plugins
  added-append element [] second = refl
  added-append element ((name, none) ∷ first) second = added-append element first second
  added-append element ((name, some spec) ∷ first) second =
      ap (λ t. spec_element element spec ++ t) (added-append element first second)
      ∙ sym (append_assoc (spec_element element spec) (added element first) (added element second))

  -- A plugin that fails to load takes nothing away from the others, wherever it stands among them.
  pub added-without :
      (element name : Text) (first second : List (Text × Option (List (Text × List P))))
      → added element (first ++ (name, none) ∷ second) ≡ added element (first ++ second)
  unfolding load_plugins
  added-without element name first second =
      added-append element first ((name, none) ∷ second) ∙ sym (added-append element first second)
