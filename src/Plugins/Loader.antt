-- ===== src/Plugins/Loader.antt =====
-- commons/plugins/loader.tsx, Extension.tsx and Extendable.tsx. A plugin is what its module gives when
-- it is imported and called, `none` where either fails. `P` is what an extension is.
use mwdb_core.Common.{Option, none, some, List, [], ◌∷◌, ◌++◌, if◌then◌else◌}
use mwdb_core.Common.Text.{Text, text, text_eq}

-- What is shown: an extension, with the children that it gets, or the children.
pub data Shown (P C : Type 0) : Type 0 where
  extension : P → Option C → Shown P C
  children_only : C → Shown P C

module _ {P : Type 0} where
  -- `spec[element] || []`
  unfoldable pub spec_element : Text → List (Text × List P) → List P
  spec_element element [] = []
  spec_element element ((name, extensions) ∷ spec) =
      if text_eq name element then extensions else spec_element element spec

  -- The loop of `loadPlugins`, over the entries of the loaders.
  unfoldable pub load_plugins :
      List (Text × Option (List (Text × List P))) → List (Text × List (Text × List P))
  load_plugins [] = []
  load_plugins ((name, none) ∷ loaders) = load_plugins loaders
  load_plugins ((name, some spec) ∷ loaders) = (name, spec) ∷ load_plugins loaders

  unfoldable pub from_plugins : List (Text × List (Text × List P)) → Text → List P
  from_plugins [] element = []
  from_plugins ((name, spec) ∷ plugins) element =
      spec_element element spec ++ from_plugins plugins element

  module _ {C : Type 0} where
    abbrev extend_all : List P → Option C → List (Shown P C)
    extend_all [] children = []
    extend_all (p ∷ ps) children = extension p children ∷ extend_all ps children

    abbrev pub shown_children : Option C → List (Shown P C)
    shown_children none = []
    shown_children (some c) = children_only c ∷ []

    abbrev pub extend : List P → Option C → List (Shown P C)
    extend [] children = shown_children children
    extend (p ∷ ps) children = extend_all (p ∷ ps) children

    -- `Extension`
    unfoldable pub show_extension :
        List (Text × List (Text × List P)) → Text → Option C → List (Shown P C)
    show_extension plugins ident children = extend (from_plugins plugins ident) children

    -- `Extendable`
    unfoldable pub show_extendable :
        List (Text × List (Text × List P)) → Text → Option C → List (Shown P C)
    show_extendable plugins ident children =
        show_extension plugins (ident ++ text "Before") none
        ++ (show_extension plugins (ident ++ text "Replace") children
            ++ show_extension plugins (ident ++ text "After") none)
