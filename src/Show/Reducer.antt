-- ===== src/Show/Reducer.antt =====
-- components/ShowObject/common/ShowObject.tsx: the object that the page shows. Objects are lists of
-- members with distinct names; `isEqual` of lodash is a parameter.
use mwdb_core.Common.{Bool, Option, none, some, List, [], ◌∷◌, if◌then◌else◌, every}
use mwdb_core.Common.Text.{Text, text_eq}

module _ {V : Type 0} where
  -- `object[name]`, where `none` is `undefined`.
  unfoldable pub member_of : Text → List (Text × V) → Option V
  member_of name [] = none
  member_of name ((other, v) ∷ o) = if text_eq other name then some v else member_of name o

  -- `object[name] = v`
  unfoldable pub set_member : Text → V → List (Text × V) → List (Text × V)
  set_member name v [] = (name, v) ∷ []
  set_member name v ((other, w) ∷ o) =
      if text_eq other name then (other, v) ∷ o else (other, w) ∷ set_member name v o

  -- `{...object, ...update}`
  unfoldable pub spread : List (Text × V) → List (Text × V) → List (Text × V)
  spread o [] = o
  spread o ((name, v) ∷ update) = spread (set_member name v o) update

pub data ObjectAction (V : Type 0) : Type 0 where
  object_load object_update : Option (List (Text × V)) → ObjectAction V

module _ {V : Type 0} (is_equal : Option V → Option V → Bool) where
  unfoldable pub is_dummy_update : List (Text × V) → List (Text × V) → Bool
  is_dummy_update o update = every (λ m. is_equal (member_of m.0 o) (member_of m.0 update)) update

  -- An object that is missing spreads to nothing.
  abbrev update_object : Option (List (Text × V)) → List (Text × V) → List (Text × V)
  update_object none update = spread [] update
  update_object (some o) update = if is_dummy_update o update then o else spread o update

  -- The state is the object, if there is one.
  unfoldable pub object_reducer :
      Option (List (Text × V)) → ObjectAction V → Option (List (Text × V))
  object_reducer state (object_load o) = o
  object_reducer state (object_update none) = state
  object_reducer state (object_update (some update)) = some (update_object state update)

  unfoldable pub dispatch_updates :
      Option (List (Text × V)) → List (ObjectAction V) → Option (List (Text × V))
  dispatch_updates state [] = state
  dispatch_updates state (a ∷ actions) = dispatch_updates (object_reducer state a) actions
