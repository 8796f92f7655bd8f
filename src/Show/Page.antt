-- ===== src/Show/Page.antt =====
-- ShowObject.tsx: the page as a machine. `pending` are the requests under way, each with the object
-- that it asks for and whether it loads the object anew (`doLoad`).
use mwdb_core.Common.{Bool, true, Option, none, some, List, [], ◌∷◌, ◌++◌, if◌then◌else◌}
use mwdb_core.Common.Text.{Text}
use mwdb_core.Show.Reducer.{object_load, object_update, object_reducer}

pub record ShowPage (V : Type 0) : Type 0 where
  pub object_id : Text
  pub object : Option (List (Text × V))
  pub pending : List (Text × Bool)

module _ {V : Type 0} (is_equal : Option V → Option V → Bool) where
  -- `updateObject`, up to where it waits.
  unfoldable pub ask_object : Bool → ShowPage V → ShowPage V
  ask_object do_load page = record page { pending = page.pending ++ (page.object_id, do_load) ∷ [] }

  -- The rest of `updateObject`, for a reply.
  unfoldable pub receive_object : Bool → List (Text × V) → ShowPage V → ShowPage V
  receive_object do_load o page = record page {
    object =
        object_reducer is_equal page.object
          (if do_load then object_load (some o) else object_update (some o));
  }

  unfoldable pub update_object_data : List (Text × V) → ShowPage V → ShowPage V
  update_object_data o page = record page {
    object = object_reducer is_equal page.object (object_update (some o));
  }

  -- The first rendering, and the effect that loads the object.
  unfoldable pub open_page : Text → ShowPage V
  open_page id = ask_object true (record { object_id = id; object = none; pending = [] })

  -- The same page with another `objectId`.
  unfoldable pub change_object : Text → ShowPage V → ShowPage V
  change_object id page = ask_object true (record page { object_id = id })
