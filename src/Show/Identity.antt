-- ===== src/Show/Identity.antt =====
-- ShowObject.tsx: whose data the page shows.
use mwdb_core.Common.{
  Bool, true, false, Option, none, some, List, [], ◌∷◌, ◌++◌, ◌≡◌, refl, ap, ◌∙◌, ◌⊎◌, ◌≢◌, inl,
  inr, All, All-append, subst,
}
use mwdb_core.Common.Text.{Text, text}
use mwdb_core.Show.Reducer.{object_update, object_reducer}
use mwdb_core.Show.Updates.{IsObject, known, last_known, known-object_reducer}
use mwdb_core.Show.Page.{ShowPage, ask_object, receive_object, update_object_data, open_page}

abbrev id_name : Text
id_name = text "id"

module _ (P : Text × Bool → Type 0) (r : Text × Bool) (later : List (Text × Bool)) where
  All-remove :
      (before : List (Text × Bool)) → All P (before ++ r ∷ later) → P r × All P (before ++ later)
  All-remove [] (k, ks) = (k, ks)
  All-remove (b ∷ before) (k, ks) = let rest = All-remove before ks in (rest.0, (k, rest.1))

asked_of :
    (id other : Text) (do_load : Bool) (pending before later : List (Text × Bool))
    → All (λ r. r.0 ≡ id) pending
    → pending ≡ before ++ (other, do_load) ∷ later
    → (other ≡ id) × All (λ r. r.0 ≡ id) (before ++ later)
asked_of id other do_load pending before later h e =
    All-remove (λ r. r.0 ≡ id) (other, do_load) later before (subst (All (λ r. r.0 ≡ id)) e h)

module _ {V : Type 0} (is_equal : Option V → Option V → Bool) (answer : Text → List (Text × V))
    (id_value : Text → V) where
  -- What can happen to a page that keeps its `objectId`. Updates of the data give the members that
  -- the boxes load by themselves, which are not the identifier.
  pub data Step : ShowPage V → ShowPage V → Type 0 where
    asks : (do_load : Bool) (page : ShowPage V) → Step page (ask_object is_equal do_load page)
    gets_reply :
        (id : Text) (do_load : Bool) (page : ShowPage V) (before later : List (Text × Bool))
        → page.pending ≡ before ++ (id, do_load) ∷ later
        → Step page (
            receive_object is_equal do_load (answer id) (record page { pending = before ++ later }))
    gets_error :
        (id : Text) (do_load : Bool) (page : ShowPage V) (before later : List (Text × Bool))
        → page.pending ≡ before ++ (id, do_load) ∷ later
        → Step page (record page { pending = before ++ later })
    updates_data :
        (o : List (Text × V)) (page : ShowPage V)
        → IsObject o
        → known id_name (some o) ≡ none
        → page.object ≢ none
        → Step page (update_object_data is_equal o page)

  pub data Reachable (id : Text) : ShowPage V → Type 0 where
    opened : Reachable id (open_page is_equal id)
    after : {page next : ShowPage V} → Reachable id page → Step page next → Reachable id next

  record IsOf (id : Text) (page : ShowPage V) : Type 0 where
    own_id : page.object_id ≡ id
    asked : All (λ r. r.0 ≡ id) page.pending
    shown : page.object ≡ none ⊎ known id_name page.object ≡ some (id_value id)

  module _ (sound : (a b : Option V) → is_equal a b ≡ true → a ≡ b)
      (answer-IsObject : (id : Text) → IsObject (answer id))
      (answer_id : (id : Text) → known id_name (some (answer id)) ≡ some (id_value id)) where
    ask_object-IsOf :
        (id : Text) (do_load : Bool) (page : ShowPage V)
        → IsOf id page
        → IsOf id (ask_object is_equal do_load page)
    unfolding ask_object
    ask_object-IsOf id do_load page h = record {
      own_id = h.own_id;
      asked = All-append (λ r. r.0 ≡ id) page.pending _ h.asked (h.own_id, tt);
      shown = h.shown;
    }

    receive_object-shown :
        (id : Text) (do_load : Bool) (page : ShowPage V)
        → known id_name (receive_object is_equal do_load (answer id) page).object
          ≡ some (id_value id)
    unfolding receive_object object_reducer last_known
    receive_object-shown id true page = answer_id id
    receive_object-shown id false page =
        known-object_reducer is_equal sound id_name page.object (object_update (some (answer id)))
          (answer-IsObject id)
        ∙ rw (answer_id id) refl

    update-shown :
        (id : Text) (o : List (Text × V)) (page : ShowPage V)
        → IsObject o
        → known id_name (some o) ≡ none
        → page.object ≢ none
        → page.object ≡ none ⊎ known id_name page.object ≡ some (id_value id)
        → known id_name (update_object_data is_equal o page).object ≡ some (id_value id)
    unfolding update_object_data last_known
    update-shown id o page h absent present (inl e) = absurd (present e)
    update-shown id o page h absent present (inr e) =
        known-object_reducer is_equal sound id_name page.object (object_update (some o)) h
        ∙ rw absent e

    preserves-IsOf :
        (id : Text) {page next : ShowPage V} → Step page next → IsOf id page → IsOf id next
    unfolding receive_object update_object_data
    preserves-IsOf id (asks do_load page) h = ask_object-IsOf id do_load page h
    preserves-IsOf id (gets_reply other do_load page before later e) h =
        let (k, rest) = asked_of id other do_load page.pending before later h.asked e in
        record {
          own_id = h.own_id;
          asked = rest;
          shown = inr (
              receive_object-shown other do_load (record page { pending = before ++ later })
              ∙ ap (λ t. some (id_value t)) k);
        }
    preserves-IsOf id (gets_error other do_load page before later e) h = record {
      own_id = h.own_id;
      asked = (asked_of id other do_load page.pending before later h.asked e).1;
      shown = h.shown;
    }
    preserves-IsOf id (updates_data o page k absent present) h = record {
      own_id = h.own_id;
      asked = h.asked;
      shown = inr (update-shown id o page k absent present h.shown);
    }

    Reachable-IsOf : (id : Text) {page : ShowPage V} → Reachable id page → IsOf id page
    unfolding open_page
    Reachable-IsOf id opened =
        ask_object-IsOf id true (record { object_id = id; object = none; pending = [] })
          (record { own_id = refl; asked = tt; shown = inl refl })
    Reachable-IsOf id (after r step) = preserves-IsOf id step (Reachable-IsOf id r)

  shown_known :
      (id : Text) (o : Option (List (Text × V)))
      → o ≢ none
      → o ≡ none ⊎ known id_name o ≡ some (id_value id)
      → known id_name o ≡ some (id_value id)
  shown_known id o present (inl e) = absurd (present e)
  shown_known id o present (inr e) = e

  -- If `isEqual` finds only equal values equal, and the server answers each request with an object that
  -- has the identifier asked for, then an object that a page shows which keeps its `objectId` has
  -- this identifier, whatever replies, errors and updates of the data that leave the identifier out
  -- there were, in any order.
  pub known-Reachable :
      ((a b : Option V) → is_equal a b ≡ true → a ≡ b)
      → ((id : Text) → IsObject (answer id))
      → ((id : Text) → known id_name (some (answer id)) ≡ some (id_value id))
      → (id : Text) (page : ShowPage V) → Reachable id page
      → page.object ≢ none
      → known id_name page.object ≡ some (id_value id)
  known-Reachable sound answer-IsObject answer_id id page r present =
      shown_known id page.object present (Reachable-IsOf sound answer-IsObject answer_id id r).shown
