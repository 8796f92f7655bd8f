-- ===== src/Suggest/Fetch.antt =====
-- useQuerySuggestions.ts: `fetchSuggestions`. The getters of subfield suggestions are of any type
-- `G`: what the function returns is a list, or the call of a getter that it awaits.
use mwdb_core.Common.{
  Bool, true, false, Option, none, some, List, [], ◌∷◌, ◌++◌, if◌then◌else◌, ◌||◌, last?,
}
use mwdb_core.Common.Text.{Text, text, text_eq}
use mwdb_core.Query.Lexer.{Scan}
use mwdb_core.Query.Annotate.{annotate_query}
use mwdb_core.Suggest.Fields.{
  FieldDefinition, ObjectType, object, file, config, blob, field_definitions, object_type?,
}
use mwdb_core.Suggest.Current.{QuerySuggestion, make_suggestion, get_current_field}

-- `if (suggestion) suggestions.push(suggestion)`, before the suggestions of the rest of the loop
abbrev pub push_some : Option QuerySuggestion → List QuerySuggestion → List QuerySuggestion
push_some none rest = rest
push_some (some s) rest = s ∷ rest

-- A loop over the keys of a table.
unfoldable pub suggest_fields : Text → Text → List (Text × FieldDefinition) → List QuerySuggestion
suggest_fields partial prefix [] = []
suggest_fields partial prefix ((name, d) ∷ fields) =
    push_some (make_suggestion partial name d prefix) (suggest_fields partial prefix fields)

-- `object[key] = value`: a known key keeps its place.
unfoldable pub set_key {ℓ} : {V : Type ℓ} → Text → V → List (Text × V) → List (Text × V)
set_key k v [] = (k, v) ∷ []
set_key k v ((j, w) ∷ m) = if text_eq j k then (k, v) ∷ m else (j, w) ∷ set_key k v m

-- `{...m, ...n}`
unfoldable pub spread {ℓ} : {V : Type ℓ} → List (Text × V) → List (Text × V) → List (Text × V)
spread m [] = m
spread m ((k, v) ∷ n) = spread (set_key k v m) n

unfoldable pub lookup_key {ℓ} : {V : Type ℓ} → Text → List (Text × V) → Option V
lookup_key k [] = none
lookup_key k ((j, v) ∷ m) = if text_eq j k then some v else lookup_key k m

pub data Fetched {ℓ} (G : Type ℓ) : Type ℓ where
  ready : List QuerySuggestion → Fetched G
  awaits : G → List Text → Fetched G

-- The suggestions for an untyped query: those of every object, and each type's under its selector.
unfoldable pub untyped_suggestions : Text → List QuerySuggestion
untyped_suggestions last_field =
    suggest_fields last_field [] (field_definitions object)
    ++ (suggest_fields last_field (text "file.") (field_definitions file)
        ++ (suggest_fields last_field (text "config.") (field_definitions config)
            ++ suggest_fields last_field (text "blob.") (field_definitions blob)))

unfoldable pub typed_suggestions : ObjectType → Text → List QuerySuggestion
typed_suggestions type last_field =
    suggest_fields last_field [] (spread (field_definitions object) (field_definitions type))

module _ {ℓ} {G : Type ℓ} (getters : List (Text × G)) where
  abbrev pub call_getter : Option G → List Text → Fetched G
  call_getter none path = ready []
  call_getter (some g) path = awaits g path

  -- From the comment "Here type selector is gone".
  unfoldable pub fetch_typed : ObjectType → List Text → Text → Fetched G
  fetch_typed type [] last_field = ready []
  fetch_typed type (f ∷ []) last_field = ready (typed_suggestions type last_field)
  fetch_typed type (f ∷ g ∷ path) last_field = call_getter (lookup_key f getters) (f ∷ g ∷ path)

  -- A path of two fields or more, whose first may be a type selector.
  abbrev pub select_type : ObjectType → Option ObjectType → Text → List Text → Text → Fetched G
  select_type type none f path last_field = fetch_typed type (f ∷ path) last_field
  select_type type (some selected) f path last_field = fetch_typed selected path last_field

  abbrev pub is_object : ObjectType → Bool
  is_object object = true
  is_object _ = false

  abbrev pub with_last : Option Text → (Text → Fetched G) → Fetched G
  with_last none k = ready []
  with_last (some last_field) k = k last_field

  -- With `currentField` and `insideSubquery` known.
  unfoldable pub fetch_path : ObjectType → List Text → Bool → Fetched G
  fetch_path type [] inside = ready []
  fetch_path type (f ∷ []) inside =
      if is_object type || inside
      then ready (untyped_suggestions f)
      else fetch_typed type (f ∷ []) f
  fetch_path type (f ∷ g ∷ path) inside = with_last (last? (g ∷ path)) λ last_field.
      if is_object type || inside
      then select_type type (object_type? f) f (g ∷ path) last_field
      else fetch_typed type (f ∷ g ∷ path) last_field

  unfoldable pub fetch_suggestions : (Text → Scan) → Text → ObjectType → Fetched G
  fetch_suggestions moo query type =
      let (path, inside) = get_current_field (annotate_query moo query) in
      fetch_path type path inside
