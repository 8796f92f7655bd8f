-- ===== src/Suggest/Complete.antt =====
-- A suggestion that is made for the partial input at the end of a text extends the text.
use mwdb_core.Common.{
  ◌-◌, ◌≡◌, inl, inr, ap, ◌∙◌, Bool, true, false, Option, none, some, List, [], ◌∷◌, ◌++◌,
  append_assoc, arith, if◌then◌else◌, ◌||◌, leb, length, drop, last?, All, All-append, take-append,
  length-append, Bool-cases, le→leb,
}
use mathlib.Core.Option.{some-injective}
use mwdb_core.Common.Text.{Text, text, starts_with, starts_with_split, starts_with-append}
use mwdb_core.Suggest.Fields.{
  FieldDefinition, ObjectType, object, file, config, blob, field_definitions, object_type?,
}
use mwdb_core.Suggest.Current.{QuerySuggestion, suffix, slice_off, make_suggestion}
use mwdb_core.Suggest.Fetch.{
  push_some, suggest_fields, lookup_key, Fetched, ready, awaits, untyped_suggestions,
  typed_suggestions, call_getter, is_object, select_type, with_last, fetch_typed, fetch_path,
}

-- The query with the suggestion taken begins with the query.
abbrev pub IsExtension : Text → QuerySuggestion → Type 0
IsExtension query s = starts_with (s.apply query) query ≡ true

slice_off-append : (pre partial : Text) → slice_off (length partial) (pre ++ partial) ≡ pre
slice_off-append pre partial =
    let e : length (pre ++ partial) - length partial ≡ length pre =
      omega (arith, length-append pre partial) in
    let fits : leb (length partial) (length (pre ++ partial)) ≡ true =
      le→leb _ _ (omega (arith, length-append pre partial)) in
    rw (fits, e) (take-append pre partial)

-- A suggestion that begins with the partial input, put in its place.
completes :
    (pre partial w tail : Text)
    → starts_with w partial ≡ true
    → starts_with (slice_off (length partial) (pre ++ partial) ++ (w ++ tail)) (pre ++ partial)
      ≡ true
completes pre partial w tail h =
    let rest = drop (length partial) w in
    let whole : pre ++ (w ++ tail) ≡ (pre ++ partial) ++ (rest ++ tail) =
      ap (λ t. pre ++ (t ++ tail)) (starts_with_split w partial h) ∙ simp append_assoc in
    rw slice_off-append (rw whole (starts_with-append (pre ++ partial) (rest ++ tail)))

module _ (pre partial : Text) where
  abbrev pub Extends : QuerySuggestion → Type 0
  Extends = IsExtension (pre ++ partial)

  push_some-Extends :
      (name : Text) (d : FieldDefinition) (prefix : Text) (rest : List QuerySuggestion)
      → All Extends rest
      → All Extends (push_some (make_suggestion partial name d prefix) rest)
  unfolding make_suggestion
  push_some-Extends name d prefix rest h =
      elim (Bool-cases (starts_with (prefix ++ name) partial)) [
        | inl fits ↦ rw (fits, All) (completes pre partial (prefix ++ name) (suffix d) fits, h)
        | inr other ↦ rw (other, All) h
      ]

  suggest_fields-Extends :
      (prefix : Text) (fields : List (Text × FieldDefinition))
      → All Extends (suggest_fields partial prefix fields)
  unfolding suggest_fields
  suggest_fields-Extends prefix [] = tt
  suggest_fields-Extends prefix ((name, d) ∷ fields) =
      push_some-Extends name d prefix _ (suggest_fields-Extends prefix fields)

  untyped_suggestions-Extends : All Extends (untyped_suggestions partial)
  unfolding untyped_suggestions
  untyped_suggestions-Extends =
      All-append Extends _ _ (suggest_fields-Extends [] (field_definitions object)) (
        All-append Extends _ _ (suggest_fields-Extends (text "file.") (field_definitions file)) (
          All-append Extends _ _
            (suggest_fields-Extends (text "config.") (field_definitions config))
            (suggest_fields-Extends (text "blob.") (field_definitions blob))))

  typed_suggestions-Extends : (type : ObjectType) → All Extends (typed_suggestions type partial)
  unfolding typed_suggestions
  typed_suggestions-Extends type = suggest_fields-Extends [] _

-- What holds of the suggestions that are made at once.
abbrev pub Ready {ℓ} : {G : Type ℓ} → (QuerySuggestion → Type 0) → Fetched G → Type 0
Ready P (ready ss) = All P ss
Ready P (awaits g path) = Unit

module _ {ℓ} {G : Type ℓ} (P : QuerySuggestion → Type 0) where
  Ready-if : (b : Bool) (x y : Fetched G) → Ready P x → Ready P y → Ready P (if b then x else y)
  Ready-if true x y hx hy = hx
  Ready-if false x y hx hy = hy

  Ready-call_getter :
      (getters : List (Text × G)) (o : Option G) (path : List Text)
      → Ready P (call_getter getters o path)
  Ready-call_getter getters none path = tt
  Ready-call_getter getters (some g) path = tt

module _ {ℓ} {G : Type ℓ} (getters : List (Text × G)) (pre partial : Text) where
  fetch_typed-Extends :
      (type : ObjectType) (path : List Text)
      → Ready (Extends pre partial) (fetch_typed getters type path partial)
  unfolding fetch_typed
  fetch_typed-Extends type [] = tt
  fetch_typed-Extends type (f ∷ []) = typed_suggestions-Extends pre partial type
  fetch_typed-Extends type (f ∷ g ∷ path) =
      Ready-call_getter (Extends pre partial) getters (lookup_key f getters) (f ∷ g ∷ path)

  select_type-Extends :
      (type : ObjectType) (o : Option ObjectType) (f : Text) (path : List Text)
      → Ready (Extends pre partial) (select_type getters type o f path partial)
  select_type-Extends type none f path = fetch_typed-Extends type (f ∷ path)
  select_type-Extends type (some selected) f path = fetch_typed-Extends selected path

  pub fetch_path-Extends :
      (type : ObjectType) (path : List Text) (inside : Bool)
      → last? path ≡ some partial
      → Ready (Extends pre partial) (fetch_path getters type path inside)
  unfolding fetch_path
  fetch_path-Extends type [] inside h = tt
  fetch_path-Extends type (f ∷ []) inside h = rw (some-injective _ _ h) (
      Ready-if (Extends pre partial) (is_object getters type || inside) _ _
        (untyped_suggestions-Extends pre partial) (fetch_typed-Extends type (partial ∷ [])))
  fetch_path-Extends type (f ∷ g ∷ path) inside h =
      rw (h, with_last)
        (Ready-if (Extends pre partial) (is_object getters type || inside) _ _
          (select_type-Extends type (object_type? f) f (g ∷ path))
          (fetch_typed-Extends type (f ∷ g ∷ path)))

-- No suggestion is made where no field is being typed.
pub fetch_path-none {ℓ} :
    {G : Type ℓ} (P : QuerySuggestion → Type 0) (getters : List (Text × G)) (type : ObjectType)
    (path : List Text) (inside : Bool)
    → last? path ≡ none
    → Ready P (fetch_path getters type path inside)
unfolding fetch_path
fetch_path-none P getters type [] inside h = tt
fetch_path-none P getters type (f ∷ []) inside h = cc
fetch_path-none P getters type (f ∷ g ∷ path) inside h = rw (h, with_last) tt
