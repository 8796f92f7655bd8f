-- ===== src/Suggest/Extends.antt =====
-- Taking a suggestion only adds text at the end of the query.
use mwdb_core.Common.{
  ◌≡◌, ◌≢◌, ◌⊎◌, inl, inr, refl, sym, ap, ◌∙◌, subst, true, false, Option, none, some, List, [],
  ◌∷◌, ◌++◌, append-nil, append_assoc, last?, any, Bool-cases, Option-cases,
}
use mathlib.Core.Option.{some-injective}
use mwdb_core.Common.Text.{Text}
use mwdb_core.Query.Lexer.{
  expr_arrayref, expr_fieldsep, fieldname, Scan, type_eq, includes, expected, allowed_states,
  field_types, field_part_types,
}
use mwdb_core.Query.Annotate.{
  AnnotationType, token, error, QueryAnnotation, AnnotatedQuery, annotate_query,
}
use mwdb_core.Query.Annotate.Cover.{spelled, Spells, annotate_query-IsPartition}
use mwdb_core.Query.Last.{last_type, FieldAfterSep, annotate_query-FieldAfterSep}
use mwdb_core.Suggest.Fields.{ObjectType}
use mwdb_core.Suggest.Current.{type_in, Scope, next_field, scan_fields, get_current_field}
use mwdb_core.Suggest.Fetch.{fetch_path, fetch_suggestions}
use mwdb_core.Suggest.Complete.{IsExtension, Ready, fetch_path-Extends, fetch_path-none}

-- The field path so far ends with the text read so far, or a part of a field name follows it.
abbrev IsTail : Text → Option AnnotationType → List Text → Type 0
IsTail done before fields =
    (f : Text)
    → last? fields ≡ some f
    → ((pre : Text) × (done ≡ pre ++ f))
      ⊎ ((t : AnnotationType) × (before ≡ some t) × (type_in field_part_types t ≡ true))

last?-snoc {ℓ} : {A : Type ℓ} (xs : List A) (x : A) → last? (xs ++ x ∷ []) ≡ some x
last?-snoc [] x = refl
last?-snoc (y ∷ []) x = refl
last?-snoc (y ∷ z ∷ xs) x = last?-snoc (z ∷ xs) x

next_field-IsTail :
    (done : Text) (before : Option AnnotationType) (fields : List Text) (a : QueryAnnotation)
    → IsTail (done ++ a.value) (some a.type) (next_field fields a)
next_field-IsTail done before fields a = elim (Bool-cases (type_in field_types a.type)) [
  | inl field ↦ rw (field) λ f h.
      inl (done, ap (λ t. done ++ t) (some-injective _ _ (sym (last?-snoc fields a.value) ∙ h)))
  | inr other ↦ elim (Bool-cases (type_in field_part_types a.type)) [
    | inl part ↦ λ f h. inr (a.type, refl, part)
    | inr plain ↦ rw (other, plain) λ f h. cc
  ]
]

scan_fields-IsTail :
    (done : Text) (before : Option AnnotationType) (s : Scope) (as' : List QueryAnnotation)
    → IsTail done before s.current_field
    → IsTail (done ++ spelled as') (last_type before as') (scan_fields s as').current_field
unfolding scan_fields
scan_fields-IsTail done before s [] h = rw append-nil h
scan_fields-IsTail done before s (a ∷ as') h = rw (← append_assoc) (
    scan_fields-IsTail (done ++ a.value) (some a.type) _ as'
      (next_field-IsTail done before s.current_field a))

part_types :
    (t : AnnotationType)
    → type_in field_part_types t ≡ true
    → (t ≡ token expr_arrayref) ⊎ (t ≡ token expr_fieldsep)
unfolding type_in includes type_eq
part_types (token expr_arrayref) h = inl refl
part_types (token expr_fieldsep) h = inr refl
part_types (token _) h = cc
part_types error h = cc

expects_field : any (includes field_types) (expected fieldname) ≡ true
unfolding includes type_eq expected allowed_states
expects_field = refl

-- The last field of the path stands at the end of the query.
get_current_field-suffix :
    (r : AnnotatedQuery)
    → FieldAfterSep r.annotations r.next_possible_tokens
    → last_type none r.annotations ≢ some (token expr_arrayref)
    → (f : Text) → last? (get_current_field r).0 ≡ some f
    → (pre : Text) × (spelled r.annotations ≡ pre ++ f)
unfolding get_current_field
get_current_field-suffix r sep array f h =
    elim (Bool-cases (any (includes field_types) r.next_possible_tokens)) [
      | inl next ↦
          let empty : [] ≡ f = some-injective _ _ (sym (last?-snoc path []) ∙ (rw next at h)) in
          (spelled r.annotations, rw (← empty) (sym (append-nil (spelled r.annotations))))
      | inr done ↦ go done (tail f (rw done at h))
    ]
  where
    path : List Text
    path =
        (scan_fields (record { current_field = []; bracket_stack = [] })
          r.annotations).current_field

    tail : IsTail (spelled r.annotations) (last_type none r.annotations) path
    tail = scan_fields-IsTail [] none _ r.annotations (λ f h. cc)

    go :
        any (includes field_types) r.next_possible_tokens ≡ false
        → ((pre : Text) × (spelled r.annotations ≡ pre ++ f))
          ⊎ ((t : AnnotationType) × (last_type none r.annotations ≡ some t)
              × (type_in field_part_types t ≡ true))
        → (pre : Text) × (spelled r.annotations ≡ pre ++ f)
    go done (inl suffix') = suffix'
    go done (inr (t, last, part)) = elim (part_types t part) [
      | inl is_array ↦ absurd (array (last ∙ ap some is_array))
      | inr is_sep ↦ cc (expects_field, sep (last ∙ ap some is_sep))
    ]

-- If the tokenizer cuts the query as it documents, and the last token of the query is not `*`, then
-- every suggestion that is made at once, for any type of object, extends the query: the query with
-- the suggestion taken begins with the query as it was.
pub fetch_suggestions-Extends {ℓ} :
    {G : Type ℓ} (getters : List (Text × G)) (moo : Text → Scan) (query : Text) (type : ObjectType)
    → Spells 0 query (moo query).tokens (moo query).failure
    → last_type none (annotate_query moo query).annotations ≢ some (token expr_arrayref)
    → Ready (IsExtension query) (fetch_suggestions getters moo query type)
unfolding fetch_suggestions
fetch_suggestions-Extends getters moo query type h array =
    let r = annotate_query moo query in
    let path = (get_current_field r).0 in
    let inside = (get_current_field r).1 in
    elim (Option-cases (last? path)) [
      | inl nothing ↦ fetch_path-none (IsExtension query) getters type path inside nothing
      | inr (f, last) ↦
          let (pre, e) =
            get_current_field-suffix r (annotate_query-FieldAfterSep moo query) array f last in
          let whole : query ≡ pre ++ f = sym (annotate_query-IsPartition moo query h).spells ∙ e in
          subst (λ q. Ready (IsExtension q) (fetch_path getters type path inside)) (sym whole)
            (fetch_path-Extends getters pre f type path inside last)
    ]
