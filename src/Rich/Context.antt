-- ===== src/Rich/Context.antt =====
-- MarkedMustache.tsx: `MustacheContext`. A view is a value of `JSON.parse`, or what a transformer made
-- of one. `encodeURIComponent` and the lambdas are parameters: a renderer is a value of the type `R`.
-- Names that every object inherits are no members of the table of lambdas.
use mwdb_core.Common.{
  ℕ, ◌+◌, ◌*◌, ◌-◌, Bool, true, false, Option, none, some, List, [], ◌∷◌, ◌++◌, ◌==◌, leb,
  if◌then◌else◌, ◌&&◌, map, length, get_elem?, drop,
}
use mwdb_core.Common.Text.{Text, text, text_eq, starts_with}
use mwdb_core.Common.Strings.{trim, split_first, is_found}
use mwdb_core.Suggest.Structure.{
  Json, null, bool, num, str, arr, obj, Items, nil, cons, Members, end, member,
}
use mwdb_core.Rich.Split.{append_to_last_element, split_name}

-- The outcome of a lookup; `missing` is `undefined`.
pub data Found (A : Type 0) : Type 0 where
  threw missing : Found A
  found : A → Found A

abbrev is_digit : ℕ → Bool
is_digit c = leb 48 c && leb c 57

abbrev digit_step : Bool → ℕ → ℕ → Option ℕ
digit_step true n c = some (n * 10 + (c - 48))
digit_step false n c = none

abbrev digits_from : Option ℕ → Text → Option ℕ
digits_from none s = none
digits_from (some n) [] = some n
digits_from (some n) (c ∷ s) = digits_from (digit_step (is_digit c) n c) s

-- The index that a property name stands for: decimal digits with no needless zero before them.
unfoldable pub index_of : Text → Option ℕ
index_of [] = none
index_of (c ∷ []) = digits_from (some 0) (c ∷ [])
index_of (c ∷ d ∷ s) = if c == 48 then none else digits_from (some 0) (c ∷ d ∷ s)

abbrev pub item_list : Items → List Json
item_list nil = []
item_list (cons v vs) = v ∷ item_list vs

unfoldable pub member_of : Members → Text → Found Json
member_of end k = missing
member_of (member k' v ms) k = if text_eq k' k then found v else member_of ms k

abbrev element_at : {A : Type 0} → (A → Json) → List A → Option ℕ → Found Json
element_at value xs none = missing
element_at value xs (some i) = elim (get_elem? xs i) [ none ↦ missing | some x ↦ found (value x) ]

-- `Object.prototype.hasOwnProperty.call(object, element)`, and the property; on null it throws.
unfoldable pub own_property : Json → Text → Found Json
own_property null k = threw
own_property (bool b) k = missing
own_property (num n) k = missing
own_property (str s) k =
    if text_eq k (text "length")
    then found (num (length s))
    else element_at (λ c. str (c ∷ [])) s (index_of k)
own_property (arr vs) k =
    if text_eq k (text "length")
    then found (num (length (item_list vs)))
    else element_at (λ v. v) (item_list vs) (index_of k)
own_property (obj ms) k = member_of ms k

abbrev pub and_then : {A B : Type 0} → Found A → (A → Found B) → Found B
and_then threw f = threw
and_then missing f = missing
and_then (found a) f = f a

-- The loop of `lookupView`.
unfoldable pub walk : Json → List Text → Found Json
walk v [] = found v
walk v (k ∷ ks) = and_then (own_property v k) (λ w. walk w ks)

pub record Context : Type 0 where
  pub view : Json
  pub parent_path : List Text
  pub last_path : List Text
  pub local_vars : List (Text × Json)

unfoldable pub make_context : Json → List Text → Context
make_context view initial_path = record {
  view = view;
  parent_path = initial_path;
  last_path = initial_path;
  local_vars = [];
}

unfoldable pub push_with_local_vars : Context → Json → List (Text × Json) → Context
push_with_local_vars c view local_vars = record {
  view = view;
  parent_path = c.last_path;
  last_path = c.last_path;
  local_vars = local_vars;
}

unfoldable pub push : Context → Json → Context
push c view = push_with_local_vars c view []

-- `this.lastPath` for a value that was found; an array is marked at the last key.
abbrev pub mark_array : List Text → Json → List Text
mark_array [] v = []
mark_array (k ∷ ks) (arr vs) = append_to_last_element (k ∷ ks) (text "*")
mark_array (k ∷ ks) v = k ∷ ks

abbrev pub remember : Context → List Text → Found Json → Context
remember c path threw = c
remember c path missing = c
remember c path (found v) = record c { last_path = mark_array (c.parent_path ++ path) v }

unfoldable pub lookup_view : Context → Text → Context × Found Json
lookup_view c [] = (c, missing)
lookup_view c (n ∷ name) =
    let path = split_name (n ∷ name) in (remember c path (walk c.view path), walk c.view path)

-- `${value}` of a primitive value that can be searched for; a number is not looked into.
abbrev is_searchable : Json → Bool
is_searchable null = false
is_searchable (bool b) = true
is_searchable (num n) = true
is_searchable (str s) = true
is_searchable (arr vs) = false
is_searchable (obj ms) = false

-- A lambda of the type "renderer", or of the type "transformer".
pub data Lambda (R : Type 0) : Type 0 where
  renderer : R → Lambda R
  transformer : (Json → Found Json) → Lambda R

-- What `lookup` gives: a value, a searchable value with its query, or a renderer, which may have a
-- view of its own.
pub data Answer (R : Type 0) : Type 0 where
  value : Json → Answer R
  searchable : Text → Json → Answer R
  section_renderer : R → Option Json → Answer R

-- `name.split("|")`
unfoldable pub split_bars : Text → Text → List Text
split_bars part [] = part ∷ []
split_bars part (c ∷ s) =
    let bars = split_bars (if c == 124 then [] else part ++ c ∷ []) s in
    if c == 124 then part ∷ bars else bars

module _ {R : Type 0} (lambdas : Text → Option (Lambda R))
    (make_query : List Text → Json → Option Text) where
  abbrev searched : Json → Option Text → Found (Answer R)
  searched v none = missing
  searched v (some []) = missing
  searched v (some (c ∷ query)) = found (searchable (c ∷ query) v)

  unfoldable pub lookup_searchable : Context → Text → Context × Found (Answer R)
  lookup_searchable c name =
      let (c', r) = lookup_view c name in
      (
        c',
        and_then r
            (λ v. if is_searchable v then searched v (make_query c'.last_path v) else missing),
      )

  abbrev pub as_renderer : Option (Lambda R) → Found (Answer R)
  as_renderer none = missing
  as_renderer (some (transformer f)) = missing
  as_renderer (some (renderer r)) = found (section_renderer r none)

  unfoldable pub lookup_lambda : Text → Found (Answer R)
  lookup_lambda name =
      as_renderer (lambdas (if starts_with name (text "$") then drop 1 name else name))

  abbrev pub transform : Option (Lambda R) → Json → Found Json
  transform none v = missing
  transform (some (renderer r)) v = missing
  transform (some (transformer f)) v = f v

  abbrev pub last_lambda : Option (Lambda R) → Json → Found (Answer R)
  last_lambda none v = missing
  last_lambda (some (renderer r)) v = found (section_renderer r (some v))
  last_lambda (some (transformer f)) v = and_then (f v) (λ w. found (value w))

  -- The lambdas of a pipeline; with no name there is no lambda.
  unfoldable pub run_pipeline : Json → List Text → Found (Answer R)
  run_pipeline v [] = missing
  run_pipeline v (name ∷ []) = last_lambda (lambdas name) v
  run_pipeline v (name ∷ next ∷ names) =
      and_then (transform (lambdas name) v) (λ w. run_pipeline w (next ∷ names))

  abbrev pub pipeline_of : Context → List Text → Context × Found (Answer R)
  pipeline_of c [] = (c, missing)
  pipeline_of c (name ∷ names) =
      let (c', r) = lookup_view c name in (c', and_then r (λ v. run_pipeline v names))

  unfoldable pub lookup_pipeline : Context → Text → Context × Found (Answer R)
  lookup_pipeline c pipeline = pipeline_of c (map trim (split_bars [] pipeline))

  abbrev local_var : List (Text × Json) → Text → Found (Answer R)
  local_var [] name = missing
  local_var ((k, v) ∷ vars) name = if text_eq k name then found (value v) else local_var vars name

  abbrev pub or_else : Found (Answer R) → Found (Answer R) → Found (Answer R)
  or_else threw other = threw
  or_else missing other = other
  or_else (found a) other = found a

  unfoldable pub lookup_plain : Context → Text → Context × Found (Answer R)
  lookup_plain c name =
      let (c', r) = lookup_view c name in
      (
        c',
        or_else (and_then r (λ v. found (value v)))
            (or_else (lookup_lambda name) (local_var c.local_vars name)),
      )

  abbrev reset : Context → Context
  reset c = record c { last_path = c.parent_path }

  unfoldable pub lookup : Context → Text → Context × Found (Answer R)
  lookup c [] = lookup_plain (reset c) []
  lookup c (n ∷ name) =
      if n == 64
      then lookup_searchable (reset c) name
      else if is_found (split_first (text "|") (n ∷ name))
      then lookup_pipeline (reset c) (n ∷ name)
      else lookup_plain (reset c) (n ∷ name)
