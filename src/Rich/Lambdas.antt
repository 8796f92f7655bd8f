-- ===== src/Rich/Lambdas.antt =====
-- components/RichAttribute/builtinLambdas.tsx: the lambdas that are there without plugins. An argument
-- has the type that the function declares. `localeCompare`, `JSON.stringify`, `encodeURIComponent`,
-- the decimal text of an index and the names that every object inherits are parameters; so are the
-- three renderers of the options, and what they render is a value of the type `E`.
pub mod Group
pub mod Paginated
use mwdb_core.Common.{
  ℕ, zero, suc, ◌+◌, ◌-◌, ◌*◌, Bool, true, false, Option, none, some, List, [], ◌∷◌, ◌++◌, ◌==◌,
  if◌then◌else◌, ltb, map, length, take, last?, not, ◌&&◌,
}
use mwdb_core.Common.Text.{Text, text, text_eq}
use mwdb_core.Common.Strings.{trim, trim_end, join}
use mwdb_core.Suggest.Structure.{Json, null, bool, num, str, arr, obj, Members, end, member}
use mwdb_core.Rich.Context.{Found, threw, missing, found, own_property, item_list}

-- `input.length`
unfoldable pub count : Json → Found Json
count input = own_property input (text "length")

abbrev pub throw_if : {A : Type 0} → Bool → Found A → Found A
throw_if true r = threw
throw_if false r = r

module _ {A : Type 0} where
  unfoldable pub first : List A → List A
  first [] = []
  first (x ∷ xs) = x ∷ []

  unfoldable pub last : List A → List A
  last [] = []
  last (x ∷ []) = x ∷ []
  last (x ∷ y ∷ xs) = last (y ∷ xs)

  -- `if (!result[key]) result[key] = []` and `result[key].push(item)`
  unfoldable pub push_to_group : Text → A → List (Text × List A) → List (Text × List A)
  push_to_group key item [] = (key, item ∷ []) ∷ []
  push_to_group key item ((k, items) ∷ groups) =
      let later = push_to_group key item groups in
      if text_eq k key then (k, items ++ item ∷ []) ∷ groups else (k, items) ∷ later

  abbrev pub push_item : Option Text → A → List (Text × List A) → List (Text × List A)
  push_item none item groups = groups
  push_item (some key) item groups = push_to_group key item groups

  -- `item[groupBy]` as the name of a property is a parameter, `none` for an item that is `null`, as are
  -- the names that an empty object has.
  module _ (key_of : A → Option Text) (is_inherited : Text → Bool) where
    -- `null` has no properties, and a function that is inherited has no `push`.
    abbrev pub is_unusable : Option Text → Bool
    is_unusable none = true
    is_unusable (some key) = is_inherited key

    unfoldable pub group_from : List (Text × List A) → List A → Found (List (Text × List A))
    group_from groups [] = found groups
    group_from groups (item ∷ items) =
        throw_if (is_unusable (key_of item))
          (group_from (push_item (key_of item) item groups) items)

    unfoldable pub group : List A → Found (List (Text × List A))
    group input = group_from [] input

abbrev member_names : Members → List Text
member_names end = []
member_names (member k v ms) = k ∷ member_names ms

abbrev member_values : Members → List Json
member_values end = []
member_values (member k v ms) = v ∷ member_values ms

abbrev indices_from : (ℕ → Text) → ℕ → ℕ → List Text
indices_from decimal i zero = []
indices_from decimal i (suc n) = decimal i ∷ indices_from decimal (suc i) n

module _ (decimal : ℕ → Text) where
  -- `Object.keys(input)`
  unfoldable pub keys : Json → Found (List Text)
  keys null = threw
  keys (bool b) = found []
  keys (num n) = found []
  keys (str s) = found (indices_from decimal 0 (length s))
  keys (arr vs) = found (indices_from decimal 0 (length (item_list vs)))
  keys (obj ms) = found (member_names ms)

-- `Object.values(input)`
unfoldable pub values : Json → Found (List Json)
values null = threw
values (bool b) = found []
values (num n) = found []
values (str s) = found (map (λ c. str (c ∷ [])) s)
values (arr vs) = found (item_list vs)
values (obj ms) = found (member_values ms)

abbrev zip_entries : List Text → List Json → List Json
zip_entries [] vs = []
zip_entries (k ∷ ks) [] = []
zip_entries (k ∷ ks) (v ∷ vs) =
    obj (member (text "key") (str k) (member (text "value") v end)) ∷ zip_entries ks vs

abbrev zip_found : Found (List Text) → Found (List Json) → Found (List Json)
zip_found (found ks) (found vs) = found (zip_entries ks vs)
zip_found threw r = threw
zip_found missing r = missing
zip_found (found ks) threw = threw
zip_found (found ks) missing = missing

unfoldable pub entries : (ℕ → Text) → Json → Found (List Json)
entries decimal input = zip_found (keys decimal input) (values input)

-- `lambdaContext`, with the members that the lambdas write.
pub record LambdaContext (E : Type 0) : Type 0 where
  pub group_by : Option Text
  pub condition : Bool
  pub section_header : Option E
  pub indicator_type : Option Text
  pub collapse_header : Option Text
  pub paginated_header : Option Text

-- the icon of an indicator
pub data Icon : Type 0 where
  check warning danger info : Icon

pub data Rendered (E : Type 0) : Type 0 where
  empty_text unset : Rendered E
  element : E → Rendered E
  section_of : Option E → E → Rendered E
  indicator_of : Icon → E → Rendered E

-- `text.split(/\r?\n/)` cuts at a line feed, with the carriage return before it.
abbrev without_return : Text → Text
without_return [] = []
without_return (c ∷ []) = if c == 13 then [] else c ∷ []
without_return (c ∷ d ∷ s) = c ∷ without_return (d ∷ s)

unfoldable pub split_lines : Text → Text → List Text
split_lines line [] = line ∷ []
split_lines line (c ∷ s) =
    let lines = split_lines (if c == 10 then [] else line ++ c ∷ []) s in
    if c == 10 then without_return line ∷ lines else lines

abbrev is_empty : Text → Bool
is_empty [] = true
is_empty (c ∷ s) = false

-- The loop of `indentedTrim`.
unfoldable pub keep_lines : Text → List Text → Text
keep_lines trimmed [] = trimmed
keep_lines trimmed (line ∷ lines) =
    keep_lines
      (if is_empty trimmed && is_empty (trim line) then trimmed else trimmed ++ (line ++ 10 ∷ []))
      lines

unfoldable pub indented_trim : Text → Text
indented_trim s = trim_end (keep_lines [] (split_lines [] s))

module _ {E : Type 0} (renderer : Text → E) (mustache_renderer : Text → Text) where
  unfoldable pub render_param : Text → Text
  render_param input = trim (mustache_renderer input)

  unfoldable pub group_by : LambdaContext E → Text → LambdaContext E × Rendered E
  group_by c key = (record c { group_by = some (render_param key) }, empty_text)

  unfoldable pub if_lambda : LambdaContext E → Text → LambdaContext E × Rendered E
  if_lambda c s = (record c { condition = not (is_empty (render_param s)) }, unset)

  unfoldable pub then_lambda : LambdaContext E → Text → LambdaContext E × Rendered E
  then_lambda c s = (c, if c.condition then element (renderer s) else empty_text)

  unfoldable pub else_lambda : LambdaContext E → Text → LambdaContext E × Rendered E
  else_lambda c s = (c, if not c.condition then element (renderer s) else empty_text)

  unfoldable pub section_header : LambdaContext E → Text → LambdaContext E × Rendered E
  section_header c header = (record c { section_header = some (renderer header) }, empty_text)

  unfoldable pub section : LambdaContext E → Text → LambdaContext E × Rendered E
  section c s = (c, section_of c.section_header (renderer s))

  unfoldable pub collapse_header : LambdaContext E → Text → LambdaContext E × Rendered E
  collapse_header c header =
      (record c { collapse_header = some (mustache_renderer header) }, empty_text)

  unfoldable pub indicator_type : LambdaContext E → Text → LambdaContext E × Rendered E
  indicator_type c value = (record c { indicator_type = some (render_param value) }, unset)

  abbrev icon_of : Option Text → Icon
  icon_of none = info
  icon_of (some s) =
      if text_eq s (text "success")
      then check
      else if text_eq s (text "warning")
      then warning
      else if text_eq s (text "danger")
      then danger
      else info

  unfoldable pub indicator : LambdaContext E → Text → LambdaContext E × Rendered E
  indicator c s = (c, indicator_of (icon_of c.indicator_type) (renderer s))

  unfoldable pub paginated_header : LambdaContext E → Text → LambdaContext E × Rendered E
  paginated_header c s =
      (record c { paginated_header = some (indented_trim (mustache_renderer s)) }, empty_text)

-- The component of `collapse`: its header, and the text behind it where it is not collapsed.
abbrev pub toggle : Bool → Bool
toggle collapsed = not collapsed

unfoldable pub collapse : {E : Type 0} → Bool → E → E → E × Option E
collapse collapsed header body = (header, if not collapsed then some body else none)

-- The component of `paginated` for its elements as Markdown: what it shows, and the number on the
-- button "More", which is there if something is left.
abbrev pub header_line : Option Text → Text
header_line none = []
header_line (some []) = []
header_line (some (c ∷ s)) = (c ∷ s) ++ 10 ∷ []

unfoldable pub paginated : {A : Type 0} → (A → Text) → Option Text → ℕ → List A → Text × Option ℕ
paginated shown header limit elements = (
  header_line header ++ join (map (λ x. indented_trim (shown x)) (take limit elements)) (10 ∷ []),
  if ltb limit (length elements) then some (length elements - limit) else none,
)

-- The limit behind this many clicks on the button.
unfoldable pub limit_after : ℕ → ℕ
limit_after zero = 5
limit_after (suc clicks) = limit_after clicks + 10
