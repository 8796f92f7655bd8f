-- ===== src/Helpers/Index.antt =====
-- commons/helpers/index.ts, all its functions, and commons/helpers/paginate.ts. The arguments of a
-- function have the types that it declares. `toUpperCase` of a character is a parameter.
use mwdb_core.Common.{
  ℕ, suc, ◌-◌, ◌%◌, zero, Bool, false, List, [], ◌∷◌, ◌++◌, if◌then◌else◌, ◌==◌, ◌&&◌, not, length,
  map,
}
use mwdb_core.Common.Text.{Text, text, text_eq}

unfoldable pub capitalize : (ℕ → Text) → Text → Text
capitalize upper [] = []
capitalize upper (c ∷ s) = upper c ++ s

module _ {ℓ} {A : Type ℓ} where
  -- The calls of `reduce` from this index, for an array of this length.
  unfoldable pub intersperse_from : ℕ → ℕ → List A → List A → List A → List A
  intersperse_from count index result [] separator = result
  intersperse_from count index result (current ∷ later) separator =
      intersperse_from count (suc index)
        (if index == count - 1 then result ++ current ∷ [] else result ++ (current ∷ separator))
        later separator

  -- The separator is given as an array.
  unfoldable pub intersperse : List A → List A → List A
  intersperse [] separator = []
  intersperse (x ∷ xs) separator = intersperse_from (length (x ∷ xs)) 0 [] (x ∷ xs) separator

unfoldable pub map_object_type : Text → Text
map_object_type type =
    if text_eq type (text "object")
    then text "object"
    else if text_eq type (text "file")
    then text "file"
    else if text_eq type (text "static_config")
    then text "config"
    else if text_eq type (text "text_blob")
    then text "blob"
    else type

unfoldable pub map_object_type_to_search_path : Text → Text
map_object_type_to_search_path type =
    if text_eq type (text "file")
    then text "/"
    else if text_eq type (text "static_config")
    then text "/configs"
    else if text_eq type (text "text_blob")
    then text "/blobs"
    else type

-- `item ^ 0xff` of a byte takes each bit from 1.
unfoldable pub negate_buffer : List ℕ → List ℕ
negate_buffer bytes = map (λ item. 255 - item) bytes

-- The page that `changeActivePage` is left with.
-- `(itemsCount - 1) % itemsCountPerPage === 0`. Without items the remainder is that of -1, and it is not
-- a number where a page has no items.
abbrev pub is_last_on_page : ℕ → ℕ → Bool
is_last_on_page items_count zero = false
is_last_on_page zero (suc per_page) = per_page == 0
is_last_on_page (suc items_count) (suc per_page) = items_count % suc per_page == 0

unfoldable pub update_active_page : ℕ → ℕ → ℕ → ℕ
update_active_page active_page items_count items_count_per_page =
    if not (active_page == 1) && is_last_on_page items_count items_count_per_page
    then active_page - 1
    else active_page
