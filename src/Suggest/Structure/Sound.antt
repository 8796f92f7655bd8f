-- ===== src/Suggest/Structure/Sound.antt =====
-- What the structure of an example value tells of the value.
use mwdb_core.Common.{◌≡◌, refl, Bool, true, false, Option, none, some, ◌||◌, arith}
use mwdb_core.Suggest.Structure.{
  Json, null, bool, num, str, arr, obj, Items, nil, cons, Members, end, member, Structure, Fields,
  none_left, fields, put, assign, structure, items_structure, members_structure, ◌>>=◌,
}

-- Whether there is a `null` anywhere in a value.
mutual
  pub has_null : Json → Bool
  has_null null = true
  has_null (bool b) = false
  has_null (num n) = false
  has_null (str s) = false
  has_null (arr items) = null_in_items items
  has_null (obj members) = null_in_members members

  null_in_items : Items → Bool
  null_in_items nil = false
  null_in_items (cons j items) = has_null j || null_in_items items

  null_in_members : Members → Bool
  null_in_members end = false
  null_in_members (member k j members) = has_null j || null_in_members members

abbrev pub failed : Option Structure → Bool
failed none = true
failed (some s) = false

failed-bind :
    (o : Option Structure) (f : Structure → Option Structure) (a b : Bool)
    → failed o ≡ a
    → ((s : Structure) → failed (f s) ≡ b)
    → failed (o >>= f) ≡ (a || b)
failed-bind none f a b h k = ground arith
failed-bind (some s) f a b h k = rw (← h) (k s)

mutual
  unfolding structure has_null

  failed-structure : (j : Json) → failed (structure j) ≡ has_null j
  failed-structure null = refl
  failed-structure (bool b) = refl
  failed-structure (num n) = refl
  failed-structure (str s) = refl
  failed-structure (arr items) = failed-items items none_left
  failed-structure (obj members) = failed-members members none_left

  failed-items :
      (items : Items) (acc : Fields) → failed (items_structure items acc) ≡ null_in_items items
  failed-items nil acc = refl
  failed-items (cons j items) acc =
      failed-bind (structure j) _ (has_null j) (null_in_items items) (failed-structure j)
        λ s. failed-items items (assign acc (fields s))

  failed-members :
      (members : Members) (acc : Fields)
      → failed (members_structure members acc) ≡ null_in_members members
  failed-members end acc = refl
  failed-members (member k j members) acc =
      failed-bind (structure j) _ (has_null j) (null_in_members members) (failed-structure j)
        λ s. failed-members members (put k s acc)

-- `getStructureFromValue` throws exactly on the values that hold a `null` at some depth.
pub structure_fails_iff : (j : Json) → failed (structure j) ≡ has_null j
structure_fails_iff j = failed-structure j
