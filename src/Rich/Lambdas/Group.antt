-- ===== src/Rich/Lambdas/Group.antt =====
-- builtinLambdas.tsx: the groups that `group` makes.
use mwdb_core.Common.{
  ◌≡◌, ◌↔◌, refl, sym, ap, ◌∙◌, Bool, true, false, List, [], ◌∷◌, ◌++◌, if◌then◌else◌, any, Option,
  none, some, Bool-cases, inl, inr, arith, append_assoc, append-nil,
}
use mwdb_core.Common.Text.{Text, text_eq, text_eq_sound, text_eq_refl}
use mwdb_core.Rich.Context.{Found, threw, missing, found}
use mwdb_core.Rich.Lambdas.{push_to_group, push_item, is_unusable, group_from, group}

abbrev pub is_key : Text → Option Text → Bool
is_key k none = false
is_key k (some key) = text_eq key k

module _ {A : Type 0} where
  -- the value of a property, where no property is like an empty array
  unfoldable pub items_of : List (Text × List A) → Text → List A
  items_of [] k = []
  items_of ((k', items) ∷ groups) k = if text_eq k' k then items else items_of groups k

  items_of-push_to_group :
      (key : Text) (item : A) (groups : List (Text × List A)) (k : Text)
      → items_of (push_to_group key item groups) k
        ≡ (if text_eq key k then items_of groups k ++ item ∷ [] else items_of groups k)
  unfolding items_of push_to_group
  items_of-push_to_group key item [] k = refl
  items_of-push_to_group key item ((k', items) ∷ groups) k = elim (Bool-cases (text_eq k' key)) [
    | inl e ↦ rw e (
        rw (text_eq_sound k' key e)
          (elim (Bool-cases (text_eq key k)) [ inl f ↦ rw f refl | inr f ↦ rw f refl ]))
    | inr e ↦ rw e (elim (Bool-cases (text_eq k' k)) [
      | inl f ↦ rw f (elim (Bool-cases (text_eq key k)) [
        | inl g ↦
            absurd
              (ground (arith, e, text_eq_refl key, text_eq_sound k' k f, text_eq_sound key k g))
        | inr g ↦ rw g refl
      ])
      | inr f ↦ rw f (items_of-push_to_group key item groups k)
    ])
  ]

  items_of-push_item :
      (key : Option Text) (item : A) (groups : List (Text × List A)) (k : Text)
      → items_of (push_item key item groups) k
        ≡ (if is_key k key then items_of groups k ++ item ∷ [] else items_of groups k)
  items_of-push_item none item groups k = refl
  items_of-push_item (some key) item groups k = items_of-push_to_group key item groups k

  module _ (key_of : A → Option Text) (is_inherited : Text → Bool) where
    -- the items with this key, in their order
    unfoldable pub with_key : Text → List A → List A
    with_key k [] = []
    with_key k (x ∷ xs) = if is_key k (key_of x) then x ∷ with_key k xs else with_key k xs

    found_or : {B : Type 0} → B → Found B → B
    found_or b threw = b
    found_or b missing = b
    found_or b (found x) = x

    group_from-next :
        (groups : List (Text × List A)) (x : A) (xs : List A)
        → is_unusable key_of is_inherited (key_of x) ≡ false
        → group_from key_of is_inherited groups (x ∷ xs)
          ≡ group_from key_of is_inherited (push_item (key_of x) x groups) xs
    unfolding group_from
    group_from-next groups x xs h = rw h refl

    group_from-throws :
        (groups : List (Text × List A)) (x : A) (xs : List A)
        → is_unusable key_of is_inherited (key_of x) ≡ true
        → group_from key_of is_inherited groups (x ∷ xs) ≡ threw
    unfolding group_from
    group_from-throws groups x xs h = rw h refl

    with_key-next :
        (x : A) (xs items : List A) (k : Text)
        → (if is_key k (key_of x) then items ++ x ∷ [] else items) ++ with_key k xs
          ≡ items ++ with_key k (x ∷ xs)
    unfolding with_key
    with_key-next x xs items k = elim (Bool-cases (is_key k (key_of x))) [
      | inl e ↦ rw e (append_assoc items (x ∷ []) (with_key k xs))
      | inr e ↦ rw e refl
    ]

    grouped_from :
        (groups : List (Text × List A)) (items : List A) (result : List (Text × List A)) (k : Text)
        → group_from key_of is_inherited groups items ≡ found result
        → items_of result k ≡ items_of groups k ++ with_key k items
    unfolding group_from with_key found_or
    grouped_from groups [] result k e =
        ap (λ r. items_of r k) (sym (ap (found_or groups) e)) ∙ sym (append-nil (items_of groups k))
    grouped_from groups (x ∷ xs) result k e =
        elim (Bool-cases (is_unusable key_of is_inherited (key_of x))) [
          | inl h ↦ absurd (cc (e, group_from-throws groups x xs h))
          | inr h ↦
              grouped_from (push_item (key_of x) x groups) xs result k
                (sym (group_from-next groups x xs h) ∙ e)
              ∙ ap (λ t. t ++ with_key k xs) (items_of-push_item (key_of x) x groups k)
              ∙ with_key-next x xs (items_of groups k) k
        ]

    -- Where `group` gives an object, its property of each name holds the items with this key, in the
    -- order of the input.
    pub group_lem :
        (input : List A) (result : List (Text × List A)) (k : Text)
        → group key_of is_inherited input ≡ found result
        → items_of result k ≡ with_key k input
    unfolding group items_of
    group_lem input result k e = grouped_from [] input result k e

    abbrev pub some_unusable : List A → Bool
    some_unusable items = any (λ x. is_unusable key_of is_inherited (key_of x)) items

    group_from-some_unusable :
        (groups : List (Text × List A)) (items : List A)
        → some_unusable items ≡ true
        → group_from key_of is_inherited groups items ≡ threw
    group_from-some_unusable groups [] h = cc
    group_from-some_unusable groups (x ∷ xs) h =
        elim (Bool-cases (is_unusable key_of is_inherited (key_of x))) [
          | inl e ↦ group_from-throws groups x xs e
          | inr e ↦
              group_from-next groups x xs e
              ∙ group_from-some_unusable (push_item (key_of x) x groups) xs (ground (arith, e, h))
        ]

    group_from-all_usable :
        (groups : List (Text × List A)) (items : List A)
        → some_unusable items ≡ false
        → (result : List (Text × List A)) × (group_from key_of is_inherited groups items
            ≡ found result)
    unfolding group_from
    group_from-all_usable groups [] h = (groups, refl)
    group_from-all_usable groups (x ∷ xs) h =
        let (result, e) =
          group_from-all_usable (push_item (key_of x) x groups) xs (ground (arith, h)) in
        (result, group_from-next groups x xs (ground (arith, h)) ∙ e)

    -- `group` throws exactly if an item is `null`, or its key is a name that every object inherits, such
    -- as `constructor`.
    pub group_throws_iff :
        (input : List A) → (group key_of is_inherited input ≡ threw) ↔ (some_unusable input ≡ true)
    unfolding group
    group_throws_iff input = (
      λ e. elim (Bool-cases (some_unusable input)) [
        | inl h ↦ h
        | inr h ↦ let (result, f) = group_from-all_usable [] input h in cc (e, f)
      ],
      group_from-some_unusable [] input,
    )
