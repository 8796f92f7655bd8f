-- ===== src/Suggest/Structure/Paths.antt =====
-- The paths of keys in a structure are paths of keys in the value that it was made from.
use mwdb_core.Common.{
  ◌≡◌, refl, sym, ap, subst, Option, none, some, List, [], ◌∷◌, ◌⊎◌, inl, inr, Bool-cases,
}
use mathlib.Core.Option.{some-injective}
use mwdb_core.Common.Text.{Text, text_eq}
use mwdb_core.Suggest.Structure.{
  Json, null, bool, num, str, arr, obj, Items, nil, cons, Members, end, member, Structure, node,
  Fields, none_left, field, fields, put, assign, structure, items_structure, members_structure,
  ◌>>=◌,
}

-- A path of keys that leads through the members of objects, in any element of an array on the way.
mutual
  pub data Occurs : Json → Text → List Text → Type 0 where
    in_array :
        {items : Items} {k : Text} {p : List Text} → InItems items k p → Occurs (arr items) k p
    in_object : {ms : Members} {k : Text} {p : List Text} → InMembers ms k p → Occurs (obj ms) k p

  pub data InItems : Items → Text → List Text → Type 0 where
    first :
        {j : Json} {items : Items} {k : Text} {p : List Text}
        → Occurs j k p
        → InItems (cons j items) k p
    later :
        {j : Json} {items : Items} {k : Text} {p : List Text}
        → InItems items k p
        → InItems (cons j items) k p

  pub data InMembers : Members → Text → List Text → Type 0 where
    last : {k : Text} {j : Json} {ms : Members} → InMembers (member k j ms) k []
    below :
        {k : Text} {j : Json} {ms : Members} {k' : Text} {p : List Text}
        → Occurs j k' p
        → InMembers (member k j ms) k (k' ∷ p)
    other :
        {k' : Text} {j : Json} {ms : Members} {k : Text} {p : List Text}
        → InMembers ms k p
        → InMembers (member k' j ms) k p

-- A path of keys in a structure.
pub data Walk : Fields → Text → List Text → Type 0 where
  here : {k : Text} {s : Structure} {fs : Fields} → Walk (field k s fs) k []
  down :
      {k : Text} {s : Structure} {fs : Fields} {k' : Text} {p : List Text}
      → Walk (fields s) k' p
      → Walk (field k s fs) k (k' ∷ p)
  skip :
      {j : Text} {s : Structure} {fs : Fields} {k : Text} {p : List Text}
      → Walk fs k p
      → Walk (field j s fs) k p

-- The rest of a path, in the object of its first key.
abbrev Rest : Structure → List Text → Type 0
Rest s [] = Unit
Rest s (k ∷ p) = Walk (fields s) k p

Walk-field :
    (j : Text) (s : Structure) (fs : Fields) {k : Text} {p : List Text}
    → Walk (field j s fs) k p
    → ((j ≡ k) × Rest s p) ⊎ Walk fs k p
Walk-field j s fs here = inl (refl, tt)
Walk-field j s fs (down w) = inl (refl, w)
Walk-field j s fs (skip w) = inr w

Rest-Walk :
    (j : Text) (s : Structure) (fs : Fields) {k : Text} (p : List Text)
    → j ≡ k
    → Rest s p
    → Walk (field j s fs) k p
Rest-Walk j s fs [] e r = subst (λ m. Walk (field j s fs) m []) e here
Rest-Walk j s fs (k' ∷ p) e r = subst (λ m. Walk (field j s fs) m (k' ∷ p)) e (down r)

-- A path after a write begins at the member that was written, or was there before.
Walk-put :
    (j : Text) (s : Structure) (fs : Fields) {k : Text} {p : List Text}
    → Walk (put j s fs) k p
    → ((j ≡ k) × Rest s p) ⊎ Walk fs k p
unfolding put
Walk-put j s none_left w = Walk-field j s none_left w
Walk-put j s (field i v fs) {k} {p} w = elim (Bool-cases (text_eq i j)) [
  | inl same ↦ elim (Walk-field j s fs (rw same at w)) [
    | inl new ↦ inl new
    | inr old ↦ inr (skip old)
  ]
  | inr differ ↦ elim (Walk-field i v (put j s fs) (rw differ at w)) [
    | inl (e, r) ↦ inr (Rest-Walk i v fs p e r)
    | inr deeper ↦ elim (Walk-put j s fs deeper) [ inl new ↦ inl new | inr old ↦ inr (skip old) ]
  ]
]

Walk-assign :
    (source target : Fields) {k : Text} {p : List Text}
    → Walk (assign target source) k p
    → Walk source k p ⊎ Walk target k p
unfolding assign
Walk-assign none_left target w = inr w
Walk-assign (field j v fs) target {k} {p} w = elim (Walk-assign fs (put j v target) w) [
  | inl inside ↦ inl (skip inside)
  | inr earlier ↦ elim (Walk-put j v target earlier) [
    | inl (e, r) ↦ inl (Rest-Walk j v fs p e r)
    | inr old ↦ inr old
  ]
]

bind-some :
    (o : Option Structure) (f : Structure → Option Structure) {s : Structure}
    → (o >>= f) ≡ some s
    → (s' : Structure) × (o ≡ some s') × (f s' ≡ some s)
bind-some none f h = cc
bind-some (some s') f h = (s', refl, h)

not-Walk-none_left : {k : Text} {p : List Text} (fs : Fields) → fs ≡ none_left → ¬ Walk fs k p
not-Walk-none_left none_left e w = absurd_walk w
  where
    absurd_walk : {k : Text} {p : List Text} → ¬ Walk none_left k p
    absurd_walk w = elim w [ ]
not-Walk-none_left (field j v fs) e w = cc

in_member :
    (k : Text) (j : Json) (ms : Members) {k' : Text} (p : List Text)
    → k ≡ k'
    → ((k'' : Text) (p' : List Text) → p ≡ k'' ∷ p' → Occurs j k'' p')
    → InMembers (member k j ms) k' p
in_member k j ms [] e f = subst (λ m. InMembers (member k j ms) m []) e last
in_member k j ms (k'' ∷ p) e f =
    subst (λ m. InMembers (member k j ms) m (k'' ∷ p)) e (below (f k'' p refl))

-- A value with no members gives no path.
leaf :
    {s : Structure} {k : Text} {p : List Text}
    → some (node none_left) ≡ some s
    → ¬ Walk (fields s) k p
leaf {s} h w = not-Walk-none_left (fields s) (ap fields (sym (some-injective _ _ h))) w

mutual
  unfolding structure

  occurs :
      (j : Json) {s : Structure} {k : Text} {p : List Text}
      → structure j ≡ some s
      → Walk (fields s) k p
      → Occurs j k p
  occurs null h w = cc
  occurs (bool b) h w = absurd (leaf h w)
  occurs (num n) h w = absurd (leaf h w)
  occurs (str t) h w = absurd (leaf h w)
  occurs (arr items) h w = elim (occurs_items items none_left h w) [
    | inl i ↦ in_array i
    | inr old ↦ absurd (not-Walk-none_left none_left refl old)
  ]
  occurs (obj ms) h w = elim (occurs_members ms none_left h w) [
    | inl i ↦ in_object i
    | inr old ↦ absurd (not-Walk-none_left none_left refl old)
  ]

  occurs_items :
      (items : Items) (acc : Fields) {s : Structure} {k : Text} {p : List Text}
      → items_structure items acc ≡ some s
      → Walk (fields s) k p
      → InItems items k p ⊎ Walk acc k p
  occurs_items nil acc {k = k} {p = p} h w =
      inr (subst (λ r. Walk (fields r) k p) (sym (some-injective _ _ h)) w)
  occurs_items (cons j items) acc h w =
      let (s', e, h') = bind-some (structure j) _ h in
      elim (occurs_items items (assign acc (fields s')) h' w) [
        | inl i ↦ inl (later i)
        | inr earlier ↦ elim (Walk-assign (fields s') acc earlier) [
          | inl new ↦ inl (first (occurs j e new))
          | inr old ↦ inr old
        ]
      ]

  occurs_members :
      (ms : Members) (acc : Fields) {s : Structure} {k : Text} {p : List Text}
      → members_structure ms acc ≡ some s
      → Walk (fields s) k p
      → InMembers ms k p ⊎ Walk acc k p
  occurs_members end acc {k = k} {p = p} h w =
      inr (subst (λ r. Walk (fields r) k p) (sym (some-injective _ _ h)) w)
  occurs_members (member k j ms) acc {p = p} h w =
      let (s', e, h') = bind-some (structure j) _ h in
      elim (occurs_members ms (put k s' acc) h' w) [
        | inl i ↦ inl (other i)
        | inr earlier ↦ elim (Walk-put k s' acc earlier) [
          | inl (k_eq, r) ↦
              inl (in_member k j ms p k_eq λ k' p' pe. occurs j e (subst (λ q. Rest s' q) pe r))
          | inr old ↦ inr old
        ]
      ]

-- Every path of keys in the structure of a value is a path of keys in the value.
pub structure-Occurs :
    (j : Json) {s : Structure} (k : Text) (p : List Text)
    → structure j ≡ some s
    → Walk (fields s) k p
    → Occurs j k p
structure-Occurs j k p h w = occurs j h w
