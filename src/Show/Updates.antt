-- ===== src/Show/Updates.antt =====
-- ShowObject.tsx: what the page knows of an object behind loads and updates.
use mwdb_core.Common.{
  Bool, true, false, Option, none, some, List, [], ◌∷◌, if◌then◌else◌, every, ◌≡◌, refl, sym, ap,
  ◌∙◌, Bool-cases, Option-cases, inl, inr, arith, subst, All,
}
use mwdb_core.Common.Text.{Text, text_eq, text_eq_sound, text_eq_refl}
use mwdb_core.Show.Reducer.{
  member_of, set_member, spread, ObjectAction, object_load, object_update, is_dummy_update,
  object_reducer, dispatch_updates,
}

-- what is known now, or else before
abbrev over : {V : Type 0} → Option V → Option V → Option V
over none before = before
over (some v) before = some v

distinct :
    (a b name : Text) → text_eq a b ≡ false → text_eq b name ≡ true → text_eq a name ≡ true → ⊥
distinct a b name e f g =
    let h : a ≡ b = text_eq_sound a name g ∙ sym (text_eq_sound b name f) in
    cc (text_eq_refl b, subst (λ t. text_eq t b ≡ false) h e)

if_again :
    {A : Type 0} (b : Bool) (x y m : A)
    → (if b then x else m) ≡ (if b then x else if b then y else m)
if_again true x y m = refl
if_again false x y m = refl

module _ {V : Type 0} where
  -- No name stands twice.
  abbrev pub IsObject : List (Text × V) → Type 0
  IsObject [] = Unit
  IsObject ((name, v) ∷ o) = (member_of name o ≡ none) × IsObject o

  abbrev pub known : Text → Option (List (Text × V)) → Option V
  known name none = none
  known name (some o) = member_of name o

  -- The value of a member, from the actions alone: a load says all of it, an update the members it has.
  unfoldable pub last_known : Text → Option V → List (ObjectAction V) → Option V
  last_known name before [] = before
  last_known name before (object_load o ∷ actions) = last_known name (known name o) actions
  last_known name before (object_update o ∷ actions) =
      last_known name (over (known name o) before) actions

  abbrev pub IsAction : ObjectAction V → Type 0
  IsAction (object_load o) = Unit
  IsAction (object_update none) = Unit
  IsAction (object_update (some o)) = IsObject o

  member_of-set_member :
      (name other : Text) (v : V) (o : List (Text × V))
      → member_of name (set_member other v o)
        ≡ (if text_eq other name then some v else member_of name o)
  unfolding member_of set_member
  member_of-set_member name other v [] = refl
  member_of-set_member name other v ((third, w) ∷ o) = elim (Bool-cases (text_eq third other)) [
    | inl e ↦
        rw (e, text_eq_sound third other e)
          (if_again (text_eq other name) (some v) (some w) (member_of name o))
    | inr e ↦ rw e (elim (Bool-cases (text_eq other name)) [
      | inl f ↦ elim (Bool-cases (text_eq third name)) [
        | inl g ↦ absurd (distinct third other name e f g)
        | inr g ↦ rw (f, g) (member_of-set_member name other v o ∙ rw f refl)
      ]
      | inr f ↦ rw f (
          ap (λ m. if text_eq third name then some w else m)
            (member_of-set_member name other v o ∙ rw f refl))
    ])
  ]

  member_of-spread :
      (name : Text) (o update : List (Text × V))
      → IsObject update
      → member_of name (spread o update) ≡ over (member_of name update) (member_of name o)
  unfolding member_of spread
  member_of-spread name o [] h = refl
  member_of-spread name o ((other, v) ∷ update) (absent, h) =
      member_of-spread name (set_member other v o) update h
      ∙ ap (over (member_of name update)) (member_of-set_member name other v o)
      ∙ elim (Bool-cases (text_eq other name)) [
        | inl e ↦
            rw (e, subst (λ t. member_of t update ≡ none) (text_eq_sound other name e) absent) refl
        | inr e ↦ rw e refl
      ]

  every_member :
      (p : Text → Bool) (name : Text) (v : V) (o : List (Text × V))
      → every (λ m. p m.0) o ≡ true
      → member_of name o ≡ some v
      → p name ≡ true
  unfolding member_of
  every_member p name v [] h e = absurd (cc e)
  every_member p name v ((other, w) ∷ o) h e = elim (Bool-cases (text_eq other name)) [
    | inl f ↦ subst (λ t. p t ≡ true) (text_eq_sound other name f) (ground (arith, h))
    | inr f ↦ every_member p name v o (ground (arith, h)) (sym (rw f refl) ∙ e)
  ]

  last_known-step :
      (name : Text) (before : Option V) (a : ObjectAction V) (actions : List (ObjectAction V))
      → last_known name before (a ∷ actions)
        ≡ last_known name (last_known name before (a ∷ [])) actions
  unfolding last_known
  last_known-step name before (object_load o) actions = refl
  last_known-step name before (object_update o) actions = refl

  module _ (is_equal : Option V → Option V → Bool) where
    dummy_kept :
        ((a b : Option V) → is_equal a b ≡ true → a ≡ b)
        → (name : Text) (o update : List (Text × V)) → is_dummy_update is_equal o update ≡ true
        → over (member_of name update) (member_of name o) ≡ member_of name o
    unfolding is_dummy_update
    dummy_kept sound name o update h = elim (Option-cases (member_of name update)) [
      | inl e ↦ rw e refl
      | inr (v, e) ↦ rw e (
          sym (
            sound (member_of name o) (member_of name update)
              (every_member (λ n. is_equal (member_of n o) (member_of n update)) name v update h e)
            ∙ e))
    ]

    pub known-object_reducer :
        ((a b : Option V) → is_equal a b ≡ true → a ≡ b)
        → (name : Text) (state : Option (List (Text × V))) (a : ObjectAction V) → IsAction a
        → known name (object_reducer is_equal state a) ≡ last_known name (known name state) (a ∷ [])
    unfolding object_reducer last_known spread member_of
    known-object_reducer sound name state (object_load o) h = refl
    known-object_reducer sound name state (object_update none) h = refl
    known-object_reducer sound name none (object_update (some update)) h =
        member_of-spread name [] update h
    known-object_reducer sound name (some o) (object_update (some update)) h =
        elim (Bool-cases (is_dummy_update is_equal o update)) [
          | inl e ↦ rw e (sym (dummy_kept sound name o update e))
          | inr e ↦ rw e (member_of-spread name o update h)
        ]

  -- If `isEqual` finds only equal values equal, then whatever loads and updates come, a member of the
  -- object that the page shows has the value that the last action gives it, where a load takes away
  -- what it does not name and an update keeps it: skipping the dummy updates changes no member.
  pub known-dispatch_updates :
      (is_equal : Option V → Option V → Bool)
      → ((a b : Option V) → is_equal a b ≡ true → a ≡ b)
      → (name : Text) (state : Option (List (Text × V))) (actions : List (ObjectAction V))
      → All IsAction actions
      → known name (dispatch_updates is_equal state actions)
        ≡ last_known name (known name state) actions
  unfolding dispatch_updates last_known
  known-dispatch_updates is_equal sound name state [] h = refl
  known-dispatch_updates is_equal sound name state (a ∷ actions) (h, hs) =
      known-dispatch_updates is_equal sound name (object_reducer is_equal state a) actions hs
      ∙ ap (λ m. last_known name m actions) (known-object_reducer is_equal sound name state a h)
      ∙ sym (last_known-step name (known name state) a actions)
