-- ===== src/Search/Toggle.antt =====
-- search.ts: adding a field with `addFieldToQuery`, and taking it away by adding its negation.
use mwdb_core.Common.{
  ℕ, ◌≤◌, ◌≡◌, ◌≢◌, refl, ap, true, false, some, [], ◌∷◌, ◌++◌, arith, append-nil, append_assoc,
  length, Bool-cases, inl, inr,
}
use mathlib.Core.List.{reverse-append, reverse-reverse}
use mwdb_core.Common.Text.{Text, text, starts_with, starts_with-append}
use mwdb_core.Common.Strings.{
  is_space, trim_start, trim_end, trim, split_first, includes_text, remove_first,
}
use mwdb_core.Search.Quote.{escape_search_value, stringify, quote_units, quote_mark}
use mwdb_core.Search.Field.{
  op_not, op_and, op_pre_and, negate_query_component, query_component, add_negated, add_positive,
  add_component, strip_pre_and, add_field_to_query,
}

-- A query as the function leaves it: not empty, no white space at its ends, no operator first.
pub record IsTidy (query : Text) : Type 0 where
  pub nonempty : query ≢ []
  pub no_space_before : trim_start query ≡ query
  pub no_space_after : trim_end query ≡ query
  pub no_operator : starts_with query op_pre_and ≡ false
  pub no_operator_alone : starts_with (query ++ text " ") op_pre_and ≡ false

-- A positive field name does not begin with the negation.
abbrev pub IsPositive : Text → Type 0
IsPositive field = starts_with field op_not ≡ false

component-negated :
    (field value : Text)
    → negate_query_component (query_component (op_not ++ field) value) ≡ query_component field value
unfolding negate_query_component query_component starts_with
component-negated field value = refl

tidy-finish : (query : Text) → IsTidy query → strip_pre_and (trim query) ≡ query
unfolding trim
tidy-finish query t = rw (t.no_space_before, t.no_space_after, t.no_operator)

length-trim_start : (s : Text) → length (trim_start s) ≤ length s
unfolding trim_start
length-trim_start [] = omega arith
length-trim_start (c ∷ s) = ground (arith, length-trim_start s)

trim_start-append : (q x : Text) → q ≢ [] → trim_start q ≡ q → trim_start (q ++ x) ≡ q ++ x
unfolding trim_start
trim_start-append [] x n t = absurd (n refl)
trim_start-append (c ∷ q) x n t = elim (Bool-cases (is_space c)) [
  | inl space ↦
      let shorter : trim_start q ≡ c ∷ q = (rw space at t) in
      absurd (omega (arith, length-trim_start q, ap length shorter))
  | inr other ↦ rw other
]

trim_end-concat : (y : Text) (c : ℕ) → is_space c ≡ false → trim_end (y ++ c ∷ []) ≡ y ++ c ∷ []
unfolding trim_end trim_start
trim_end-concat y c h =
    rw (reverse-append y (c ∷ [])) (rw h (rw (← reverse-append y (c ∷ [])) (reverse-reverse _)))

starts_with-space :
    (q t : Text) → starts_with (q ++ 32 ∷ t) op_pre_and ≡ starts_with (q ++ text " ") op_pre_and
unfolding starts_with
starts_with-space [] t = refl
starts_with-space (a ∷ []) t = refl
starts_with-space (a ∷ b ∷ []) t = refl
starts_with-space (a ∷ b ∷ c ∷ []) t = refl
starts_with-space (a ∷ b ∷ c ∷ d ∷ q) t = refl

component-concat :
    (query field value : Text)
    → query ++ (op_and ++ query_component field value)
      ≡ (query ++ (op_and ++ (field ++ 58 ∷ quote_mark ∷ quote_units value))) ++ quote_mark ∷ []
unfolding query_component escape_search_value stringify
component-concat query field value = simp append_assoc

trim_end-component :
    (query field value : Text)
    → trim_end (query ++ (op_and ++ query_component field value))
      ≡ query ++ (op_and ++ query_component field value)
unfolding is_space
trim_end-component query field value =
    rw (component-concat query field value) (trim_end-concat _ quote_mark refl)

-- The query with a component behind it is left as it is at the end of the function.
appended-finish :
    (query field value : Text)
    → IsTidy query
    → strip_pre_and (trim (query ++ (op_and ++ query_component field value)))
      ≡ query ++ (op_and ++ query_component field value)
unfolding trim
appended-finish query field value t =
    rw
      (trim_start-append query (op_and ++ query_component field value) t.nonempty t.no_space_before)
      (rw (trim_end-component query field value)
        (rw (starts_with-space query _) (rw t.no_operator_alone)))

-- Neither the component nor its negation stands in the query.
pub record IsNew (query component : Text) : Type 0 where
  pub no_component : includes_text query component ≡ false
  pub no_negation : includes_text query (negate_query_component component) ≡ false
  pub no_and_negation : includes_text query (op_and ++ negate_query_component component) ≡ false

add_component-positive :
    (query field component : Text)
    → query ≢ []
    → starts_with field op_not ≡ false
    → add_component query field component ≡ add_positive query component
add_component-positive [] field component n h = absurd (n refl)
add_component-positive (c ∷ query) field component n h = rw h

add_component-negative :
    (query field component : Text)
    → query ≢ []
    → starts_with field op_not ≡ true
    → add_component query field component ≡ add_negated query component
add_component-negative [] field component n h = absurd (n refl)
add_component-negative (c ∷ query) field component n h = rw h

-- A field that is new to a tidy query is added behind it with AND.
pub add_field_to_query-new :
    (query field value : Text)
    → IsTidy query
    → IsPositive field
    → IsNew query (query_component field value)
    → add_field_to_query query field value ≡ query ++ (op_and ++ query_component field value)
unfolding add_field_to_query add_positive
add_field_to_query-new query field value t p new =
    rw (add_component-positive query field (query_component field value) t.nonempty p) (
      rw (new.no_and_negation, new.no_negation, new.no_component)
        (appended-finish query field value t))

append-ne-nil : (q x : Text) → q ≢ [] → q ++ x ≢ []
append-ne-nil [] x n e = n refl
append-ne-nil (c ∷ q) x n e = cc

remove-split_first :
    (s p before after : Text)
    → split_first p s ≡ some (before, after)
    → (includes_text s p ≡ true) × (remove_first s p ≡ before ++ after)
unfolding includes_text remove_first
remove-split_first s p before after h = (rw h, rw h)

-- Adding the negation of a field takes the component away that stands last in the query, if it
-- stands nowhere before, and the negation nowhere at all.
pub add_field_to_query-negation :
    (query field value : Text)
    → IsTidy query
    → includes_text
        (query ++ (op_and ++ query_component field value))
        (query_component (op_not ++ field) value)
      ≡ false
    → split_first
        (op_and ++ query_component field value)
        (query ++ (op_and ++ query_component field value))
      ≡ some (query, [])
    → add_field_to_query (query ++ (op_and ++ query_component field value)) (op_not ++ field) value
      ≡ query
unfolding add_field_to_query add_negated
add_field_to_query-negation query field value t absent first =
    let longer = query ++ (op_and ++ query_component field value) in
    let (found, removed) = remove-split_first longer _ query [] first in
    let negative =
      add_component-negative longer (op_not ++ field) (query_component (op_not ++ field) value)
        (append-ne-nil query _ t.nonempty) (starts_with-append op_not field) in
    rw negative (
      rw (absent, component-negated field value)
        (rw (found, removed) (rw append-nil (tidy-finish query t))))
