-- ===== src/Recent/View/Settles.antt =====
-- RecentView.tsx and search.ts: the effect that submits the query of the address changes the address
-- itself, and comes to rest.
use mwdb_core.Common.{
  if◌then◌else◌, Bool, true, false, Option, none, some, [], ◌∷◌, ◌++◌, every, map, ◌≡◌, refl, sym,
  ap, ◌∙◌, Bool-cases, inl, inr,
}
use mwdb_core.Common.Text.{Text, text, text_eq}
use mwdb_core.Common.Strings.{is_space, split_from, split_spaces, join}
use mwdb_core.Search.Field.{is_hex, is_hash, multi_from_hashes, lower_unit}
use mwdb_core.Recent.View.{
  Params, RecentView, or_empty, is_text, current_query, counting_enabled, count_flag,
  set_current_query, make_count_for_query, count_if, submit_query, show_query,
}

-- A first part that begins with `m` is no hash.
not_hashes : (part t : Text) → every is_hash (split_from false (109 ∷ part) t) ≡ false
unfolding split_from is_hash is_hex
not_hashes part [] = refl
not_hashes part (c ∷ t) = elim (Bool-cases (is_space c)) [
  | inl e ↦ rw e refl
  | inr e ↦ rw e (not_hashes (part ++ c ∷ []) t)
]

multi_kept : (s : Text) → multi_from_hashes (109 ∷ s) ≡ 109 ∷ s
unfolding multi_from_hashes split_spaces split_from is_space
multi_kept s = rw (not_hashes [] s) refl

multi_of_hashes :
    (query : Text)
    → every is_hash (split_spaces query) ≡ true
    → multi_from_hashes query
      ≡ text "multi:\"" ++ (map lower_unit (join (split_spaces query) (text " ")) ++ text "\"")
unfolding multi_from_hashes
multi_of_hashes query e = rw e refl

other_kept :
    (query : Text) → every is_hash (split_spaces query) ≡ false → multi_from_hashes query ≡ query
unfolding multi_from_hashes
other_kept query e = rw e refl

multi_from_hashes-multi_from_hashes :
    (query : Text) → multi_from_hashes (multi_from_hashes query) ≡ multi_from_hashes query
multi_from_hashes-multi_from_hashes query = elim (Bool-cases (every is_hash (split_spaces query))) [
  | inl e ↦
      ap (λ s. multi_from_hashes s) (multi_of_hashes query e)
      ∙ multi_kept
          (text "ulti:\"" ++ (map lower_unit (join (split_spaces query) (text " ")) ++ text "\""))
      ∙ sym (multi_of_hashes query e)
  | inr e ↦ ap (λ s. multi_from_hashes s) (other_kept query e)
]

-- The address that submitting a query leads to.
abbrev pub submitted : Text → Params → Params
submitted query p = record p {
  q = some (multi_from_hashes query);
  count = some (count_flag p.count);
}

count_flag-count_flag :
    (count : Option Text) → count_flag (some (count_flag count)) ≡ count_flag count
unfolding text_eq
count_flag-count_flag count = elim (Bool-cases (is_text (text "1") count)) [
  | inl e ↦ rw e refl
  | inr e ↦ rw e refl
]

-- What a view becomes that has this address and this text in its input.
abbrev Becomes : Params → Text → Option RecentView → Type 0
Becomes p typed outcome =
    (w : RecentView) × (outcome ≡ some w) × (w.params ≡ p) × (w.query_input ≡ typed)

count_if-Becomes :
    (enabled : Bool) (query : Text) (v : RecentView)
    → Becomes v.params v.query_input (count_if enabled query (some v))
unfolding make_count_for_query
count_if-Becomes true query v = (make_count_for_query query v, refl, refl, refl)
count_if-Becomes false query v = (v, refl, refl, refl)

-- Where the address has no parameter `query`.
submit_query-Becomes :
    (query : Text) (v : RecentView)
    → v.params.query ≡ none
    → Becomes (submitted query v.params) v.query_input (submit_query query v)
unfolding submit_query set_current_query
submit_query-Becomes query v h = rw h (count_if-Becomes (counting_enabled v) query _)

submitted-submitted :
    (query : Text) (p : Params)
    → submitted (multi_from_hashes query) (submitted query p) ≡ submitted query p
submitted-submitted query p =
    ap (λ s. record p { q = some s; count = some (count_flag (some (count_flag p.count))) })
      (multi_from_hashes-multi_from_hashes query)
    ∙ ap (λ s. record p { q = some (multi_from_hashes query); count = some s })
        (count_flag-count_flag p.count)

-- The query that the effect writes into the address: hashes as their `multi` query, any other as it is.
abbrev pub written : Text → Text
written query =
    if every is_hash (split_spaces query)
    then text "multi:\"" ++ (map lower_unit (join (split_spaces query) (text " ")) ++ text "\"")
    else query

-- Where the address has no parameter `query`, the effect that submits its query does not throw; it
-- shows the query in the input, and writes into the address the `multi` query of its parts if all are
-- hashes, and any other query as it is; and what it has written it leaves when it runs again.
pub show_query-settles :
    (v : RecentView)
    → v.params.query ≡ none
    → (w : RecentView) × (show_query v ≡ some w)
      × (w.query_input ≡ current_query v)
      × (w.params.q ≡ some (written (current_query v)))
      × ((u : RecentView) × (show_query w ≡ some u) × (u.params ≡ w.params))
unfolding show_query multi_from_hashes
show_query-settles v h =
    let (w, e, p, i) =
      submit_query-Becomes (current_query v) (record v { query_input = current_query v }) h in
    let k : w.params.query ≡ none = ap (λ (p : Params). p.query) p ∙ h in
    let (u, f, r, _) =
      submit_query-Becomes (current_query w) (record w { query_input = current_query w }) k in
    (
      w,
      e,
      i,
      ap (λ (p : Params). p.q) p,
      (
        u,
        f,
        r
            ∙ ap (λ (p : Params). submitted (or_empty p.q) p) p
            ∙ submitted-submitted (current_query v) v.params
            ∙ sym p,
      ),
    )
