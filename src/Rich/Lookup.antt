-- ===== src/Rich/Lookup.antt =====
-- MarkedMustache.tsx: what a template finds by the name of a path.
use mwdb_core.Common.{
  ℕ, ◌≡◌, ◌≢◌, refl, ap, ◌∙◌, false, Option, some, List, [], ◌∷◌, ◌++◌, ◌==◌, arith,
}
use mwdb_core.Common.Text.{Text, text, starts_with}
use mwdb_core.Common.Strings.{split_first, is_found}
use mwdb_core.Suggest.Structure.{Json, str}
use mwdb_core.Rich.Split.{split_name}
use mwdb_core.Rich.Split.RoundTrip.{write_path, split_name-write_path}
use mwdb_core.Rich.Context.{
  Found, found, walk, Context, remember, mark_array, lookup_view, Lambda, value, searchable,
  lookup_searchable, lookup_plain, lookup,
}

-- A path of keys that has a name.
pub record HasName (k : Text) (ks : List Text) : Type 0 where
  pub filled : write_path 46 (k ∷ ks) ≢ []
  pub no_dot : write_path 46 (k ∷ ks) ≢ text "."

-- Its name is no searchable name and no pipeline.
pub record IsPlainName (k : Text) (ks : List Text) : Type 0 where
  pub named : HasName k ks
  pub no_bar : is_found (split_first (text "|") (write_path 46 (k ∷ ks))) ≡ false
  pub no_mark : starts_with (write_path 46 (k ∷ ks)) (text "@") ≡ false

-- The context behind the lookup of a value at a path.
abbrev pub at_path : Context → List Text → Json → Context
at_path c path v = remember (record c { last_path = c.parent_path }) path (found v)

lookup_view-split :
    (c : Context) (name : Text) (path : List Text)
    → name ≢ []
    → split_name name ≡ path
    → lookup_view c name ≡ (remember c path (walk c.view path), walk c.view path)
unfolding lookup_view
lookup_view-split c [] path h e = absurd (h refl)
lookup_view-split c (n ∷ name) path h e = rw e refl

lookup_view-write_path :
    (c : Context) (k : Text) (ks : List Text) (v : Json)
    → HasName k ks
    → walk c.view (k ∷ ks) ≡ found v
    → lookup_view c (write_path 46 (k ∷ ks)) ≡ (remember c (k ∷ ks) (found v), found v)
lookup_view-write_path c k ks v h w =
    lookup_view-split c (write_path 46 (k ∷ ks)) (k ∷ ks) h.filled
      (split_name-write_path k ks h.no_dot)
    ∙ ap (λ (r : Found Json). (remember c (k ∷ ks) r, r)) w

mark_array-str : (path : List Text) (s : Text) → mark_array path (str s) ≡ path
mark_array-str [] s = refl
mark_array-str (k ∷ ks) s = refl

module _ {R : Type 0} (lambdas : Text → Option (Lambda R))
    (make_query : List Text → Json → Option Text) where
  -- `@` and the name of a path to a text gives the text with the query for the path from the root of
  -- the view, where there is a query, whatever characters the keys hold.
  pub lookup-searchable :
      (c : Context) (k : Text) (ks : List Text) (s : Text) (q : ℕ) (query : Text)
      → HasName k ks
      → walk c.view (k ∷ ks) ≡ found (str s)
      → make_query (c.parent_path ++ k ∷ ks) (str s) ≡ some (q ∷ query)
      → (lookup lambdas make_query c (64 ∷ write_path 46 (k ∷ ks))).1
        ≡ found (searchable (q ∷ query) (str s))
  unfolding lookup lookup_searchable
  lookup-searchable c k ks s q query h w e =
      rw (lookup_view-write_path (record c { last_path = c.parent_path }) k ks (str s) h w)
        (rw (mark_array-str (c.parent_path ++ k ∷ ks) s, e) refl)

  lookup-plain_as :
      (c : Context) (name : Text)
      → is_found (split_first (text "|") name) ≡ false
      → starts_with name (text "@") ≡ false
      → lookup lambdas make_query c name
        ≡ lookup_plain lambdas make_query (record c { last_path = c.parent_path }) name
  unfolding lookup starts_with
  lookup-plain_as c [] h k = refl
  lookup-plain_as c (n ∷ name) h k = let e : (n == 64) ≡ false = ground (arith, k) in rw (e, h) refl

  -- The name of a path finds the value at the path, before any lambda or local variable.
  pub lookup-write_path :
      (c : Context) (k : Text) (ks : List Text) (v : Json)
      → IsPlainName k ks
      → walk c.view (k ∷ ks) ≡ found v
      → (lookup lambdas make_query c (write_path 46 (k ∷ ks))).1 ≡ found (value v)
  unfolding lookup_plain
  lookup-write_path c k ks v h w =
      rw (lookup-plain_as c (write_path 46 (k ∷ ks)) h.no_bar h.no_mark)
        (rw (lookup_view-write_path (record c { last_path = c.parent_path }) k ks v h.named w) refl)
