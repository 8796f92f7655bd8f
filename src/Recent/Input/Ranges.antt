-- ===== src/Recent/Input/Ranges.antt =====
-- QueryInput.tsx: the decorated ranges of a query, from the annotations of luceneLexer.ts.
use mwdb_core.Common.{
  ℕ, ◌+◌, ◌≡◌, sym, ap, subst, List, [], ◌∷◌, ◌++◌, map, length, length-append, arith,
}
use mwdb_core.Common.Text.{Text}
use mwdb_core.Query.Lexer.{Scan}
use mwdb_core.Query.Annotate.{QueryAnnotation, annotate_query}
use mwdb_core.Query.Annotate.Cover.{
  spelled, Placed, Spells, IsPartition, annotate_query-IsPartition,
}
use mwdb_core.Recent.Input.{DecoratedRange, range_of, decorate}

-- The first range begins at the first place, each other one where the one before it ends, and the last
-- one ends at the last place.
abbrev pub Tiles : ℕ → ℕ → List DecoratedRange → Type 0
Tiles from to [] = from ≡ to
Tiles from to (r ∷ rs) = (r.anchor ≡ from) × Tiles r.focus to rs

Placed-Tiles :
    (n : ℕ) (as' : List QueryAnnotation)
    → Placed n as'
    → Tiles n (n + length (spelled as')) (map range_of as')
Placed-Tiles n [] h = omega arith
Placed-Tiles n (a ∷ as') (o, h) = (
  o,
  subst
      (λ (m : ℕ).
        Tiles (m + length a.value) (n + length (a.value ++ spelled as')) (map range_of as'))
      (sym o)
      (subst (λ (m : ℕ). Tiles (n + length a.value) m (map range_of as'))
        (omega (arith, length-append a.value (spelled as')))
        (Placed-Tiles (n + length a.value) as' h)),
)

-- If the tokenizer cuts the query as it documents, the decorated ranges tile the text of the editor
-- from its start to its end: no character has two annotations or none, an error included.
pub decorate-Tiles :
    (moo : Text → Scan) (query : Text)
    → Spells 0 query (moo query).tokens (moo query).failure
    → Tiles 0 (length query) (decorate moo query)
unfolding decorate
decorate-Tiles moo query h =
    let p : IsPartition query (annotate_query moo query) = annotate_query-IsPartition moo query h in
    subst (λ (m : ℕ). Tiles 0 m (map range_of (annotate_query moo query).annotations))
      (omega (arith, ap (λ (t : Text). length t) p.spells))
      (Placed-Tiles 0 (annotate_query moo query).annotations p.placed)
