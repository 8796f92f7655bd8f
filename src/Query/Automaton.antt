-- ===== src/Query/Automaton.antt =====
-- luceneLexer.ts: `nextPossibleTokens` of `annotateQuery` as what a further token may be.
use mwdb_core.Common.{
  ◌≡◌, refl, true, false, Option, none, some, List, [], ◌∷◌, ◌++◌, arith, ◌↔◌, ◌≢◌,
}
use mwdb_core.Common.Text.{Text}
use mwdb_core.Query.Lexer.{
  TokenType, main, Token, LexError, Lexed, Scan, type_eq, includes, lookup_type, allowed_states,
  next_state, expected, step, lex_from, lex_query, expr_space,
}
use mwdb_core.Query.Annotate.{
  Progress, start, finish, error_annotation, annotate_query, AnnotatedQuery,
}
use mwdb_core.Query.Annotate.Brackets.{bracket, depth, depth-snoc}
use mwdb_core.Query.Annotate.Positions.{kinds}
use mwdb_core.Query.Annotate.Depth.{
  has_error, has_error-snoc, Counted, rounds-Counted, start-Counted,
}
use mwdb_core.Query.Continues.{loop, Continues, loop-one, lex_main-Continues}

module _ (t : TokenType) where
  -- What is asked of the annotations of the shorter text.
  abbrev Allows : AnnotatedQuery → Type 0
  Allows annotated =
      (includes annotated.next_possible_tokens t ≡ true)
      × (depth (some 0) (kinds annotated.annotations ++ bracket t ∷ []) ≢ none)

  finish-has_error :
      (query : Text) (p : Progress) (o : Option LexError)
      → Counted p
      → (has_error (finish query (p, o)).annotations ≡ false) ↔ (o ≡ none)
  finish-has_error query p none v = ((λ h. refl), λ h. v.sound)
  finish-has_error query p (some e) v = (
    (λ h.
        let failed = has_error-snoc p.annotations (error_annotation query p e) in
        absurd (ground (arith, h, failed))),
    λ h. cc,
  )

  finish-Allows :
      (query longer : Text) (p p' : Progress) (o o' : Option LexError)
      → Counted p
      → Counted p'
      → Continues t (p, o) (p', o')
      → has_error (finish query (p, o)).annotations ≡ false
      → (has_error (finish longer (p', o')).annotations ≡ false) ↔ Allows (finish query (p, o))
  finish-Allows query longer p p' none o' v v' f h =
      let ends = finish-has_error longer p' o' v' in
      let deep = depth-snoc (some 0) (kinds p.annotations) (bracket t) in
      rw (deep, v.deep) ((λ k. (f refl).0 (ends.0 k)), λ k. ends.1 ((f refl).1 k))
  finish-Allows query longer p p' (some e) o' v v' f h =
      absurd (cc ((finish-has_error query p (some e) v).0 h))

abbrev whole : List Token → Scan
whole ks = record { tokens = ks; failure = none }

-- The tokenizer cuts a text into these tokens without an error; a text that is not empty has tokens, and
-- a space is one token of the type expr_space.
abbrev pub IsCut : (Text → Scan) → Text → List Token → Type 0
IsCut moo [] ks =
    (ks ≡ [])
    × (blank : Token) × (moo (32 ∷ []) ≡ whole (blank ∷ []))
    × (blank.type ≡ some expr_space)
IsCut moo (c ∷ cs) ks = (ks ≢ []) × (moo (c ∷ cs) ≡ whole ks)

-- What the empty query is annotated with.
annotate_query-empty :
    (moo : Text → Scan) (ks : List Token)
    → IsCut moo [] ks
    → annotate_query moo []
      ≡ finish [] (record start { next_possible_tokens = expected main }, none)
unfolding annotate_query lex_query lex_from step next_state lookup_type allowed_states type_eq
annotate_query-empty moo ks (_, blank, m, e) = rw (m, e) refl

annotate_query-loop :
    (moo : Text → Scan) (query : Text) (ks : List Token)
    → ks ≢ []
    → IsCut moo query ks
    → annotate_query moo query ≡ finish query (loop start (lex_from main ks none))
unfolding annotate_query lex_query
annotate_query-loop moo [] ks n (e, _, _, _) = absurd (n e)
annotate_query-loop moo (c ∷ cs) ks n (_, m) = rw m refl

loop-Counted : (lexed : Lexed) → Counted (loop start lexed).0
loop-Counted lexed = rounds-Counted start lexed.lexemes lexed.error (start-Counted start refl refl)

-- For a query, the empty one included, that is annotated without an error, `nextPossibleTokens` are the
-- types that a further token may have: a text with the same tokens and one more is annotated without an
-- error if and only if the type of the last token is among them and, where it closes a bracket, one is
-- open. `IsCut` says that the tokenizer cuts both texts into their tokens.
pub next_possible_tokens_iff :
    (moo : Text → Scan) (query longer : Text) (ks : List Token) (k : Token) (t : TokenType)
    → IsCut moo query ks
    → IsCut moo longer (ks ++ k ∷ [])
    → k.type ≡ some t
    → has_error (annotate_query moo query).annotations ≡ false
    → (has_error (annotate_query moo longer).annotations ≡ false) ↔ (
        (includes (annotate_query moo query).next_possible_tokens t ≡ true)
        × (depth (some 0) (kinds (annotate_query moo query).annotations ++ bracket t ∷ []) ≢ none))
next_possible_tokens_iff moo [] longer [] k t q l e h =
    rw (annotate_query-empty moo [] q, annotate_query-loop moo longer (k ∷ []) (λ n. cc) l)
      (finish-Allows t [] longer (record start { next_possible_tokens = expected main }) _ none _
        (start-Counted (record start { next_possible_tokens = expected main }) refl refl)
        (loop-Counted (lex_from main (k ∷ []) none)) (λ _. loop-one start main k t e) refl)
next_possible_tokens_iff moo [] longer (k' ∷ ks) k t (q, _, _, _) l e h = absurd (cc q)
next_possible_tokens_iff moo (c ∷ cs) longer [] k t (n, m) l e h = absurd (n refl)
next_possible_tokens_iff moo (c ∷ cs) longer (k' ∷ ks) k t q l e h =
    let shorter_loop = annotate_query-loop moo (c ∷ cs) (k' ∷ ks) q.0 q in
    let longer_loop = annotate_query-loop moo longer (k' ∷ ks ++ k ∷ []) (λ n. cc) l in
    rw (shorter_loop, longer_loop)
      (finish-Allows t (c ∷ cs) longer _ _ _ _ (loop-Counted (lex_from main (k' ∷ ks) none))
        (loop-Counted (lex_from main (k' ∷ ks ++ k ∷ []) none)) (lex_main-Continues t k' ks k e)
        (rw shorter_loop at h))
