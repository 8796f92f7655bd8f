-- ===== src/Query/Tests.antt =====
-- Runs of the query modules at small inputs, and their theorems at such inputs.
use mwdb_core.Common.{
  ◌≡◌, ◌≢◌, ◌↔◌, refl, Bool, true, false, Option, none, some, List, [], ◌∷◌, ◌++◌, if◌then◌else◌,
  map,
}
use mwdb_core.Common.Text.{Text, text, text_eq}
use mwdb_core.Query.Lexer.{
  expr_term, expr_valuesep, expr_lpar, value_term, expr_rpar, Token, Scan, type_eq, includes,
  lookup_type, allowed_states, next_state, expected, step, lex_from, lex_query,
}
use mwdb_core.Query.Annotate.{QueryAnnotation, mark, round, rounds, annotate_query}
use mwdb_core.Query.Annotate.Cover.{IsPartition, annotate_query-IsPartition}
use mwdb_core.Query.Annotate.Flags.{IsFlagged, annotate_query-IsFlagged}
use mwdb_core.Query.Annotate.Brackets.{bracket, depth}
use mwdb_core.Query.Annotate.Depth.{has_error}
use mwdb_core.Query.Annotate.Positions.{kinds}
use mwdb_core.Query.Automaton.{IsCut, next_possible_tokens_iff}

abbrev scanned : List Token → Scan
scanned tokens = record { tokens = tokens; failure = none }

-- The tokens of `(a:b`.
abbrev group : List Token
group =
    record { type = some expr_lpar; value = text "("; offset = 0 }
    ∷ record { type = some expr_term; value = text "a"; offset = 1 }
    ∷ record { type = some expr_valuesep; value = text ":"; offset = 2 }
    ∷ record { type = some value_term; value = text "b"; offset = 3 }
    ∷ []

abbrev closing : Token
closing = record { type = some expr_rpar; value = text ")"; offset = 4 }

-- A tokenizer that knows two texts.
abbrev moo : Text → Scan
moo query = if text_eq query (text "(a:b)") then scanned (group ++ closing ∷ []) else scanned group

flags : List QueryAnnotation → List (Option Bool)
flags = map (λ a. a.last_opened_bracket)

open_bracket_flag :
    flags (annotate_query moo (text "(a:b")).annotations ≡ some true ∷ none ∷ none ∷ none ∷ []
unfolding flags annotate_query lex_query lex_from step next_state lookup_type allowed_states type_eq
    includes rounds round mark expected text_eq
open_bracket_flag = refl

closed_bracket_flag :
    flags (annotate_query moo (text "(a:b)")).annotations
    ≡ some false ∷ none ∷ none ∷ none ∷ none ∷ []
unfolding flags annotate_query lex_query lex_from step next_state lookup_type allowed_states type_eq
    includes rounds round mark expected text_eq
closed_bracket_flag = refl

no_error_in_group : has_error (annotate_query moo (text "(a:b")).annotations ≡ false
unfolding annotate_query lex_query lex_from step next_state lookup_type allowed_states type_eq
    includes rounds round mark expected text_eq
no_error_in_group = refl

annotate_query-IsPartition_example : IsPartition (text "(a:b") (annotate_query moo (text "(a:b"))
unfolding text_eq
annotate_query-IsPartition_example =
    annotate_query-IsPartition moo (text "(a:b")
      (refl, refl, (refl, refl, (refl, refl, (refl, refl, refl))))

annotate_query-IsFlagged_example : IsFlagged (annotate_query moo (text "(a:b)")).annotations
annotate_query-IsFlagged_example = annotate_query-IsFlagged moo (text "(a:b)")

group-IsCut : IsCut moo (text "(a:b") group
unfolding text_eq
group-IsCut = ((λ e. cc), refl)

closed-IsCut : IsCut moo (text "(a:b)") (group ++ closing ∷ [])
unfolding text_eq
closed-IsCut = ((λ e. cc), refl)

next_possible_tokens_iff_example :
    (has_error (annotate_query moo (text "(a:b)")).annotations ≡ false) ↔ (
      (includes (annotate_query moo (text "(a:b")).next_possible_tokens expr_rpar ≡ true)
      × (depth
            (some 0)
            (kinds (annotate_query moo (text "(a:b")).annotations ++ bracket expr_rpar ∷ [])
          ≢ none))
next_possible_tokens_iff_example =
    next_possible_tokens_iff moo (text "(a:b") (text "(a:b)") group closing expr_rpar group-IsCut
      closed-IsCut refl no_error_in_group
