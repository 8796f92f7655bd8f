-- ===== src/Suggest/Tests.antt =====
-- Runs of the completion modules at small inputs, and their theorems at such inputs.
use mwdb_core.Common.{ℕ, ◌≡◌, ◌≤◌, refl, true, false, none, some, List, [], ◌∷◌, map}
use mwdb_core.Common.Text.{Text, text, text_eq, starts_with}
use mwdb_core.Query.Lexer.{
  expr_term, expr_fieldsep, Scan, type_eq, includes, lookup_type, allowed_states, next_state,
  expected, step, lex_from, lex_query,
}
use mwdb_core.Query.Annotate.{token, mark, round, rounds, annotate_query}
use mwdb_core.Query.Last.{last_type}
use mwdb_core.Suggest.Fields.{object, field_definitions, object_type?}
use mwdb_core.Suggest.Current.{type_in, scan_fields, get_current_field, make_suggestion}
use mwdb_core.Suggest.Fetch.{
  suggest_fields, set_key, spread, lookup_key, Fetched, ready, awaits, typed_suggestions,
  fetch_typed, fetch_path, fetch_suggestions,
}
use mwdb_core.Suggest.Complete.{IsExtension, Ready}
use mwdb_core.Suggest.Extends.{fetch_suggestions-Extends}
use mwdb_core.Suggest.Structure.{
  Json, null, num, arr, obj, nil, cons, end, member, Structure, node, none_left, field, put, assign,
  structure,
}
use mwdb_core.Suggest.Structure.Sound.{failed, has_null, structure_fails_iff}
use mwdb_core.Suggest.Structure.Paths.{Occurs, here, down, structure-Occurs}
use mwdb_core.Suggest.Live.{
  Loader, load, reply, failure, pending, idle, handle_all, Run, Hook, mounted, change, settle,
  changes, settles, Reach, initially, next,
}
use mwdb_core.Suggest.Live.Loading.{requests_bound, failure_is_final}
use mwdb_core.Suggest.Live.Fresh.{suggestions_fresh}

-- A tokenizer that reads `file.si`.
abbrev moo : Text → Scan
moo query = record {
  tokens =
      record { type = some expr_term; value = text "file"; offset = 0 }
      ∷ record { type = some expr_fieldsep; value = text "."; offset = 4 }
      ∷ record { type = some expr_term; value = text "si"; offset = 5 }
      ∷ [];
  failure = none;
}

texts : Fetched ℕ → List Text
texts (ready ss) = map (λ s. s.apply (text "file.si")) ss
texts (awaits g path) = path

size_is_suggested :
    texts (fetch_suggestions {G = ℕ} [] moo (text "file.si") object) ≡ text "file.size:" ∷ []
unfolding texts fetch_suggestions fetch_path fetch_typed typed_suggestions suggest_fields
    make_suggestion spread set_key lookup_key field_definitions object_type? get_current_field
    scan_fields type_in annotate_query lex_query lex_from step next_state lookup_type allowed_states
    type_eq includes rounds round mark expected text_eq starts_with
size_is_suggested = refl

ends_with_term :
    last_type none (annotate_query moo (text "file.si")).annotations ≡ some (token expr_term)
unfolding annotate_query lex_query lex_from step next_state lookup_type allowed_states type_eq
    includes rounds round mark expected
ends_with_term = refl

fetch_suggestions-Extends_example :
    Ready (IsExtension (text "file.si")) (fetch_suggestions {G = ℕ} [] moo (text "file.si") object)
fetch_suggestions-Extends_example =
    fetch_suggestions-Extends [] moo (text "file.si") object
      (refl, refl, (refl, refl, (refl, refl, refl))) (λ e. cc ends_with_term)

-- `{"a": [{"b": 1}]}`
abbrev sample : Json
sample = obj (member (text "a") (arr (cons (obj (member (text "b") (num 1) end)) nil)) end)

abbrev sample_structure : Structure
sample_structure =
    node (field (text "a") (node (field (text "b") (node none_left) none_left)) none_left)

structure_of_sample : structure sample ≡ some sample_structure
unfolding structure put assign text_eq
structure_of_sample = refl

structure_fails_iff_example :
    failed (structure (arr (cons sample (cons null nil))))
    ≡ has_null (arr (cons sample (cons null nil)))
structure_fails_iff_example = structure_fails_iff (arr (cons sample (cons null nil)))

structure-Occurs_example : Occurs sample (text "a") (text "b" ∷ [])
structure-Occurs_example =
    structure-Occurs sample (text "a") (text "b" ∷ []) structure_of_sample (down here)

requests_bound_example : (handle_all {A = ℕ} idle (load ∷ load ∷ reply 7 ∷ load ∷ [])).requests ≤ 1
requests_bound_example = requests_bound (load ∷ load ∷ reply 7 ∷ load ∷ [])

abbrev waiting : Loader ℕ
waiting = record { current = pending; sent = true; requests = 1 }

failure_is_final_example :
    handle_all waiting (failure ∷ load ∷ reply 7 ∷ []) ≡ record waiting { sent = false }
failure_is_final_example = failure_is_final waiting (load ∷ reply 7 ∷ []) refl refl

-- Each query has itself as its only suggestion.
abbrev Echo : ℕ → List ℕ → Type 0
Echo n ss = ss ≡ n ∷ []

abbrev first_run : Run ℕ
first_run = record { input = 1; valid = true }

abbrev answered : Hook ℕ ℕ
answered = settle (change (change mounted 1) 2) (record { input = 2; valid = true }) (2 ∷ [])

answered_reached : Reach Echo answered
unfolding change
answered_reached = next (next (next initially (changes mounted 1)) (changes (change mounted 1) 2)) (
    settles (change (change mounted 1) 2) 0 (record { input = 2; valid = true }) (2 ∷ []) refl refl)

answered_runs :
    answered.runs ≡ record { input = 2; valid = true } ∷ record { input = 1; valid = false } ∷ []
unfolding change settle
answered_runs = refl

answered_idle : answered.loading ≡ false
unfolding change settle
answered_idle = refl

suggestions_fresh_example : Echo 2 answered.suggestions
suggestions_fresh_example =
    suggestions_fresh Echo answered_reached (record { input = 2; valid = true })
      (record { input = 1; valid = false } ∷ []) answered_runs answered_idle
