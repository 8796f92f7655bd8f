-- ===== src/Query/Annotate.antt =====
-- luceneLexer.ts: `annotateQuery`. The array `openedParentheses` holds references to annotations
-- that are also in `annotations` and are written through it: here it holds their positions.
pub mod Cover
pub mod Brackets
pub mod Positions
pub mod Flags
pub mod Depth
use mwdb_core.Common.{
  ℕ, ◌+◌, Bool, true, false, Option, none, some, List, [], ◌∷◌, ◌++◌, if◌then◌else◌, length, drop,
  zero, suc,
}
use mwdb_core.Common.Text.{Text}
use mwdb_core.Query.Lexer.{
  TokenType, LexError, no_open_bracket, no_token, Lexeme, Lexed, Scan, lpar_types, rpar_types,
  includes, lex_query,
}

-- `type: string` is a token type or "error".
pub data AnnotationType : Type 0 where
  token : TokenType → AnnotationType
  error : AnnotationType

pub record QueryAnnotation : Type 0 where
  pub type : AnnotationType
  pub value : Text
  pub offset : ℕ
  pub last_opened_bracket : Option Bool
  pub failure : Option LexError

pub record AnnotatedQuery : Type 0 where
  pub annotations : List QueryAnnotation
  pub next_possible_tokens : List TokenType

-- The variables of the loop; `opened` has its last element first.
pub record Progress : Type 0 where
  pub annotations : List QueryAnnotation
  pub opened : List ℕ
  pub next_offset : ℕ
  pub next_possible_tokens : List TokenType

-- `annotations[i].lastOpenedBracket = flag`
unfoldable pub mark : List QueryAnnotation → ℕ → Bool → List QueryAnnotation
mark [] i flag = []
mark (a ∷ as') zero flag = record a { last_opened_bracket = some flag } ∷ as'
mark (a ∷ as') (suc i) flag = a ∷ mark as' i flag

-- the same for the last element of `openedParentheses`, if there is one
abbrev pub mark_last : List QueryAnnotation → List ℕ → Bool → List QueryAnnotation
mark_last as' [] flag = as'
mark_last as' (i ∷ _) flag = mark as' i flag

abbrev pub annotation : Lexeme → Option Bool → QueryAnnotation
annotation l flag = record {
  type = token l.type;
  value = l.value;
  offset = l.offset;
  last_opened_bracket = flag;
  failure = none;
}

-- the end of the round: `annotations.push(annotation)` and the two variables
abbrev pub push : Progress → Lexeme → List QueryAnnotation → List ℕ → Option Bool → Progress
push p l as' opened flag = record {
  annotations = as' ++ annotation l flag ∷ [];
  opened = opened;
  next_offset = l.offset + length l.value;
  next_possible_tokens = l.next_tokens;
}

abbrev pub close : Progress → Lexeme → List ℕ → Option Progress
close p l [] = none
close p l (i ∷ rest) = some (push p l (mark_last (mark p.annotations i false) rest true) rest none)

-- One round; `none` is the write to a member of `undefined`.
unfoldable pub round : Progress → Lexeme → Option Progress
round p l =
    if includes lpar_types l.type
    then some (
        push p l (mark_last p.annotations p.opened false) (length p.annotations ∷ p.opened)
          (some true))
    else if includes rpar_types l.type
    then close p l p.opened
    else some (push p l p.annotations p.opened none)

-- Whether the round was completed.
abbrev pub proceed :
    Progress
    → Option Progress
    → (Progress → Progress × Option LexError)
    → Progress × Option LexError
proceed p none rest = (p, some no_open_bracket)
proceed p (some p') rest = rest p'

-- The loop: the variables at its end, and the error that it ends with.
unfoldable pub rounds : Progress → List Lexeme → Option LexError → Progress × Option LexError
rounds p [] e = (p, e)
rounds p (l ∷ ls) e = proceed p (round p l) (λ p'. rounds p' ls e)

abbrev pub start : Progress
start = record { annotations = []; opened = []; next_offset = 0; next_possible_tokens = [] }

-- `.next().value[2]` of the generator with these yields and this end
abbrev pub first_expected : List Lexeme → Option LexError → Progress × Option LexError
first_expected (l ∷ _) e = (record start { next_possible_tokens = l.next_tokens }, none)
first_expected [] none = (start, some no_token)
first_expected [] (some e) = (start, some e)

-- what the `catch` block pushes
abbrev pub error_annotation : Text → Progress → LexError → QueryAnnotation
error_annotation query p e = record {
  type = error;
  value = drop p.next_offset query;
  offset = p.next_offset;
  last_opened_bracket = none;
  failure = some e;
}

-- the `catch` block, and the result
abbrev pub finish : Text → Progress × Option LexError → AnnotatedQuery
finish query (p, none) = record {
  annotations = p.annotations;
  next_possible_tokens = p.next_possible_tokens;
}
finish query (p, some e) = record {
  annotations = p.annotations ++ error_annotation query p e ∷ [];
  next_possible_tokens = [];
}

unfoldable pub annotate_query : (Text → Scan) → Text → AnnotatedQuery
annotate_query moo [] =
    let lexed = lex_query moo (32 ∷ []) in finish [] (first_expected lexed.lexemes lexed.error)
annotate_query moo (c ∷ cs) =
    let lexed = lex_query moo (c ∷ cs) in finish (c ∷ cs) (rounds start lexed.lexemes lexed.error)
