-- ===== src/Query/Lexer.antt =====
-- luceneLexer.ts: the token types, the automaton `allowedStates`, and `lexQuery`. The tokenizer
-- (the package moo, on the rules of the file) is a parameter; a `Scan` is what it gives for a text.
use mwdb_core.Common.{ℕ, Bool, Option, none, some, List, [], ◌∷◌, map, ◌==◌, if◌then◌else◌, any}
use mwdb_core.Common.Text.{Text}

-- The rule names of `moo.states`.
pub data TokenType : Type 0 where
  expr_boolop expr_notop expr_phrase expr_fieldsep expr_term : TokenType
  expr_arrayref expr_valuesep expr_lpar expr_rpar expr_space : TokenType
  value_compop value_lrange value_lpar value_phrase value_phrase_unfin value_term : TokenType
  range_rrange range_toop range_phrase range_term range_space : TokenType

type_id : TokenType → ℕ
type_id expr_boolop = 0
type_id expr_notop = 1
type_id expr_phrase = 2
type_id expr_fieldsep = 3
type_id expr_term = 4
type_id expr_arrayref = 5
type_id expr_valuesep = 6
type_id expr_lpar = 7
type_id expr_rpar = 8
type_id expr_space = 9
type_id value_compop = 10
type_id value_lrange = 11
type_id value_lpar = 12
type_id value_phrase = 13
type_id value_phrase_unfin = 14
type_id value_term = 15
type_id range_rrange = 16
type_id range_toop = 17
type_id range_phrase = 18
type_id range_term = 19
type_id range_space = 20

unfoldable pub type_eq : TokenType → TokenType → Bool
unfolding type_id
type_eq t u = type_id t == type_id u

-- `types.includes(t)`
unfoldable pub includes : List TokenType → TokenType → Bool
includes types t = any (λ u. type_eq u t) types

-- The states of the automaton.
pub data State : Type 0 where
  main fieldsep fieldname value_start value value_end : State
  after_boolop range_start range_to range_end range_fin phrase_unfin : State

-- `allowedStates`: for each state the token types that it accepts, with the state that follows.
unfoldable pub allowed_states : State → List (TokenType × State)
allowed_states main =
    (expr_notop, main)
    ∷ (expr_lpar, main)
    ∷ (expr_space, main)
    ∷ (expr_phrase, fieldsep)
    ∷ (expr_term, fieldsep)
    ∷ []
allowed_states fieldsep =
    (expr_valuesep, value_start) ∷ (expr_fieldsep, fieldname) ∷ (expr_arrayref, fieldsep) ∷ []
allowed_states fieldname = (expr_phrase, fieldsep) ∷ (expr_term, fieldsep) ∷ []
allowed_states value_start =
    (value_compop, value)
    ∷ (value_lrange, range_start)
    ∷ (value_lpar, main)
    ∷ (value_phrase, value_end)
    ∷ (value_phrase_unfin, phrase_unfin)
    ∷ (value_term, value_end)
    ∷ []
allowed_states value = (value_phrase, value_end) ∷ (value_term, value_end) ∷ []
allowed_states value_end =
    (expr_boolop, after_boolop) ∷ (expr_space, value_end) ∷ (expr_rpar, value_end) ∷ []
allowed_states after_boolop = (expr_space, main) ∷ (expr_lpar, main) ∷ []
allowed_states range_start = (range_phrase, range_to) ∷ (range_term, range_to) ∷ []
allowed_states range_to = (range_space, range_to) ∷ (range_toop, range_end) ∷ []
allowed_states range_end =
    (range_space, range_end) ∷ (range_phrase, range_fin) ∷ (range_term, range_fin) ∷ []
allowed_states range_fin = (range_space, range_fin) ∷ (range_rrange, value_end) ∷ []
allowed_states phrase_unfin = []

-- `table[type]`
unfoldable pub lookup_type : TokenType → List (TokenType × State) → Option State
lookup_type t [] = none
lookup_type t ((u, s) ∷ table) = if type_eq u t then some s else lookup_type t table

unfoldable pub next_state : State → TokenType → Option State
next_state s t = lookup_type t (allowed_states s)

-- `Object.keys(allowedStates[state])`
unfoldable pub expected : State → List TokenType
expected s = map (λ entry. entry.0) (allowed_states s)

abbrev pub lpar_types : List TokenType
lpar_types = expr_lpar ∷ value_lpar ∷ value_lrange ∷ []

abbrev pub rpar_types : List TokenType
rpar_types = expr_rpar ∷ range_rrange ∷ []

abbrev pub field_types : List TokenType
field_types = expr_phrase ∷ expr_term ∷ []

abbrev pub field_part_types : List TokenType
field_part_types = expr_arrayref ∷ expr_fieldsep ∷ []

abbrev pub oper_types : List TokenType
oper_types = expr_notop ∷ expr_boolop ∷ range_toop ∷ value_compop ∷ []

-- `moo.Token`: the members that are read.
pub record Token : Type 0 where
  pub type : Option TokenType
  pub value : Text
  pub offset : ℕ

-- What the tokenizer gives for a text: its tokens, and the message of the error that it ends with.
pub record Scan : Type 0 where
  pub tokens : List Token
  pub failure : Option Text

-- What the `try` block of `annotateQuery` may catch: an error of the tokenizer, `lexQuery`'s own
-- error, a closing bracket with none open, and no token at all.
pub data LexError : Type 0 where
  tokenizer : Text → LexError
  not_allowed : Option TokenType → State → LexError
  no_open_bracket : LexError
  no_token : LexError

-- One `yield` of `lexQuery`. The automaton has accepted the token, so its type is known.
pub record Lexeme : Type 0 where
  pub type : TokenType
  pub value : Text
  pub offset : ℕ
  pub state : State
  pub next_tokens : List TokenType

-- The yields of `lexQuery`, and the error that ends them.
pub record Lexed : Type 0 where
  pub lexemes : List Lexeme
  pub error : Option LexError

abbrev lex_end : Option Text → Lexed
lex_end none = record { lexemes = []; error = none }
lex_end (some message) = record { lexemes = []; error = some (tokenizer message) }

abbrev pub reject : Token → State → Lexed
reject token s = record { lexemes = []; error = some (not_allowed token.type s) }

abbrev pub accept : Token → TokenType → State → Lexed → Lexed
accept token t s rest = record {
  lexemes =
      record {
        type = t;
        value = token.value;
        offset = token.offset;
        state = s;
        next_tokens = expected s;
      }
      ∷ rest.lexemes;
  error = rest.error;
}

-- `!token.type || !allowedStates[currentState][token.type]` fails where this is a state.
unfoldable pub step : State → Option TokenType → Option (TokenType × State)
step s none = none
step s (some t) = elim (next_state s t) [ none ↦ none | some s' ↦ some (t, s') ]

-- The rest of a round of `lexQuery`, when the automaton has looked the token up.
abbrev pub advance : Token → Option (TokenType × State) → (State → Lexed) → State → Lexed
advance token none rest s = reject token s
advance token (some (t, s')) rest s = accept token t s' (rest s')

-- The loop of `lexQuery`, from `currentState`.
unfoldable pub lex_from : State → List Token → Option Text → Lexed
lex_from s [] failure = lex_end failure
lex_from s (token ∷ tokens) failure =
    advance token (step s token.type) (λ s'. lex_from s' tokens failure) s

unfoldable pub lex_query : (Text → Scan) → Text → Lexed
lex_query moo query = lex_from main (moo query).tokens (moo query).failure
