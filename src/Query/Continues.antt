-- ===== src/Query/Continues.antt =====
-- The automaton of luceneLexer.ts as a relation, and the loop of `annotateQuery` over a text with one more
-- token.
use mwdb_core.Common.{
  ℕ, ◌≡◌, refl, ◌∙◌, Bool, true, false, Option, none, some, List, [], ◌∷◌, ◌++◌, map, arith, ◌↔◌,
  ◌⊎◌, ◌≢◌, Bool-cases, Option-cases, inl, inr, length, subst, sym,
}
use mwdb_core.Query.Lexer.{
  TokenType, State, main, Token, Lexeme, LexError, Lexed, type_eq, includes, lookup_type,
  allowed_states, next_state, expected, step, advance, lex_from,
}
use mwdb_core.Query.Annotate.{Progress, close, round, rounds, proceed, start}
use mwdb_core.Query.Annotate.Brackets.{
  Bracket, opens, closes, neither, bracket, bump, round-bracket, round_as,
}

is_some : Option State → Bool
is_some none = false
is_some (some s) = true

-- `Object.keys(table)` holds the types at which `table[type]` is defined.
includes-map :
    (table : List (TokenType × State)) (t : TokenType)
    → includes (map (λ entry. entry.0) table) t ≡ is_some (lookup_type t table)
unfolding includes lookup_type is_some
includes-map [] t = refl
includes-map ((u, s) ∷ table) t = elim (Bool-cases (type_eq u t)) [
  | inl same ↦ rw same
  | inr other ↦ rw other (includes-map table t)
]

includes-expected : (s : State) (t : TokenType) → includes (expected s) t ≡ is_some (next_state s t)
unfolding expected next_state
includes-expected s t = includes-map (allowed_states s) t

-- The table has an entry for exactly the expected types.
step-expected :
    (s : State) (t : TokenType)
    → ((step s (some t) ≡ none) × (includes (expected s) t ≡ false))
      ⊎ ((s' : State) × (step s (some t) ≡ some (t, s')) × (includes (expected s) t ≡ true))
unfolding step is_some
step-expected s t = elim (Option-cases (next_state s t)) [
  | inl stop ↦ inl (rw (stop, step), includes-expected s t ∙ rw stop)
  | inr (s', go) ↦ inr (s', rw (go, step), includes-expected s t ∙ rw go)
]

-- A round with this token has a bracket to close, if it closes one.
abbrev pub CanClose : Progress → TokenType → Type 0
CanClose p t = bump (bracket t) (some (length p.opened)) ≢ none

-- A round ends exactly if it can close its bracket.
abbrev Ends : Bracket → Progress → Lexeme → Option Progress → Type 0
Ends b p l o =
    ((o ≡ none) × (bump b (some (length p.opened)) ≡ none))
    ⊎ ((p' : Progress) × (o ≡ some p')
        × (p'.next_possible_tokens ≡ l.next_tokens)
        × (bump b (some (length p.opened)) ≢ none))

close-Ends :
    (p : Progress) (l : Lexeme) (opened : List ℕ)
    → p.opened ≡ opened
    → Ends closes p l (close p l opened)
close-Ends p l [] e = inl (refl, rw e refl)
close-Ends p l (i ∷ opened) e = inr (_, refl, refl, rw e λ h. cc)

round_as-Ends : (b : Bracket) (p : Progress) (l : Lexeme) → Ends b p l (round_as b p l)
round_as-Ends opens p l = inr (_, refl, refl, λ h. cc)
round_as-Ends closes p l = close-Ends p l p.opened refl
round_as-Ends neither p l = inr (_, refl, refl, λ h. cc)

round-Ends : (p : Progress) (l : Lexeme) → Ends (bracket l.type) p l (round p l)
round-Ends p l =
    subst (Ends (bracket l.type) p l) (sym (round-bracket p l)) (round_as-Ends (bracket l.type) p l)

-- The loop over what `lexQuery` gives.
abbrev pub loop : Progress → Lexed → Progress × Option LexError
loop p lexed = rounds p lexed.lexemes lexed.error

-- Whether one more token is accepted.
pub loop-one :
    (p : Progress) (s : State) (k : Token) (t : TokenType)
    → k.type ≡ some t
    → ((loop p (lex_from s (k ∷ []) none)).1 ≡ none)
      ↔ ((includes (expected s) t ≡ true) × CanClose p t)
unfolding lex_from rounds
loop-one p s k t e = elim (step-expected s t) [
  | inl (stop, out) ↦ rw (e, stop, out) ((λ h. cc), λ h. absurd (cc (h.0)))
  | inr (s', go, among) ↦
      let l : Lexeme = record {
        type = t;
        value = k.value;
        offset = k.offset;
        state = s';
        next_tokens = expected s';
      } in
      rw (e, go, among)
        (elim (round-Ends p l) [
          | inl (stop, closed) ↦ rw stop ((λ h. cc), λ h. absurd (h.1 closed))
          | inr (p', ends, _, fits) ↦ rw ends ((λ h. (refl, fits)), λ h. refl)
        ])
]

module _ (t : TokenType) where
  -- The loop over the longer text ends without an error exactly if that over the shorter one allows it.
  abbrev pub Continues : Progress × Option LexError → Progress × Option LexError → Type 0
  Continues shorter longer =
      shorter.1 ≡ none
      → (longer.1 ≡ none)
        ↔ ((includes shorter.0.next_possible_tokens t ≡ true) × CanClose shorter.0 t)

  proceed-Continues :
      (p : Progress) (o : Option Progress) (k k' : Progress → Progress × Option LexError)
      → ((p' : Progress) → o ≡ some p' → Continues (k p') (k' p'))
      → Continues (proceed p o k) (proceed p o k')
  proceed-Continues p none k k' f h = cc
  proceed-Continues p (some p') k k' f h = f p' refl h

  round-next :
      (p : Progress) (l : Lexeme) {p' : Progress}
      → round p l ≡ some p'
      → p'.next_possible_tokens ≡ l.next_tokens
  unfolding round
  round-next p l e = ground arith

  advance-Continues :
      (p : Progress) (s : State) (k : Token) (o : Option (TokenType × State))
      (shorter longer : State → Lexed)
      → ((p' : Progress) (s' : State)
          → p'.next_possible_tokens ≡ expected s'
          → Continues (loop p' (shorter s')) (loop p' (longer s')))
      → Continues (loop p (advance k o shorter s)) (loop p (advance k o longer s))
  unfolding rounds
  advance-Continues p s k none shorter longer f h = cc
  advance-Continues p s k (some (u, s')) shorter longer f h =
      proceed-Continues p _ (λ p'. loop p' (shorter s')) (λ p'. loop p' (longer s'))
        (λ p' e. f p' s' (round-next p _ e)) h

  lex_from-Continues :
      (p : Progress) (s : State) (ks : List Token) (k : Token)
      → k.type ≡ some t
      → p.next_possible_tokens ≡ expected s
      → Continues (loop p (lex_from s ks none)) (loop p (lex_from s (ks ++ k ∷ []) none))
  unfolding lex_from rounds
  lex_from-Continues p s [] k e n h =
      subst
        (λ types.
          ((loop p (lex_from s (k ∷ []) none)).1 ≡ none)
          ↔ ((includes types t ≡ true) × CanClose p t))
        (sym n) (loop-one p s k t e)
  lex_from-Continues p s (k' ∷ ks) k e n h =
      advance-Continues p s k' (step s k'.type) (λ s'. lex_from s' ks none)
        (λ s'. lex_from s' (ks ++ k ∷ []) none) (λ p' s' n'. lex_from-Continues p' s' ks k e n') h

  pub lex_main-Continues :
      (k' : Token) (ks : List Token) (k : Token)
      → k.type ≡ some t
      → Continues
          (loop start (lex_from main (k' ∷ ks) none))
          (loop start (lex_from main (k' ∷ ks ++ k ∷ []) none))
  unfolding lex_from
  lex_main-Continues k' ks k e h =
      advance-Continues start main k' (step main k'.type) (λ s'. lex_from s' ks none)
        (λ s'. lex_from s' (ks ++ k ∷ []) none) (λ p' s' n'. lex_from-Continues p' s' ks k e n') h
