-- ===== src/Query/Last.antt =====
-- The last annotation of a query, and what it says of `nextPossibleTokens`.
use mwdb_core.Common.{
  ℕ, ◌≡◌, refl, sym, ◌∙◌, ap, subst, Bool, true, false, length, Option, none, some, List, [], ◌∷◌,
  ◌++◌, arith, All,
}
use mathlib.Core.Option.{some-injective}
use mwdb_core.Common.Text.{Text}
use mwdb_core.Query.Lexer.{
  TokenType, expr_fieldsep, State, main, fieldsep, fieldname, value_start, value, value_end,
  after_boolop, range_start, range_to, range_end, range_fin, phrase_unfin, Token, Lexeme, LexError,
  Lexed, Scan, type_eq, lookup_type, allowed_states, next_state, expected, step, advance, lex_from,
  lex_query,
}
use mwdb_core.Query.Annotate.{
  AnnotationType, token, QueryAnnotation, Progress, annotation, mark, mark_last, push, close, round,
  rounds, proceed, start, finish, error_annotation, first_expected, annotate_query,
}
use mwdb_core.Query.Annotate.Brackets.{
  Bracket, opens, closes, neither, bracket, round_as, round-bracket,
}

-- The type of the last annotation, or `d`.
abbrev pub last_type : Option AnnotationType → List QueryAnnotation → Option AnnotationType
last_type d [] = d
last_type d (a ∷ as') = last_type (some a.type) as'

last_type-snoc :
    (d : Option AnnotationType) (as' : List QueryAnnotation) (a : QueryAnnotation)
    → last_type d (as' ++ a ∷ []) ≡ some a.type
last_type-snoc d [] a = refl
last_type-snoc d (b ∷ as') a = last_type-snoc (some b.type) as' a

next_state-fieldsep :
    (s : State) {s' : State} → next_state s expr_fieldsep ≡ some s' → s' ≡ fieldname
unfolding next_state lookup_type allowed_states type_eq
next_state-fieldsep main h = cc
next_state-fieldsep fieldsep h = cc
next_state-fieldsep fieldname h = cc
next_state-fieldsep value_start h = cc
next_state-fieldsep value h = cc
next_state-fieldsep value_end h = cc
next_state-fieldsep after_boolop h = cc
next_state-fieldsep range_start h = cc
next_state-fieldsep range_to h = cc
next_state-fieldsep range_end h = cc
next_state-fieldsep range_fin h = cc
next_state-fieldsep phrase_unfin h = cc

step-fieldsep :
    (s : State) (o : Option TokenType) {t : TokenType} {s' : State}
    → step s o ≡ some (t, s')
    → t ≡ expr_fieldsep
    → s' ≡ fieldname
unfolding step
step-fieldsep s none h e = cc
step-fieldsep s (some u) {t} {s'} h e = ground (arith, next_state-fieldsep s {s' = s'})

-- After a field separator a field name is expected.
abbrev Honest : Lexeme → Type 0
Honest l = l.type ≡ expr_fieldsep → l.next_tokens ≡ expected fieldname

All-advance :
    (s : State) (k : Token) (o : Option (TokenType × State)) (rest : State → Lexed)
    → ((t : TokenType) (s' : State) → o ≡ some (t, s') → t ≡ expr_fieldsep → s' ≡ fieldname)
    → ((s' : State) → All Honest (rest s').lexemes)
    → All Honest (advance k o rest s).lexemes
All-advance s k none rest f h = tt
All-advance s k (some (t, s')) rest f h = ((λ e. ap expected (f t s' refl e)), h s')

lex_from-Honest :
    (s : State) (ks : List Token) (failure : Option Text)
    → All Honest (lex_from s ks failure).lexemes
unfolding lex_from
lex_from-Honest s [] none = tt
lex_from-Honest s [] (some m) = tt
lex_from-Honest s (k ∷ ks) failure =
    All-advance s k (step s k.type) _ (λ t s' h e. step-fieldsep s k.type h e)
      λ s'. lex_from-Honest s' ks failure

-- What a completed round leaves at the end of the annotations, and as the next tokens.
abbrev Ends : Progress → Lexeme → Type 0
Ends p l =
    (last_type none p.annotations ≡ some (token l.type)) × (p.next_possible_tokens ≡ l.next_tokens)

push-Ends :
    (p : Progress) (l : Lexeme) (as' : List QueryAnnotation) (opened : List ℕ) (flag : Option Bool)
    {p' : Progress}
    → some (push p l as' opened flag) ≡ some p'
    → Ends p' l
push-Ends p l as' opened flag h =
    subst (λ q. Ends q l) (some-injective _ _ h) (last_type-snoc none as' (annotation l flag), refl)

close-Ends :
    (p : Progress) (l : Lexeme) (opened : List ℕ) {p' : Progress}
    → close p l opened ≡ some p'
    → Ends p' l
close-Ends p l [] h = cc
close-Ends p l (i ∷ opened) h =
    push-Ends p l (mark_last (mark p.annotations i false) opened true) opened none h

round_as-Ends :
    (b : Bracket) (p : Progress) (l : Lexeme) {p' : Progress} → round_as b p l ≡ some p' → Ends p' l
round_as-Ends opens p l h =
    push-Ends p l (mark_last p.annotations p.opened false) (length p.annotations ∷ p.opened)
      (some true) h
round_as-Ends closes p l h = close-Ends p l p.opened h
round_as-Ends neither p l h = push-Ends p l p.annotations p.opened none h

abbrev pub FieldAfterSep : List QueryAnnotation → List TokenType → Type 0
FieldAfterSep as' tokens =
    last_type none as' ≡ some (token expr_fieldsep) → tokens ≡ expected fieldname

round-FieldAfterSep :
    (p : Progress) (l : Lexeme) {p' : Progress}
    → Honest l
    → round p l ≡ some p'
    → FieldAfterSep p'.annotations p'.next_possible_tokens
round-FieldAfterSep p l hl h e =
    let (t, n) = round_as-Ends (bracket l.type) p l (sym (round-bracket p l) ∙ h) in n ∙ hl (cc)

module _ (P : Progress → Type 0) where
  proceed-induction :
      (p : Progress) (o : Option Progress) (k : Progress → Progress × Option LexError)
      → P p
      → ((p' : Progress) → o ≡ some p' → P (k p').0)
      → P (proceed p o k).0
  proceed-induction p none k v h = v
  proceed-induction p (some p') k v h = h p' refl

rounds-FieldAfterSep :
    (p : Progress) (ls : List Lexeme) (e : Option LexError)
    → All Honest ls
    → FieldAfterSep p.annotations p.next_possible_tokens
    → FieldAfterSep (rounds p ls e).0.annotations (rounds p ls e).0.next_possible_tokens
unfolding rounds
rounds-FieldAfterSep p [] e hs v = v
rounds-FieldAfterSep p (l ∷ ls) e (hl, hs) v =
    proceed-induction (λ q. FieldAfterSep q.annotations q.next_possible_tokens) p (round p l) _ v
      λ p' h. rounds-FieldAfterSep p' ls e hs (round-FieldAfterSep p l hl h)

finish-FieldAfterSep :
    (query : Text) (p : Progress) (e : Option LexError)
    → FieldAfterSep p.annotations p.next_possible_tokens
    → FieldAfterSep (finish query (p, e)).annotations (finish query (p, e)).next_possible_tokens
finish-FieldAfterSep query p none v h = v h
finish-FieldAfterSep query p (some e) v h =
    cc (last_type-snoc none p.annotations (error_annotation query p e))

first_expected-FieldAfterSep :
    (ls : List Lexeme) (e : Option LexError)
    → FieldAfterSep (first_expected ls e).0.annotations (first_expected ls e).0.next_possible_tokens
first_expected-FieldAfterSep (l ∷ _) e h = cc
first_expected-FieldAfterSep [] none h = cc
first_expected-FieldAfterSep [] (some e) h = cc

-- If the last annotation of a query is a field separator, then a field name is expected.
pub annotate_query-FieldAfterSep :
    (moo : Text → Scan) (query : Text)
    → FieldAfterSep
        (annotate_query moo query).annotations
        (annotate_query moo query).next_possible_tokens
unfolding annotate_query lex_query
annotate_query-FieldAfterSep moo [] =
    let lexed = lex_query moo (32 ∷ []) in
    let end = first_expected lexed.lexemes lexed.error in
    finish-FieldAfterSep [] end.0 end.1 (first_expected-FieldAfterSep lexed.lexemes lexed.error)
annotate_query-FieldAfterSep moo (c ∷ cs) =
    let lexed = lex_query moo (c ∷ cs) in
    let end = rounds start lexed.lexemes lexed.error in
    finish-FieldAfterSep (c ∷ cs) end.0 end.1 (
      rounds-FieldAfterSep start lexed.lexemes lexed.error
        (lex_from-Honest main (moo (c ∷ cs)).tokens (moo (c ∷ cs)).failure) λ h. cc)
