-- ===== src/Query/Annotate/Flags.antt =====
-- The flag `lastOpenedBracket`: it is set on the innermost bracket that is open, and on no other.
use mwdb_core.Common.{
  ℕ, zero, suc, ◌≡◌, refl, Bool, true, false, Option, none, some, List, [], ◌∷◌, ◌++◌, arith,
  length, get_elem?, drop, subst, sym, ◌∙◌,
}
use mathlib.Core.Option.{some-injective}
use mwdb_core.Common.Text.{Text}
use mwdb_core.Query.Lexer.{TokenType, Lexeme, LexError, Scan, lex_query}
use mwdb_core.Query.Annotate.{
  QueryAnnotation, Progress, mark, mark_last, annotation, close, proceed, round, rounds, start,
  finish, first_expected, annotate_query,
}
use mwdb_core.Query.Annotate.Brackets.{
  Bracket, opens, closes, neither, bracket, kind, bump, level, flag_of, round-bracket, round_as,
}
use mwdb_core.Query.Annotate.Positions.{
  kinds, kind_at, flag_at, level_at, kind_at-mark, flag_at-mark, level_at-mark, length-mark,
  kind_at-snoc, flag_at-snoc, level_at-snoc, level_at-opens, get_elem?-at,
}

-- The stack holds the open brackets in the order of their levels.
record Stacked (as' : List QueryAnnotation) (opened : List ℕ) : Type 0 where
  stacked : (j k : ℕ) → level_at as' j ≡ some k → get_elem? opened k ≡ some j
  levelled : (j k : ℕ) → get_elem? opened k ≡ some j → level_at as' j ≡ some k

Stacked-mark :
    (as' : List QueryAnnotation) (i : ℕ) (b : Bool) {opened : List ℕ}
    → Stacked as' opened
    → Stacked (mark as' i b) opened
Stacked-mark as' i b v = record {
  stacked = λ j k h. ground (arith, level_at-mark as' i b j, v.stacked j k);
  levelled = λ j k h. ground (arith, level_at-mark as' i b j, v.levelled j k);
}

Stacked-mark_last :
    (as' : List QueryAnnotation) (marked : List ℕ) (b : Bool) {opened : List ℕ}
    → Stacked as' opened
    → Stacked (mark_last as' marked b) opened
Stacked-mark_last as' [] b v = v
Stacked-mark_last as' (i ∷ marked) b v = Stacked-mark as' i b v

length-mark_last :
    (as' : List QueryAnnotation) (marked : List ℕ) (b : Bool)
    → length (mark_last as' marked b) ≡ length as'
length-mark_last as' [] b = refl
length-mark_last as' (i ∷ marked) b = length-mark as' i b

module _ (as' : List QueryAnnotation) (x : QueryAnnotation) where
  Stacked-neither :
      (opened : List ℕ)
      → Stacked as' opened
      → kind x.type ≡ neither
      → Stacked (as' ++ x ∷ []) opened
  Stacked-neither opened v e = record {
    stacked = λ j k h. ground (arith, level_at-snoc as' x j, v.stacked j k);
    levelled = λ j k h.
        ground (arith, level_at-snoc as' x j, v.levelled j k, level_at-opens as' j {k = k});
  }

  Stacked-closes :
      (i : ℕ) (opened : List ℕ)
      → Stacked as' (i ∷ opened)
      → kind x.type ≡ closes
      → Stacked (as' ++ x ∷ []) opened
  Stacked-closes i opened v e = record {
    stacked = λ j k h. ground (arith, level_at-snoc as' x j, v.stacked j (suc k));
    levelled = λ j k h.
        ground
          (arith, level_at-snoc as' x j, v.levelled j (suc k), level_at-opens as' j {k = suc k});
  }

  push_at_top :
      (opened : List ℕ)
      → Stacked as' opened
      → kind x.type ≡ opens
      → (j k : ℕ) → level_at (as' ++ x ∷ []) j ≡ some k
      → get_elem? (length as' ∷ opened) k ≡ some j
  push_at_top opened v e j zero h = ground (arith, level_at-snoc as' x j)
  push_at_top opened v e j (suc k) h = ground (arith, level_at-snoc as' x j, v.stacked j k)

  push_levelled :
      (opened : List ℕ)
      → Stacked as' opened
      → kind x.type ≡ opens
      → (j k : ℕ) → get_elem? (length as' ∷ opened) k ≡ some j
      → level_at (as' ++ x ∷ []) j ≡ some k
  push_levelled opened v e j zero h = ground (arith, level_at-snoc as' x j)
  push_levelled opened v e j (suc k) h =
      ground (arith, level_at-snoc as' x j, v.levelled j k, level_at-opens as' j {k = k})

  Stacked-opens :
      (opened : List ℕ)
      → Stacked as' opened
      → kind x.type ≡ opens
      → Stacked (as' ++ x ∷ []) (length as' ∷ opened)
  Stacked-opens opened v e = record {
    stacked = push_at_top opened v e;
    levelled = push_levelled opened v e;
  }

-- Every flag is the one that its level will ask for after one more bracket.
abbrev Flagged : Bracket → List QueryAnnotation → Type 0
Flagged b as' = (j : ℕ) → flag_at as' j ≡ flag_of (kind_at as' j) (bump b (level_at as' j))

Flagged-snoc :
    (as' : List QueryAnnotation) (x : QueryAnnotation)
    → Flagged (kind x.type) as'
    → x.last_opened_bracket ≡ flag_of (kind x.type) (level (kind x.type) [])
    → Flagged neither (as' ++ x ∷ [])
Flagged-snoc as' x v f j =
    ground (arith, flag_at-snoc as' x j, kind_at-snoc as' x j, level_at-snoc as' x j, v j)

ruleset at_mark = (flag_at-mark, kind_at-mark, level_at-mark, length-mark)

Flagged-opens :
    (as' : List QueryAnnotation) (opened : List ℕ)
    → Stacked as' opened
    → Flagged neither as'
    → Flagged opens (mark_last as' opened false)
Flagged-opens as' [] s v j = ground (arith, v j, s.stacked j 0)
Flagged-opens as' (i ∷ opened) s v j =
    simp at_mark (ground (arith, v j, s.stacked j 0, s.levelled i 0, level_at-opens as' i {k = 0}))

Flagged-closes :
    (as' : List QueryAnnotation) (i : ℕ) (opened : List ℕ)
    → Stacked as' (i ∷ opened)
    → Flagged neither as'
    → Flagged closes (mark_last (mark as' i false) opened true)
Flagged-closes as' i [] s v j = simp at_mark (
    ground (arith, v j, s.stacked j 0, s.stacked j 1, s.levelled i 0, level_at-opens as' i {k = 0}))
Flagged-closes as' i (m ∷ opened) s v j = simp at_mark (
    ground (
      arith,
      v j,
      s.stacked j 0,
      s.stacked j 1,
      s.levelled i 0,
      level_at-opens as' i {k = 0},
      s.levelled m 1,
      level_at-opens as' m {k = 1},
    ))

-- The invariant of the loop.
record Inv (p : Progress) : Type 0 where
  stack : Stacked p.annotations p.opened
  flags : Flagged neither p.annotations

close-Inv :
    (p : Progress) (l : Lexeme) (opened : List ℕ) {p' : Progress}
    → Stacked p.annotations opened
    → Flagged neither p.annotations
    → bracket l.type ≡ closes
    → close p l opened ≡ some p'
    → Inv p'
close-Inv p l [] s v k e = cc
close-Inv p l (i ∷ opened) {p'} s v k e = subst Inv (some-injective _ _ e) (record {
  stack =
      Stacked-closes _ (annotation l none) i opened
        (Stacked-mark_last _ opened true (Stacked-mark _ i false s)) k;
  flags = Flagged-snoc _ (annotation l none) (rw k (Flagged-closes _ i opened s v)) (rw k);
})

round_as-Inv :
    (b : Bracket) (p : Progress) (l : Lexeme) {p' : Progress}
    → Inv p
    → bracket l.type ≡ b
    → round_as b p l ≡ some p'
    → Inv p'
round_as-Inv opens p l v k e = subst Inv (some-injective _ _ e) (record {
  stack =
      subst
        (λ n.
          Stacked (mark_last p.annotations p.opened false ++ annotation l (some true) ∷ [])
            (n ∷ p.opened))
        (length-mark_last p.annotations p.opened false)
        (Stacked-opens _ (annotation l (some true)) p.opened
          (Stacked-mark_last _ p.opened false v.stack) k);
  flags =
      Flagged-snoc _ (annotation l (some true))
        (rw k (Flagged-opens p.annotations p.opened v.stack v.flags)) (rw k);
})
round_as-Inv closes p l v k e = close-Inv p l p.opened v.stack v.flags k e
round_as-Inv neither p l v k e = subst Inv (some-injective _ _ e) (record {
  stack = Stacked-neither _ (annotation l none) p.opened v.stack k;
  flags = Flagged-snoc _ (annotation l none) (rw k v.flags) (rw k);
})

proceed-Inv :
    (p : Progress) (o : Option Progress) (k : Progress → Progress × Option LexError)
    → Inv p
    → ((p' : Progress) → o ≡ some p' → Inv (k p').0)
    → Inv (proceed p o k).0
proceed-Inv p none k v h = v
proceed-Inv p (some p') k v h = h p' refl

rounds-Inv : (p : Progress) (ls : List Lexeme) (e : Option LexError) → Inv p → Inv (rounds p ls e).0
unfolding rounds
rounds-Inv p [] e v = v
rounds-Inv p (l ∷ ls) e v = proceed-Inv p (round p l) _ v λ p' h.
    rounds-Inv p' ls e (round_as-Inv (bracket l.type) p l v refl (sym (round-bracket p l) ∙ h))

start-Inv : (tokens : List TokenType) → Inv (record start { next_possible_tokens = tokens })
unfolding flag_at kind_at level_at
start-Inv tokens = record {
  stack = record { stacked = λ j k h. cc; levelled = λ j k h. cc };
  flags = λ j. refl;
}

-- The flag of every annotation is what the brackets behind it make it.
abbrev pub IsFlagged : List QueryAnnotation → Type 0
IsFlagged as' =
    (j : ℕ) (a : QueryAnnotation)
    → get_elem? as' j ≡ some a
    → a.last_opened_bracket ≡ flag_of (kind a.type) (level (kind a.type) (drop (suc j) (kinds as')))

Flagged-IsFlagged : (as' : List QueryAnnotation) → Flagged neither as' → IsFlagged as'
Flagged-IsFlagged as' v j a h = let (f, k, n) = get_elem?-at as' j h in sym f ∙ v j ∙ rw (k, n)

finish-Flagged :
    (query : Text) (p : Progress) (e : Option LexError)
    → Inv p
    → IsFlagged (finish query (p, e)).annotations
finish-Flagged query p none v = Flagged-IsFlagged _ v.flags
finish-Flagged query p (some e) v = Flagged-IsFlagged _ (Flagged-snoc p.annotations _ v.flags refl)

first_expected-Inv : (ls : List Lexeme) (e : Option LexError) → Inv (first_expected ls e).0
first_expected-Inv (l ∷ _) e = start-Inv l.next_tokens
first_expected-Inv [] none = start-Inv []
first_expected-Inv [] (some e) = start-Inv []

-- Whatever the tokenizer gives: an annotation carries the flag exactly if it is an opening bracket,
-- and the flag is true exactly if the brackets that stand behind it are balanced, that is, if it is
-- the innermost bracket that is still open.
pub annotate_query-IsFlagged :
    (moo : Text → Scan) (query : Text) → IsFlagged (annotate_query moo query).annotations
unfolding annotate_query
annotate_query-IsFlagged moo [] =
    let lexed = lex_query moo (32 ∷ []) in
    let end = first_expected lexed.lexemes lexed.error in
    finish-Flagged [] end.0 end.1 (first_expected-Inv lexed.lexemes lexed.error)
annotate_query-IsFlagged moo (c ∷ cs) =
    let lexed = lex_query moo (c ∷ cs) in
    let end = rounds start lexed.lexemes lexed.error in
    finish-Flagged (c ∷ cs) end.0 end.1 (rounds-Inv start lexed.lexemes lexed.error (start-Inv []))
