-- ===== src/Query/Annotate/Cover.antt =====
-- The annotations of a query cut it into consecutive pieces.
use mwdb_core.Common.{
  ℕ, ◌+◌, ◌≡◌, refl, sym, ap, ◌∙◌, Bool, true, false, Option, none, some, subst, List, [], ◌∷◌,
  ◌++◌, append-nil, append_assoc, arith, length, drop, zero, suc, length-append, drop-append, inl,
  inr, Bool-cases,
}
use mwdb_core.Common.Text.{Text}
use mwdb_core.Query.Lexer.{
  TokenType, LexError, State, main, Token, Lexeme, Lexed, Scan, lpar_types, rpar_types, includes,
  lex_from, lex_query, step, advance,
}
use mwdb_core.Query.Annotate.{
  QueryAnnotation, AnnotatedQuery, Progress, mark, mark_last, annotation, close, round, rounds,
  proceed, start, finish, annotate_query, first_expected,
}

-- The texts of the annotations, one after the other.
abbrev pub spelled : List QueryAnnotation → Text
spelled [] = []
spelled (a ∷ as') = a.value ++ spelled as'

-- Each annotation begins where the one before it ends; the first at `n`.
abbrev pub Placed : ℕ → List QueryAnnotation → Type 0
Placed n [] = Unit
Placed n (a ∷ as') = (a.offset ≡ n) × Placed (n + length a.value) as'

-- The documented behaviour of the tokenizer: the tokens stand one after the other in the text, each
-- with its offset, and go to the end of the text if there is no error.
abbrev pub Spells : ℕ → Text → List Token → Option Text → Type 0
Spells n rest [] none = rest ≡ []
Spells n rest [] (some message) = Unit
Spells n rest (t ∷ ts) failure =
    (t.offset ≡ n)
    × (rest ≡ t.value ++ drop (length t.value) rest)
    × Spells (n + length t.value) (drop (length t.value) rest) ts failure

-- The same for the yields of `lexQuery`.
abbrev LexSpells : ℕ → Text → List Lexeme → Option LexError → Type 0
LexSpells n rest [] none = rest ≡ []
LexSpells n rest [] (some e) = Unit
LexSpells n rest (l ∷ ls) e =
    (l.offset ≡ n)
    × (rest ≡ l.value ++ drop (length l.value) rest)
    × LexSpells (n + length l.value) (drop (length l.value) rest) ls e

LexSpells-advance :
    (s : State) (n : ℕ) (rest : Text) (t : Token) (o : Option (TokenType × State))
    (k : State → Lexed)
    → t.offset ≡ n
    → rest ≡ t.value ++ drop (length t.value) rest
    → ((s' : State)
        → LexSpells (n + length t.value) (drop (length t.value) rest) (k s').lexemes (k s').error)
    → LexSpells n rest (advance t o k s).lexemes (advance t o k s).error
LexSpells-advance s n rest t none k o v h = tt
LexSpells-advance s n rest t (some (u, s')) k o v h = (o, v, h s')

lex_from-LexSpells :
    (s : State) (n : ℕ) (rest : Text) (ts : List Token) (failure : Option Text)
    → Spells n rest ts failure
    → LexSpells n rest (lex_from s ts failure).lexemes (lex_from s ts failure).error
unfolding lex_from
lex_from-LexSpells s n rest [] none h = h
lex_from-LexSpells s n rest [] (some m) h = tt
lex_from-LexSpells s n rest (t ∷ ts) failure (o, v, h) =
    LexSpells-advance s n rest t (step s t.type) _ o v
      λ s'. lex_from-LexSpells s' (n + length t.value) (drop (length t.value) rest) ts failure h

spelled-mark :
    (as' : List QueryAnnotation) (i : ℕ) (b : Bool) → spelled (mark as' i b) ≡ spelled as'
unfolding mark
spelled-mark [] i b = refl
spelled-mark (a ∷ as') zero b = refl
spelled-mark (a ∷ as') (suc i) b = rw (spelled-mark as' i b)

Placed-mark :
    (n : ℕ) (as' : List QueryAnnotation) (i : ℕ) (b : Bool) → Placed n as' → Placed n (mark as' i b)
unfolding mark
Placed-mark n [] i b h = tt
Placed-mark n (a ∷ as') zero b h = h
Placed-mark n (a ∷ as') (suc i) b (o, h) = (o, Placed-mark (n + length a.value) as' i b h)

spelled-append : (as' bs : List QueryAnnotation) → spelled (as' ++ bs) ≡ spelled as' ++ spelled bs
spelled-append [] bs = refl
spelled-append (a ∷ as') bs = simp (spelled-append as' bs, append_assoc)

Placed-append :
    (n : ℕ) (as' : List QueryAnnotation) (a : QueryAnnotation)
    → Placed n as'
    → a.offset ≡ n + length (spelled as')
    → Placed n (as' ++ a ∷ [])
Placed-append n [] a h e = (omega arith, tt)
Placed-append n (b ∷ as') a (o, h) e = (
  o,
  Placed-append (n + length b.value) as' a h (omega (arith, length-append b.value (spelled as'))),
)

-- What the annotations so far and the text that is left have to do with the query.
record Covered (query : Text) (as' : List QueryAnnotation) (n : ℕ) (rest : Text) : Type 0 where
  all_spelled : query ≡ spelled as' ++ rest
  length_spelled : n ≡ length (spelled as')
  all_placed : Placed 0 as'

Covered-mark :
    {query rest : Text} {n : ℕ} (as' : List QueryAnnotation) (i : ℕ) (b : Bool)
    → Covered query as' n rest
    → Covered query (mark as' i b) n rest
Covered-mark as' i b c = record {
  all_spelled = rw spelled-mark c.all_spelled;
  length_spelled = rw spelled-mark c.length_spelled;
  all_placed = Placed-mark 0 as' i b c.all_placed;
}

Covered-mark_last :
    {query rest : Text} {n : ℕ} (as' : List QueryAnnotation) (opened : List ℕ) (b : Bool)
    → Covered query as' n rest
    → Covered query (mark_last as' opened b) n rest
Covered-mark_last as' [] b c = c
Covered-mark_last as' (i ∷ opened) b c = Covered-mark as' i b c

Covered-snoc :
    {query rest : Text} {n : ℕ} (as' : List QueryAnnotation) (a : QueryAnnotation)
    → Covered query as' n rest
    → a.offset ≡ n
    → rest ≡ a.value ++ drop (length a.value) rest
    → Covered query (as' ++ a ∷ []) (a.offset + length a.value) (drop (length a.value) rest)
Covered-snoc {rest} as' a c o v = record {
  all_spelled =
      c.all_spelled
      ∙ ap (λ r. spelled as' ++ r) v
      ∙ simp (spelled-append as' (a ∷ []), append_assoc, append-nil);
  length_spelled = rw spelled-append (
      omega (
        arith,
        c.length_spelled,
        length-append (spelled as') (a.value ++ []),
        length-append a.value [],
      ));
  all_placed = Placed-append 0 as' a c.all_placed (omega (arith, c.length_spelled));
}

round-Covered :
    {query rest : Text} (p : Progress) (l : Lexeme) {p' : Progress}
    → Covered query p.annotations p.next_offset rest
    → l.offset ≡ p.next_offset
    → rest ≡ l.value ++ drop (length l.value) rest
    → round p l ≡ some p'
    → Covered query p'.annotations p'.next_offset (drop (length l.value) rest)
unfolding round
round-Covered {query} {rest} p l c o v e = elim (Bool-cases (includes lpar_types l.type)) [
  | inl lpar ↦
      arrive (rw lpar at e)
        (Covered-snoc _ (annotation l (some true)) (Covered-mark_last _ p.opened false c) o v)
  | inr other ↦ elim (Bool-cases (includes rpar_types l.type)) [
    | inl rpar ↦ closing p.opened (rw (other, rpar) at e)
    | inr plain ↦ arrive (rw (other, plain) at e) (Covered-snoc _ (annotation l none) c o v)
  ]
]
  where
    arrive :
        {q p' : Progress}
        → some q ≡ some p'
        → Covered query q.annotations q.next_offset (drop (length l.value) rest)
        → Covered query p'.annotations p'.next_offset (drop (length l.value) rest)
    arrive {q} {p'} h k =
        let same : q ≡ p' = cc in
        subst
          (λ (r : Progress). Covered query r.annotations r.next_offset (drop (length l.value) rest))
          same k

    closing :
        (opened : List ℕ) {p' : Progress}
        → close p l opened ≡ some p'
        → Covered query p'.annotations p'.next_offset (drop (length l.value) rest)
    closing [] h = cc
    closing (i ∷ opened) h = arrive h (
        Covered-snoc _ (annotation l none)
          (Covered-mark_last _ opened true (Covered-mark _ i false c)) o v)

-- What holds of the loop's end.
abbrev EndsCovered : Text → Progress × Option LexError → Type 0
EndsCovered query (p, none) = Covered query p.annotations p.next_offset []
EndsCovered query (p, some e) = (rest : Text) × Covered query p.annotations p.next_offset rest

EndsCovered-proceed :
    {query rest : Text} (p : Progress) (o : Option Progress)
    (k : Progress → Progress × Option LexError)
    → Covered query p.annotations p.next_offset rest
    → ((p' : Progress) → o ≡ some p' → EndsCovered query (k p'))
    → EndsCovered query (proceed p o k)
EndsCovered-proceed {rest} p none k c h = (rest, c)
EndsCovered-proceed p (some p') k c h = h p' refl

round-next_offset :
    (p : Progress) (l : Lexeme) {p' : Progress}
    → l.offset ≡ p.next_offset
    → round p l ≡ some p'
    → p'.next_offset ≡ p.next_offset + length l.value
unfolding round
round-next_offset p l o e = ground arith

rounds-EndsCovered :
    {query rest : Text} (p : Progress) (ls : List Lexeme) (e : Option LexError)
    → Covered query p.annotations p.next_offset rest
    → LexSpells p.next_offset rest ls e
    → EndsCovered query (rounds p ls e)
unfolding rounds
rounds-EndsCovered p [] none c h = rw h at c
rounds-EndsCovered {rest} p [] (some e) c h = (rest, c)
rounds-EndsCovered {rest} p (l ∷ ls) e c (o, v, h) = EndsCovered-proceed p (round p l) _ c λ p' go.
    rounds-EndsCovered p' ls e (round-Covered p l c o v go) (
      subst (λ n. LexSpells n (drop (length l.value) rest) ls e) (sym (round-next_offset p l o go))
        h)

-- The annotations of a result spell the query, without gap or overlap.
pub record IsPartition (query : Text) (r : AnnotatedQuery) : Type 0 where
  pub spells : spelled r.annotations ≡ query
  pub placed : Placed 0 r.annotations

finish-IsPartition :
    (query : Text) (end : Progress × Option LexError)
    → EndsCovered query end
    → IsPartition query (finish query end)
finish-IsPartition query (p, none) c = record {
  spells = sym (c.all_spelled ∙ append-nil (spelled p.annotations));
  placed = c.all_placed;
}
finish-IsPartition query (p, some e) (rest, c) = record {
  spells = rw spelled-append (
      simp append-nil (
        ap (λ r. spelled p.annotations ++ r)
          (ap (λ q. drop p.next_offset q) c.all_spelled
            ∙ rw (c.length_spelled) (drop-append (spelled p.annotations) rest))
        ∙ sym c.all_spelled));
  placed = Placed-append 0 p.annotations _ c.all_placed (omega (arith, c.length_spelled));
}

start-Covered : (query : Text) → Covered query [] 0 query
start-Covered query = record { all_spelled = refl; length_spelled = refl; all_placed = tt }

first_expected-EndsCovered :
    (ls : List Lexeme) (e : Option LexError) → EndsCovered [] (first_expected ls e)
first_expected-EndsCovered (l ∷ _) e = start-Covered []
first_expected-EndsCovered [] none = ([], start-Covered [])
first_expected-EndsCovered [] (some e) = ([], start-Covered [])

-- If the tokenizer cuts the query as it documents, then the texts of the annotations, an annotation
-- of an error included, spell the query, and each annotation's offset is the place where it stands.
pub annotate_query-IsPartition :
    (moo : Text → Scan) (query : Text)
    → Spells 0 query (moo query).tokens (moo query).failure
    → IsPartition query (annotate_query moo query)
unfolding annotate_query lex_query
annotate_query-IsPartition moo [] h =
    let lexed = lex_query moo (32 ∷ []) in
    finish-IsPartition [] (first_expected lexed.lexemes lexed.error)
      (first_expected-EndsCovered lexed.lexemes lexed.error)
annotate_query-IsPartition moo (c ∷ cs) h =
    let lexed = lex_query moo (c ∷ cs) in
    finish-IsPartition (c ∷ cs) (rounds start lexed.lexemes lexed.error) (
      rounds-EndsCovered start lexed.lexemes lexed.error (start-Covered (c ∷ cs))
        (lex_from-LexSpells main 0 (c ∷ cs) (moo (c ∷ cs)).tokens (moo (c ∷ cs)).failure h))
