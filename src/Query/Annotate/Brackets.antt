-- ===== src/Query/Annotate/Brackets.antt =====
-- An account of brackets that does not mention the loop of `annotateQuery`: what each annotation
-- does to the nesting depth, and how deep each opening bracket is buried at the end.
use mwdb_core.Common.{
  ℕ, zero, suc, ◌≡◌, refl, Bool, true, false, Option, none, some, List, [], ◌∷◌, ◌++◌, map, arith,
  length,
}
use mwdb_core.Query.Lexer.{
  TokenType, expr_lpar, value_lpar, value_lrange, expr_rpar, range_rrange, Lexeme, type_eq,
  lpar_types, rpar_types, includes,
}
use mwdb_core.Query.Annotate.{AnnotationType, token, error, Progress, mark_last, push, close, round}

pub data Bracket : Type 0 where
  opens closes neither : Bracket

abbrev pub bracket : TokenType → Bracket
bracket expr_lpar = opens
bracket value_lpar = opens
bracket value_lrange = opens
bracket expr_rpar = closes
bracket range_rrange = closes
bracket _ = neither

abbrev pub kind : AnnotationType → Bracket
kind (token t) = bracket t
kind error = neither

-- The nesting depth after one more bracket; `none` once it has fallen below where it began.
abbrev pub bump : Bracket → Option ℕ → Option ℕ
bump opens none = none
bump opens (some d) = some (suc d)
bump closes none = none
bump closes (some zero) = none
bump closes (some (suc d)) = some d
bump neither d = d

-- The depth after a list of brackets.
abbrev pub depth : Option ℕ → List Bracket → Option ℕ
depth d [] = d
depth d (b ∷ bs) = depth (bump b d) bs

-- How many brackets that stand behind it are still open; `none` if it is closed or opens nothing.
abbrev pub level : Bracket → List Bracket → Option ℕ
level opens bs = depth (some 0) bs
level _ bs = none

abbrev pub levels : List Bracket → List (Option ℕ)
levels [] = []
levels (b ∷ bs) = level b bs ∷ levels bs

abbrev pub is_innermost : Option ℕ → Bool
is_innermost (some zero) = true
is_innermost _ = false

-- The flag of an annotation at this level.
abbrev pub flag_of : Bracket → Option ℕ → Option Bool
flag_of opens d = some (is_innermost d)
flag_of _ d = none

includes-lpar_types :
    (t : TokenType) → includes lpar_types t ≡ elim (bracket t) [ opens ↦ true | _ ↦ false ]
unfolding includes type_eq
includes-lpar_types expr_lpar = refl
includes-lpar_types _ = refl

includes-rpar_types :
    (t : TokenType) → includes rpar_types t ≡ elim (bracket t) [ closes ↦ true | _ ↦ false ]
unfolding includes type_eq
includes-rpar_types expr_lpar = refl
includes-rpar_types _ = refl

-- One round, by what its token does to the brackets.
abbrev pub round_as : Bracket → Progress → Lexeme → Option Progress
round_as opens p l = some (
    push p l (mark_last p.annotations p.opened false) (length p.annotations ∷ p.opened) (some true))
round_as closes p l = close p l p.opened
round_as neither p l = some (push p l p.annotations p.opened none)

pub round-bracket : (p : Progress) (l : Lexeme) → round p l ≡ round_as (bracket l.type) p l
unfolding round
round-bracket p l = rw (includes-lpar_types l.type, includes-rpar_types l.type) (ground arith)

pub depth-snoc :
    (d : Option ℕ) (bs : List Bracket) (b : Bracket) → depth d (bs ++ b ∷ []) ≡ bump b (depth d bs)
depth-snoc d [] b = refl
depth-snoc d (c ∷ bs) b = depth-snoc (bump c d) bs b

pub level-snoc :
    (c : Bracket) (bs : List Bracket) (b : Bracket) → level c (bs ++ b ∷ []) ≡ bump b (level c bs)
level-snoc opens bs b = depth-snoc (some 0) bs b
level-snoc closes bs opens = refl
level-snoc closes bs closes = refl
level-snoc closes bs neither = refl
level-snoc neither bs opens = refl
level-snoc neither bs closes = refl
level-snoc neither bs neither = refl

pub levels-snoc :
    (bs : List Bracket) (b : Bracket)
    → levels (bs ++ b ∷ []) ≡ map (bump b) (levels bs) ++ level b [] ∷ []
levels-snoc [] b = refl
levels-snoc (c ∷ bs) b = rw (level-snoc c bs b, levels-snoc bs b)
