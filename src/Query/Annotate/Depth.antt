-- ===== src/Query/Annotate/Depth.antt =====
-- What the loop of `annotateQuery` keeps: `openedParentheses` is as long as the nesting depth, and no
-- annotation of an error is made before the loop ends.
use mwdb_core.Common.{
  ℕ, zero, suc, ◌≡◌, refl, Bool, true, false, Option, none, some, List, [], ◌∷◌, ◌++◌, arith,
  length, ◌||◌, sym, ◌∙◌, subst, ap,
}
use mathlib.Core.Option.{some-injective}
use mwdb_core.Query.Lexer.{Lexeme, LexError}
use mwdb_core.Query.Annotate.{
  QueryAnnotation, AnnotationType, token, error, Progress, mark, mark_last, annotation, close,
  proceed, round, rounds,
}
use mwdb_core.Query.Annotate.Brackets.{
  Bracket, opens, closes, neither, bracket, bump, depth, depth-snoc, round-bracket, round_as,
}
use mwdb_core.Query.Annotate.Positions.{kinds, kinds-mark, kinds-snoc}

abbrev pub is_error : AnnotationType → Bool
is_error (token t) = false
is_error error = true

-- Whether there is an annotation of an error.
abbrev pub has_error : List QueryAnnotation → Bool
has_error [] = false
has_error (a ∷ as') = is_error a.type || has_error as'

pub has_error-snoc :
    (as' : List QueryAnnotation) (a : QueryAnnotation)
    → has_error (as' ++ a ∷ []) ≡ (has_error as' || is_error a.type)
has_error-snoc [] a = ground arith
has_error-snoc (b ∷ as') a = ground (arith, has_error-snoc as' a)

-- A list of annotations of this depth without an error.
pub record IsDeep (as' : List QueryAnnotation) (d : ℕ) : Type 0 where
  pub deep : depth (some 0) (kinds as') ≡ some d
  pub sound : has_error as' ≡ false

has_error-mark :
    (as' : List QueryAnnotation) (i : ℕ) (b : Bool) → has_error (mark as' i b) ≡ has_error as'
unfolding mark
has_error-mark [] i b = refl
has_error-mark (a ∷ as') zero b = refl
has_error-mark (a ∷ as') (suc i) b = ap (λ e. is_error a.type || e) (has_error-mark as' i b)

IsDeep-mark :
    {as' : List QueryAnnotation} {d : ℕ} (i : ℕ) (b : Bool) → IsDeep as' d → IsDeep (mark as' i b) d
IsDeep-mark {as'} i b v = record {
  deep = ap (depth (some 0)) (kinds-mark as' i b) ∙ v.deep;
  sound = has_error-mark as' i b ∙ v.sound;
}

IsDeep-mark_last :
    {as' : List QueryAnnotation} {d : ℕ} (opened : List ℕ) (b : Bool)
    → IsDeep as' d
    → IsDeep (mark_last as' opened b) d
IsDeep-mark_last [] b v = v
IsDeep-mark_last (i ∷ opened) b v = IsDeep-mark i b v

IsDeep-snoc :
    {as' : List QueryAnnotation} {d d' : ℕ} (l : Lexeme) (flag : Option Bool)
    → IsDeep as' d
    → bump (bracket l.type) (some d) ≡ some d'
    → IsDeep (as' ++ annotation l flag ∷ []) d'
IsDeep-snoc {as'} l flag v e = record {
  deep =
      ap (depth (some 0)) (kinds-snoc as' (annotation l flag))
      ∙ depth-snoc (some 0) (kinds as') (bracket l.type)
      ∙ ap (bump (bracket l.type)) v.deep
      ∙ e;
  sound = has_error-snoc as' (annotation l flag) ∙ rw v.sound refl;
}

abbrev pub Counted : Progress → Type 0
Counted p = IsDeep p.annotations (length p.opened)

close-Counted :
    (p : Progress) (l : Lexeme) (opened : List ℕ) {p' : Progress}
    → IsDeep p.annotations (length opened)
    → bracket l.type ≡ closes
    → close p l opened ≡ some p'
    → Counted p'
close-Counted p l [] v k e = cc
close-Counted p l (i ∷ opened) v k e =
    subst Counted (some-injective _ _ e)
      (IsDeep-snoc l none (IsDeep-mark_last opened true (IsDeep-mark i false v)) (rw k refl))

round_as-Counted :
    (b : Bracket) (p : Progress) (l : Lexeme) {p' : Progress}
    → Counted p
    → bracket l.type ≡ b
    → round_as b p l ≡ some p'
    → Counted p'
round_as-Counted opens p l v k e =
    subst Counted (some-injective _ _ e)
      (IsDeep-snoc l (some true) (IsDeep-mark_last p.opened false v) (rw k refl))
round_as-Counted closes p l v k e = close-Counted p l p.opened v k e
round_as-Counted neither p l v k e =
    subst Counted (some-injective _ _ e) (IsDeep-snoc l none v (rw k refl))

proceed-Counted :
    (p : Progress) (o : Option Progress) (k : Progress → Progress × Option LexError)
    → Counted p
    → ((p' : Progress) → o ≡ some p' → Counted (k p').0)
    → Counted (proceed p o k).0
proceed-Counted p none k v h = v
proceed-Counted p (some p') k v h = h p' refl

pub rounds-Counted :
    (p : Progress) (ls : List Lexeme) (e : Option LexError) → Counted p → Counted (rounds p ls e).0
unfolding rounds
rounds-Counted p [] e v = v
rounds-Counted p (l ∷ ls) e v = proceed-Counted p (round p l) _ v λ p' h.
    rounds-Counted p' ls e
      (round_as-Counted (bracket l.type) p l v refl (sym (round-bracket p l) ∙ h))

pub start-Counted : (p : Progress) → p.annotations ≡ [] → p.opened ≡ [] → Counted p
start-Counted p a o = rw (a, o) (record { deep = refl; sound = refl })
