-- ===== src/Query/Annotate/Positions.antt =====
-- The members of the annotation at a position, after `annotations[i].lastOpenedBracket = …` and after
-- `annotations.push(…)`.
use mwdb_core.Common.{
  ℕ, zero, suc, ◌≡◌, refl, ap, Bool, Option, none, some, List, [], ◌∷◌, ◌++◌, map, arith,
  if◌then◌else◌, ◌==◌, ◌&&◌, ltb, length, get_elem?, drop, ◌<◌,
}
use mwdb_core.Query.Annotate.{QueryAnnotation, mark}
use mwdb_core.Query.Annotate.Brackets.{
  Bracket, opens, closes, neither, kind, bump, level, level-snoc,
}

abbrev pub kinds : List QueryAnnotation → List Bracket
kinds as' = map (λ a. kind a.type) as'

-- The members of the annotation at a position; the same value beyond the end.
unfoldable pub kind_at : List QueryAnnotation → ℕ → Bracket
kind_at [] j = neither
kind_at (a ∷ as') zero = kind a.type
kind_at (a ∷ as') (suc j) = kind_at as' j

unfoldable pub flag_at : List QueryAnnotation → ℕ → Option Bool
flag_at [] j = none
flag_at (a ∷ as') zero = a.last_opened_bracket
flag_at (a ∷ as') (suc j) = flag_at as' j

unfoldable pub level_at : List QueryAnnotation → ℕ → Option ℕ
level_at [] j = none
level_at (a ∷ as') zero = level (kind a.type) (kinds as')
level_at (a ∷ as') (suc j) = level_at as' j

pub kinds-mark : (as' : List QueryAnnotation) (i : ℕ) (b : Bool) → kinds (mark as' i b) ≡ kinds as'
unfolding mark
kinds-mark [] i b = refl
kinds-mark (a ∷ as') zero b = refl
kinds-mark (a ∷ as') (suc i) b = ap (λ t. kind a.type ∷ t) (kinds-mark as' i b)

pub kinds-snoc :
    (as' : List QueryAnnotation) (x : QueryAnnotation)
    → kinds (as' ++ x ∷ []) ≡ kinds as' ++ kind x.type ∷ []
kinds-snoc [] x = refl
kinds-snoc (a ∷ as') x = ap (λ t. kind a.type ∷ t) (kinds-snoc as' x)

pub length-mark :
    (as' : List QueryAnnotation) (i : ℕ) (b : Bool) → length (mark as' i b) ≡ length as'
unfolding mark
length-mark [] i b = refl
length-mark (a ∷ as') zero b = refl
length-mark (a ∷ as') (suc i) b = ap suc (length-mark as' i b)

pub kind_at-mark :
    (as' : List QueryAnnotation) (i : ℕ) (b : Bool) (j : ℕ)
    → kind_at (mark as' i b) j ≡ kind_at as' j
unfolding kind_at mark
kind_at-mark [] i b j = refl
kind_at-mark (a ∷ as') zero b zero = refl
kind_at-mark (a ∷ as') zero b (suc j) = refl
kind_at-mark (a ∷ as') (suc i) b zero = refl
kind_at-mark (a ∷ as') (suc i) b (suc j) = kind_at-mark as' i b j

pub kind_at-snoc :
    (as' : List QueryAnnotation) (x : QueryAnnotation) (j : ℕ)
    → kind_at (as' ++ x ∷ []) j ≡ (if j == length as' then kind x.type else kind_at as' j)
unfolding kind_at
kind_at-snoc [] x zero = refl
kind_at-snoc [] x (suc j) = ground arith
kind_at-snoc (a ∷ as') x zero = ground arith
kind_at-snoc (a ∷ as') x (suc j) = ground (arith, kind_at-snoc as' x j)

pub flag_at-snoc :
    (as' : List QueryAnnotation) (x : QueryAnnotation) (j : ℕ)
    → flag_at (as' ++ x ∷ []) j ≡ (if j == length as' then x.last_opened_bracket else flag_at as' j)
unfolding flag_at
flag_at-snoc [] x zero = refl
flag_at-snoc [] x (suc j) = ground arith
flag_at-snoc (a ∷ as') x zero = ground arith
flag_at-snoc (a ∷ as') x (suc j) = ground (arith, flag_at-snoc as' x j)

pub level_at-snoc :
    (as' : List QueryAnnotation) (x : QueryAnnotation) (j : ℕ)
    → level_at (as' ++ x ∷ []) j
      ≡ (if j == length as' then level (kind x.type) [] else bump (kind x.type) (level_at as' j))
unfolding level_at
level_at-snoc [] x zero = refl
level_at-snoc [] x (suc j) = ground arith
level_at-snoc (a ∷ as') x zero =
    rw (kinds-snoc as' x) (rw (level-snoc (kind a.type) (kinds as') (kind x.type)) (ground arith))
level_at-snoc (a ∷ as') x (suc j) = ground (arith, level_at-snoc as' x j)

pub flag_at-mark :
    (as' : List QueryAnnotation) (i : ℕ) (b : Bool) (j : ℕ)
    → flag_at (mark as' i b) j ≡ (if i == j && ltb j (length as') then some b else flag_at as' j)
unfolding flag_at mark
flag_at-mark [] i b j = ground arith
flag_at-mark (a ∷ as') zero b zero = ground arith
flag_at-mark (a ∷ as') zero b (suc j) = ground arith
flag_at-mark (a ∷ as') (suc i) b zero = ground arith
flag_at-mark (a ∷ as') (suc i) b (suc j) = ground (arith, flag_at-mark as' i b j)

pub level_at-mark :
    (as' : List QueryAnnotation) (i : ℕ) (b : Bool) (j : ℕ)
    → level_at (mark as' i b) j ≡ level_at as' j
unfolding level_at mark
level_at-mark [] i b j = refl
level_at-mark (a ∷ as') zero b zero = refl
level_at-mark (a ∷ as') zero b (suc j) = refl
level_at-mark (a ∷ as') (suc i) b zero = rw (kinds-mark as' i b)
level_at-mark (a ∷ as') (suc i) b (suc j) = level_at-mark as' i b j

-- A level is that of an opening bracket in range.
pub level_at-opens :
    (as' : List QueryAnnotation) (j : ℕ) {k : ℕ}
    → level_at as' j ≡ some k
    → (kind_at as' j ≡ opens) × (j < length as')
unfolding level_at kind_at
level_at-opens [] j h = cc
level_at-opens (a ∷ as') zero h = (opener (kind a.type) h, omega arith)
  where
    opener : (c : Bracket) {k : ℕ} → level c (kinds as') ≡ some k → c ≡ opens
    opener opens e = refl
    opener closes e = cc
    opener neither e = cc
level_at-opens (a ∷ as') (suc j) h =
    ((level_at-opens as' j h).0, omega (arith, (level_at-opens as' j h).1))

pub get_elem?-at :
    (as' : List QueryAnnotation) (j : ℕ) {a : QueryAnnotation}
    → get_elem? as' j ≡ some a
    → (flag_at as' j ≡ a.last_opened_bracket)
      × (kind_at as' j ≡ kind a.type)
      × (level_at as' j ≡ level (kind a.type) (drop (suc j) (kinds as')))
unfolding flag_at kind_at level_at
get_elem?-at [] j h = cc
get_elem?-at (b ∷ as') zero h = (cc, cc, cc)
get_elem?-at (b ∷ as') (suc j) h = get_elem?-at as' j h
