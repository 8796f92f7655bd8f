-- ===== src/Ui/Highlight.antt =====
-- commons/ui/HighlightText.tsx. `toLowerCase` is a parameter. The loop runs on fuel: every match takes at
-- least one unit, so one round more than the text in lower case is long is enough.
pub mod Partition
use mwdb_core.Common.{
  ℕ, zero, suc, ◌+◌, ◌-◌, ◌≤◌, ◌<◌, ◌≡◌, refl, sym, ap, subst, ◌∙◌, Option, none, some, List, [],
  ◌∷◌, ◌++◌, if◌then◌else◌, length, take, drop, Bool, true, false, Option-cases, Bool-cases, inl,
  inr, arith, append_assoc, length-append,
}
use mathlib.Core.Option.{some-injective}
use mwdb_core.Common.Text.{Text, starts_with, starts_with_split}

abbrev next_index : Option ℕ → Option ℕ
next_index none = none
next_index (some k) = some (suc k)

-- `s.indexOf(part)`
unfoldable pub index_of : Text → Text → Option ℕ
index_of [] part = if starts_with [] part then some 0 else none
index_of (c ∷ s) part = if starts_with (c ∷ s) part then some 0 else next_index (index_of s part)

-- A piece of text, and whether it is highlighted.
pub data Piece : Type 0 where
  plain marked : Text → Piece

abbrev pub prepend : Text → Text → Option (List Piece) → Option (List Piece)
prepend before found none = none
prepend before found (some pieces) = some (plain before ∷ marked found ∷ pieces)

module _ (children lowered filter : Text) where
  -- A round, for where the filter is found behind `prev`.
  abbrev pub show_round : ℕ → Option ℕ → (ℕ → Option (List Piece)) → Option (List Piece)
  show_round prev none rest = some (plain (drop prev children) ∷ [])
  show_round prev (some k) rest =
      prepend (take k (drop prev children)) (take (length filter) (drop (prev + k) children))
        (rest (prev + k + length filter))

  -- The rounds from `prevIndex`; `none` if the fuel is used up.
  unfoldable pub highlight_from : ℕ → ℕ → Option (List Piece)
  highlight_from zero prev = none
  highlight_from (suc fuel) prev =
      show_round prev (index_of (drop prev lowered) filter) (λ next. highlight_from fuel next)

unfoldable pub highlight_text : (Text → Text) → Text → Text → Option (List Piece)
highlight_text lower children [] = some (plain children ∷ [])
highlight_text lower children (c ∷ filter) =
    highlight_from children (lower children) (lower (c ∷ filter)) (suc (length (lower children))) 0

-- the text of the pieces
unfoldable pub shown : List Piece → Text
shown [] = []
shown (plain s ∷ pieces) = s ++ shown pieces
shown (marked s ∷ pieces) = s ++ shown pieces
