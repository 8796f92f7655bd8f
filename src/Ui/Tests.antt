-- ===== src/Ui/Tests.antt =====
-- Runs of the elements at small inputs.
use mwdb_core.Common.{◌≡◌, refl, some, List, [], ◌∷◌, arith}
use mwdb_core.Common.Text.{text, starts_with}
use mwdb_core.Ui.Highlight.{Piece, plain, marked, index_of, highlight_from, highlight_text, shown}
use mwdb_core.Ui.Highlight.Partition.{highlight_text-shown}

two_matches :
    highlight_text (λ s. s) (text "xabyab") (text "ab")
    ≡ some (
        plain (text "x")
        ∷ marked (text "ab")
        ∷ plain (text "y")
        ∷ marked (text "ab")
        ∷ plain []
        ∷ [])
unfolding highlight_text highlight_from index_of starts_with
two_matches = refl

highlight_text-shown_example :
    (pieces : List Piece) × (highlight_text (λ s. s) (text "xabyab") (text "ab") ≡ some pieces)
    × (shown pieces ≡ text "xabyab")
highlight_text-shown_example =
    highlight_text-shown (λ s. s) (text "xabyab") (text "ab") (λ c s. omega arith)
