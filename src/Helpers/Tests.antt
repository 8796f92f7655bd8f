-- ===== src/Helpers/Tests.antt =====
-- Runs of the helpers, and their theorems at small inputs.
use mwdb_core.Common.{List, ◌-◌, [], ◌∷◌, ◌≡◌, refl, inr, arith}
use mwdb_core.Common.Text.{Text, text, text_eq}
use mwdb_core.Helpers.Index.{capitalize, map_object_type, update_active_page}
use mwdb_core.Helpers.Laws.{IsPage, update_active_page-IsPage}

capitalized : capitalize (λ c. (c - 32) ∷ []) (text "file") ≡ text "File"
unfolding capitalize
capitalized = refl

config_type : map_object_type (text "static_config") ≡ text "config"
unfolding map_object_type text_eq
config_type = refl

-- The page before is shown although the second page still has items.
full_page_left : update_active_page 2 21 10 ≡ 1
unfolding update_active_page
full_page_left = refl

abbrev words : List Text
words = text "a" ∷ text "b" ∷ []

abbrev break_line : List Text
break_line = text "br" ∷ []

update_active_page-IsPage_example : IsPage (update_active_page 2 11 10) 10 10
update_active_page-IsPage_example =
    update_active_page-IsPage 2 11 10 (omega arith) (omega arith, inr (omega arith))
