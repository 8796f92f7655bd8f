-- ===== src/Preview/Tests.antt =====
-- Runs of the previews, and their theorems at small inputs.
use mwdb_core.Common.{◌≡◌, refl, [], ◌∷◌, ◌++◌}
use mathlib.Core.List.{Memᴰ}
use mathlib.Core.Logic.{◌↔◌}
use mwdb_core.Common.Text.{text}
use mwdb_core.Common.Strings.{join}
use mwdb_core.Preview.Content.{
  units, is_printable, sequences_from, extract_printable_sequences, buffer, utf_16_le,
  get_array_buffer, format_printable, hex_rows, format_hex,
}
use mwdb_core.Preview.Hex.{IsDump, hex_rows-IsDump}
use mwdb_core.Preview.Runs.{IsLongRun, sequences_from_iff}

wide_is_found :
    format_printable
      (λ s. s)
      (λ s. s)
      (buffer (65 ∷ 0 ∷ 66 ∷ 0 ∷ 67 ∷ 0 ∷ 68 ∷ 0 ∷ 7 ∷ []))
      utf_16_le
    ≡ text "ABCD"
unfolding format_printable extract_printable_sequences get_array_buffer sequences_from units join
wide_is_found = refl

dumped :
    format_hex (λ s. s) (λ s. s) (buffer (65 ∷ 7 ∷ []))
    ≡ text "41 07                                             A."
unfolding format_hex get_array_buffer hex_rows join
dumped = refl

hex_rows-IsDump_example :
    IsDump (1 ∷ 2 ∷ 3 ∷ 4 ∷ 5 ∷ 6 ∷ 7 ∷ 8 ∷ 9 ∷ 10 ∷ 11 ∷ 12 ∷ 13 ∷ 14 ∷ 15 ∷ 16 ∷ 65 ∷ []) (
      hex_rows 0 [] []
        (1 ∷ 2 ∷ 3 ∷ 4 ∷ 5 ∷ 6 ∷ 7 ∷ 8 ∷ 9 ∷ 10 ∷ 11 ∷ 12 ∷ 13 ∷ 14 ∷ 15 ∷ 16 ∷ 65 ∷ []))
hex_rows-IsDump_example =
    hex_rows-IsDump (1 ∷ 2 ∷ 3 ∷ 4 ∷ 5 ∷ 6 ∷ 7 ∷ 8 ∷ 9 ∷ 10 ∷ 11 ∷ 12 ∷ 13 ∷ 14 ∷ 15 ∷ 16 ∷ 65 ∷ [])

sequences_from_iff_example :
    Memᴰ (text "GET /") (sequences_from is_printable 4 [] (7 ∷ (text "GET /" ++ 0 ∷ text "abc")))
    ↔ IsLongRun is_printable 4 (7 ∷ (text "GET /" ++ 0 ∷ text "abc")) (text "GET /")
sequences_from_iff_example =
    sequences_from_iff is_printable 4 (7 ∷ (text "GET /" ++ 0 ∷ text "abc")) (text "GET /")
