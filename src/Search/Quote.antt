-- ===== src/Search/Quote.antt =====
-- search.ts: `escapeSearchValue` and `escapeSearchField`, with `JSON.stringify` of a string.
use mwdb_core.Common.{
  ℕ, ◌+◌, ◌/◌, ◌%◌, Bool, [], ◌∷◌, ◌++◌, if◌then◌else◌, ltb, leb, ◌==◌, ◌&&◌, ◌||◌,
}
use mwdb_core.Common.Text.{Text}

abbrev pub quote_mark : ℕ
quote_mark = 34

abbrev pub backslash : ℕ
backslash = 92

-- A hexadecimal digit, in lower case.
unfoldable pub hex_digit : ℕ → ℕ
hex_digit d = if ltb d 10 then 48 + d else 87 + d

-- `\uXXXX`
unfoldable pub unicode_escape : ℕ → Text
unicode_escape c =
    backslash
    ∷ 117
    ∷ hex_digit (c / 4096 % 16)
    ∷ hex_digit (c / 256 % 16)
    ∷ hex_digit (c / 16 % 16)
    ∷ hex_digit (c % 16)
    ∷ []

-- What `JSON.stringify` writes for a code unit that is no surrogate.
unfoldable pub quote_unit : ℕ → Text
quote_unit c =
    if c == 8
    then backslash ∷ 98 ∷ []
    else if c == 9
    then backslash ∷ 116 ∷ []
    else if c == 10
    then backslash ∷ 110 ∷ []
    else if c == 12
    then backslash ∷ 102 ∷ []
    else if c == 13
    then backslash ∷ 114 ∷ []
    else if c == quote_mark
    then backslash ∷ quote_mark ∷ []
    else if c == backslash
    then backslash ∷ backslash ∷ []
    else if ltb c 32
    then unicode_escape c
    else c ∷ []

unfoldable pub is_high : ℕ → Bool
is_high c = leb 55296 c && leb c 56319

unfoldable pub is_low : ℕ → Bool
is_low c = leb 56320 c && leb c 57343

-- The text between the quotes: a surrogate that has no partner is escaped.
unfoldable pub quote_units : Text → Text
quote_units [] = []
quote_units (c ∷ []) = if is_high c || is_low c then unicode_escape c else quote_unit c
quote_units (c ∷ d ∷ s) =
    let pair = c ∷ d ∷ quote_units s in
    let lone = unicode_escape c ++ quote_units (d ∷ s) in
    let plain = quote_unit c ++ quote_units (d ∷ s) in
    if is_high c && is_low d then pair else if is_high c || is_low c then lone else plain

-- `JSON.stringify(s)`
unfoldable pub stringify : Text → Text
stringify s = quote_mark ∷ quote_units s ++ quote_mark ∷ []

-- A string, or another value with the text that `String` makes of it.
pub data SearchValue : Type 0 where
  string : Text → SearchValue
  other : Text → SearchValue

unfoldable pub escape_search_value : SearchValue → Text
escape_search_value (string s) = stringify s
escape_search_value (other printed) = printed

-- The characters of `/[.\\ *:]/`.
unfoldable pub is_special : ℕ → Bool
is_special c = c == 46 || (c == backslash || (c == 32 || (c == 42 || c == 58)))

unfoldable pub escape_field_unit : ℕ → Text
escape_field_unit c = if is_special c then backslash ∷ c ∷ [] else c ∷ []

-- `field.replace(/[.\\ *:]/g, "\\$&")`
unfoldable pub escape_search_field : Text → Text
escape_search_field [] = []
escape_search_field (c ∷ s) = escape_field_unit c ++ escape_search_field s
