-- ===== src/Preview/Content.antt =====
-- commons/helpers/preview.ts: all its functions. `TextEncoder` and `TextDecoder` are parameters; the
-- machine stores the low byte of a unit first.
use mwdb_core.Common.{
  ℕ, suc, ◌+◌, ◌*◌, ◌-◌, ◌/◌, ◌%◌, Bool, true, false, List, [], ◌∷◌, ◌++◌, if◌then◌else◌, ltb, leb,
  ◌==◌, ◌&&◌, not, length, replicate,
}
use mwdb_core.Common.Text.{Text}
use mwdb_core.Common.Strings.{join}

-- `result.push(current.join(""))`, if `current` is long enough
abbrev pub flush : ℕ → Text → List Text → List Text
flush min_length current later = if leb min_length (length current) then current ∷ later else later

-- The rounds of `extractPrintableSequences` from `current`, and what they push.
unfoldable pub sequences_from : (ℕ → Bool) → ℕ → Text → List ℕ → List Text
sequences_from is_printable min_length current [] = flush min_length current []
sequences_from is_printable min_length current (c ∷ codes) =
    let grow = sequences_from is_printable min_length (current ++ c ∷ []) codes in
    let close = sequences_from is_printable min_length [] codes in
    if is_printable c then grow else flush min_length current close

unfoldable pub extract_printable_sequences : List ℕ → (ℕ → Bool) → ℕ → Text
extract_printable_sequences codes is_printable min_length =
    join (sequences_from is_printable min_length [] codes) (10 ∷ [])

pub data ObjectContent : Type 0 where
  string : Text → ObjectContent
  buffer : List ℕ → ObjectContent

pub data Format : Type 0 where
  utf_8 utf_16_le : Format

-- `new Uint16Array(buffer, 0, Math.floor(buffer.byteLength / 2))`
unfoldable pub units : List ℕ → List ℕ
units (low ∷ high ∷ bytes) = (low + 256 * high) ∷ units bytes
units (low ∷ []) = []
units [] = []

abbrev pub is_printable : ℕ → Bool
is_printable u = leb 32 u && leb u 126

-- the digit of `toString(16)`
abbrev pub hex_digit : ℕ → ℕ
hex_digit d = if ltb d 10 then d + 48 else d + 87

-- `byte.toString(16).padStart(2, "0")`
abbrev pub hex_byte : ℕ → Text
hex_byte b = hex_digit (b / 16) ∷ hex_digit (b % 16) ∷ []

abbrev pub ascii_byte : ℕ → ℕ
ascii_byte b = if is_printable b then b else 46

-- `s.padEnd(n, " ")`
abbrev pub pad_end : ℕ → Text → Text
pad_end n s = s ++ replicate (n - length s) 32

abbrev pub dump_row : List Text → Text → Text
dump_row byte_row ascii_row = pad_end 50 (join byte_row (32 ∷ [])) ++ ascii_row

abbrev pub emit : Bool → Text → List Text → List Text
emit true row rows = row ∷ rows
emit false row rows = rows

abbrev pub last_row : List Text → Text → List Text
last_row [] ascii_row = []
last_row (b ∷ bs) ascii_row = dump_row (b ∷ bs) ascii_row ∷ []

-- The rounds of the loop of `formatHex` from `idx`, and the rows that they push.
unfoldable pub hex_rows : ℕ → List Text → Text → List ℕ → List Text
hex_rows idx byte_row ascii_row [] = last_row byte_row ascii_row
hex_rows idx byte_row ascii_row (b ∷ bytes) =
    let full = not (idx == 0) && (idx % 16 == 0) in
    emit full (dump_row byte_row ascii_row) (
      hex_rows (suc idx) ((if full then [] else byte_row) ++ hex_byte b ∷ [])
        ((if full then [] else ascii_row) ++ ascii_byte b ∷ []) bytes)

module _ (encode : Text → List ℕ) (decode : List ℕ → Text) where
  unfoldable pub get_array_buffer : ObjectContent → List ℕ
  get_array_buffer (buffer bytes) = bytes
  get_array_buffer (string s) = encode s

  unfoldable pub format_raw : ObjectContent → Text
  format_raw (buffer bytes) = decode bytes
  format_raw (string s) = s

  unfoldable pub format_printable : ObjectContent → Format → Text
  format_printable content utf_16_le =
      extract_printable_sequences (units (get_array_buffer content)) is_printable 4
  format_printable content utf_8 =
      extract_printable_sequences (get_array_buffer content) is_printable 4

  unfoldable pub format_hex : ObjectContent → Text
  format_hex content = join (hex_rows 0 [] [] (get_array_buffer content)) (10 ∷ [])
