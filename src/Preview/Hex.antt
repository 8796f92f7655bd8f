-- ===== src/Preview/Hex.antt =====
-- commons/helpers/preview.ts: what the rows of `formatHex` show.
use mwdb_core.Common.{
  ℕ, suc, ◌%◌, ◌≤◌, ◌≡◌, refl, sym, ap, subst, Bool, true, false, List, [], ◌∷◌, ◌++◌, map, ◌==◌,
  ◌&&◌, not, length, length-append, append-nil, append_assoc, Bool-cases, inl, inr, arith,
}
use mwdb_core.Common.Text.{Text}
use mwdb_core.Preview.Content.{hex_byte, ascii_byte, dump_row, hex_rows}

-- The row for these bytes.
abbrev pub row_of : List ℕ → Text
row_of bytes = dump_row (map hex_byte bytes) (map ascii_byte bytes)

-- The rows show the bytes in order, sixteen in each row but the last, which has one to sixteen.
pub data IsDump : List ℕ → List Text → Type 0 where
  nothing : IsDump [] []
  last : (r : List ℕ) → 1 ≤ length r → length r ≤ 16 → IsDump r (row_of r ∷ [])
  more :
      (r : List ℕ) (b : ℕ) (bytes : List ℕ) (rows : List Text)
      → length r ≡ 16
      → IsDump (b ∷ bytes) rows
      → IsDump (r ++ b ∷ bytes) (row_of r ∷ rows)

map-append :
    {A : Type 0} (f : ℕ → A) (xs : List ℕ) (y : ℕ) → map f (xs ++ y ∷ []) ≡ map f xs ++ f y ∷ []
map-append f [] y = refl
map-append f (x ∷ xs) y = ap (λ t. f x ∷ t) (map-append f xs y)

abbrev Rows : ℕ → List ℕ → List ℕ → Type 0
Rows idx r bytes = IsDump (r ++ bytes) (hex_rows idx (map hex_byte r) (map ascii_byte r) bytes)

abbrev is_full : ℕ → Bool
is_full idx = not (idx == 0) && (idx % 16 == 0)

round-full :
    (idx : ℕ) (r : List ℕ) (b : ℕ) (bytes : List ℕ)
    → is_full idx ≡ true
    → length r ≡ 16
    → Rows (suc idx) (b ∷ []) bytes
    → Rows idx r (b ∷ bytes)
unfolding hex_rows
round-full idx r b bytes full n h = rw full (more r b bytes _ n h)

round-open :
    (idx : ℕ) (r : List ℕ) (b : ℕ) (bytes : List ℕ)
    → is_full idx ≡ false
    → Rows (suc idx) (r ++ b ∷ []) bytes
    → Rows idx r (b ∷ bytes)
unfolding hex_rows
round-open idx r b bytes full h = rw full (
    subst
      (λ (t : List ℕ). IsDump t (
        hex_rows (suc idx) (map hex_byte r ++ hex_byte b ∷ [])
          (map ascii_byte r ++ ascii_byte b ∷ []) bytes))
      (append_assoc r (b ∷ []) bytes)
      (subst
        (λ (t : List Text).
          IsDump ((r ++ b ∷ []) ++ bytes)
            (hex_rows (suc idx) t (map ascii_byte r ++ ascii_byte b ∷ []) bytes))
        (map-append hex_byte r b)
        (subst
          (λ (t : Text).
            IsDump ((r ++ b ∷ []) ++ bytes)
              (hex_rows (suc idx) (map hex_byte (r ++ b ∷ [])) t bytes))
          (map-append ascii_byte r b) h)))

from_round-IsDump :
    (idx : ℕ) (x : ℕ) (r bytes : List ℕ)
    → suc (length r) ≤ 16
    → idx % 16 ≡ suc (length r) % 16
    → 1 ≤ idx
    → Rows idx (x ∷ r) bytes
unfolding hex_rows
from_round-IsDump idx x r [] small phase started =
    subst (λ (t : List ℕ). IsDump t (row_of (x ∷ r) ∷ [])) (sym (append-nil (x ∷ r)))
      (last (x ∷ r) (omega arith) small)
from_round-IsDump idx x r (b ∷ bytes) small phase started = elim (Bool-cases (is_full idx)) [
  | inl e ↦
      round-full idx (x ∷ r) b bytes e (ground arith)
        (from_round-IsDump (suc idx) b [] bytes (omega arith) (ground arith) (omega arith))
  | inr e ↦ round-open idx (x ∷ r) b bytes e (
      from_round-IsDump (suc idx) x (r ++ b ∷ []) bytes (ground (arith, length-append r (b ∷ [])))
        (ground (arith, length-append r (b ∷ []))) (omega arith))
]

-- The rows of a hex view show the bytes in their order: sixteen in each row but the last, which has
-- one to sixteen, and no row where there is no byte.
pub hex_rows-IsDump : (bytes : List ℕ) → IsDump bytes (hex_rows 0 [] [] bytes)
unfolding hex_rows
hex_rows-IsDump [] = nothing
hex_rows-IsDump (b ∷ bytes) = from_round-IsDump 1 b [] bytes (omega arith) refl (omega arith)
