-- ===== src/Rich/Escape.antt =====
-- MarkedMustache.tsx: `escapeMarkdown`, and the references that are written as Markdown links.
-- `encodeURIComponent` is a parameter.
use mwdb_core.Common.{
  ℕ, ◌≡◌, refl, Bool, true, false, Option, none, some, [], ◌∷◌, ◌++◌, ◌==◌, leb, if◌then◌else◌,
  ◌&&◌, ◌||◌, not, any, Bool-cases, inl, inr, arith,
}
use mwdb_core.Common.Text.{Text, text}

-- The class `[\\`*_{}[\]<>()#+-,!|]`, in which `+-,` is a range of two characters.
unfoldable pub is_markdown : ℕ → Bool
is_markdown c =
    any (λ d. d == c) (text "\\`*_{}[]<>()#") || ((leb 43 c && leb c 44) || (c == 33 || c == 124))

unfoldable pub escape_markdown : Text → Text
escape_markdown [] = []
escape_markdown (c ∷ s) = (if is_markdown c then 92 ∷ c ∷ [] else c ∷ []) ++ escape_markdown s

pub data Reference : Type 0 where
  lambda_result : Text → Reference
  search : Text → Text → Reference

unfoldable pub to_markdown : (Text → Text) → Reference → Text
to_markdown encode (lambda_result id) = text "[](lambda#" ++ (id ++ text ")")
to_markdown encode (search query value) =
    text "["
    ++ (escape_markdown value ++ (text "](search#" ++ (escape_markdown (encode query) ++ text ")")))

-- A backslash of Markdown takes its meaning from an ASCII punctuation character.
unfoldable pub is_punctuation : ℕ → Bool
is_punctuation c =
    (leb 33 c && leb c 47)
    || ((leb 58 c && leb c 64) || ((leb 91 c && leb c 96) || (leb 123 c && leb c 126)))

abbrev read_unit : Bool → Bool → ℕ → Option Text → Option Text
read_unit true markup c rest = rest
read_unit false true c rest = none
read_unit false false c none = none
read_unit false false c (some s) = some (c ∷ s)

-- The characters that the Markdown guide lists as having a meaning.
unfoldable pub is_markup : ℕ → Bool
is_markup c = any (λ d. d == c) (text "\\`*_{}[]<>()#+-.!|")

-- The plain text that Markdown with backslashes stands for; `none` where a character of the guide's
-- list has no backslash before it, or a backslash has no punctuation behind it.
unfoldable pub read_plain : Bool → Text → Option Text
read_plain true [] = none
read_plain false [] = some []
read_plain true (c ∷ s) = read_unit false (not (is_punctuation c)) c (read_plain false s)
read_plain false (c ∷ s) = read_unit (c == 92) (is_markup c) c (read_plain (c == 92) s)

-- A hyphen or a full stop.
unfoldable pub is_left_bare : ℕ → Bool
is_left_bare c = c == 45 || c == 46

special_unit : (c : ℕ) → is_markdown c ≡ true → (is_punctuation c ≡ true) × (is_left_bare c ≡ false)
unfolding is_markdown is_punctuation is_left_bare
special_unit c h = (ground (arith, h), ground (arith, h))

plain_unit : (c : ℕ) → is_markdown c ≡ false → ((c == 92) ≡ false) × (is_markup c ≡ is_left_bare c)
unfolding is_markdown is_markup is_left_bare
plain_unit c h = (ground (arith, h), ground (arith, h))

-- A text that is escaped stands for itself in Markdown, each character of the guide's list having its
-- backslash and no other character a backslash that is shown, exactly if it holds neither a hyphen nor
-- a full stop, which get no backslash.
pub read_plain-escape_markdown :
    (s : Text)
    → read_plain false (escape_markdown s) ≡ (if any is_left_bare s then none else some s)
unfolding read_plain escape_markdown
read_plain-escape_markdown [] = refl
read_plain-escape_markdown (c ∷ s) = elim (Bool-cases (is_markdown c)) [
  | inl e ↦
      rw (e, (special_unit c e).0, (special_unit c e).1, read_plain-escape_markdown s)
        (elim (Bool-cases (any is_left_bare s)) [ inl f ↦ rw f refl | inr f ↦ rw f refl ])
  | inr e ↦
      rw (e, (plain_unit c e).0, (plain_unit c e).1, read_plain-escape_markdown s)
        (elim (Bool-cases (is_left_bare c)) [
          | inl g ↦ rw g refl
          | inr g ↦
              rw g
                (elim (Bool-cases (any is_left_bare s)) [ inl f ↦ rw f refl | inr f ↦ rw f refl ])
        ])
]
