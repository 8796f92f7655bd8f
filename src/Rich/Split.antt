-- ===== src/Rich/Split.antt =====
-- components/RichAttribute/MarkedMustache.tsx: `splitName` and the functions that it calls, for a
-- separator that stands for itself between the brackets of a class, as the dot does, which the program
-- passes. The regular expressions are functions over the text.
pub mod Reader
pub mod Agrees
pub mod RoundTrip
pub mod Runs
use mwdb_core.Common.{
  ℕ, zero, suc, ◌-◌, Bool, true, false, List, [], ◌∷◌, ◌++◌, if◌then◌else◌, ◌==◌, ◌&&◌, ◌||◌, not,
  take, ◌+◌,
}
use mwdb_core.Common.Text.{Text, text, text_eq}

-- The characters that the class `[${separator}]` takes as themselves.
abbrev pub is_literal : ℕ → Bool
is_literal c = not (c == 92 || (c == 93 || c == 94))

-- `[...array.slice(0, -1), array[array.length - 1] + value]`; no element is `undefined`
unfoldable pub append_to_last_element : List Text → Text → List Text
append_to_last_element [] value = (text "undefined" ++ value) ∷ []
append_to_last_element (x ∷ []) value = (x ++ value) ∷ []
append_to_last_element (x ∷ y ∷ xs) value = x ∷ append_to_last_element (y ∷ xs) value

-- `current.slice(0, -1)`
unfoldable pub without_last : Text → Text
without_last [] = []
without_last (c ∷ []) = []
without_last (c ∷ d ∷ s) = c ∷ without_last (d ∷ s)

abbrev longer : ℕ → ℕ
longer zero = zero
longer (suc n) = suc (suc (suc n))

-- The length of the match of `(?:\\\\)*[separator]` at the start of a text, zero if there is none.
unfoldable pub delimiter : ℕ → Text → ℕ
delimiter separator [] = 0
delimiter separator (c ∷ []) = if c == separator then 1 else 0
delimiter separator (c ∷ d ∷ s) =
    let rest = longer (delimiter separator s) in
    if c == separator then 1 else if c == 92 && d == 92 then rest else 0

abbrev pub before : ℕ → ℕ
before zero = zero
before (suc n) = n

abbrev pub next_part : ℕ → Text → ℕ → Text
next_part zero part c = part ++ c ∷ []
next_part (suc n) part c = []

-- What is pushed at a place where a match has this length.
abbrev pub push_match : ℕ → Text → Text → List Text → List Text
push_match zero part s rest = rest
push_match (suc n) part s rest = part ∷ take (suc n) s ∷ rest

-- `name.split(splitRegex)`, from a place in the name: so many units are still part of the last match,
-- `escaped` tells that a backslash stands before, and `part` is what stands behind the last match. The
-- parts and the matches alternate.
unfoldable pub split_from : ℕ → ℕ → Bool → Text → Text → List Text
split_from separator skip escaped part [] = part ∷ []
split_from separator (suc skip) escaped part (c ∷ s) = split_from separator skip (c == 92) [] s
split_from separator zero escaped part (c ∷ s) =
    let found = if escaped then 0 else delimiter separator (c ∷ s) in
    push_match found part (c ∷ s)
      (split_from separator (before found) (c == 92) (next_part found part c) s)

abbrev pub unescaped : ℕ → Bool → ℕ → Text
unescaped separator false c = if c == 92 then [] else c ∷ []
unescaped separator true c = if c == separator || c == 92 then c ∷ [] else 92 ∷ c ∷ []

-- `replaceAll(replaceRegex, "$1")`; `held` tells that a backslash waits for the next unit.
unfoldable pub unescape_from : ℕ → Bool → Text → Text
unescape_from separator false [] = []
unescape_from separator true [] = 92 ∷ []
unescape_from separator false (c ∷ s) =
    unescaped separator false c ++ unescape_from separator (c == 92) s
unescape_from separator true (c ∷ s) = unescaped separator true c ++ unescape_from separator false s

-- The calls of `reduce`; the flag is `index % 2`.
unfoldable pub gather : ℕ → List Text → Bool → List Text → List Text
gather separator acc odd [] = acc
gather separator acc true (current ∷ later) =
    gather separator
      (append_to_last_element acc (without_last (unescape_from separator false current))) false
      later
gather separator acc false (current ∷ later) =
    gather separator (acc ++ unescape_from separator false current ∷ []) true later

unfoldable pub split_by_unescaped_separator : Text → ℕ → List Text
split_by_unescaped_separator name separator =
    gather separator [] false (split_from separator 0 false [] name)

unfoldable pub split_name : Text → List Text
split_name name = if text_eq name (text ".") then [] else split_by_unescaped_separator name 46
