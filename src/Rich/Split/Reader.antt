-- ===== src/Rich/Split/Reader.antt =====
-- MarkedMustache.tsx: `splitByUnescapedSeparator` against a reader that goes through the name once.
use mwdb_core.Common.{
  ℕ, zero, suc, ◌≡◌, refl, sym, ap, ◌∙◌, Bool, true, false, List, [], ◌∷◌, ◌++◌, ◌==◌,
  if◌then◌else◌, arith, append_assoc, append-nil,
}
use mwdb_core.Common.Text.{Text}
use mwdb_core.Rich.Split.{append_to_last_element, without_last, unescaped, unescape_from}
use mwdb_core.Rich.Split.Runs.{backslashes, twice, unescape_from-even, unescape_from-odd}

abbrev pub close_part : Bool → Text → List Text → List Text
close_part true part rest = part ∷ rest
close_part false part rest = rest

abbrev pub read_unit : ℕ → Text → ℕ → Text
read_unit separator part c = if c == separator then [] else if c == 92 then part else part ++ c ∷ []

-- The parts of a name: a backslash takes the meaning from a separator or a backslash behind it, and
-- stands for itself before another unit. `held` tells that the last unit was such a backslash.
unfoldable pub read_parts : ℕ → Bool → Text → Text → List Text
read_parts separator true part [] = (part ++ 92 ∷ []) ∷ []
read_parts separator false part [] = part ∷ []
read_parts separator true part (c ∷ s) =
    read_parts separator false (part ++ unescaped separator true c) s
read_parts separator false part (c ∷ s) =
    close_part (c == separator) part (read_parts separator (c == 92) (read_unit separator part c) s)

pub append_to_last_element_lem :
    (acc : List Text) (x v : Text) → append_to_last_element (acc ++ x ∷ []) v ≡ acc ++ (x ++ v) ∷ []
unfolding append_to_last_element
append_to_last_element_lem [] x v = refl
append_to_last_element_lem (y ∷ []) x v = refl
append_to_last_element_lem (y ∷ z ∷ acc) x v =
    ap (λ t. y ∷ t) (append_to_last_element_lem (z ∷ acc) x v)

pub without_last-append : (s : Text) (c : ℕ) → without_last (s ++ c ∷ []) ≡ s
unfolding without_last
without_last-append [] c = refl
without_last-append (x ∷ []) c = refl
without_last-append (x ∷ y ∷ s) c = ap (λ t. x ∷ t) (without_last-append (y ∷ s) c)

module _ (separator : ℕ) (other : (separator == 92) ≡ false) where
  abbrev pub unescape : Text → Text
  unescape = unescape_from separator false

  -- What is read stands for this part, whatever comes behind it.
  abbrev pub Reads : Text → Text → Type 0
  Reads part cooked = (t : Text) → unescape (part ++ t) ≡ cooked ++ unescape t

  pub Reads-append :
      (part cooked piece cooked_piece : Text)
      → Reads part cooked
      → Reads piece cooked_piece
      → Reads (part ++ piece) (cooked ++ cooked_piece)
  Reads-append part cooked piece cooked_piece h k t =
      ap unescape (append_assoc part piece t)
      ∙ h (piece ++ t)
      ∙ ap (λ u. cooked ++ u) (k t)
      ∙ sym (append_assoc cooked cooked_piece (unescape t))

  pub Reads-plain : (c : ℕ) → (c == 92) ≡ false → Reads (c ∷ []) (c ∷ [])
  unfolding unescape_from
  Reads-plain c h t = rw h refl

  pub Reads-even :
      (j c : ℕ)
      → (c == 92) ≡ false
      → Reads (backslashes (twice j) ++ c ∷ []) (backslashes j ++ c ∷ [])
  Reads-even j c h =
      Reads-append (backslashes (twice j)) (backslashes j) (c ∷ []) (c ∷ [])
        (unescape_from-even separator other j) (Reads-plain c h)

  pub Reads-odd :
      (j c : ℕ)
      → Reads (backslashes (suc (twice j)) ++ c ∷ []) (backslashes j ++ unescaped separator true c)
  Reads-odd j c t =
      ap unescape (append_assoc (backslashes (suc (twice j))) (c ∷ []) t)
      ∙ unescape_from-odd separator other j c t

  pub Reads-all : (part cooked : Text) → Reads part cooked → unescape part ≡ cooked
  unfolding unescape_from
  Reads-all part cooked h = ap unescape (sym (append-nil part)) ∙ h [] ∙ append-nil cooked

  pub unescaped-backslash : unescaped separator true 92 ≡ 92 ∷ []
  unescaped-backslash = ground arith

  pub backslash_apart : ((92 == separator) ≡ false)
  backslash_apart = ground (arith, other)

  pub read_parts-escape :
      (c : ℕ) (part s : Text)
      → read_parts separator false part (92 ∷ c ∷ s)
        ≡ read_parts separator false (part ++ unescaped separator true c) s
  unfolding read_parts
  read_parts-escape c part s = rw backslash_apart refl

  pub read_parts-pair :
      (part s : Text)
      → read_parts separator false part (92 ∷ 92 ∷ s)
        ≡ read_parts separator false (part ++ 92 ∷ []) s
  read_parts-pair part s =
      read_parts-escape 92 part s
      ∙ ap (λ t. read_parts separator false (part ++ t) s) unescaped-backslash

  pub read_parts-even :
      (j : ℕ) (part s : Text)
      → read_parts separator false part (backslashes (twice j) ++ s)
        ≡ read_parts separator false (part ++ backslashes j) s
  read_parts-even zero part s = ap (λ t. read_parts separator false t s) (sym (append-nil part))
  read_parts-even (suc j) part s =
      read_parts-pair part (backslashes (twice j) ++ s)
      ∙ read_parts-even j (part ++ 92 ∷ []) s
      ∙ ap (λ t. read_parts separator false t s) (append_assoc part (92 ∷ []) (backslashes j))

  pub read_parts-odd :
      (j c : ℕ) (part s : Text)
      → read_parts separator false part (backslashes (suc (twice j)) ++ c ∷ s)
        ≡ read_parts separator false (part ++ (backslashes j ++ unescaped separator true c)) s
  read_parts-odd zero c part s = read_parts-escape c part s
  read_parts-odd (suc j) c part s =
      read_parts-pair part (backslashes (suc (twice j)) ++ c ∷ s)
      ∙ read_parts-odd j c (part ++ 92 ∷ []) s
      ∙ ap (λ t. read_parts separator false t s)
          (append_assoc part (92 ∷ []) (backslashes j ++ unescaped separator true c))

  pub read_parts-odd_at_end :
      (j : ℕ) (part : Text)
      → read_parts separator false part (backslashes (suc (twice j)))
        ≡ (part ++ (backslashes j ++ 92 ∷ [])) ∷ []
  unfolding read_parts
  read_parts-odd_at_end zero part = rw backslash_apart refl
  read_parts-odd_at_end (suc j) part =
      read_parts-pair part (backslashes (suc (twice j)))
      ∙ read_parts-odd_at_end j (part ++ 92 ∷ [])
      ∙ ap (λ t. t ∷ []) (append_assoc part (92 ∷ []) (backslashes j ++ 92 ∷ []))

  pub read_parts-plain :
      (c : ℕ) (part s : Text)
      → (c == 92) ≡ false
      → (c == separator) ≡ false
      → read_parts separator false part (c ∷ s) ≡ read_parts separator false (part ++ c ∷ []) s
  unfolding read_parts
  read_parts-plain c part s h h' = rw (h, h') refl

  pub read_parts-separator :
      (part s : Text)
      → read_parts separator false part (separator ∷ s) ≡ part ∷ read_parts separator false [] s
  unfolding read_parts
  read_parts-separator part s =
      let same : (separator == separator) ≡ true = ground arith in rw (same, other) refl
