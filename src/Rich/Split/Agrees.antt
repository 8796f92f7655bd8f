-- ===== src/Rich/Split/Agrees.antt =====
-- MarkedMustache.tsx: `splitByUnescapedSeparator` agrees with the reader, on every shape of a name.
use mwdb_core.Common.{
  ℕ, suc, ◌≡◌, refl, sym, ap, subst, ◌∙◌, true, false, List, [], ◌∷◌, ◌++◌, ◌==◌, ==_iff,
  Bool-cases, inl, inr, append_assoc, append-nil, arith,
}
use mwdb_core.Common.Text.{Text}
use mwdb_core.Rich.Split.{
  split_from, unescaped, unescape_from, gather, is_literal, split_by_unescaped_separator,
}
use mwdb_core.Rich.Split.Runs.{
  backslashes, twice, parity, even, odd, Shape, done, plain, cut, run, run_at_end, shape,
  delimiter-odd, delimiter-other, unescape_from-even, unescape_from-odd_at_end, split_from-passed,
  split_from-passed_at_end, split_from-cut,
}
use mwdb_core.Rich.Split.Reader.{
  append_to_last_element_lem, without_last-append, Reads-append, Reads-even, Reads-odd, Reads-all,
  read_parts-even, read_parts-odd, read_parts-odd_at_end, read_parts-plain, read_parts-separator,
  Reads, unescape, read_parts,
}

module _ (separator : ℕ) (other : (separator == 92) ≡ false) where
  -- The claim for a place in the name, where the part so far is read as `cooked`.
  abbrev Agrees : Text → Type 0
  Agrees s =
      (acc : List Text) (part cooked : Text)
      → Reads separator other part cooked
      → gather separator acc false (split_from separator 0 false part s)
        ≡ acc ++ read_parts separator false cooked s

  Agrees-done : Agrees []
  unfolding split_from gather read_parts
  Agrees-done acc part cooked h = ap (λ t. acc ++ t ∷ []) (Reads-all separator other part cooked h)

  Agrees-piece :
      (piece cooked_piece rest s : Text)
      → ((part : Text)
          → split_from separator 0 false part s ≡ split_from separator 0 false (part ++ piece) rest)
      → ((part : Text)
          → read_parts separator false part s
            ≡ read_parts separator false (part ++ cooked_piece) rest)
      → Reads separator other piece cooked_piece
      → Agrees rest
      → Agrees s
  Agrees-piece piece cooked_piece rest s split read k ih acc part cooked h =
      ap (λ t. gather separator acc false t) (split part)
      ∙ ih acc (part ++ piece) (cooked ++ cooked_piece)
          (Reads-append separator other part cooked piece cooked_piece h k)
      ∙ ap (λ t. acc ++ t) (sym (read cooked))

  Agrees-last :
      (piece cooked_piece : Text) (s : Text)
      → ((part : Text) → split_from separator 0 false part s ≡ (part ++ piece) ∷ [])
      → ((part : Text) → read_parts separator false part s ≡ (part ++ cooked_piece) ∷ [])
      → unescape separator other piece ≡ cooked_piece
      → Agrees s
  unfolding gather
  Agrees-last piece cooked_piece s split read k acc part cooked h =
      ap (λ t. gather separator acc false t) (split part)
      ∙ ap (λ t. acc ++ t ∷ []) (h piece ∙ ap (λ t. cooked ++ t) k)
      ∙ ap (λ t. acc ++ t) (sym (read cooked))

  gather-match :
      (j : ℕ) (acc : List Text) (part cooked : Text) (later : List Text)
      → Reads separator other part cooked
      → gather separator acc false (part ∷ (backslashes (twice j) ++ separator ∷ []) ∷ later)
        ≡ gather separator (acc ++ (cooked ++ backslashes j) ∷ []) false later
  unfolding gather
  gather-match j acc part cooked later h = rw (Reads-all separator other part cooked h) (
      rw
        (Reads-all separator other (backslashes (twice j) ++ separator ∷ [])
          (backslashes j ++ separator ∷ []) (Reads-even separator other j separator other))
        (rw
          (
            without_last-append (backslashes j) separator,
            append_to_last_element_lem acc cooked (backslashes j),
          )
          refl))

  Agrees-cut : (j : ℕ) (s : Text) → Agrees s → Agrees (backslashes (twice j) ++ separator ∷ s)
  unfolding unescape_from
  Agrees-cut j s ih acc part cooked h =
      ap (λ t. gather separator acc false t) (split_from-cut separator other j part s)
      ∙ gather-match j acc part cooked (split_from separator 0 false [] s) h
      ∙ ih (acc ++ (cooked ++ backslashes j) ∷ []) [] [] (λ t. refl)
      ∙ append_assoc acc ((cooked ++ backslashes j) ∷ []) (read_parts separator false [] s)
      ∙ ap (λ t. acc ++ t)
          (sym (
            read_parts-even separator other j cooked (separator ∷ s)
            ∙ read_parts-separator separator other (cooked ++ backslashes j) s))

  Agrees-even :
      (j c : ℕ) (s : Text) → (c == 92) ≡ false → Agrees s → Agrees (backslashes (twice j) ++ c ∷ s)
  Agrees-even j c s h ih = elim (Bool-cases (c == separator)) [
    | inl e ↦
        subst (λ (x : ℕ). Agrees (backslashes (twice j) ++ x ∷ s)) (sym ((==_iff c separator).0 e))
          (Agrees-cut j s ih)
    | inr e ↦
        Agrees-piece (backslashes (twice j) ++ c ∷ []) (backslashes j ++ c ∷ []) s _
          (λ part.
            split_from-passed separator other (twice j) c part s h
              (delimiter-other separator other (twice j) c s h e))
          (λ part.
            read_parts-even separator other j part (c ∷ s)
            ∙ read_parts-plain separator other c (part ++ backslashes j) s h e
            ∙ ap (λ t. read_parts separator false t s) (append_assoc part (backslashes j) (c ∷ [])))
          (Reads-even separator other j c h) ih
  ]

  Agrees-odd :
      (j c : ℕ) (s : Text)
      → (c == 92) ≡ false
      → Agrees s
      → Agrees (backslashes (suc (twice j)) ++ c ∷ s)
  Agrees-odd j c s h ih =
      Agrees-piece (backslashes (suc (twice j)) ++ c ∷ [])
        (backslashes j ++ unescaped separator true c) s _
        (λ part.
          split_from-passed separator other (suc (twice j)) c part s h
            (delimiter-odd separator other j c s h))
        (λ part. read_parts-odd separator other j c part s) (Reads-odd separator other j c) ih

  Agrees-run : (n c : ℕ) (s : Text) → (c == 92) ≡ false → Agrees s → Agrees (backslashes n ++ c ∷ s)
  Agrees-run n c s h ih = elim (parity n) [
    | even j e ↦ subst (λ (m : ℕ). Agrees (backslashes m ++ c ∷ s)) (sym e) (Agrees-even j c s h ih)
    | odd j e ↦ subst (λ (m : ℕ). Agrees (backslashes m ++ c ∷ s)) (sym e) (Agrees-odd j c s h ih)
  ]

  unescape-even_at_end : (j : ℕ) → unescape separator other (backslashes (twice j)) ≡ backslashes j
  unfolding unescape_from
  unescape-even_at_end j =
      ap (unescape separator other) (sym (append-nil (backslashes (twice j))))
      ∙ unescape_from-even separator other j []
      ∙ append-nil (backslashes j)

  Agrees-run_at_end : (n : ℕ) → Agrees (backslashes n ++ [])
  unfolding read_parts
  Agrees-run_at_end n = elim (parity n) [
    | even j e ↦
        subst (λ (m : ℕ). Agrees (backslashes m ++ [])) (sym e)
          (Agrees-last (backslashes (twice j)) (backslashes j) _
            (split_from-passed_at_end separator other (twice j))
            (λ part. read_parts-even separator other j part []) (unescape-even_at_end j))
    | odd j e ↦
        subst (λ (m : ℕ). Agrees (backslashes m ++ [])) (sym e)
          (Agrees-last (backslashes (suc (twice j))) (backslashes j ++ 92 ∷ []) _
            (split_from-passed_at_end separator other (suc (twice j)))
            (λ part.
              ap (λ t. read_parts separator false part t) (append-nil (backslashes (suc (twice j))))
              ∙ read_parts-odd_at_end separator other j part)
            (unescape_from-odd_at_end separator other j))
  ]

  Shape-Agrees : {s : Text} → Shape separator s → Agrees s
  Shape-Agrees done = Agrees-done
  Shape-Agrees (plain c s h h' sh) = Agrees-run 0 c s h (Shape-Agrees sh)
  Shape-Agrees (cut s sh) = Agrees-cut 0 s (Shape-Agrees sh)
  Shape-Agrees (run n c s h sh) = Agrees-run (suc n) c s h (Shape-Agrees sh)
  Shape-Agrees (run_at_end n) = Agrees-run_at_end (suc n)

  split_as_read :
      (name : Text)
      → split_by_unescaped_separator name separator ≡ read_parts separator false [] name
  unfolding split_by_unescaped_separator unescape_from
  split_as_read name = Shape-Agrees (shape separator other name) [] [] [] (λ t. refl)

not_backslash : (separator : ℕ) → is_literal separator ≡ true → (separator == 92) ≡ false
not_backslash separator h = ground (arith, h)

-- For a separator that stands for itself in the class of a regular expression, which the backslash, `]`
-- and `^` do not, the two regular expressions and the `reduce` read a name as the reader does that goes
-- through it once.
pub split-reads :
    (separator : ℕ)
    → is_literal separator ≡ true
    → (name : Text)
    → split_by_unescaped_separator name separator ≡ read_parts separator false [] name
split-reads separator h = split_as_read separator (not_backslash separator h)
