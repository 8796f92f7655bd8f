-- ===== src/Ui/Highlight/Partition.antt =====
-- HighlightText.tsx: the loop ends, and its pieces put together are the text.
use mwdb_core.Common.{
  ℕ, zero, suc, ◌+◌, ◌≤◌, ◌<◌, ◌≡◌, refl, sym, ap, ◌∙◌, Option, none, some, List, [], ◌∷◌, ◌++◌,
  length, take, drop, Option-cases, Bool-cases, inl, inr, arith, append-nil, length-append,
}
use mathlib.Core.Option.{some-injective}
use mwdb_core.Common.Text.{Text, starts_with, starts_with_split}
use mwdb_core.Ui.Highlight.{
  next_index, index_of, Piece, plain, marked, prepend, show_round, highlight_from, highlight_text,
  shown,
}

-- A match lies within the text.
index_of-bound : (s part : Text) (k : ℕ) → index_of s part ≡ some k → k + length part ≤ length s
unfolding index_of starts_with
index_of-bound [] [] k e = omega (arith, some-injective _ _ e)
index_of-bound [] (p ∷ part) k e = absurd (cc e)
index_of-bound (c ∷ s) part k e = elim (Bool-cases (starts_with (c ∷ s) part)) [
  | inl h ↦
      let z : some 0 ≡ some k = sym (rw h refl) ∙ e in
      omega (
        arith,
        some-injective _ _ z,
        ap (λ (t : Text). length t) (starts_with_split (c ∷ s) part h),
        length-append part (drop (length part) (c ∷ s)),
      )
  | inr h ↦
      let z : next_index (index_of s part) ≡ some k = sym (rw h refl) ∙ e in
      elim (Option-cases (index_of s part)) [
        | inl n ↦ absurd (cc (n, z))
        | inr (j, f) ↦
            let w : some (suc j) ≡ some k = sym (ap next_index f) ∙ z in
            omega (arith, some-injective _ _ w, index_of-bound s part j f)
      ]
]

length-drop : (n : ℕ) (s : Text) → n ≤ length s → length (drop n s) + n ≡ length s
length-drop zero s h = omega arith
length-drop (suc n) [] h = omega (arith, h)
length-drop (suc n) (c ∷ s) h = omega (arith, length-drop n s (omega (arith, h)))

append-take : (k : ℕ) (s : Text) → take k s ++ drop k s ≡ s
append-take zero s = refl
append-take (suc k) [] = refl
append-take (suc k) (c ∷ s) = ap (λ t. c ∷ t) (append-take k s)

drop-nil : (n : ℕ) → drop {A = ℕ} n [] ≡ []
drop-nil zero = refl
drop-nil (suc n) = refl

drop-drop : (n k : ℕ) (s : Text) → drop (n + k) s ≡ drop k (drop n s)
drop-drop zero k s = ap (λ m. drop m s) (omega arith)
drop-drop (suc n) k [] = drop-nil (suc n + k) ∙ sym (drop-nil k)
drop-drop (suc n) k (c ∷ s) =
    let e : suc n + k ≡ suc (n + k) = omega arith in ap (λ m. drop m (c ∷ s)) e ∙ drop-drop n k s

slice-join : (n k : ℕ) (s : Text) → take k (drop n s) ++ drop (n + k) s ≡ drop n s
slice-join n k s = ap (λ t. take k (drop n s) ++ t) (drop-drop n k s) ∙ append-take k (drop n s)

module _ (children lowered filter : Text) where
  abbrev Partitions : ℕ → Option (List Piece) → Type 0
  Partitions prev r =
      (pieces : List Piece) × (r ≡ some pieces) × (shown pieces ≡ drop prev children)

  show_round-Partitions :
      (prev : ℕ) (found : Option ℕ) (rest : ℕ → Option (List Piece))
      → ((k : ℕ)
          → found ≡ some k
          → Partitions (prev + k + length filter) (rest (prev + k + length filter)))
      → Partitions prev (show_round children lowered filter prev found rest)
  unfolding shown
  show_round-Partitions prev none rest h =
      (plain (drop prev children) ∷ [], refl, append-nil (drop prev children))
  show_round-Partitions prev (some k) rest h =
      let (pieces, e, p) = h k refl in
      (
        plain (take k (drop prev children))
            ∷ marked (take (length filter) (drop (prev + k) children))
            ∷ pieces,
        ap (prepend (take k (drop prev children)) (take (length filter) (drop (prev + k) children)))
            e,
        ap
              (λ t.
                take k (drop prev children)
                ++ (take (length filter) (drop (prev + k) children) ++ t))
              p
            ∙ ap (λ t. take k (drop prev children) ++ t)
                (slice-join (prev + k) (length filter) children)
            ∙ slice-join prev k children,
      )

  highlight_from-Partitions :
      (fuel prev : ℕ)
      → 0 < length filter
      → prev ≤ length lowered
      → length lowered < fuel + prev
      → Partitions prev (highlight_from children lowered filter fuel prev)
  unfolding highlight_from
  highlight_from-Partitions zero prev nonempty within enough =
      absurd (omega (arith, within, enough))
  highlight_from-Partitions (suc fuel) prev nonempty within enough =
      show_round-Partitions prev (index_of (drop prev lowered) filter)
        (λ next. highlight_from children lowered filter fuel next)
        (λ k e.
          let b : k + length filter ≤ length (drop prev lowered) =
            index_of-bound (drop prev lowered) filter k e in
          let d : length (drop prev lowered) + prev ≡ length lowered =
            length-drop prev lowered within in
          highlight_from-Partitions fuel (prev + k + length filter) nonempty (omega (arith, b, d))
            (omega (arith, nonempty, enough)))

-- If lower case leaves no text with a unit empty, the loop ends, whatever text and filter are, and the
-- pieces put together are the text: nothing is lost or shown twice, also if lower case changes lengths.
pub highlight_text-shown :
    (lower : Text → Text) (children filter : Text)
    → ((c : ℕ) (s : Text) → 0 < length (lower (c ∷ s)))
    → (pieces : List Piece) × (highlight_text lower children filter ≡ some pieces)
      × (shown pieces ≡ children)
unfolding highlight_text shown
highlight_text-shown lower children [] nonempty = (plain children ∷ [], refl, append-nil children)
highlight_text-shown lower children (c ∷ filter) nonempty =
    highlight_from-Partitions children (lower children) (lower (c ∷ filter))
      (suc (length (lower children))) 0 (nonempty c filter) (omega arith) (omega arith)
