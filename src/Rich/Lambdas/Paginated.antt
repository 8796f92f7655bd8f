-- ===== src/Rich/Lambdas/Paginated.antt =====
-- builtinLambdas.tsx: what `paginated` shows behind some clicks.
use mwdb_core.Common.{
  ℕ, zero, suc, ◌+◌, ◌*◌, ◌≤◌, ◌≡◌, refl, List, [], ◌∷◌, ◌++◌, Option, none, length, take, map, ltb,
  arith, false, ap,
}
use mwdb_core.Common.Text.{Text}
use mwdb_core.Common.Strings.{join}
use mwdb_core.Rich.Lambdas.{indented_trim, header_line, paginated, limit_after}

take-all : {A : Type 0} (n : ℕ) (xs : List A) → length xs ≤ n → take n xs ≡ xs
take-all zero [] h = refl
take-all zero (x ∷ xs) h = absurd (omega arith)
take-all (suc n) [] h = refl
take-all (suc n) (x ∷ xs) h = ap (λ t. x ∷ t) (take-all n xs (omega arith))

limit_after_lem : (clicks : ℕ) → limit_after clicks ≡ 5 + 10 * clicks
unfolding limit_after
limit_after_lem zero = omega arith
limit_after_lem (suc clicks) = omega (arith, limit_after_lem clicks)

-- Behind enough clicks, ten elements for each and five before, all elements are shown, in their order
-- and behind the header, and there is no button.
pub paginated-limit_after :
    {A : Type 0} (shown : A → Text) (header : Option Text) (clicks : ℕ) (elements : List A)
    → length elements ≤ 5 + 10 * clicks
    → paginated shown header (limit_after clicks) elements
      ≡ (header_line header ++ join (map (λ x. indented_trim (shown x)) elements) (10 ∷ []), none)
unfolding paginated
paginated-limit_after shown header clicks elements h =
    let enough : length elements ≤ limit_after clicks = omega (arith, limit_after_lem clicks) in
    let closed : ltb (limit_after clicks) (length elements) ≡ false = ground arith in
    rw (take-all (limit_after clicks) elements enough, closed) refl
