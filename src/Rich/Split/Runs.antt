-- ===== src/Rich/Split/Runs.antt =====
-- MarkedMustache.tsx: a name as a sequence of runs of backslashes, and what the functions of
-- `splitName` make of a run.
use mwdb_core.Common.{
  ℕ, zero, suc, ◌≡◌, refl, sym, ap, subst, ◌∙◌, Bool, true, false, [], ◌∷◌, ◌++◌, ◌==◌, ==_iff,
  take, replicate, Bool-cases, inl, inr, arith, append_assoc, append-nil,
}
use mwdb_core.Common.Text.{Text}
use mwdb_core.Rich.Split.{delimiter, split_from, unescaped, unescape_from}

abbrev pub backslashes : ℕ → Text
backslashes n = replicate n 92

abbrev pub twice : ℕ → ℕ
twice zero = zero
twice (suc n) = suc (suc (twice n))

pub data Parity (n : ℕ) : Type 0 where
  even : (j : ℕ) → n ≡ twice j → Parity n
  odd : (j : ℕ) → n ≡ suc (twice j) → Parity n

Parity-suc : {n : ℕ} → Parity n → Parity (suc n)
Parity-suc (even j e) = odd j (ap suc e)
Parity-suc (odd j e) = even (suc j) (ap suc e)

pub parity : (n : ℕ) → Parity n
parity zero = even 0 refl
parity (suc n) = Parity-suc (parity n)

-- The ways in which a name goes on.
pub data Shape (separator : ℕ) : Text → Type 0 where
  done : Shape separator []
  plain :
      (c : ℕ) (s : Text)
      → (c == 92) ≡ false
      → (c == separator) ≡ false
      → Shape separator s
      → Shape separator (c ∷ s)
  cut : (s : Text) → Shape separator s → Shape separator (separator ∷ s)
  run :
      (n c : ℕ) (s : Text)
      → (c == 92) ≡ false
      → Shape separator s
      → Shape separator (backslashes (suc n) ++ c ∷ s)
  run_at_end : (n : ℕ) → Shape separator (backslashes (suc n) ++ [])

module _ (separator : ℕ) (other : (separator == 92) ≡ false) where
  Shape-backslash : {s : Text} → Shape separator s → Shape separator (92 ∷ s)
  Shape-backslash done = run_at_end 0
  Shape-backslash (plain c s h h' sh) = run 0 c s h sh
  Shape-backslash (cut s sh) = run 0 separator s other sh
  Shape-backslash (run n c s h sh) = run (suc n) c s h sh
  Shape-backslash (run_at_end n) = run_at_end (suc n)

  pub shape : (s : Text) → Shape separator s
  shape [] = done
  shape (c ∷ s) = elim (Bool-cases (c == 92)) [
    | inl e ↦
        subst (λ (x : ℕ). Shape separator (x ∷ s)) (sym ((==_iff c 92).0 e))
          (Shape-backslash (shape s))
    | inr e ↦ elim (Bool-cases (c == separator)) [
      | inl e' ↦
          subst (λ (x : ℕ). Shape separator (x ∷ s)) (sym ((==_iff c separator).0 e'))
            (cut s (shape s))
      | inr e' ↦ plain c s e e' (shape s)
    ]
  ]

  -- Behind a backslash a run is no delimiter.
  pub split_from-run :
      (n c : ℕ) (part s : Text)
      → (c == 92) ≡ false
      → split_from separator 0 true part (backslashes n ++ c ∷ s)
        ≡ split_from separator 0 false (part ++ (backslashes n ++ c ∷ [])) s
  unfolding split_from
  split_from-run zero c part s h = rw h refl
  split_from-run (suc n) c part s h =
      split_from-run n c (part ++ 92 ∷ []) s h
      ∙ ap (λ t. split_from separator 0 false t s)
          (append_assoc part (92 ∷ []) (backslashes n ++ c ∷ []))

  pub split_from-run_at_end :
      (n : ℕ) (part : Text)
      → split_from separator 0 true part (backslashes n ++ []) ≡ (part ++ backslashes n) ∷ []
  unfolding split_from
  split_from-run_at_end zero part = ap (λ t. t ∷ []) (sym (append-nil part))
  split_from-run_at_end (suc n) part =
      split_from-run_at_end n (part ++ 92 ∷ [])
      ∙ ap (λ t. t ∷ []) (append_assoc part (92 ∷ []) (backslashes n))

  -- The units of a match are passed over.
  pub split_from-skip :
      (n : ℕ) (escaped : Bool) (s : Text)
      → split_from separator (suc n) escaped [] (backslashes n ++ separator ∷ s)
        ≡ split_from separator 0 false [] s
  unfolding split_from
  split_from-skip zero escaped s = rw other refl
  split_from-skip (suc n) escaped s = split_from-skip n true s

  pub delimiter-even :
      (j : ℕ) (s : Text)
      → delimiter separator (backslashes (twice j) ++ separator ∷ s) ≡ suc (twice j)
  unfolding delimiter
  delimiter-even zero [] = ground arith
  delimiter-even zero (d ∷ s) = ground arith
  delimiter-even (suc j) s = rw (delimiter-even j s) (ground (arith, other))

  pub delimiter-odd :
      (j c : ℕ) (s : Text)
      → (c == 92) ≡ false
      → delimiter separator (backslashes (suc (twice j)) ++ c ∷ s) ≡ 0
  unfolding delimiter
  delimiter-odd zero c s h = ground (arith, other)
  delimiter-odd (suc j) c s h = rw (delimiter-odd j c s h) (ground (arith, other))

  pub delimiter-other :
      (n c : ℕ) (s : Text)
      → (c == 92) ≡ false
      → (c == separator) ≡ false
      → delimiter separator (backslashes n ++ c ∷ s) ≡ 0
  unfolding delimiter
  delimiter-other zero c [] h h' = rw h' refl
  delimiter-other zero c (d ∷ s) h h' = ground (arith, h, h')
  delimiter-other (suc zero) c s h h' = ground (arith, other, h)
  delimiter-other (suc (suc n)) c s h h' = rw (delimiter-other n c s h h') (ground (arith, other))

  pub delimiter-run_at_end : (n : ℕ) → delimiter separator (backslashes n ++ []) ≡ 0
  unfolding delimiter
  delimiter-run_at_end zero = refl
  delimiter-run_at_end (suc zero) = ground (arith, other)
  delimiter-run_at_end (suc (suc n)) = rw (delimiter-run_at_end n) (ground (arith, other))

  unescaped-backslash : unescaped separator true 92 ≡ 92 ∷ []
  unescaped-backslash = ground arith

  pub unescape_from-even :
      (j : ℕ) (s : Text)
      → unescape_from separator false (backslashes (twice j) ++ s)
        ≡ backslashes j ++ unescape_from separator false s
  unfolding unescape_from
  unescape_from-even zero s = refl
  unescape_from-even (suc j) s = rw unescaped-backslash (ap (λ t. 92 ∷ t) (unescape_from-even j s))

  pub unescape_from-odd :
      (j c : ℕ) (s : Text)
      → unescape_from separator false (backslashes (suc (twice j)) ++ c ∷ s)
        ≡ (backslashes j ++ unescaped separator true c) ++ unescape_from separator false s
  unfolding unescape_from
  unescape_from-odd zero c s = refl
  unescape_from-odd (suc j) c s =
      rw unescaped-backslash (ap (λ t. 92 ∷ t) (unescape_from-odd j c s))

  pub unescape_from-odd_at_end :
      (j : ℕ)
      → unescape_from separator false (backslashes (suc (twice j))) ≡ backslashes j ++ 92 ∷ []
  unfolding unescape_from
  unescape_from-odd_at_end zero = refl
  unescape_from-odd_at_end (suc j) =
      rw unescaped-backslash (ap (λ t. 92 ∷ t) (unescape_from-odd_at_end j))

  -- A run and the unit behind it, where they do not end with a separator that counts.
  pub split_from-passed :
      (n c : ℕ) (part s : Text)
      → (c == 92) ≡ false
      → delimiter separator (backslashes n ++ c ∷ s) ≡ 0
      → split_from separator 0 false part (backslashes n ++ c ∷ s)
        ≡ split_from separator 0 false (part ++ (backslashes n ++ c ∷ [])) s
  unfolding split_from
  split_from-passed zero c part s h d = rw (d, h) refl
  split_from-passed (suc n) c part s h d = rw d (
      split_from-run n c (part ++ 92 ∷ []) s h
      ∙ ap (λ t. split_from separator 0 false t s)
          (append_assoc part (92 ∷ []) (backslashes n ++ c ∷ [])))

  pub split_from-passed_at_end :
      (n : ℕ) (part : Text)
      → split_from separator 0 false part (backslashes n ++ []) ≡ (part ++ backslashes n) ∷ []
  unfolding split_from
  split_from-passed_at_end zero part = ap (λ t. t ∷ []) (sym (append-nil part))
  split_from-passed_at_end (suc n) part = rw (delimiter-run_at_end (suc n)) (
      split_from-run_at_end n (part ++ 92 ∷ [])
      ∙ ap (λ t. t ∷ []) (append_assoc part (92 ∷ []) (backslashes n)))

  take-run :
      (n : ℕ) (s : Text)
      → take (suc n) (backslashes n ++ separator ∷ s) ≡ backslashes n ++ separator ∷ []
  take-run zero s = refl
  take-run (suc n) s = ap (λ t. 92 ∷ t) (take-run n s)

  pub split_from-cut :
      (j : ℕ) (part s : Text)
      → split_from separator 0 false part (backslashes (twice j) ++ separator ∷ s)
        ≡ part ∷ (backslashes (twice j) ++ separator ∷ []) ∷ split_from separator 0 false [] s
  unfolding split_from
  split_from-cut zero part s = rw (delimiter-even 0 s, other) refl
  split_from-cut (suc j) part s =
      rw (delimiter-even (suc j) s, take-run (suc (suc (twice j))) s)
        (ap (λ t. part ∷ (backslashes (twice (suc j)) ++ separator ∷ []) ∷ t)
          (split_from-skip (twice j) true s))
