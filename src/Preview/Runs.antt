-- ===== src/Preview/Runs.antt =====
-- commons/helpers/preview.ts: what `extractPrintableSequences` finds.
use mwdb_core.Common.{
  ℕ, ◌≤◌, ◌≡◌, refl, sym, ap, subst, Bool, true, false, List, [], ◌∷◌, ◌++◌, not, leb, leb→le,
  le→leb, every, All, append-nil, append_assoc, and-eq-true, Bool-cases, inl, inr, length, ◌∙◌,
  arith,
}
use mathlib.Core.List.{Memᴰ}
use mathlib.Core.Logic.{◌↔◌}
use mwdb_core.Common.Text.{Text}
use mwdb_core.Preview.Content.{flush, sequences_from}

All-Mem {ℓ κ} : {A : Type ℓ} (P : A → Type κ) (xs : List A) (a : A) → All P xs → Memᴰ a xs → P a
All-Mem P [] a h m = elim m [ ]
All-Mem P (x ∷ xs) a (h, hs) (Memᴰ.head e) = subst P (sym e) h
All-Mem P (x ∷ xs) a (h, hs) (Memᴰ.tail m) = All-Mem P xs a hs m

module _ (p : ℕ → Bool) where
  -- no part of a run stands at the end, or at the start
  unfoldable pub ends_closed : List ℕ → Bool
  ends_closed [] = true
  ends_closed (c ∷ []) = not (p c)
  ends_closed (c ∷ d ∷ ds) = ends_closed (d ∷ ds)

  unfoldable pub starts_closed : List ℕ → Bool
  starts_closed [] = true
  starts_closed (c ∷ _) = not (p c)

  -- `s` is a stretch of printable codes that cannot be made longer on either side.
  pub record IsRun (codes s : List ℕ) : Type 0 where
    pub before : List ℕ
    pub after : List ℕ
    pub split : codes ≡ before ++ (s ++ after)
    pub printable : every p s ≡ true
    pub before_closed : ends_closed before ≡ true
    pub after_closed : starts_closed after ≡ true

  ends_closed-append : (xs : List ℕ) (c : ℕ) → p c ≡ false → ends_closed (xs ++ c ∷ []) ≡ true
  unfolding ends_closed
  ends_closed-append [] c h = rw h refl
  ends_closed-append (x ∷ []) c h = rw h refl
  ends_closed-append (x ∷ y ∷ xs) c h = ends_closed-append (y ∷ xs) c h

  every-snoc :
      (xs : List ℕ) (c : ℕ) → every p xs ≡ true → p c ≡ true → every p (xs ++ c ∷ []) ≡ true
  every-snoc [] c h e = rw e refl
  every-snoc (x ∷ xs) c h e = ground (arith, every-snoc xs c)

  module _ (min_length : ℕ) where
    abbrev pub IsLongRun : List ℕ → Text → Type 0
    IsLongRun codes s = IsRun codes s × (min_length ≤ length s)

    flush-All {ℓ} :
        (P : Text → Type ℓ) (current : Text) (later : List Text)
        → (min_length ≤ length current → P current)
        → All P later
        → All P (flush min_length current later)
    flush-All P current later h hs = elim (Bool-cases (leb min_length (length current))) [
      | inl e ↦ rw e (h (leb→le min_length (length current) e), hs)
      | inr e ↦ rw e hs
    ]

    found_from :
        (codes passed current rest : List ℕ)
        → codes ≡ passed ++ (current ++ rest)
        → ends_closed passed ≡ true
        → every p current ≡ true
        → All (IsLongRun codes) (sequences_from p min_length current rest)
    unfolding sequences_from starts_closed
    found_from codes passed current [] e closed inner =
        flush-All (IsLongRun codes) current []
          (λ h. (
            record {
              before = passed;
              after = [];
              split = e;
              printable = inner;
              before_closed = closed;
              after_closed = refl;
            },
            h,
          ))
          tt
    found_from codes passed current (c ∷ rest) e closed inner = elim (Bool-cases (p c)) [
      | inl h ↦ rw h (
          found_from codes passed (current ++ c ∷ []) rest
            (e ∙ ap (λ t. passed ++ t) (sym (append_assoc current (c ∷ []) rest))) closed
            (every-snoc current c inner h))
      | inr h ↦ rw h (
          flush-All (IsLongRun codes) current _
            (λ l. (
              record {
                before = passed;
                after = c ∷ rest;
                split = e;
                printable = inner;
                before_closed = closed;
                after_closed = rw h refl;
              },
              l,
            ))
            (found_from codes (passed ++ (current ++ c ∷ [])) [] rest (e ∙ simp append_assoc refl)
              (subst (λ t. ends_closed t ≡ true) (append_assoc passed current (c ∷ []))
                (ends_closed-append (passed ++ current) c h))
              refl))
    ]

    flush-Mem :
        (current : Text) (later : List Text) (s : Text)
        → Memᴰ s later
        → Memᴰ s (flush min_length current later)
    flush-Mem current later s m = elim (Bool-cases (leb min_length (length current))) [
      | inl e ↦ rw e (Memᴰ.tail m)
      | inr e ↦ rw e m
    ]

    flush-long :
        (current : Text) (later : List Text)
        → min_length ≤ length current
        → Memᴰ current (flush min_length current later)
    flush-long current later h = rw (le→leb min_length (length current) h) (Memᴰ.head refl)

    -- a run that the loop is inside of
    run-found :
        (current s after : List ℕ)
        → every p s ≡ true
        → starts_closed after ≡ true
        → min_length ≤ length (current ++ s)
        → Memᴰ (current ++ s) (sequences_from p min_length current (s ++ after))
    unfolding sequences_from starts_closed
    run-found current [] [] inner closed h =
        rw (append-nil current)
          (flush-long current [] (subst (λ t. min_length ≤ length t) (append-nil current) h))
    run-found current [] (c ∷ after) inner closed h = elim (Bool-cases (p c)) [
      | inl e ↦ cc
      | inr e ↦
          rw (append-nil current, e)
            (flush-long current _ (subst (λ t. min_length ≤ length t) (append-nil current) h))
    ]
    run-found current (c ∷ s) after inner closed h =
        let both = and-eq-true (p c) (every p s) inner in
        rw (both.0) (
          subst (λ t. Memᴰ t (sequences_from p min_length (current ++ c ∷ []) (s ++ after)))
            (append_assoc current (c ∷ []) s)
            (run-found (current ++ c ∷ []) s after both.1 closed
              (subst (λ t. min_length ≤ length t) (sym (append_assoc current (c ∷ []) s)) h)))

    -- what stands before a run does not keep it from being found
    skip-found :
        (current before rest s : List ℕ)
        → 1 ≤ length before
        → ends_closed before ≡ true
        → Memᴰ s (sequences_from p min_length [] rest)
        → Memᴰ s (sequences_from p min_length current (before ++ rest))
    unfolding sequences_from ends_closed
    skip-found current [] rest s filled closed m = absurd (omega arith)
    skip-found current (c ∷ []) rest s filled closed m = elim (Bool-cases (p c)) [
      | inl e ↦ absurd (ground arith)
      | inr e ↦ rw e (flush-Mem current _ s m)
    ]
    skip-found current (c ∷ d ∷ ds) rest s filled closed m = elim (Bool-cases (p c)) [
      | inl e ↦ rw e (skip-found (current ++ c ∷ []) (d ∷ ds) rest s (omega arith) closed m)
      | inr e ↦ rw e (flush-Mem current _ s (skip-found [] (d ∷ ds) rest s (omega arith) closed m))
    ]

    found_at :
        (before after s : List ℕ)
        → every p s ≡ true
        → ends_closed before ≡ true
        → starts_closed after ≡ true
        → min_length ≤ length s
        → Memᴰ s (sequences_from p min_length [] (before ++ (s ++ after)))
    found_at [] after s inner closed closed' h = run-found [] s after inner closed' h
    found_at (c ∷ cs) after s inner closed closed' h =
        skip-found [] (c ∷ cs) (s ++ after) s (omega arith) closed
          (run-found [] s after inner closed' h)

    -- The loop pushes a text exactly if it is a stretch of printable codes of at least the least
    -- length that no printable code stands beside.
    pub sequences_from_iff :
        (codes : List ℕ) (s : Text)
        → Memᴰ s (sequences_from p min_length [] codes) ↔ IsLongRun codes s
    unfolding ends_closed
    sequences_from_iff codes s = (
      All-Mem (IsLongRun codes) _ s (found_from codes [] [] codes refl refl refl),
      λ h.
          subst (λ t. Memᴰ s (sequences_from p min_length [] t)) (sym h.0.split)
            (found_at h.0.before h.0.after s h.0.printable h.0.before_closed h.0.after_closed h.1),
    )
