-- ===== src/Suggest/Live/Fresh.antt =====
-- The suggestions on the screen belong to the current query.
use mwdb_core.Common.{
  ℕ, zero, suc, ◌≡◌, refl, sym, subst, Bool, true, false, some, List, [], ◌∷◌, arith, get_elem?,
  All, Bool-cases, inl, inr,
}
use mathlib.Core.Option.{some-injective}
use mwdb_core.Suggest.Live.{
  Run, Hook, invalidate, change, settle, changes, settles, Reach, initially, next,
}

abbrev IsOver {ℓ} : {I : Type ℓ} → Run I → Type 0
IsOver r = r.valid ≡ false

-- Only the last run may be valid.
abbrev Older {ℓ} : {I : Type ℓ} → List (Run I) → Type 0
Older [] = Unit
Older (r ∷ runs) = All IsOver runs

All-get_elem? {ℓ} :
    {I : Type ℓ} (runs : List (Run I)) (i : ℕ) {r : Run I}
    → All IsOver runs
    → get_elem? runs i ≡ some r
    → r.valid ≡ false
All-get_elem? [] i h e = cc
All-get_elem? (q ∷ runs) zero (h, hs) e = ground arith
All-get_elem? (q ∷ runs) (suc i) (h, hs) e = All-get_elem? runs i hs e

All-invalidate {ℓ} : {I : Type ℓ} (runs : List (Run I)) → Older runs → All IsOver (invalidate runs)
All-invalidate [] h = tt
All-invalidate (r ∷ runs) h = (refl, h)

module _ {ℓ} {I S : Type ℓ} (Answer : I → List S → Type ℓ) where
  -- What is shown once the last run has settled is an answer to it.
  abbrev Shown : List (Run I) → List S → Bool → Type ℓ
  Shown [] ss loading = Unit
  Shown (r ∷ runs) ss loading = loading ≡ false → Answer r.input ss

  record IsFresh (h : Hook I S) : Type ℓ where
    older : Older h.runs
    shown : Shown h.runs h.suggestions h.loading

  Shown-settled :
      (runs : List (Run I)) (i : ℕ) (r : Run I) (answer : List S)
      → get_elem? runs i ≡ some r
      → r.valid ≡ true
      → Answer r.input answer
      → Older runs
      → Shown runs answer false
  Shown-settled [] i r answer e v a o = cc
  Shown-settled (q ∷ runs) zero r answer e v a o =
      λ h. subst (λ p. Answer p.input answer) (sym (some-injective _ _ e)) a
  Shown-settled (q ∷ runs) (suc i) r answer e v a o = λ h. cc (All-get_elem? runs i o e)

  settle-IsFresh :
      (h : Hook I S) (i : ℕ) (r : Run I) (answer : List S)
      → get_elem? h.runs i ≡ some r
      → Answer r.input answer
      → IsFresh h
      → IsFresh (settle h r answer)
  unfolding settle
  settle-IsFresh h i r answer e a v = elim (Bool-cases r.valid) [
    | inl valid ↦
        rw valid
          (record { older = v.older; shown = Shown-settled h.runs i r answer e valid a v.older })
    | inr over ↦ rw over v
  ]

  change-IsFresh : (h : Hook I S) (input : I) → IsFresh h → IsFresh (change h input)
  unfolding change
  change-IsFresh h input v = record { older = All-invalidate h.runs v.older; shown = λ e. cc }

  Reach-IsFresh : {h : Hook I S} → Reach Answer h → IsFresh h
  Reach-IsFresh initially = record { older = tt; shown = tt }
  Reach-IsFresh (next r (changes h input)) = change-IsFresh h input (Reach-IsFresh r)
  Reach-IsFresh (next r (settles h i q answer e a)) =
      settle-IsFresh h i q answer e a (Reach-IsFresh r)

  -- In every reachable state of the hook that is not loading, what is shown is an answer to the
  -- current inputs, however late the answers to earlier inputs come.
  pub suggestions_fresh :
      {h : Hook I S}
      → Reach Answer h
      → (r : Run I) (runs : List (Run I)) → h.runs ≡ r ∷ runs
      → h.loading ≡ false
      → Answer r.input h.suggestions
  suggestions_fresh {h} reach r runs e l =
      subst (λ rs. Shown rs h.suggestions h.loading) e (Reach-IsFresh reach).shown l
