-- ===== src/Helpers/Laws.antt =====
-- commons/helpers/index.ts and commons/helpers/paginate.ts: what the functions promise.
use mwdb_core.Common.{
  ℕ, zero, suc, ◌+◌, ◌-◌, ◌*◌, ◌%◌, ◌≤◌, ◌<◌, ◌≡◌, refl, sym, ap, ◌∙◌, subst, true, false, List, [],
  ◌∷◌, ◌++◌, ◌==◌, ◌&&◌, not, length, append_assoc, append-nil, All, arith, Bool-cases, inl, inr,
  ◌⊎◌, ◌≢◌,
}
use native.Mathlib.Nat.{mul-mod_left, suc-mul}
use mwdb_core.Helpers.Index.{
  intersperse_from, intersperse, negate_buffer, is_last_on_page, update_active_page,
}

module _ {ℓ} {A : Type ℓ} where
  -- every element with the separator behind it
  unfoldable pub followed : List A → List A → List A
  followed [] separator = []
  followed (x ∷ xs) separator = (x ∷ separator) ++ followed xs separator

  from-followed :
      (xs : List A) (x : A) (count index : ℕ) (result separator : List A)
      → count ≡ index + length (x ∷ xs)
      → intersperse_from count index result (x ∷ xs) separator ++ separator
        ≡ result ++ followed (x ∷ xs) separator
  unfolding intersperse_from followed
  from-followed [] x count index result separator e =
      let h : (index == count - 1) ≡ true = ground (arith, e) in
      rw h (simp (append_assoc, append-nil) refl)
  from-followed (y ∷ xs) x count index result separator e =
      let h : (index == count - 1) ≡ false = ground (arith, e) in
      rw h (
        from-followed xs y count (suc index) (result ++ (x ∷ separator)) separator
          (omega (arith, e))
        ∙ append_assoc result (x ∷ separator) (followed (y ∷ xs) separator))

  -- The interspersed array, with one more separator behind it, is every element with the separator
  -- behind it: the separator stands between any two elements, and not at the end.
  pub intersperse-followed :
      (x : A) (xs separator : List A)
      → intersperse (x ∷ xs) separator ++ separator ≡ followed (x ∷ xs) separator
  unfolding intersperse
  intersperse-followed x xs separator =
      from-followed xs x (length (x ∷ xs)) 0 [] separator (omega arith)

-- Negating a buffer of bytes twice gives it back.
pub negate_buffer-negate_buffer :
    (bytes : List ℕ) → All (λ b. b < 256) bytes → negate_buffer (negate_buffer bytes) ≡ bytes
unfolding negate_buffer
negate_buffer-negate_buffer [] h = refl
negate_buffer-negate_buffer (b ∷ bytes) (h, hs) =
    ground (arith, h, negate_buffer-negate_buffer bytes hs)

-- There is an item on the page, or it is the first page.
abbrev pub IsPage : ℕ → ℕ → ℕ → Type 0
IsPage page items_count per_page = (1 ≤ page) × ((page ≡ 1) ⊎ ((page - 1) * per_page < items_count))

is_last_on_page_lem :
    (items_count per_page : ℕ)
    → 1 ≤ per_page
    → 1 ≤ items_count
    → is_last_on_page items_count per_page ≡ ((items_count - 1) % per_page == 0)
is_last_on_page_lem n zero h k = absurd (omega (arith, h))
is_last_on_page_lem zero (suc per) h k = absurd (omega (arith, k))
is_last_on_page_lem (suc n) (suc per) h k =
    let e : n ≡ suc n - 1 = omega arith in ap (λ m. m % suc per == 0) e

update_active_page_later :
    (k items_count per_page : ℕ)
    → 1 ≤ per_page
    → suc k * per_page < items_count
    → IsPage (update_active_page (suc (suc k)) items_count per_page) (items_count - 1) per_page
unfolding update_active_page
update_active_page_later k n per some_fit h =
    let split : suc k * per ≡ k * per + per = suc-mul k per in
    rw (is_last_on_page_lem n per some_fit (omega (arith, h)))
      (elim (Bool-cases ((n - 1) % per == 0)) [
        | inl full ↦
            let moved : (not (suc (suc k) == 1) && ((n - 1) % per == 0)) ≡ true =
              ground (arith, full) in
            rw moved (
              omega arith,
              inr (let e : suc (suc k) - 1 - 1 ≡ k = omega arith in rw e (omega (arith, split))),
            )
        | inr partly ↦
            let stays : (not (suc (suc k) == 1) && ((n - 1) % per == 0)) ≡ false =
              ground (arith, partly) in
            let apart : (suc k * per ≢ n - 1) = λ e.
              absurd
                (ground (arith, partly, sym (ap (λ t. t % per) e) ∙ mul-mod_left (suc k) per)) in
            rw stays (
              omega arith,
              inr (let e : suc (suc k) - 1 ≡ suc k = omega arith in rw e (omega (arith, apart))),
            )
      ])

-- When an item is removed from a page that exists, the page that is shown afterwards exists too: it
-- has an item or is the first page.
pub update_active_page-IsPage :
    (page items_count per_page : ℕ)
    → 1 ≤ per_page
    → IsPage page items_count per_page
    → IsPage (update_active_page page items_count per_page) (items_count - 1) per_page
unfolding update_active_page
update_active_page-IsPage zero n per some_fit (positive, h) = absurd (omega arith)
update_active_page-IsPage (suc zero) n per some_fit h = (omega arith, inl refl)
update_active_page-IsPage (suc (suc k)) n per some_fit (positive, inl e) = absurd (omega arith)
update_active_page-IsPage (suc (suc k)) n per some_fit (positive, inr h) =
    update_active_page_later k n per some_fit
      (let e : suc (suc k) - 1 ≡ suc k = omega arith in subst (λ t. t * per < n) e h)
