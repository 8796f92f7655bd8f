-- ===== src/Search/Hashes.antt =====
-- search.ts: what `multiFromHashes` makes of a list of hashes.
use mwdb_core.Common.{
  ℕ, ◌≡◌, refl, ap, subst, ◌∙◌, true, false, List, [], ◌∷◌, ◌++◌, map, arith, append-nil,
  append_assoc, every, length, All, and-eq-true,
}
use mwdb_core.Common.Text.{Text, text}
use mwdb_core.Common.Strings.{is_space, split_from, split_spaces, join}
use mwdb_core.Search.Field.{is_hex, is_hash, is_hash_length, lower_unit, multi_from_hashes}

abbrev pub IsHash : Text → Type 0
IsHash h = is_hash h ≡ true

is_hex-not_space : (c : ℕ) → is_hex c ≡ true → is_space c ≡ false
unfolding is_hex is_space
is_hex-not_space c h = ground arith

-- A part without white space goes into the current part.
split_from-part :
    (p part t : Text)
    → every is_hex p ≡ true
    → split_from false part (p ++ t) ≡ split_from false (part ++ p) t
unfolding split_from
split_from-part [] part t h = rw append-nil
split_from-part (c ∷ p) part t h =
    let (hc, hp) = and-eq-true (is_hex c) (every is_hex p) h in
    rw (is_hex-not_space c hc) (split_from-part p (part ++ c ∷ []) t hp ∙ rw append_assoc)

split_from-first :
    (c : ℕ) (p t : Text)
    → every is_hex (c ∷ p) ≡ true
    → split_from true [] ((c ∷ p) ++ t) ≡ split_from false (c ∷ p) t
unfolding split_from
split_from-first c p t h =
    let (hc, hp) = and-eq-true (is_hex c) (every is_hex p) h in
    rw (is_hex-not_space c hc) (split_from-part p (c ∷ []) t hp)

split_from-gap :
    (gap t : Text)
    → every is_space gap ≡ true
    → split_from true [] (gap ++ t) ≡ split_from true [] t
unfolding split_from
split_from-gap [] t h = refl
split_from-gap (c ∷ gap) t h =
    let (hc, hg) = and-eq-true (is_space c) (every is_space gap) h in
    rw hc (split_from-gap gap t hg)

split_from-close :
    (c : ℕ) (gap part t : Text)
    → every is_space (c ∷ gap) ≡ true
    → split_from false part ((c ∷ gap) ++ t) ≡ part ∷ split_from true [] t
unfolding split_from
split_from-close c gap part t h =
    let (hc, hg) = and-eq-true (is_space c) (every is_space gap) h in
    rw hc (ap (λ ps. part ∷ ps) (split_from-gap gap t hg))

IsHash-hex : (h : Text) → IsHash h → every is_hex h ≡ true
unfolding is_hash
IsHash-hex h e = (and-eq-true (every is_hex h) (is_hash_length (length h)) e).0

not-IsHash-nil : ¬ IsHash []
unfolding is_hash is_hash_length
not-IsHash-nil e = cc

module _ (c : ℕ) (gap : Text) (spaces : every is_space (c ∷ gap) ≡ true) where
  -- Splitting a list of hashes that are joined by the gap gives the hashes back.
  split_from-join :
      (h : Text) (hs : List Text)
      → IsHash h
      → All IsHash hs
      → split_from true [] (join (h ∷ hs) (c ∷ gap)) ≡ h ∷ hs
  unfolding join
  split_from-join [] hs e es = absurd (not-IsHash-nil e)
  split_from-join (a ∷ h) [] e es =
      subst (λ t. split_from true [] t ≡ (a ∷ h) ∷ []) (append-nil (a ∷ h))
        (split_from-first a h [] (IsHash-hex (a ∷ h) e) ∙ unfold split_from in refl)
  split_from-join (a ∷ h) (k ∷ hs) e (ek, es) =
      split_from-first a h _ (IsHash-hex (a ∷ h) e)
      ∙ split_from-close c gap (a ∷ h) _ spaces
      ∙ ap (λ ps. (a ∷ h) ∷ ps) (split_from-join k hs ek es)

every-IsHash : (hs : List Text) → All IsHash hs → every is_hash hs ≡ true
every-IsHash [] h = refl
every-IsHash (k ∷ hs) (e, es) = rw e (every-IsHash hs es)

-- Without white space at the beginning it does not matter that no gap stands before.
split_from-hex :
    (a : ℕ) (h t : Text)
    → every is_hex (a ∷ h) ≡ true
    → split_from false [] (a ∷ t) ≡ split_from true [] (a ∷ t)
unfolding split_from
split_from-hex a h t e = rw (is_hex-not_space a (and-eq-true (is_hex a) (every is_hex h) e).0)

split_from-start :
    (h : Text) (hs : List Text) (gap : Text)
    → IsHash h
    → split_from false [] (join (h ∷ hs) gap) ≡ split_from true [] (join (h ∷ hs) gap)
unfolding join
split_from-start [] hs gap e = absurd (not-IsHash-nil e)
split_from-start (a ∷ h) [] gap e = split_from-hex a h h (IsHash-hex (a ∷ h) e)
split_from-start (a ∷ h) (k ∷ hs) gap e = split_from-hex a h _ (IsHash-hex (a ∷ h) e)

-- A query of hashes that are separated by one kind of gap of white space becomes the query for
-- these hashes, in lower case and separated by single spaces.
pub multi_from_hashes_lem :
    (h : Text) (hs : List Text) (c : ℕ) (gap : Text)
    → every is_space (c ∷ gap) ≡ true
    → IsHash h
    → All IsHash hs
    → multi_from_hashes (join (h ∷ hs) (c ∷ gap))
      ≡ text "multi:\"" ++ (map lower_unit (join (h ∷ hs) (text " ")) ++ text "\"")
unfolding multi_from_hashes split_spaces
multi_from_hashes_lem h hs c gap spaces e es =
    let parts : split_from false [] (join (h ∷ hs) (c ∷ gap)) ≡ h ∷ hs =
      split_from-start h hs (c ∷ gap) e ∙ split_from-join c gap spaces h hs e es in
    rw (parts, e, every-IsHash hs es)
