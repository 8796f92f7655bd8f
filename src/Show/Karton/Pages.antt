-- ===== src/Show/Karton/Pages.antt =====
-- KartonAnalysisBox.tsx: the list shown is made of whole pages, while the analyses do not change.
use mwdb_core.Common.{
  ℕ, zero, suc, Option, none, some, List, [], ◌∷◌, ◌++◌, ◌≡◌, refl, sym, ap, All, All-append, subst,
}
use mathlib.Core.Option.{some-injective}
use mwdb_core.Common.Text.{Text}
use mwdb_core.Show.Karton.{
  KartonBox, first_box, update_analyses, load_behind, load_more_analyses, last_id, more_analyses,
  submit_analysis, handle_remove_analysis, removal_ended,
}

module _ {A : Type 0} (id : A → Text) (answer : Option Text → List A) where
  -- The first pages, with one more than the number says.
  unfoldable pub pages_up_to : ℕ → List A
  pages_up_to zero = answer none
  pages_up_to (suc n) = let before = pages_up_to n in before ++ answer (last_id id before)

  -- More may be asked for at any time, also where the button for it is not shown. Where the page loads its
  -- object anew, the analyses are gone until they are asked for again.
  pub data Step : KartonBox A → KartonBox A → Type 0 where
    updates : (b : KartonBox A) → Step b (update_analyses (answer none) b)
    asks_more : (b : KartonBox A) → Step b (load_more_analyses b)
    gets_more :
        (b : KartonBox A) (seen : List A) (before later : List (List A))
        → b.loading ≡ before ++ seen ∷ later
        → Step b
            (more_analyses seen (answer (last_id id seen)) (record b { loading = before ++ later }))
    loses_more :
        (b : KartonBox A) (seen : List A) (before later : List (List A))
        → b.loading ≡ before ++ seen ∷ later
        → Step b (record b { loading = before ++ later })
    is_reloaded : (b : KartonBox A) → Step b (record b { analyses = none })
    submits : (b : KartonBox A) → Step b (submit_analysis b)
    handles_removal :
        (analysis : Text) (b : KartonBox A) → Step b (handle_remove_analysis analysis b)
    ends_removal : (b : KartonBox A) → Step b (removal_ended b)

  pub data Reachable : KartonBox A → Type 0 where
    mounted : Reachable (first_box none)
    after : {b c : KartonBox A} → Reachable b → Step b c → Reachable c

  abbrev pub IsPages : List A → Type 0
  IsPages shown = (n : ℕ) × (shown ≡ pages_up_to n)

  record IsPaged (b : KartonBox A) : Type 0 where
    shown : (analyses : List A) → b.analyses ≡ some analyses → IsPages analyses
    seen : All IsPages b.loading

  All-remove :
      (seen : List A) (later before : List (List A))
      → All IsPages (before ++ seen ∷ later)
      → IsPages seen × All IsPages (before ++ later)
  All-remove seen later [] (k, ks) = (k, ks)
  All-remove seen later (b ∷ before) (k, ks) =
      let rest = All-remove seen later before ks in (rest.0, (k, rest.1))

  removed :
      (b : KartonBox A) (seen : List A) (before later : List (List A))
      → IsPaged b
      → b.loading ≡ before ++ seen ∷ later
      → IsPages seen × All IsPages (before ++ later)
  removed b seen before later h e = All-remove seen later before (subst (All IsPages) e h.seen)

  next-IsPages : (seen : List A) → IsPages seen → IsPages (seen ++ answer (last_id id seen))
  unfolding pages_up_to
  next-IsPages seen (n, e) = (suc n, ap (λ s. s ++ answer (last_id id s)) e)

  load_behind-IsPaged :
      (b : KartonBox A) (seen : Option (List A))
      → b.analyses ≡ seen
      → IsPaged b
      → IsPaged (load_behind b seen)
  load_behind-IsPaged b none e h = h
  load_behind-IsPaged b (some seen) e h = record {
    shown = h.shown;
    seen = All-append IsPages b.loading (seen ∷ []) h.seen (h.shown seen e, tt);
  }

  load_more_analyses-IsPaged : (b : KartonBox A) → IsPaged b → IsPaged (load_more_analyses b)
  unfolding load_more_analyses
  load_more_analyses-IsPaged b h = load_behind-IsPaged b b.analyses refl h

  preserves-IsPaged : {b c : KartonBox A} → Step b c → IsPaged b → IsPaged c
  unfolding update_analyses more_analyses pages_up_to submit_analysis handle_remove_analysis
      removal_ended
  preserves-IsPaged (updates b) h = record {
    shown = λ analyses e. (zero, sym (some-injective _ _ e));
    seen = h.seen;
  }
  preserves-IsPaged (asks_more b) h = load_more_analyses-IsPaged b h
  preserves-IsPaged (gets_more b seen before later e) h =
      let (k, rest) = removed b seen before later h e in
      record {
        shown = λ analyses f. subst IsPages (some-injective _ _ f) (next-IsPages seen k);
        seen = rest;
      }
  preserves-IsPaged (loses_more b seen before later e) h = record {
    shown = h.shown;
    seen = (removed b seen before later h e).1;
  }
  preserves-IsPaged (is_reloaded b) h = record {
    shown = λ analyses e. absurd (cc e);
    seen = h.seen;
  }
  preserves-IsPaged (submits b) h = record { shown = h.shown; seen = h.seen }
  preserves-IsPaged (handles_removal analysis b) h = record { shown = h.shown; seen = h.seen }
  preserves-IsPaged (ends_removal b) h = record { shown = h.shown; seen = h.seen }

  Reachable-IsPaged : {b : KartonBox A} → Reachable b → IsPaged b
  Reachable-IsPaged mounted = record { shown = λ analyses e. absurd (cc e); seen = tt }
  Reachable-IsPaged (after r step) = preserves-IsPaged step (Reachable-IsPaged r)

  -- While the analyses on the server stay the same, the box shows its first pages, each once and in
  -- order, however the replies to updates and to requests for more, errors and loads of the object come
  -- in between.
  pub analyses-IsPages :
      (b : KartonBox A) (analyses : List A)
      → Reachable b
      → b.analyses ≡ some analyses
      → IsPages analyses
  analyses-IsPages b analyses r e = (Reachable-IsPaged r).shown analyses e
