-- ===== src/Show/Karton.antt =====
-- components/ShowObject/common/KartonAnalysisBox.tsx: the analyses of an object, which are asked for
-- anew every ten seconds and more of which may be loaded. `loading` are the lists that the calls of
-- loadMoreAnalyses under way have seen. The object has an identifier and does not change.
pub mod Pages
use mwdb_core.Common.{
  ℕ, suc, Bool, true, false, Option, none, some, List, [], ◌∷◌, ◌++◌, if◌then◌else◌, ◌==◌, leb,
  last?, length,
}
use mwdb_core.Common.Text.{Text}

pub record KartonBox (A : Type 0) : Type 0 where
  pub analyses : Option (List A)
  pub can_load_more : Bool
  pub resubmit_pending : Bool
  pub delete_modal_open : Bool
  pub analysis_to_remove : Option Text
  pub loading : List (List A)

module _ {A : Type 0} where
  abbrev pub first_box : Option (List A) → KartonBox A
  first_box analyses = record {
    analyses = analyses;
    can_load_more = false;
    resubmit_pending = false;
    delete_modal_open = false;
    analysis_to_remove = none;
    loading = [];
  }

  -- The rest of updateAnalyses, for a reply.
  unfoldable pub update_analyses : List A → KartonBox A → KartonBox A
  update_analyses answer b = record b {
    analyses = some answer;
    can_load_more = if leb 10 (length answer) then true else b.can_load_more;
  }

  abbrev pub load_behind : KartonBox A → Option (List A) → KartonBox A
  load_behind b none = b
  load_behind b (some seen) = record b { can_load_more = false; loading = b.loading ++ seen ∷ [] }

  -- loadMoreAnalyses, up to where it waits.
  unfoldable pub load_more_analyses : KartonBox A → KartonBox A
  load_more_analyses b = load_behind b b.analyses

  module _ (id : A → Text) where
    -- `analyses[analyses.length - 1]?.id`
    abbrev pub last_id : List A → Option Text
    last_id seen = elim (last? seen) [ none ↦ none | some a ↦ some (id a) ]

  -- Its rest, for a reply.
  unfoldable pub more_analyses : List A → List A → KartonBox A → KartonBox A
  more_analyses seen answer b = record b {
    analyses = some (seen ++ answer);
    can_load_more = length answer == 10;
  }

  -- submitAnalysis and removeAnalysis, before the request; the reply leads to updateAnalyses.
  unfoldable pub submit_analysis : KartonBox A → KartonBox A
  submit_analysis b = record b { resubmit_pending = true }

  unfoldable pub handle_remove_analysis : Text → KartonBox A → KartonBox A
  handle_remove_analysis analysis b = record b {
    analysis_to_remove = some analysis;
    delete_modal_open = true;
  }

  -- The `finally` of removeAnalysis.
  unfoldable pub removal_ended : KartonBox A → KartonBox A
  removal_ended b = record b { delete_modal_open = false }
