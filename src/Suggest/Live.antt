-- ===== src/Suggest/Live.antt =====
-- useQuerySuggestions.ts: the hooks. `useAttributesStructure` keeps one promise in a ref, and the
-- effect of `useQuerySuggestions` writes its answer only while it is the last one that ran.
pub mod Loading
pub mod Fresh
use mwdb_core.Common.{
  ℕ, zero, suc, ◌+◌, ◌≤◌, ◌≡◌, refl, sym, ap, ◌∙◌, subst, Bool, true, false, Option, none, some,
  List, [], ◌∷◌, ◌++◌, if◌then◌else◌, arith, get_elem?, All,
}

-- The ref's promise: none made, pending, or resolved. `sent` tells that the reply to the request is
-- still to come, and `requests` counts the calls of `api.getAttributeDefinitions`.
pub data Promise {ℓ} (A : Type ℓ) : Type ℓ where
  absent pending : Promise A
  resolved : A → Promise A

pub record Loader {ℓ} (A : Type ℓ) : Type ℓ where
  pub current : Promise A
  pub sent : Bool
  pub requests : ℕ

-- A call of the loader, a reply of the server, or an error of the request.
pub data Event {ℓ} (A : Type ℓ) : Type ℓ where
  load : Event A
  reply : A → Event A
  failure : Event A

module _ {ℓ} {A : Type ℓ} where
  abbrev pub idle : Loader A
  idle = record { current = absent; sent = false; requests = 0 }

  abbrev pub load_from : Promise A → Loader A → Loader A
  load_from absent l = record { current = pending; sent = true; requests = l.requests + 1 }
  load_from pending l = l
  load_from (resolved a) l = l

  -- The error is shown; nobody calls `reject`.
  unfoldable pub handle : Loader A → Event A → Loader A
  handle l load = load_from l.current l
  handle l (reply a) = if l.sent then record l { current = resolved a; sent = false } else l
  handle l failure = if l.sent then record l { sent = false } else l

  unfoldable pub handle_all : Loader A → List (Event A) → Loader A
  handle_all l [] = l
  handle_all l (e ∷ es) = handle_all (handle l e) es

  -- What a caller that awaits the promise has; `none` while it waits.
  abbrev pub result : Promise A → Option A
  result absent = none
  result pending = none
  result (resolved a) = some a

-- One run of the effect, with the variable `valid` of its closure.
pub record Run {ℓ} (I : Type ℓ) : Type ℓ where
  pub input : I
  pub valid : Bool

-- The runs of the effect, the last one first, and the state of the hook.
pub record Hook {ℓ} (I S : Type ℓ) : Type ℓ where
  pub runs : List (Run I)
  pub suggestions : List S
  pub loading : Bool

-- The cleanup of the last run.
abbrev pub invalidate {ℓ} : {I : Type ℓ} → List (Run I) → List (Run I)
invalidate [] = []
invalidate (r ∷ runs) = record r { valid = false } ∷ runs

module _ {ℓ} {I S : Type ℓ} where
  abbrev pub mounted : Hook I S
  mounted = record { runs = []; suggestions = []; loading = false }

  -- The query or the object type changes: cleanup, then the effect.
  unfoldable pub change : Hook I S → I → Hook I S
  change h input = record {
    runs = record { input = input; valid = true } ∷ invalidate h.runs;
    suggestions = h.suggestions;
    loading = true;
  }

  -- The promise of a run resolves.
  unfoldable pub settle : Hook I S → Run I → List S → Hook I S
  settle h r answer = if r.valid then record h { suggestions = answer; loading = false } else h

  -- The inputs change, or some run, not only the last one, gets one of its possible answers.
  pub data Step (Answer : I → List S → Type ℓ) : Hook I S → Hook I S → Type ℓ where
    changes : (h : Hook I S) (input : I) → Step Answer h (change h input)
    settles :
        (h : Hook I S) (i : ℕ) (r : Run I) (answer : List S)
        → get_elem? h.runs i ≡ some r
        → Answer r.input answer
        → Step Answer h (settle h r answer)

  pub data Reach (Answer : I → List S → Type ℓ) : Hook I S → Type ℓ where
    initially : Reach Answer mounted
    next : {h k : Hook I S} → Reach Answer h → Step Answer h k → Reach Answer k
