-- ===== src/Suggest/Live/Loading.antt =====
-- The shared promise of `useAttributesStructure`.
use mwdb_core.Common.{◌≤◌, ◌≡◌, refl, true, false, List, [], ◌∷◌, arith}
use mwdb_core.Suggest.Live.{
  Promise, absent, pending, resolved, Loader, Event, load, reply, failure, idle, load_from, handle,
  handle_all,
}

module _ {ℓ} {A : Type ℓ} where
  -- At most one request, and none before there is a promise.
  record IsShared (l : Loader A) : Type ℓ where
    before : l.current ≡ absent → l.requests ≡ 0
    after : l.requests ≤ 1

  load_from-IsShared :
      (c : Promise A) (l : Loader A) → l.current ≡ c → IsShared l → IsShared (load_from c l)
  load_from-IsShared absent l e v = record { before = λ h. cc; after = omega (arith, v.before e) }
  load_from-IsShared pending l e v = v
  load_from-IsShared (resolved a) l e v = v

  handle-IsShared : (l : Loader A) (e : Event A) → IsShared l → IsShared (handle l e)
  unfolding handle
  handle-IsShared l load v = load_from-IsShared l.current l refl v
  handle-IsShared l (reply a) v = record {
    before = λ h. ground (arith, v.before);
    after = ground (arith, v.after);
  }
  handle-IsShared l failure v = record {
    before = λ h. ground (arith, v.before);
    after = ground (arith, v.after);
  }

  handle_all-IsShared :
      (l : Loader A) (es : List (Event A)) → IsShared l → IsShared (handle_all l es)
  unfolding handle_all
  handle_all-IsShared l [] v = v
  handle_all-IsShared l (e ∷ es) v = handle_all-IsShared (handle l e) es (handle-IsShared l e v)

  -- Whatever calls, replies and errors come, and in whatever order, the attribute definitions are
  -- requested at most once.
  pub requests_bound : (es : List (Event A)) → (handle_all idle es).requests ≤ 1
  requests_bound es =
      (handle_all-IsShared idle es (record { before = λ h. refl; after = omega arith })).after

  handle-stuck :
      (l : Loader A) (e : Event A) → l.current ≡ pending → l.sent ≡ false → handle l e ≡ l
  unfolding handle
  handle-stuck l load c s = rw c
  handle-stuck l (reply a) c s = rw s
  handle-stuck l failure c s = rw s

  handle_all-stuck :
      (l : Loader A) (es : List (Event A))
      → l.current ≡ pending
      → l.sent ≡ false
      → handle_all l es ≡ l
  unfolding handle_all
  handle_all-stuck l [] c s = refl
  handle_all-stuck l (e ∷ es) c s = rw (handle-stuck l e c s) (handle_all-stuck l es c s)

  -- If the request fails while the promise is pending, then the promise stays pending for good: no
  -- later call, reply or error changes anything, and there is no second request.
  pub failure_is_final :
      (l : Loader A) (es : List (Event A))
      → l.current ≡ pending
      → l.sent ≡ true
      → handle_all l (failure ∷ es) ≡ record l { sent = false }
  unfolding handle_all handle
  failure_is_final l es c s = rw s (handle_all-stuck (record l { sent = false }) es c refl)
