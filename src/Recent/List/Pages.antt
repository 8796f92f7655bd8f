-- ===== src/Recent/List/Pages.antt =====
-- RecentViewList.tsx: the pages that the list shows, where the query does not change while a first
-- page is being loaded.
use mwdb_core.Common.{
  ℕ, zero, suc, ◌≤◌, ◌≡◌, refl, sym, ap, ◌∙◌, Bool, true, false, none, some, List, [], ◌++◌, ◌==◌,
  ◌&&◌, Bool-cases, inl, inr, arith,
}
use mathlib.Core.Option.{some-injective}
use mwdb_core.Common.Text.{Text}
use mwdb_core.Recent.List.{
  ListState, page_loaded, failed, is_empty, PageRequest, first_state, list_state_reducer,
  pending_load, has_more, ListView, request_for, same_deps, load_page, change_query, mount_list,
  load_more, get_page, get_error,
}

module _ {E : Type 0} (id : E → Text) (disallow_empty : Bool) (answer : PageRequest → List E) where
  -- The elements of the first pages of a query: each page is what the server answers for the last
  -- element of the page before it.
  unfoldable pub pages : Text → ℕ → List E
  pages query zero = []
  pages query (suc n) = let before = pages query n in before ++ answer (request_for id query before)

  abbrev pub first_page_pending : ListState E → Bool
  first_page_pending s = s.page_to_load == 1 && s.loaded_pages == 0

  -- What can happen to the list.
  pub data Step : ListView E → ListView E → Type 0 where
    changes_query :
        (query : Text) (v : ListView E)
        → first_page_pending v.state ≡ false
        → Step v (change_query id disallow_empty query v)
    loads_more : (v : ListView E) → Step v (load_more id v)
    gets_page :
        (v : ListView E) (r : PageRequest) → v.request ≡ some r → Step v (get_page id (answer r) v)
    gets_error : (v : ListView E) (r : PageRequest) → v.request ≡ some r → Step v (get_error id v)

  pub data Reachable : ListView E → Type 0 where
    mounted : (query : Text) → Reachable (mount_list id disallow_empty query)
    after : {v w : ListView E} → Reachable v → Step v w → Reachable w

  abbrev IsAsked : ListView E → Type 0
  IsAsked v =
      (r : PageRequest)
      → v.request ≡ some r
      → (r ≡ request_for id v.query v.state.elements) × (pending_load v.state ≡ true)

  abbrev pub HasRequest : ListView E → Type 0
  HasRequest v = (r : PageRequest) × (v.request ≡ some r)

  record IsCurrent (v : ListView E) : Type 0 where
    shown : v.state.error ≡ false → v.state.elements ≡ pages v.query v.state.loaded_pages
    asked : IsAsked v
    waits : pending_load v.state ≡ true → HasRequest v
    synced : same_deps v ≡ true
    near : v.state.page_to_load ≤ suc v.state.loaded_pages
    ended : v.state.error ≡ true → (v.state.has_more_pages ≡ false) × (pending_load v.state ≡ false)

  refl_deps : (a b : ℕ) → (a == a && b == b) ≡ true
  refl_deps a b = ground arith

  load_page-IsCurrent :
      (v : ListView E)
      → (v.state.error ≡ false → v.state.elements ≡ pages v.query v.state.loaded_pages)
      → (v.state.error ≡ true → (v.state.has_more_pages ≡ false) × (pending_load v.state ≡ false))
      → v.state.page_to_load ≤ suc v.state.loaded_pages
      → (same_deps v ≡ true → IsAsked v × (pending_load v.state ≡ true → HasRequest v))
      → IsCurrent (load_page id v)
  unfolding load_page
  load_page-IsCurrent v shown ended near same = elim (Bool-cases (same_deps v)) [
    | inl e ↦ rw e (record {
      shown = shown;
      asked = (same e).0;
      waits = (same e).1;
      synced = e;
      near = near;
      ended = ended;
    })
    | inr e ↦ rw e (elim (Bool-cases (pending_load v.state)) [
      | inl p ↦ rw p (record {
        shown = shown;
        asked = λ r h. (sym (some-injective _ _ h), p);
        waits = λ h. (request_for id v.query v.state.elements, refl);
        synced = refl_deps v.state.page_to_load v.state.loaded_pages;
        near = near;
        ended = ended;
      })
      | inr p ↦ rw p (record {
        shown = shown;
        asked = λ r h. cc;
        waits = λ h. absurd (cc (h, p));
        synced = refl_deps v.state.page_to_load v.state.loaded_pages;
        near = near;
        ended = ended;
      })
    ])
  ]

  -- The dependencies of the state with no page and so many to load differ from those of another state.
  zero_deps :
      (v : ListView E)
      → IsCurrent v
      → same_deps (record v { state = first_state }) ≡ true
      → pending_load v.state ≡ false
  zero_deps v c same = ground (arith, same, c.synced)

  one_deps :
      (v : ListView E)
      → IsCurrent v
      → first_page_pending v.state ≡ false
      → same_deps (record v { state = record first_state { page_to_load = 1 } }) ≡ false
  one_deps v c h = ground (arith, h, c.synced)

  change_query-IsCurrent :
      (query : Text) (v : ListView E)
      → IsCurrent v
      → first_page_pending v.state ≡ false
      → IsCurrent (change_query id disallow_empty query v)
  unfolding change_query list_state_reducer pages
  change_query-IsCurrent query v c h = elim (Bool-cases (is_empty query && disallow_empty)) [
    | inl e ↦ rw e (
        load_page-IsCurrent (record v { query = query; state = first_state }) (λ k. refl) (λ k. cc)
          (omega arith)
          (λ same. (λ r k. absurd (cc (zero_deps v c same, (c.asked r k).1)), λ k. absurd (cc k))))
    | inr e ↦ rw e (
        load_page-IsCurrent
          (record v { query = query; state = record first_state { page_to_load = 1 } }) (λ k. refl)
          (λ k. cc) (omega arith) (λ same. absurd (cc (same, one_deps v c h))))
  ]

  mount_list-IsCurrent : (query : Text) → IsCurrent (mount_list id disallow_empty query)
  unfolding mount_list list_state_reducer pages
  mount_list-IsCurrent query = elim (Bool-cases (is_empty query && disallow_empty)) [
    | inl e ↦ rw e (
        load_page-IsCurrent
          (record { query = query; state = first_state; deps = (0, 0); request = none }) (λ k. refl)
          (λ k. cc) (omega arith) (λ same. (λ r k. cc, λ k. absurd (cc k))))
    | inr e ↦ rw e (
        load_page-IsCurrent
          (record {
            query = query;
            state = record first_state { page_to_load = 1 };
            deps = (0, 0);
            request = none;
          })
          (λ k. refl) (λ k. cc) (omega arith) (λ same. absurd (cc same)))
  ]

  more_deps :
      (v : ListView E)
      → IsCurrent v
      → has_more v.state ≡ true
      → same_deps (record v { state = record v.state { page_to_load = suc v.state.loaded_pages } })
        ≡ false
  more_deps v c h = ground (arith, h, c.synced)

  load_more-IsCurrent : (v : ListView E) → IsCurrent v → IsCurrent (load_more id v)
  unfolding load_more list_state_reducer
  load_more-IsCurrent v c = elim (Bool-cases (has_more v.state)) [
    | inl e ↦ rw e (
        load_page-IsCurrent
          (record v { state = record v.state { page_to_load = suc v.state.loaded_pages } }) c.shown
          (λ k. absurd (ground (arith, e, (c.ended k).0))) (omega arith)
          (λ same. absurd (cc (same, more_deps v c e))))
    | inr e ↦ rw e c
  ]

  next_deps :
      (v : ListView E) (s : ListState E)
      → IsCurrent v
      → s.loaded_pages ≡ suc v.state.loaded_pages
      → same_deps (record v { state = s; request = none }) ≡ false
  next_deps v s c h = ground (arith, h, c.synced)

  no_error : (v : ListView E) → IsCurrent v → pending_load v.state ≡ true → v.state.error ≡ false
  no_error v c h = elim (Bool-cases v.state.error) [
    | inl e ↦ absurd (cc ((c.ended e).1, h))
    | inr e ↦ e
  ]

  page_shown :
      (v : ListView E) (r : PageRequest)
      → IsCurrent v
      → v.request ≡ some r
      → v.state.elements ++ answer r ≡ pages v.query (suc v.state.loaded_pages)
  unfolding pages
  page_shown v r c e =
      ap (λ t. v.state.elements ++ answer t) (c.asked r e).0
      ∙ ap (λ t. t ++ answer (request_for id v.query t)) (c.shown (no_error v c (c.asked r e).1))

  get_page-IsCurrent :
      (v : ListView E) (r : PageRequest)
      → IsCurrent v
      → v.request ≡ some r
      → IsCurrent (get_page id (answer r) v)
  unfolding get_page list_state_reducer
  get_page-IsCurrent v r c e =
      let s : ListState E = list_state_reducer v.state (page_loaded (answer r)) in
      load_page-IsCurrent (record v { state = s; request = none }) (λ k. page_shown v r c e)
        (λ k. absurd (cc (k, no_error v c (c.asked r e).1))) (omega (arith, c.near))
        (λ same. absurd (cc (same, next_deps v s c refl)))

  get_error-IsCurrent :
      (v : ListView E) (r : PageRequest)
      → IsCurrent v
      → v.request ≡ some r
      → IsCurrent (get_error id v)
  unfolding get_error list_state_reducer
  get_error-IsCurrent v r c e =
      let s : ListState E = list_state_reducer v.state failed in
      load_page-IsCurrent (record v { state = s; request = none }) (λ k. absurd (cc k))
        (λ k. (refl, ground (arith, c.near))) (omega (arith, c.near))
        (λ same. absurd (cc (same, next_deps v s c refl)))

  preserves-IsCurrent : {v w : ListView E} → Step v w → IsCurrent v → IsCurrent w
  preserves-IsCurrent (changes_query query v h) c = change_query-IsCurrent query v c h
  preserves-IsCurrent (loads_more v) c = load_more-IsCurrent v c
  preserves-IsCurrent (gets_page v r e) c = get_page-IsCurrent v r c e
  preserves-IsCurrent (gets_error v r e) c = get_error-IsCurrent v r c e

  Reachable-IsCurrent : {v : ListView E} → Reachable v → IsCurrent v
  Reachable-IsCurrent (mounted query) = mount_list-IsCurrent query
  Reachable-IsCurrent (after r step) = preserves-IsCurrent step (Reachable-IsCurrent r)

  -- Where the query never changes while a first page is being loaded, the list shows, if there was no
  -- error, the pages of the current query, each once and in order, whatever loads, late replies and
  -- changes of the query there were.
  pub elements-pages :
      (v : ListView E)
      → Reachable v
      → v.state.error ≡ false
      → v.state.elements ≡ pages v.query v.state.loaded_pages
  elements-pages v r h = (Reachable-IsCurrent r).shown h

  -- There, the list never waits in vain: while it shows that it is loading, a request is under way.
  pub Reachable-HasRequest :
      (v : ListView E) → Reachable v → pending_load v.state ≡ true → HasRequest v
  Reachable-HasRequest v r h = (Reachable-IsCurrent r).waits h
