-- ===== src/Show/Tests.antt =====
-- Runs of the page at small objects, whose values are numbers.
use mwdb_core.Common.{
  ℕ, Bool, true, false, Option, none, some, List, [], ◌∷◌, ◌==◌, ◌≡◌, ◌≢◌, refl, ap, arith,
  if◌then◌else◌,
}
use mwdb_core.Common.Text.{Text, text, text_eq}
use mwdb_core.Show.Reducer.{
  member_of, set_member, spread, ObjectAction, object_load, object_update, is_dummy_update,
  object_reducer, dispatch_updates,
}
use mwdb_core.Show.Updates.{known, last_known, known-dispatch_updates}
use mwdb_core.Show.Page.{ShowPage, ask_object, receive_object, open_page, change_object}
use mwdb_core.Show.Karton.{KartonBox, first_box, update_analyses, load_more_analyses, more_analyses}
use mwdb_core.Show.Karton
use mwdb_core.Show.Karton.Pages.{IsPages, updates, asks_more, gets_more, analyses-IsPages}
use mwdb_core.Show.Identity.{Reachable, opened, after, gets_reply, known-Reachable}

abbrev is_equal : Option ℕ → Option ℕ → Bool
is_equal none none = true
is_equal (some a) (some b) = a == b
is_equal none (some b) = false
is_equal (some a) none = false

is_equal_sound : (a b : Option ℕ) → is_equal a b ≡ true → a ≡ b
is_equal_sound none none h = refl
is_equal_sound (some a) (some b) h = ap some (ground (arith, h))
is_equal_sound none (some b) h = absurd (cc h)
is_equal_sound (some a) none h = absurd (cc h)

abbrev size_three : List (Text × ℕ)
size_three = (text "size", 3) ∷ []

abbrev with_tags : List (Text × ℕ)
with_tags = (text "size", 3) ∷ (text "tags", 2) ∷ []

abbrev load_and_update : List (ObjectAction ℕ)
load_and_update = object_load (some size_three) ∷ object_update (some with_tags) ∷ []

dummy_update : is_dummy_update is_equal with_tags size_three ≡ true
unfolding is_dummy_update member_of text_eq
dummy_update = refl

tags_added : dispatch_updates is_equal none load_and_update ≡ some with_tags
unfolding dispatch_updates object_reducer is_dummy_update spread set_member member_of text_eq
tags_added = refl

known-dispatch_updates_example :
    known (text "tags") (dispatch_updates is_equal none load_and_update)
    ≡ last_known (text "tags") (known (text "tags") none) load_and_update
unfolding member_of text_eq
known-dispatch_updates_example =
    known-dispatch_updates is_equal is_equal_sound (text "tags") none load_and_update
      (tt, ((refl, (refl, tt)), tt))

-- Each object holds its identifier, as a number.
abbrev number_of : Text → ℕ
number_of [] = 0
number_of (c ∷ s) = c

abbrev answer : Text → List (Text × ℕ)
answer id = (text "id", number_of id) ∷ []

abbrev loaded_page : ShowPage ℕ
loaded_page =
    receive_object is_equal true (answer (text "a"))
      (record { object_id = text "a"; object = none; pending = [] })

loaded_page-Reachable : Reachable is_equal answer number_of (text "a") loaded_page
unfolding open_page ask_object
loaded_page-Reachable =
    after opened (gets_reply (text "a") true (open_page is_equal (text "a")) [] [] refl)

loaded : loaded_page.object ≢ none
unfolding receive_object object_reducer
loaded e = cc e

own_identifier : known (text "id") loaded_page.object ≡ some 97
unfolding member_of text_eq
own_identifier =
    known-Reachable is_equal answer number_of is_equal_sound (λ id. (refl, tt)) (λ id. refl)
      (text "a") loaded_page loaded_page-Reachable loaded

-- The page has gone from `a` to `b`, and the reply for `a` comes last.
abbrev late_page : ShowPage ℕ
late_page = receive_object is_equal true (answer (text "a")) (
    receive_object is_equal true (answer (text "b"))
      (change_object is_equal (text "b") (open_page is_equal (text "a"))))

late_reply : (late_page.object_id ≡ text "b") × (late_page.object ≡ some (answer (text "a")))
unfolding receive_object object_reducer change_object open_page ask_object
late_reply = (refl, refl)

-- The server has the analyses `a` and `b` of the object, and gives them one by one.
abbrev analyses_behind : Option Text → List Text
analyses_behind none = text "a" ∷ []
analyses_behind (some e) = if text_eq e (text "a") then text "b" ∷ [] else []

abbrev own_id : Text → Text
own_id e = e

abbrev updated_box : KartonBox Text
updated_box = update_analyses (analyses_behind none) (first_box none)

-- More is asked for, an update comes in between, and then what was asked for.
abbrev crossed_box : KartonBox Text
crossed_box =
    more_analyses (text "a" ∷ []) (analyses_behind (some (text "a")))
      (record (update_analyses (analyses_behind none) (load_more_analyses updated_box)) {
        loading = [];
      })

crossed_box-Reachable : Karton.Pages.Reachable own_id analyses_behind crossed_box
unfolding load_more_analyses update_analyses
crossed_box-Reachable =
    Karton.Pages.after
      (Karton.Pages.after
        (Karton.Pages.after (Karton.Pages.after Karton.Pages.mounted (updates (first_box none)))
          (asks_more updated_box))
        (updates (load_more_analyses updated_box)))
      (gets_more (update_analyses (analyses_behind none) (load_more_analyses updated_box))
        (text "a" ∷ []) [] [] refl)

analyses-IsPages_example : IsPages own_id analyses_behind (text "a" ∷ text "b" ∷ [])
unfolding more_analyses text_eq
analyses-IsPages_example =
    analyses-IsPages own_id analyses_behind crossed_box (text "a" ∷ text "b" ∷ [])
      crossed_box-Reachable refl
