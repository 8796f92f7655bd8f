-- ===== src/Rich/Section.antt =====
-- MarkedMustache.tsx: `MustacheWriter`. `renderTokens` and `render` of mustache.js are parameters, with
-- what they change (the results of lambdas and their context) as a state of the type `S`. A searchable
-- value is an object with a query and a value where it is the view of a section.
use mwdb_core.Common.{
  ℕ, zero, suc, Bool, true, false, Option, none, some, List, [], ◌∷◌, ◌++◌, ◌==◌, if◌then◌else◌,
  length,
}
use mwdb_core.Common.Text.{Text, text}
use mwdb_core.Suggest.Structure.{Json, null, bool, num, str, arr, obj, end, member}
use mwdb_core.Rich.Escape.{search, to_markdown, escape_markdown}
use mwdb_core.Rich.Context.{
  Context, Found, threw, missing, found, item_list, push, push_with_local_vars, Answer, value,
  searchable, section_renderer,
}

-- whether a value counts as true
abbrev pub is_truthy : Json → Bool
is_truthy null = false
is_truthy (bool b) = b
is_truthy (num zero) = false
is_truthy (num (suc n)) = true
is_truthy (str []) = false
is_truthy (str (c ∷ s)) = true
is_truthy (arr vs) = true
is_truthy (obj ms) = true

-- What a section shows; `nothing` is `undefined`.
pub data Output : Type 0 where
  throws nothing : Output
  output : Text → Output

module _ {S R Tokens : Type 0} (render_tokens : Tokens → Context → S → S × Text)
    (call_renderer : R → Option Json → Context → S → S × Option Text) where
  abbrev local_vars : ℕ → ℕ → List (Text × Json)
  local_vars count j =
      (text "$arrayIndex", num j) ∷ (text "$isLastElement", bool (suc j == count)) ∷ []

  -- The rounds for the elements of an array from the index `j`, and the buffer behind them.
  unfoldable pub render_elements : ℕ → ℕ → Tokens → Context → List Json → S → Text → S × Text
  render_elements count j tokens c [] s buffer = (s, buffer)
  render_elements count j tokens c (v ∷ vs) s buffer =
      let (s', shown) = render_tokens tokens (push_with_local_vars c v (local_vars count j)) s in
      render_elements count (suc j) tokens c vs s' (buffer ++ shown)

  abbrev as_output : S × Text → S × Output
  as_output (s, t) = (s, output t)

  abbrev called : S × Option Text → S × Output
  called (s, none) = (s, output [])
  called (s, some t) = (s, output t)

  -- A value that counts as true.
  abbrev pub render_value : Tokens → Context → Json → S → S × Output
  render_value tokens c (arr vs) s =
      as_output (render_elements (length (item_list vs)) 0 tokens c (item_list vs) s [])
  render_value tokens c (bool b) s = as_output (render_tokens tokens c s)
  render_value tokens c null s = (s, nothing)
  render_value tokens c (num n) s = as_output (render_tokens tokens (push c (num n)) s)
  render_value tokens c (str t) s = as_output (render_tokens tokens (push c (str t)) s)
  render_value tokens c (obj ms) s = as_output (render_tokens tokens (push c (obj ms)) s)

  abbrev reference_view : Text → Json → Json
  reference_view query v = obj (member (text "query") (str query) (member (text "value") v end))

  abbrev pub render_answer : Tokens → Context → Found (Answer R) → S → S × Output
  render_answer tokens c threw s = (s, throws)
  render_answer tokens c missing s = (s, nothing)
  render_answer tokens c (found (value v)) s =
      if is_truthy v then render_value tokens c v s else (s, nothing)
  render_answer tokens c (found (searchable query v)) s =
      as_output (render_tokens tokens (push c (reference_view query v)) s)
  render_answer tokens c (found (section_renderer r view)) s = called (call_renderer r view c s)

  -- For the context behind the lookup of the section's name, and what the lookup gave.
  unfoldable pub render_section : Tokens → Context × Found (Answer R) → S → S × Output
  render_section tokens (c, answer) s = render_answer tokens c answer s

-- `String(value)` of a value that is no text is a parameter, as is the text of a function.
module _ {R : Type 0} (encode : Text → Text) (printed : Json → Text) (source : R → Text) where
  abbrev value_text : Json → Text
  value_text (str s) = s
  value_text v = printed v

  abbrev value_markdown : Json → Text
  value_markdown null = []
  value_markdown (num n) = printed (num n)
  value_markdown (str s) = escape_markdown s
  value_markdown (bool b) = escape_markdown (printed (bool b))
  value_markdown (arr vs) = escape_markdown (printed (arr vs))
  value_markdown (obj ms) = escape_markdown (printed (obj ms))

  abbrev pub answer_markdown : Found (Answer R) → Output
  answer_markdown threw = throws
  answer_markdown missing = output []
  answer_markdown (found (value v)) = output (value_markdown v)
  answer_markdown (found (searchable query v)) =
      output (to_markdown encode (search query (value_text v)))
  answer_markdown (found (section_renderer r view)) = output (escape_markdown (source r))

  -- For what the lookup of the variable's name gave.
  unfoldable pub escaped_value : Context × Found (Answer R) → Output
  escaped_value (c, answer) = answer_markdown answer
