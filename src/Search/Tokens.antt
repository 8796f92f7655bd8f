-- ===== src/Search/Tokens.antt =====
-- What the rules of luceneLexer.ts make of the texts of `escapeSearchValue` and
-- `escapeSearchField`: the patterns of its phrases and of the parts of field names.
use mwdb_core.Common.{
  ℕ, ◌≡◌, refl, ◌∙◌, Bool, true, false, not, Option, none, some, [], ◌∷◌, ◌++◌, if◌then◌else◌, ltb,
  ◌==◌, ◌&&◌, ◌||◌, arith, append_assoc, Bool-cases, inl, inr,
}
use mwdb_core.Common.Text.{Text}
use mwdb_core.Common.Strings.{is_space}
use mwdb_core.Search.Quote.{
  quote_mark, backslash, hex_digit, unicode_escape, quote_unit, is_high, is_low, quote_units,
  stringify, string, escape_search_value, is_special,
}

-- What `.` does not match.
unfoldable pub is_terminator : ℕ → Bool
is_terminator c = c == 10 || (c == 13 || (c == 8232 || c == 8233))

-- `(?:\\.|[^\n"\\])*"`: the text behind the closing quote. The flag tells that a backslash stands
-- before.
unfoldable pub phrase_from : Bool → Text → Option Text
phrase_from escaped [] = none
phrase_from true (c ∷ s) = if is_terminator c then none else phrase_from false s
phrase_from false (c ∷ s) =
    let escape = phrase_from true s in
    let more = phrase_from false s in
    if c == quote_mark
    then some s
    else if c == backslash
    then escape
    else if c == 10
    then none
    else more

-- `/"(?:\\.|[^\n"\\])*"/`, the rule of `expr_phrase` and `value_phrase`.
unfoldable pub match_phrase : Text → Option Text
match_phrase [] = none
match_phrase (c ∷ s) = if c == quote_mark then phrase_from false s else none

-- `[^\s:^\\~(){}\[\].]`
unfoldable pub is_term_unit : ℕ → Bool
is_term_unit c = not (
    is_space c
    || (c == 58
        || (c == 94
            || (c == backslash
                || (c == 126
                    || (c == 40
                        || (c == 41
                            || (c == 123 || (c == 125 || (c == 91 || (c == 93 || c == 46)))))))))))

-- Whether `(?:[^\s:^\\~(){}\[\].]|\\.)*` matches a text as a whole. The flag tells that a backslash stands
-- before.
unfoldable pub term_from : Bool → Text → Bool
term_from escaped [] = not escaped
term_from true (c ∷ s) = not (is_terminator c) && term_from false s
term_from false (c ∷ s) =
    let escape = term_from true s in
    let more = is_term_unit c && term_from false s in if c == backslash then escape else more

-- Whether `(?:[^\s:^\\~(){}\[\].]|\\.)+`, the pattern of `expr_term`, matches a text as a whole.
unfoldable pub match_term : Text → Bool
match_term [] = false
match_term (c ∷ s) = term_from false (c ∷ s)

phrase-unicode_escape :
    (c : ℕ) (t : Text) → phrase_from false (unicode_escape c ++ t) ≡ phrase_from false t
unfolding unicode_escape phrase_from is_terminator hex_digit
phrase-unicode_escape c t = ground arith

phrase-quote_unit : (c : ℕ) (t : Text) → phrase_from false (quote_unit c ++ t) ≡ phrase_from false t
unfolding quote_unit phrase_from is_terminator
phrase-quote_unit c t = elim (Bool-cases (ltb c 32)) [
  | inl control ↦ ground (arith, phrase-unicode_escape c t)
  | inr printed ↦ ground arith
]

-- A surrogate stands for itself in a phrase.
phrase-surrogate :
    (c : ℕ) (t : Text)
    → (is_high c || is_low c) ≡ true
    → phrase_from false (c ∷ t) ≡ phrase_from false t
unfolding phrase_from is_high is_low
phrase-surrogate c t h = ground arith

phrase-quote_units :
    (s rest : Text) → phrase_from false (quote_units s ++ quote_mark ∷ rest) ≡ some rest
unfolding quote_units
phrase-quote_units [] rest = unfold phrase_from in refl
phrase-quote_units (c ∷ []) rest = elim (Bool-cases (is_high c || is_low c)) [
  | inl lone ↦ rw lone (phrase-unicode_escape c (quote_mark ∷ rest) ∙ unfold phrase_from in refl)
  | inr plain ↦ rw plain (phrase-quote_unit c (quote_mark ∷ rest) ∙ unfold phrase_from in refl)
]
phrase-quote_units (c ∷ d ∷ s) rest = elim (Bool-cases (is_high c && is_low d)) [
  | inl pair ↦ rw pair (
      phrase-surrogate c _ (ground arith)
      ∙ phrase-surrogate d _ (ground arith)
      ∙ phrase-quote_units s rest)
  | inr single ↦ elim (Bool-cases (is_high c || is_low c)) [
    | inl lone ↦
        rw (single, lone)
          (rw append_assoc (phrase-unicode_escape c _ ∙ phrase-quote_units (d ∷ s) rest))
    | inr plain ↦
        rw (single, plain)
          (rw append_assoc (phrase-quote_unit c _ ∙ phrase-quote_units (d ∷ s) rest))
  ]
]

-- Whatever the string and whatever follows: the rule for phrases matches exactly the escaped string.
pub escape_search_value-IsPhrase :
    (s rest : Text) → match_phrase (escape_search_value (string s) ++ rest) ≡ some rest
unfolding match_phrase escape_search_value stringify
escape_search_value-IsPhrase s rest = rw append_assoc (phrase-quote_units s rest)

-- The units that `escapeSearchField` lets through or escapes as the lexer wants them.
unfoldable pub is_covered : ℕ → Bool
is_covered c = is_term_unit c || is_special c

abbrev pub is_filled : Text → Bool
is_filled [] = false
is_filled (c ∷ s) = true
