-- ===== src/Rich/Split/RoundTrip.antt =====
-- MarkedMustache.tsx: `splitName` reads back the names that are written with backslashes.
use mwdb_core.Common.{
  ℕ, ◌≡◌, ◌≢◌, refl, sym, ap, ◌∙◌, true, false, List, [], ◌∷◌, ◌++◌, ◌==◌, if◌then◌else◌, ◌||◌, map,
  Bool-cases, inl, inr, arith, append_assoc, append-nil,
}
use mwdb_core.Common.Text.{Text, text, text_eq, text_eq_iff}
use mwdb_core.Common.Strings.{join}
use mwdb_core.Rich.Split.{unescaped, split_name}
use mwdb_core.Rich.Split.Reader.{
  read_parts, read_parts-escape, read_parts-plain, read_parts-separator,
}
use mwdb_core.Rich.Split.Agrees.{split-reads}

-- A key as it is written in a name.
unfoldable pub write_key : ℕ → Text → Text
write_key separator [] = []
write_key separator (c ∷ s) =
    (if c == separator || c == 92 then 92 ∷ c ∷ [] else c ∷ []) ++ write_key separator s

-- A path of keys as a name.
unfoldable pub write_path : ℕ → List Text → Text
write_path separator path = join (map (write_key separator) path) (separator ∷ [])

module _ (separator : ℕ) (other : (separator == 92) ≡ false) where
  read-write_key :
      (k part s : Text)
      → read_parts separator false part (write_key separator k ++ s)
        ≡ read_parts separator false (part ++ k) s
  unfolding write_key
  read-write_key [] part s = ap (λ t. read_parts separator false t s) (sym (append-nil part))
  read-write_key (c ∷ k) part s = elim (Bool-cases (c == separator || c == 92)) [
    | inl e ↦
        let taken : unescaped separator true c ≡ c ∷ [] = rw e refl in
        rw e (
          read_parts-escape separator other c part (write_key separator k ++ s)
          ∙ ap (λ t. read_parts separator false (part ++ t) (write_key separator k ++ s)) taken
          ∙ read-write_key k (part ++ c ∷ []) s
          ∙ ap (λ t. read_parts separator false t s) (append_assoc part (c ∷ []) k))
    | inr e ↦ rw e (
        read_parts-plain separator other c part (write_key separator k ++ s) (ground (arith, e))
          (ground (arith, e))
        ∙ read-write_key k (part ++ c ∷ []) s
        ∙ ap (λ t. read_parts separator false t s) (append_assoc part (c ∷ []) k))
  ]

  read-write_path :
      (k : Text) (ks : List Text)
      → read_parts separator false [] (write_path separator (k ∷ ks)) ≡ k ∷ ks
  unfolding write_path join read_parts
  read-write_path k [] =
      ap (λ t. read_parts separator false [] t) (sym (append-nil (write_key separator k)))
      ∙ read-write_key k [] []
  read-write_path k (l ∷ ks) =
      read-write_key k [] (separator ∷ write_path separator (l ∷ ks))
      ∙ read_parts-separator separator other k (write_path separator (l ∷ ks))
      ∙ ap (λ t. k ∷ t) (read-write_path l ks)

-- A path of keys, whatever they hold, is read back from its name, in which a backslash stands before
-- each dot and each backslash of a key, unless the name is a single dot.
pub split_name-write_path :
    (k : Text) (ks : List Text)
    → write_path 46 (k ∷ ks) ≢ text "."
    → split_name (write_path 46 (k ∷ ks)) ≡ k ∷ ks
unfolding split_name
split_name-write_path k ks h = elim (Bool-cases (text_eq (write_path 46 (k ∷ ks)) (text "."))) [
  | inl e ↦ absurd (h ((text_eq_iff (write_path 46 (k ∷ ks)) (text ".")).0 e))
  | inr e ↦ rw e (split-reads 46 refl (write_path 46 (k ∷ ks)) ∙ read-write_path 46 refl k ks)
]
