-- ===== src/Common/Strings.antt =====
-- More string methods: white space, `trim`, `split(/\s+/)`, `join`, `includes` and `replace`.
use Prim.Native.Nat.{ℕ}
use mathlib.Core.Bool.{Bool, true, false, ◌&&◌, ◌||◌}
use mathlib.Core.Option.{Option, none, some}
use mathlib.Core.List.{List, [], ◌∷◌, ◌++◌, reverse}
use mwdb_core.Common.Tests.{leb, ◌==◌, if◌then◌else◌}
use mwdb_core.Common.Lists.{length, drop}
use mwdb_core.Common.Text.{Text, starts_with}

-- `\s`, which is also what `trim` removes.
unfoldable pub is_space : ℕ → Bool
is_space c =
    (leb 9 c && leb c 13)
    || (c == 32
        || (c == 160
            || (c == 5760
                || ((leb 8192 c && leb c 8202)
                    || (c == 8232
                        || (c == 8233
                            || (c == 8239 || (c == 8287 || (c == 12288 || c == 65279)))))))))

unfoldable pub trim_start : Text → Text
trim_start [] = []
trim_start (c ∷ s) = if is_space c then trim_start s else c ∷ s

unfoldable pub trim_end : Text → Text
trim_end s = reverse (trim_start (reverse s))

unfoldable pub trim : Text → Text
trim s = trim_end (trim_start s)

-- `s.split(/\s+/)`, from inside a part: `gap` tells that white space stands before.
unfoldable pub split_from : Bool → Text → Text → List Text
split_from gap part [] = part ∷ []
split_from gap part (c ∷ s) =
    let close = part ∷ split_from true [] s in
    let skip = split_from true [] s in
    let grow = split_from false (part ++ c ∷ []) s in
    if is_space c then (if gap then skip else close) else grow

unfoldable pub split_spaces : Text → List Text
split_spaces s = split_from false [] s

-- `parts.join(separator)`
unfoldable pub join : List Text → Text → Text
join [] separator = []
join (p ∷ []) separator = p
join (p ∷ q ∷ ps) separator = p ++ (separator ++ join (q ∷ ps) separator)

abbrev prepend : ℕ → Option (Text × Text) → Option (Text × Text)
prepend c none = none
prepend c (some (before, after)) = some (c ∷ before, after)

-- The text before and after the first occurrence of `p`.
unfoldable pub split_first : Text → Text → Option (Text × Text)
split_first p [] = if starts_with [] p then some ([], []) else none
split_first p (c ∷ s) =
    if starts_with (c ∷ s) p
    then some ([], drop (length p) (c ∷ s))
    else prepend c (split_first p s)

abbrev pub is_found : Option (Text × Text) → Bool
is_found none = false
is_found (some _) = true

-- `s.includes(p)`
unfoldable pub includes_text : Text → Text → Bool
includes_text s p = is_found (split_first p s)

abbrev without : Text → Option (Text × Text) → Text
without s none = s
without s (some (before, after)) = before ++ after

-- `s.replace(p, "")`
unfoldable pub remove_first : Text → Text → Text
remove_first s p = without s (split_first p s)
