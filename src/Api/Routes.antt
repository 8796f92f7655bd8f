-- ===== src/Api/Routes.antt =====
-- mwdb/app.py: the routes that the server registers, and which of them serves a request. A variable
-- part of a route matches what its converter accepts: every filled segment, an identifier of an object
-- (hash64) or digits (int). The routes that the configuration may switch off are taken to be on.
use mwdb_core.Common.{
  ℕ, ◌≡◌, refl, Bool, true, false, List, [], ◌∷◌, ◌++◌, if◌then◌else◌, ◌==◌, ◌&&◌, not, ◌||◌, any,
  every, drop, arith, leb, length, Bool-cases, inl, inr, subst, sym, and-eq-true,
}
use mwdb_core.Common.Text.{Text, text, text_eq, text_eq_sound}
use mwdb_core.Api.Request.{Method, get, post, put, delete, Request}

abbrev add_head : ℕ → List Text → List Text
add_head c [] = (c ∷ []) ∷ []
add_head c (p ∷ ps) = (c ∷ p) ∷ ps

-- The segments of a path, up to a question mark or a number sign.
unfoldable pub segments : Text → List Text
segments [] = [] ∷ []
segments (c ∷ s) =
    let rest = segments s in
    if c == 47 then [] ∷ rest else if c == 63 || c == 35 then [] ∷ [] else add_head c rest

abbrev is_inner : ℕ → Bool
is_inner c = not (c == 47) && not (c == 63 || c == 35)

abbrev pub is_filled : Text → Bool
is_filled [] = false
is_filled (c ∷ s) = true

-- A text that is one segment wherever it is put into a path.
pub record IsPlain (s : Text) : Type 0 where
  pub inner : every is_inner s ≡ true
  pub filled : is_filled s ≡ true

inner-slash : (s t : Text) → every is_inner s ≡ true → segments (s ++ 47 ∷ t) ≡ s ∷ segments t
unfolding segments
inner-slash [] t h = refl
inner-slash (c ∷ s) t h = ground (arith, inner-slash s t)

inner-query : (s t : Text) → every is_inner s ≡ true → segments (s ++ 63 ∷ t) ≡ s ∷ []
unfolding segments
inner-query [] t h = refl
inner-query (c ∷ s) t h = ground (arith, inner-query s t)

inner-end : (s : Text) → every is_inner s ≡ true → segments s ≡ s ∷ []
unfolding segments
inner-end [] h = refl
inner-end (c ∷ s) h = ground (arith, inner-end s)

pub segments-slash : (s t : Text) → IsPlain s → segments (s ++ 47 ∷ t) ≡ s ∷ segments t
segments-slash s t h = inner-slash s t h.inner

pub segments-query : (s t : Text) → IsPlain s → segments (s ++ 63 ∷ t) ≡ s ∷ []
segments-query s t h = inner-query s t h.inner

pub segments-end : (s : Text) → IsPlain s → segments s ≡ s ∷ []
segments-end s h = inner-end s h.inner

abbrev is_hex_digit : ℕ → Bool
is_hex_digit c = (leb 48 c && leb c 57) || ((leb 65 c && leb c 70) || (leb 97 c && leb c 102))

-- `root|[A-Fa-f0-9]{32,128}`, the pattern of HashConverter.
unfoldable pub is_hash64 : Text → Bool
is_hash64 s =
    text_eq s (text "root") || (every is_hex_digit s && (leb 32 (length s) && leb (length s) 128))

abbrev is_digit : ℕ → Bool
is_digit c = leb 48 c && leb c 57

-- What the converter `int` accepts.
unfoldable pub is_int : Text → Bool
is_int [] = false
is_int (c ∷ s) = every is_digit (c ∷ s)

-- An identifier of an object that the server accepts in a path.
pub record IsHash64 (s : Text) : Type 0 where
  pub accepted : is_hash64 s ≡ true

pub record IsInt (s : Text) : Type 0 where
  pub accepted : is_int s ≡ true

every-inner :
    (p : ℕ → Bool) (s : Text)
    → ((c : ℕ) → p c ≡ true → is_inner c ≡ true)
    → every p s ≡ true
    → every is_inner s ≡ true
every-inner p [] h k = refl
every-inner p (c ∷ s) h k =
    let (kc, ks) = and-eq-true (p c) (every p s) k in rw (h c kc, every-inner p s h ks) refl

hex_digit_inner : (c : ℕ) → is_hex_digit c ≡ true → is_inner c ≡ true
hex_digit_inner c h = ground (arith, h)

digit_inner : (c : ℕ) → is_digit c ≡ true → is_inner c ≡ true
digit_inner c h = ground (arith, h)

hex-IsPlain :
    (s : Text)
    → (every is_hex_digit s && (leb 32 (length s) && leb (length s) 128)) ≡ true
    → IsPlain s
hex-IsPlain [] h = absurd (ground (arith, h))
hex-IsPlain (c ∷ s) h = record {
  inner =
      every-inner is_hex_digit (c ∷ s) hex_digit_inner
        (and-eq-true (every is_hex_digit (c ∷ s)) _ h).0;
  filled = refl;
}

root-IsPlain : IsPlain (text "root")
root-IsPlain = record { inner = refl; filled = refl }

pub hash64-IsPlain : {s : Text} → IsHash64 s → IsPlain s
unfolding is_hash64
hash64-IsPlain {s} h = elim (Bool-cases (text_eq s (text "root"))) [
  | inl e ↦ subst IsPlain (sym (text_eq_sound s (text "root") e)) root-IsPlain
  | inr e ↦ hex-IsPlain s (rw e at h.accepted)
]

is_int-IsPlain : (s : Text) → is_int s ≡ true → IsPlain s
unfolding is_int
is_int-IsPlain [] h = absurd (cc h)
is_int-IsPlain (c ∷ s) h = record {
  inner = every-inner is_digit (c ∷ s) digit_inner h;
  filled = refl;
}

pub int-IsPlain : {s : Text} → IsInt s → IsPlain s
int-IsPlain {s} h = is_int-IsPlain s h.accepted

-- `word`, `<any(file, config, blob, object):type>`, `<name>`, `<hash64:name>`, `<int:name>`,
-- `<path:name>`
pub data Part : Type 0 where
  word : Text → Part
  any_type : Part
  variable : Part
  hash64 : Part
  int : Part
  rest_of_path : Part

is_type : Text → Bool
unfolding text_eq
is_type s =
    text_eq s (text "file")
    || (text_eq s (text "config") || (text_eq s (text "blob") || text_eq s (text "object")))

unfoldable pub part_matches : Part → Text → Bool
unfolding is_type
part_matches (word w) s = text_eq w s
part_matches any_type s = is_type s
part_matches variable s = is_filled s
part_matches hash64 s = is_hash64 s
part_matches int s = is_int s
part_matches rest_of_path s = is_filled s

unfoldable pub route_matches : List Part → List Text → Bool
route_matches [] [] = true
route_matches (rest_of_path ∷ []) (s ∷ ss) = part_matches rest_of_path s
route_matches (p ∷ ps) (s ∷ ss) = part_matches p s && route_matches ps ss
route_matches _ _ = false

-- The methods that the resource has, and the route.
pub record Route : Type 0 where
  pub methods : List Method
  pub parts : List Part

method_id : Method → ℕ
method_id get = 0
method_id post = 1
method_id put = 2
method_id delete = 3

unfoldable pub serves : Route → Request → Bool
unfolding method_id
serves route r =
    any (λ m. method_id m == method_id r.method) route.methods
    && route_matches route.parts (drop 1 (segments r.path))
