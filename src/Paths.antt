-- ===== src/Paths.antt =====
-- The lexical functions of Go's path/filepath on Unix, as record_io.go and scoped_collection.go use
-- them. A cleaned path is whether it is rooted, and its elements.
pub mod Containment
pub mod Clean
use mathlib.Core.List.{reverse}
use dalgo2ingitdb.Base.{
  String, Char, code, ◌<>◌, Bool, true, false, Option, none, some, List, [], ◌∷◌, ◌++◌, map, ◌==◌,
  eqb, ◌&&◌, not, if◌then◌else◌,
}
use dalgo2ingitdb.Base.Result.{Error, quoted, Result, ok, err}

pub record CleanPath : Type 0 where
  pub rooted : Bool
  pub elements : List String

-- `strings.Split(path, "/")`
abbrev pub push_char : Char → List String → List String
push_char c [] = String.◌∷◌ c "" ∷ []
push_char c (s ∷ ss) = String.◌∷◌ c s ∷ ss

unfoldable pub split_slash : String → List String
split_slash String.[] = "" ∷ []
split_slash (String.◌∷◌ c s) =
    let rest = split_slash s in if eqb (code c) b'/' then "" ∷ rest else push_char c rest

-- One element onto the cleaned ones, which are held back to front.
abbrev pub clean_step : Bool → List String → String → List String
clean_step rooted [] seg =
    if seg == ""
    then []
    else if seg == "."
    then []
    else if seg == ".." && rooted
    then []
    else seg ∷ []
clean_step rooted (last ∷ out) seg =
    if seg == ""
    then last ∷ out
    else if seg == "."
    then last ∷ out
    else if seg == ".." && not (last == "..")
    then out
    else seg ∷ last ∷ out

unfoldable pub clean_elements : Bool → List String → List String → List String
clean_elements rooted out [] = reverse out
clean_elements rooted out (seg ∷ segs) = clean_elements rooted (clean_step rooted out seg) segs

abbrev pub is_rooted : String → Bool
is_rooted String.[] = false
is_rooted (String.◌∷◌ c s) = eqb (code c) b'/'

-- `filepath.Clean`
unfoldable pub clean : String → CleanPath
unfolding clean_elements split_slash
clean path = record {
  rooted = is_rooted path;
  elements = clean_elements (is_rooted path) [] (split_slash path);
}

unfoldable pub join_slash : List String → String
join_slash [] = ""
join_slash (s ∷ []) = s
join_slash (s ∷ t ∷ ss) = s <> "/" <> join_slash (t ∷ ss)

-- The text of a cleaned path.
unfoldable pub render : CleanPath → String
unfolding join_slash
render p = elim p.elements [
  | [] ↦ if p.rooted then "/" else "."
  | s ∷ ss ↦ if p.rooted then String.◌∷◌ "/" (join_slash (s ∷ ss)) else join_slash (s ∷ ss)
]

abbrev pub nonempty : List String → List String
nonempty [] = []
nonempty (s ∷ ss) = if s == "" then nonempty ss else s ∷ ss

-- `filepath.Join`
unfoldable pub join : List String → String
unfolding clean render
join elems = elim (nonempty elems) [ [] ↦ "" | s ∷ ss ↦ render (clean (join_slash (s ∷ ss))) ]

abbrev pub go_up : List String → List String
go_up = map (λ _. "..")

unfoldable pub rel_elements : List String → List String → Option (List String)
rel_elements [] targ = some targ
rel_elements (b ∷ base) [] = if b == ".." then none else some (go_up (b ∷ base))
rel_elements (b ∷ base) (t ∷ targ) =
    let deeper = rel_elements base targ in
    if b == t then deeper else if b == ".." then none else some (go_up (b ∷ base) ++ t ∷ targ)

abbrev pub same_bool : Bool → Bool → Bool
same_bool true b = b
same_bool false b = not b

-- `filepath.Rel`: the elements of the relative path, none of them for "."
unfoldable pub rel : CleanPath → CleanPath → Option (List String)
unfolding rel_elements
rel base targ =
    if same_bool base.rooted targ.rooted then rel_elements base.elements targ.elements else none

-- `rel != "."` and `filepath.IsLocal(rel)`
abbrev pub is_below : List String → Bool
is_below [] = false
is_below (seg ∷ segs) = not (seg == "..")

unfoldable pub require_contained_path : String → String → Result (Unit {0})
unfolding clean rel
require_contained_path dir path = elim (rel (clean dir) (clean path)) [
  | none ↦ err (quoted "resolved path escapes" path)
  | some segs ↦ if is_below segs then ok tt else err (quoted "resolved path escapes" path)
]
