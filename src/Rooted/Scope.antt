-- ===== src/Rooted/Scope.antt =====
-- rooted_files.go: the paths below a scope (rootedRelativePath, RootedFilesScope.validate), and the
-- scopes that a database may open.
pub mod Inside
use dalgo2ingitdb.Base.{
  ℕ, String, Char, code, ◌<>◌, ◌≡◌, refl, sym, ap, ◌∙◌, ◌⊎◌, inl, inr, Bool, true, false, not, ◌||◌,
  List, [], ◌∷◌, ◌==◌, eqb, arith, eq_iff, Bool-cases, contains, All, if◌then◌else◌,
}
use dalgo2ingitdb.Base.Result.{Error, failure, quoted, wrapped, Result, ok, err, ◌>>=◌, ◌>>◌}
use dalgo2ingitdb.Keys.{at_front, codes}
use dalgo2ingitdb.Paths.{CleanPath, clean, render, is_rooted}

abbrev pub has_byte : ℕ → String → Bool
has_byte b String.[] = false
has_byte b (String.◌∷◌ c s) = eqb (code c) b || has_byte b s

-- `clean == ".." || strings.HasPrefix(clean, "../")`, or "." for no element
abbrev pub leaves_root : List String → Bool
leaves_root [] = true
leaves_root (seg ∷ segs) = seg == ".."

-- The cleaned path; its text is `render` of it.
unfoldable pub rooted_relative_path : String → Result CleanPath
unfolding clean
rooted_relative_path value =
    if value == "" || has_byte b'\\' value || is_rooted value
    then err (quoted "rooted file path must be non-empty, relative, and slash-separated" value)
    else if leaves_root (clean value).elements
    then err (quoted "rooted file path escapes root" value)
    else ok (clean value)

abbrev pub single : String → List String → Result String
single value (seg ∷ []) = ok seg
single value segs = err (quoted "rooted files scope must be one top-level path segment" value)

-- `RootedFilesScope.validate`
unfoldable pub validate_scope : String → Result String
unfolding rooted_relative_path
validate_scope prefix = elim (rooted_relative_path prefix) [
  | err e ↦ err (wrapped "rooted files scope" e)
  | ok path ↦ single prefix path.elements
]

-- `wrapRootedFilesDatabase`: the scopes that it allows
unfoldable pub allowed_scopes : List String → Result (List String)
unfolding validate_scope
allowed_scopes [] = ok []
allowed_scopes (scope ∷ scopes) = do
  prefix ← validate_scope scope
  allowed ← allowed_scopes scopes
  ok (prefix ∷ allowed)

-- `OpenRootedFiles`; `cancelled` is the error of the context, and `open` is `openRootedFiles` on
-- the project of the backend.
unfoldable pub open_rooted_files :
    {A : Type 0} → List String → Result (Unit {0}) → (String → Result A) → String → Result A
unfolding validate_scope
open_rooted_files allowed cancelled opening scope = do
  cancelled
  prefix ← validate_scope scope
  (if contains allowed prefix
      then opening prefix
      else err (quoted "rooted files scope is not authorized" prefix))
