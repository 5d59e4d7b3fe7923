-- ===== src/Ddl/Names.antt =====
-- schema_modifier.go, validateCollectionName.
use dalgo2ingitdb.Base.{String, Bool, false, not, ◌||◌, List, [], ◌∷◌, ◌==◌, if◌then◌else◌}
use dalgo2ingitdb.Base.Result.{failure, quoted, Result, ok, err}
use dalgo2ingitdb.Keys.{has_control}
use dalgo2ingitdb.Paths.{split_slash, is_rooted}
use dalgo2ingitdb.Rooted.Scope.{has_byte}

abbrev pub invalid_segment : String → Bool
invalid_segment seg = seg == ".." || seg == "." || seg == ""

abbrev pub has_invalid_segment : List String → Bool
has_invalid_segment [] = false
has_invalid_segment (seg ∷ segs) = invalid_segment seg || has_invalid_segment segs

-- `trim_space` is `strings.TrimSpace`.
unfoldable pub validate_collection_name : (String → String) → String → Result (Unit {0})
unfolding split_slash has_control
validate_collection_name trim_space name =
    if name == ""
    then err (failure "collection name must not be empty")
    else if not (trim_space name == name)
    then err (quoted "collection name has leading/trailing whitespace" name)
    else if has_control name
    then err (quoted "collection name contains a control character" name)
    else if has_byte b'\\' name
    then err (quoted "collection name must not contain a backslash" name)
    else if has_invalid_segment (split_slash name)
    then err (quoted "collection name has invalid path segment" name)
    else if is_rooted name
    then err (quoted "collection name must be relative" name)
    else ok tt
