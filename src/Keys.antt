-- ===== src/Keys.antt =====
-- record_io.go, lines 15 to 99: record keys as file names.
pub mod RoundTrip
use dalgo2ingitdb.Base.{
  ℕ, zero, suc, ◌+◌, ◌-◌, String, code, Char, ◌<>◌, Bool, true, false, ◌&&◌, ◌||◌, List, [], ◌∷◌,
  ◌==◌, ltb, leb, eqb, if◌then◌else◌,
}
use dalgo2ingitdb.Base.Result.{Error, quoted, Result, ok, err}

-- `unicode.IsControl`
unfoldable pub is_control : ℕ → Bool
is_control c = ltb c 32 || leb 127 c && leb c 159

-- The escaped form of one character, by the pairs of `strings.NewReplacer`.
unfoldable pub escape_char : Char → String → String
escape_char c rest =
    if eqb (code c) b'/'
    then String.◌∷◌ "%" (String.◌∷◌ "2" (String.◌∷◌ "F" rest))
    else if eqb (code c) 92
    then String.◌∷◌ "%" (String.◌∷◌ "5" (String.◌∷◌ "C" rest))
    else String.◌∷◌ c rest

unfoldable pub record_key_to_file_name : String → String
unfolding escape_char
record_key_to_file_name String.[] = ""
record_key_to_file_name (String.◌∷◌ c s) = escape_char c (record_key_to_file_name s)

-- Whether the codes stand at the front of a text.
abbrev pub at_front : List ℕ → String → Bool
at_front [] s = true
at_front (n ∷ ns) String.[] = false
at_front (n ∷ ns) (String.◌∷◌ c s) = eqb (code c) n && at_front ns s

abbrev pub slash_escape : List ℕ
slash_escape = b'%' ∷ b'2' ∷ b'F' ∷ []

abbrev pub backslash_escape : List ℕ
backslash_escape = b'%' ∷ b'5' ∷ b'C' ∷ []

-- The replacer reads from the left; `skip` counts the characters of a match that are still to be
-- passed over.
unfoldable pub unescape_from : ℕ → String → String
unescape_from skip String.[] = ""
unescape_from (suc skip) (String.◌∷◌ c s) = unescape_from skip s
unescape_from zero (String.◌∷◌ c s) = elim (at_front slash_escape (String.◌∷◌ c s)) [
  | true ↦ String.◌∷◌ "/" (unescape_from 2 s)
  | false ↦ elim (at_front backslash_escape (String.◌∷◌ c s)) [
    | true ↦ String.◌∷◌ "\\" (unescape_from 2 s)
    | false ↦ String.◌∷◌ c (unescape_from 0 s)
  ]
]

unfoldable pub record_key_from_file_name : String → String
unfolding unescape_from
record_key_from_file_name name = unescape_from 0 name

-- `strings.ToUpper` on ASCII letters. No other character has an upper case among the letters that
-- are compared below.
unfoldable pub to_upper : ℕ → ℕ
to_upper c = if leb b'a' c && leb c b'z' then c - 32 else c

abbrev pub codes : String → List ℕ
codes String.[] = []
codes (String.◌∷◌ c s) = code c ∷ codes s

unfoldable pub upper_codes : String → List ℕ
unfolding to_upper
upper_codes String.[] = []
upper_codes (String.◌∷◌ c s) = to_upper (code c) ∷ upper_codes s

abbrev pub prefix_codes : List ℕ → List ℕ → Bool
prefix_codes [] s = true
prefix_codes (n ∷ ns) [] = false
prefix_codes (n ∷ ns) (c ∷ s) = eqb c n && prefix_codes ns s

-- `strings.Contains`
unfoldable pub contains_codes : List ℕ → List ℕ → Bool
contains_codes ns [] = prefix_codes ns []
contains_codes ns (c ∷ s) = prefix_codes ns (c ∷ s) || contains_codes ns s

abbrev pub same_codes : List ℕ → List ℕ → Bool
same_codes [] [] = true
same_codes (m ∷ ms) (n ∷ ns) = eqb m n && same_codes ms ns
same_codes _ _ = false

-- `strings.Cut(id, ".")`, the part before the separator
unfoldable pub before_dot : List ℕ → List ℕ
before_dot [] = []
before_dot (c ∷ s) = let rest = before_dot s in if eqb c b'.' then [] else c ∷ rest

-- `strings.TrimRight(base, " ")`
unfoldable pub trim_right_spaces : List ℕ → List ℕ
trim_right_spaces [] = []
trim_right_spaces (c ∷ s) = elim (trim_right_spaces s) [
  | [] ↦ if eqb c b' ' then [] else c ∷ []
  | d ∷ rest ↦ c ∷ d ∷ rest
]

-- "0" to "9", and the superscripts one, two and three
abbrev pub is_port_digit : ℕ → Bool
is_port_digit c = leb b'0' c && leb c b'9' || eqb c 0xb9 || eqb c 0xb2 || eqb c 0xb3

unfoldable pub is_port : List ℕ → Bool
is_port (a ∷ b ∷ c ∷ d ∷ []) =
    (same_codes (a ∷ b ∷ c ∷ []) (codes "COM") || same_codes (a ∷ b ∷ c ∷ []) (codes "LPT"))
    && is_port_digit d
is_port _ = false

abbrev pub upper_all : List ℕ → List ℕ
upper_all [] = []
upper_all (c ∷ s) = to_upper c ∷ upper_all s

unfoldable pub is_windows_reserved_name : String → Bool
unfolding before_dot trim_right_spaces is_port to_upper
is_windows_reserved_name id =
    let base = upper_all (trim_right_spaces (before_dot (codes id))) in
    same_codes base (codes "CON")
    || same_codes base (codes "PRN")
    || same_codes base (codes "AUX")
    || same_codes base (codes "NUL")
    || is_port base

abbrev pub has_control : String → Bool
has_control String.[] = false
has_control (String.◌∷◌ c s) = is_control (code c) || has_control s

-- The test for the reserved escapes, in any letter case.
unfoldable pub has_escape : String → Bool
unfolding upper_codes contains_codes
has_escape id =
    contains_codes slash_escape (upper_codes id) || contains_codes backslash_escape (upper_codes id)

-- `goos` is `runtimeGOOS`.
unfoldable pub validate_record_path_segment : String → String → Result (Unit {0})
validate_record_path_segment goos id =
    if id == "" || id == "." || id == ".."
    then err (quoted "cannot be used as a file name" id)
    else if has_control id
    then err (quoted "contains a control character" id)
    else if goos == "windows" && is_windows_reserved_name id
    then err (quoted "is a reserved Windows device name" id)
    else if has_escape id
    then err (quoted "contains a reserved escape sequence" id)
    else ok tt
