-- ===== src/Keys/RoundTrip.antt =====
-- Valid record keys and file names correspond one to one.
use dalgo2ingitdb.Base.{
  ℕ, String, code, Char, ◌≡◌, refl, sym, ap, ◌∙◌, Bool, true, false, ◌||◌, List, [], ◌∷◌, ◌==◌, ◌≢◌,
  arith, eq_iff, eqb, Bool-cases, inl, inr,
}
use dalgo2ingitdb.Base.Result.{ok}
use dalgo2ingitdb.Keys.{
  is_control, escape_char, record_key_to_file_name, at_front, slash_escape, backslash_escape,
  unescape_from, record_key_from_file_name, to_upper, upper_codes, prefix_codes, contains_codes,
  has_escape, validate_record_path_segment, has_control,
}
use text.Mathlib.TextEquality.{Char-path}

-- Whether an escape, spelled in capitals, stands somewhere in the text.
abbrev has_capital_escape : String → Bool
has_capital_escape String.[] = false
has_capital_escape (String.◌∷◌ c s) =
    at_front slash_escape (String.◌∷◌ c s)
    || at_front backslash_escape (String.◌∷◌ c s)
    || has_capital_escape s

abbrev pub has_separator : String → Bool
has_separator String.[] = false
has_separator (String.◌∷◌ c s) = eqb (code c) b'/' || eqb (code c) 92 || has_separator s

-- A character that is no `%` at the front of an escaped text was there before.
front-escape_char :
    (n : ℕ) (ns : List ℕ) (c : Char) (r : String)
    → n ≢ b'%'
    → at_front (n ∷ ns) (escape_char c r) ≡ true
    → (eqb (code c) n ≡ true) × (at_front ns r ≡ true)
unfolding escape_char
front-escape_char n ns c r a h = elim (Bool-cases (eqb (code c) b'/')) [
  | inl slash ↦ absurd (let k = rw slash at h in ground arith)
  | inr not_slash ↦ elim (Bool-cases (eqb (code c) 92)) [
    | inl back ↦ absurd (let k = rw (not_slash, back) at h in ground arith)
    | inr not_back ↦ let k = rw (not_slash, not_back) at h in ground arith
  ]
]

front-escape :
    (m n : ℕ) (s : String)
    → m ≢ b'%'
    → n ≢ b'%'
    → at_front (m ∷ n ∷ []) (record_key_to_file_name s) ≡ true
    → at_front (m ∷ n ∷ []) s ≡ true
unfolding record_key_to_file_name
front-escape m n String.[] a b h = h
front-escape m n (String.◌∷◌ c String.[]) a b h =
    let (p, q) = front-escape_char m (n ∷ []) c "" a h in absurd (ground arith)
front-escape m n (String.◌∷◌ c (String.◌∷◌ d s)) a b h =
    let (p, q) = front-escape_char m (n ∷ []) c _ a h in
    let (p', q') = front-escape_char n [] d _ b q in ground arith

plain_front :
    (m n : ℕ) (c : Char) (s : String)
    → m ≢ b'%'
    → n ≢ b'%'
    → at_front (b'%' ∷ m ∷ n ∷ []) (String.◌∷◌ c s) ≡ false
    → at_front (b'%' ∷ m ∷ n ∷ []) (String.◌∷◌ c (record_key_to_file_name s)) ≡ false
plain_front m n c s a b h = elim (Bool-cases (at_front (m ∷ n ∷ []) (record_key_to_file_name s))) [
  | inl found ↦ let k = front-escape m n s a b found in ground arith
  | inr none_found ↦ ground arith
]

unescape_plain :
    (c : Char) (r : String)
    → at_front slash_escape (String.◌∷◌ c r) ≡ false
    → at_front backslash_escape (String.◌∷◌ c r) ≡ false
    → unescape_from 0 (String.◌∷◌ c r) ≡ String.◌∷◌ c (unescape_from 0 r)
unfolding unescape_from
unescape_plain c r h k = ground arith

unescape-escape_char :
    (c : Char) (s : String)
    → at_front slash_escape (String.◌∷◌ c s) ≡ false
    → at_front backslash_escape (String.◌∷◌ c s) ≡ false
    → unescape_from 0 (escape_char c (record_key_to_file_name s))
      ≡ String.◌∷◌ c (unescape_from 0 (record_key_to_file_name s))
unfolding escape_char unescape_from
unescape-escape_char c s h k = elim (Bool-cases (eqb (code c) b'/')) [
  | inl slash ↦ rw slash (
      ap (λ x. String.◌∷◌ x (unescape_from 0 (record_key_to_file_name s)))
        (Char-path "/" c (ground arith)))
  | inr not_slash ↦ elim (Bool-cases (eqb (code c) 92)) [
    | inl back ↦
        rw (not_slash, back)
          (ap (λ x. String.◌∷◌ x (unescape_from 0 (record_key_to_file_name s)))
            (Char-path "\\" c (ground arith)))
    | inr not_back ↦
        rw (not_slash, not_back)
          (unescape_plain c (record_key_to_file_name s)
            (plain_front b'2' b'F' c s (omega arith) (omega arith) h)
            (plain_front b'5' b'C' c s (omega arith) (omega arith) k))
  ]
]

unescape-escape :
    (s : String) → has_capital_escape s ≡ false → unescape_from 0 (record_key_to_file_name s) ≡ s
unfolding record_key_to_file_name unescape_from
unescape-escape String.[] h = refl
unescape-escape (String.◌∷◌ c s) h =
    unescape-escape_char c s (ground arith) (ground arith)
    ∙ ap (String.◌∷◌ c) (unescape-escape s (ground arith))

-- The characters of a reserved escape are their own upper case.
front-upper :
    (m n : ℕ) (s : String)
    → to_upper m ≡ m
    → to_upper n ≡ n
    → at_front (b'%' ∷ m ∷ n ∷ []) s ≡ true
    → prefix_codes (b'%' ∷ m ∷ n ∷ []) (upper_codes s) ≡ true
unfolding upper_codes
front-upper m n String.[] a b h = h
front-upper m n (String.◌∷◌ c String.[]) a b h = absurd (ground arith)
front-upper m n (String.◌∷◌ c (String.◌∷◌ d String.[])) a b h = absurd (ground arith)
front-upper m n (String.◌∷◌ c (String.◌∷◌ d (String.◌∷◌ e s))) a b h = ground arith

has_escape_capital :
    (s : String)
    → contains_codes slash_escape (upper_codes s) ≡ false
    → contains_codes backslash_escape (upper_codes s) ≡ false
    → has_capital_escape s ≡ false
unfolding upper_codes contains_codes
has_escape_capital String.[] h k = refl
has_escape_capital (String.◌∷◌ c s) h k = ground (
  arith,
  front-upper b'2' b'F' (String.◌∷◌ c s) refl refl,
  front-upper b'5' b'C' (String.◌∷◌ c s) refl refl,
  has_escape_capital s,
)

valid-has_escape :
    (goos id : String)
    → validate_record_path_segment goos id ≡ ok tt
    → (has_escape id ≡ false)
      × (has_control id ≡ false)
      × ((id == "" || id == "." || id == "..") ≡ false)
unfolding validate_record_path_segment
valid-has_escape goos id h = (ground arith, ground arith, ground arith)

capital-has_escape : (id : String) → has_escape id ≡ false → has_capital_escape id ≡ false
unfolding has_escape
capital-has_escape id h = has_escape_capital id (ground arith) (ground arith)

valid-has_capital_escape :
    (goos id : String)
    → validate_record_path_segment goos id ≡ ok tt
    → has_capital_escape id ≡ false
valid-has_capital_escape goos id h = capital-has_escape id (valid-has_escape goos id h).0

-- A record key that `validateRecordPathSegment` accepts, on whatever operating system, is read
-- back from its file name unchanged.
pub file_name_roundtrip :
    (goos id : String)
    → validate_record_path_segment goos id ≡ ok tt
    → record_key_from_file_name (record_key_to_file_name id) ≡ id
unfolding record_key_from_file_name
file_name_roundtrip goos id h = unescape-escape id (valid-has_capital_escape goos id h)

-- Two accepted record keys with the same file name are the same key.
pub file_name_injective :
    (goos a b : String)
    → validate_record_path_segment goos a ≡ ok tt
    → validate_record_path_segment goos b ≡ ok tt
    → record_key_to_file_name a ≡ record_key_to_file_name b
    → a ≡ b
file_name_injective goos a b h k e =
    sym (file_name_roundtrip goos a h)
    ∙ ap record_key_from_file_name e
    ∙ file_name_roundtrip goos b k

escape-has_separator : (s : String) → has_separator (record_key_to_file_name s) ≡ false
unfolding record_key_to_file_name
escape-has_separator String.[] = refl
escape-has_separator (String.◌∷◌ c s) = elim (Bool-cases (eqb (code c) b'/')) [
  | inl slash ↦ rw slash (escape-has_separator s)
  | inr not_slash ↦ elim (Bool-cases (eqb (code c) 92)) [
    | inl back ↦ rw (not_slash, back) (escape-has_separator s)
    | inr not_back ↦ rw (not_slash, not_back) (ground (arith, escape-has_separator s))
  ]
]

escape-has_control :
    (s : String) → has_control s ≡ false → has_control (record_key_to_file_name s) ≡ false
unfolding record_key_to_file_name is_control
escape-has_control String.[] h = refl
escape-has_control (String.◌∷◌ c s) h = elim (Bool-cases (eqb (code c) b'/')) [
  | inl slash ↦ rw slash (escape-has_control s (ground arith))
  | inr not_slash ↦ elim (Bool-cases (eqb (code c) 92)) [
    | inl back ↦ rw (not_slash, back) (escape-has_control s (ground arith))
    | inr not_back ↦ rw (not_slash, not_back) (ground (arith, escape-has_control s))
  ]
]

-- A text that can stand as one name in a directory: none of the special names, no separator of
-- either kind, and no control character.
pub record IsFileName (name : String) : Type 0 where
  pub not_special : (name ≢ "") × (name ≢ ".") × (name ≢ "..")
  pub no_separator : has_separator name ≡ false
  pub no_control : has_control name ≡ false

-- The file name of an accepted record key is a single directory entry.
pub record_key_to_file_name-IsFileName :
    (goos id : String)
    → validate_record_path_segment goos id ≡ ok tt
    → IsFileName (record_key_to_file_name id)
unfolding record_key_from_file_name unescape_from
record_key_to_file_name-IsFileName goos id h =
    let (esc, ctl, special) = valid-has_escape goos id h in
    let back = file_name_roundtrip goos id h in
    record {
      not_special = (
        λ e. ground (arith, eq_iff id "", sym back ∙ ap (unescape_from 0) e),
        λ e. ground (arith, eq_iff id ".", sym back ∙ ap (unescape_from 0) e),
        λ e. ground (arith, eq_iff id "..", sym back ∙ ap (unescape_from 0) e),
      );
      no_separator = escape-has_separator id;
      no_control = escape-has_control id ctl;
    }
