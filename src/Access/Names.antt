-- ===== src/Access/Names.antt =====
-- The names of policies and of generations (access_generation.go).
use dalgo2ingitdb.Base.{ℕ, suc, zero, String, code, Bool, true, false, ◌&&◌, ◌||◌, leb, eqb}

abbrev between : ℕ → ℕ → ℕ → Bool
between low high n = leb low n && leb n high

abbrev pub is_alphanumeric : ℕ → Bool
is_alphanumeric n = between 48 57 n || between 65 90 n || between 97 122 n

-- A letter, a digit, `.`, `_` or `-`
abbrev pub is_id_char : ℕ → Bool
is_id_char n = is_alphanumeric n || eqb n 46 || eqb n 95 || eqb n 45

-- At most so many characters of an identifier.
unfoldable pub id_rest : ℕ → String → Bool
id_rest n String.[] = true
id_rest zero (String.◌∷◌ c s) = false
id_rest (suc n) (String.◌∷◌ c s) = is_id_char (code c) && id_rest n s

unfoldable pub safe_policy_id : String → Bool
unfolding id_rest
safe_policy_id String.[] = false
safe_policy_id (String.◌∷◌ c s) = is_alphanumeric (code c) && id_rest 127 s

-- As many lower-case hexadecimal digits, and no other character.
unfoldable hex_digits : ℕ → String → Bool
hex_digits zero String.[] = true
hex_digits (suc n) String.[] = false
hex_digits zero (String.◌∷◌ c s) = false
hex_digits (suc n) (String.◌∷◌ c s) =
    (between 48 57 (code c) || between 97 102 (code c)) && hex_digits n s

unfoldable pub is_sha256 : String → Bool
unfolding hex_digits
is_sha256 value = hex_digits 64 value
