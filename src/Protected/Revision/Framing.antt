-- ===== src/Protected/Revision/Framing.antt =====
-- The message of a revision determines the record that it stands for (protected.go, revision).
use dalgo2ingitdb.Base.{
  ℕ, zero, suc, ◌*◌, ◌<◌, ◌≡◌, refl, sym, ap, ◌∙◌, Bool, true, false, [], ◌∷◌, ◌++◌, length, arith,
}
use dalgo2ingitdb.Schema.{Bytes}
use dalgo2ingitdb.Protected.Revision.{big_endian, exists_byte, revision_message}
use Prim.Native.Nat.{◌%◌, ◌/◌}

-- The number of values of so many bytes.
abbrev pow256 : ℕ → ℕ
pow256 zero = 1
pow256 (suc k) = 256 * pow256 k

snoc_parts : (xs ys : Bytes) (a b : ℕ) → (xs ++ a ∷ []) ≡ (ys ++ b ∷ []) → (xs ≡ ys) × (a ≡ b)
snoc_parts [] [] a b h = (refl, cc h)
snoc_parts [] (y ∷ []) a b h = cc h
snoc_parts [] (y ∷ z ∷ ys) a b h = cc h
snoc_parts (x ∷ []) [] a b h = cc h
snoc_parts (x ∷ z ∷ xs) [] a b h = cc h
snoc_parts (x ∷ xs) (y ∷ ys) a b h =
    let (same, last) = snoc_parts xs ys a b (cc h) in (cc (h, same), last)

big_endian_injective :
    (k n m : ℕ) → n < pow256 k → m < pow256 k → big_endian k n ≡ big_endian k m → n ≡ m
unfolding big_endian
big_endian_injective zero n m a b h = omega arith
big_endian_injective (suc k) n m a b h =
    let (rest, last) =
      snoc_parts (big_endian k (n / 256)) (big_endian k (m / 256)) (n % 256) (m % 256) h in
    let high = big_endian_injective k (n / 256) (m / 256) (omega arith) (omega arith) rest in
    omega arith

length_snoc : (xs : Bytes) (a : ℕ) → length (xs ++ a ∷ []) ≡ suc (length xs)
length_snoc [] a = refl
length_snoc (x ∷ xs) a = ap suc (length_snoc xs a)

length-big_endian : (k n : ℕ) → length (big_endian k n) ≡ k
unfolding big_endian
length-big_endian zero n = refl
length-big_endian (suc k) n =
    length_snoc (big_endian k (n / 256)) (n % 256) ∙ ap suc (length-big_endian k (n / 256))

append_parts :
    (xs ys us vs : Bytes) → length xs ≡ length ys → (xs ++ us) ≡ (ys ++ vs) → (xs ≡ ys) × (us ≡ vs)
append_parts [] [] us vs l h = (refl, h)
append_parts [] (y ∷ ys) us vs l h = absurd (omega arith)
append_parts (x ∷ xs) [] us vs l h = absurd (omega arith)
append_parts (x ∷ xs) (y ∷ ys) us vs l h =
    let (same, rest) = append_parts xs ys us vs (omega arith) (cc h) in (cc (h, same), rest)

exists_byte_injective : (a b : Bool) → exists_byte a ≡ exists_byte b → a ≡ b
exists_byte_injective true true h = refl
exists_byte_injective false false h = refl
exists_byte_injective true false h = absurd (omega arith)
exists_byte_injective false true h = absurd (omega arith)

-- Two messages are equal only for the same target, the same existence and the same contents, for
-- targets of less than 2^64 bytes.
pub revision_message_injective :
    (target target' : Bytes) (exists exists' : Bool) (raw raw' : Bytes)
    → length target < 18446744073709551616
    → length target' < 18446744073709551616
    → revision_message target exists raw ≡ revision_message target' exists' raw'
    → (target ≡ target') × (exists ≡ exists') × (raw ≡ raw')
unfolding revision_message
revision_message_injective target target' exists exists' raw raw' a b h =
    let (sizes, rest) =
      append_parts (big_endian 8 (length target)) (big_endian 8 (length target')) _ _
        (length-big_endian 8 (length target) ∙ sym (length-big_endian 8 (length target'))) h in
    let size = big_endian_injective 8 (length target) (length target') a b sizes in
    let (same, marked) = append_parts target target' _ _ size rest in
    (same, exists_byte_injective exists exists' (cc marked), cc marked)
