-- ===== src/Feature/Hash.antt =====
-- feature/strategy.go: murmurHash3 and determineClientPercentage, on bytes and 32-bit words.
use Prim.Native.Nat.{bit_xor}
use fit_go.Base.{ℕ, ◌+◌, ◌-◌, ◌*◌, ◌/◌, ◌%◌, ◌^◌, ◌<◌, [], ◌∷◌, ◌++◌, Text, length, arith}

abbrev pub word : ℕ → ℕ
word n = n % 2 ^ 32

abbrev pub xor_word : ℕ → ℕ → ℕ
xor_word a b = word (bit_xor a b)

-- bits.RotateLeft32 on a word: the two parts have no bit in common.
abbrev pub rotate_left : ℕ → ℕ → ℕ
rotate_left v k = word (v * 2 ^ k) + v / 2 ^ (32 - k)

-- The multiplications and the rotation that a block and the tail have in common.
unfoldable pub scramble : ℕ → ℕ
scramble value = word (rotate_left (word (value * 0xcc9e2d51)) 15 * 0x1b873593)

unfoldable pub mix_block : ℕ → ℕ → ℕ
mix_block hash value = word (rotate_left (xor_word hash (scramble value)) 13 * 5 + 0xe6546b64)

abbrev pub little_endian : ℕ → ℕ → ℕ → ℕ → ℕ
little_endian a b c d = a + b * 2 ^ 8 + c * 2 ^ 16 + d * 2 ^ 24

-- The loop over the blocks, and the switch on the tail.
unfoldable pub hash_blocks : ℕ → Text → ℕ
hash_blocks hash (a ∷ b ∷ c ∷ d ∷ rest) = hash_blocks (mix_block hash (little_endian a b c d)) rest
hash_blocks hash (a ∷ b ∷ c ∷ []) =
    xor_word hash (scramble (xor_word (xor_word (xor_word 0 (c * 2 ^ 16)) (b * 2 ^ 8)) a))
hash_blocks hash (a ∷ b ∷ []) = xor_word hash (scramble (xor_word (xor_word 0 (b * 2 ^ 8)) a))
hash_blocks hash (a ∷ []) = xor_word hash (scramble (xor_word 0 a))
hash_blocks hash [] = hash

abbrev shift_xor : ℕ → ℕ → ℕ
shift_xor k hash = xor_word hash (hash / 2 ^ k)

unfoldable pub finish_hash : ℕ → ℕ → ℕ
finish_hash size hash = shift_xor 16 (
    word (shift_xor 13 (word (shift_xor 16 (xor_word hash (word size)) * 0x85ebca6b)) * 0xc2b2ae35))

unfoldable pub murmur_hash3 : Text → ℕ → ℕ
murmur_hash3 bytes seed = finish_hash (length bytes) (hash_blocks seed bytes)

abbrev pub max_percentage : ℕ
max_percentage = 1000000

-- determineClientPercentage: the division by a power of two and the product, of at most 52 bits, are
-- exact in a float64.
unfoldable pub determine_client_percentage : Text → Text → ℕ
determine_client_percentage percentage_key feature_id =
    murmur_hash3 (percentage_key ++ feature_id) 0 * max_percentage / 2 ^ 32

word-below : (n : ℕ) → word n < 2 ^ 32
word-below n = omega arith

finish_hash-below : (size hash : ℕ) → finish_hash size hash < 2 ^ 32
unfolding finish_hash
finish_hash-below size hash = word-below _

scaled-below : (n : ℕ) → n < 2 ^ 32 → n * 1000000 / 2 ^ 32 < 1000000
scaled-below n h = omega arith

-- The percentage of a client is below one million.
pub determine_client_percentage-below :
    (percentage_key feature_id : Text)
    → determine_client_percentage percentage_key feature_id < max_percentage
unfolding determine_client_percentage murmur_hash3
determine_client_percentage-below percentage_key feature_id = scaled-below _ (
    finish_hash-below (length (percentage_key ++ feature_id))
      (hash_blocks 0 (percentage_key ++ feature_id)))
