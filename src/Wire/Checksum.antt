-- ===== src/Wire/Checksum.antt =====
-- crc32_core (include/unitree/crc32.hpp), on words of 32 bits.
use Prim.Native.Nat.{bit_and, bit_xor}
use gearsonic_inference.Common.{
  ℕ, zero, suc, ◌*◌, ◌/◌, ◌%◌, ◌^◌, Bool, not, List, [], ◌∷◌, if◌then◌else◌, ◌==◌,
}

abbrev pub polynomial : ℕ
polynomial = 0x04c11db7

abbrev has_bit : ℕ → ℕ → Bool
has_bit x bit = not (bit_and x bit == 0)

-- The loop over the bits of one word, with `left` of them to go.
unfoldable pub crc_bits : ℕ → ℕ → ℕ → ℕ → ℕ
crc_bits zero xbit word crc = crc
crc_bits (suc left) xbit word crc =
    let shifted = crc * 2 % 2 ^ 32 in
    let turned = if has_bit crc 0x80000000 then bit_xor shifted polynomial else shifted in
    let next = if has_bit word xbit then bit_xor turned polynomial else turned in
    crc_bits left (xbit / 2) word next

unfoldable pub crc_words : List ℕ → ℕ → ℕ
unfolding crc_bits
crc_words [] crc = crc
crc_words (word ∷ rest) crc = crc_words rest (crc_bits 32 0x80000000 word crc)

unfoldable pub crc32_core : List ℕ → ℕ
unfolding crc_words
crc32_core words = crc_words words 0xFFFFFFFF
