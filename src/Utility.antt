-- ===== src/Utility.antt =====
-- include/microStore/Utility.h: the checksum `crc32`, on a state of 32 bits.
pub mod Chaining
use Prim.Native.Nat.{bit_and, bit_xor}
use micro_store.Base.{ℕ, zero, suc, ◌-◌, ◌/◌, ◌%◌, ◌^◌, Option, none, some, List, [], ◌∷◌}

-- `~crc`
unfoldable pub complement : ℕ → ℕ
complement crc = 0xffff_ffff - crc

-- `crc = (crc>>1) ^ (0xEDB88320 & -(crc&1))`
unfoldable pub shift : ℕ → ℕ
shift crc = bit_xor (crc / 2) (bit_and 0xedb8_8320 ((2 ^ 32 - crc % 2) % 2 ^ 32))

unfoldable pub rounds : ℕ → ℕ → ℕ
unfolding shift
rounds zero crc = crc
rounds (suc n) crc = rounds n (shift crc)

-- The loop over the bytes.
unfoldable pub crc_loop : ℕ → List ℕ → ℕ
unfolding rounds
crc_loop crc [] = crc
crc_loop crc (b ∷ bs) = crc_loop (rounds 8 (bit_xor crc b)) bs

-- `none` is the null pointer.
unfoldable pub crc32 : ℕ → Option (List ℕ) → ℕ
unfolding crc_loop complement
crc32 crc none = 0
crc32 crc (some bytes) = complement (crc_loop (complement crc) bytes)
