-- ===== src/Utility/Chaining.antt =====
-- Utility.h: the checksum of a concatenation is the one continued.
use Prim.Native.Nat.{bit_and, bit_xor, bit_and-bitwise, bit_xor-bitwise, digits, differ}
use native.Mathlib.Omega.{pow_step}
use micro_store.Base.{
  ℕ, zero, suc, ◌*◌, ◌/◌, ◌%◌, ◌^◌, ◌<◌, ◌≡◌, refl, ap, sym, ◌∙◌, min, some, List, [], ◌∷◌, ◌++◌,
  arith,
}
use micro_store.Utility.{complement, shift, rounds, crc_loop, crc32}

two_pow_suc : (w : ℕ) → 2 ^ suc w ≡ 2 ^ w * 2
two_pow_suc w = omega (arith, pow_step 2 w)

differ_lt : (x y : ℕ) → x < 2 → y < 2 → differ x y < 2
differ_lt zero y a b = b
differ_lt (suc x) zero a b = a
differ_lt (suc x) (suc y) a b = differ_lt x y (omega arith) (omega arith)

xor_digits_lt : (w n a b : ℕ) → a < 2 ^ w → b < 2 ^ w → digits (λ b. b) differ n a b < 2 ^ w
xor_digits_lt w zero a b p q = q
xor_digits_lt w (suc n) zero b p q = q
xor_digits_lt zero (suc n) (suc a) b p q = absurd (omega arith)
xor_digits_lt (suc w) (suc n) (suc a) b p q = omega (
  arith,
  two_pow_suc w,
  xor_digits_lt w n (suc a / 2) (b / 2) (omega (arith, two_pow_suc w))
      (omega (arith, two_pow_suc w)),
  differ_lt (suc a % 2) (b % 2) (omega arith) (omega arith),
)

and_digits_lt : (w n a b : ℕ) → a < 2 ^ w → digits (λ b. zero) min n a b < 2 ^ w
and_digits_lt w zero a b p = omega arith
and_digits_lt w (suc n) zero b p = omega arith
and_digits_lt zero (suc n) (suc a) b p = absurd (omega arith)
and_digits_lt (suc w) (suc n) (suc a) b p =
    omega
      (arith, two_pow_suc w, and_digits_lt w n (suc a / 2) (b / 2) (omega (arith, two_pow_suc w)))

bit_xor_lt : (w a b : ℕ) → a < 2 ^ w → b < 2 ^ w → bit_xor a b < 2 ^ w
bit_xor_lt w a b p q = omega (arith, bit_xor-bitwise a b, xor_digits_lt w a a b p q)

bit_and_lt : (w a b : ℕ) → a < 2 ^ w → bit_and a b < 2 ^ w
bit_and_lt w a b p = omega (arith, bit_and-bitwise a b, and_digits_lt w a a b p)

shift_lt : (crc : ℕ) → crc < 2 ^ 32 → shift crc < 2 ^ 32
unfolding shift
shift_lt crc h = bit_xor_lt 32 (crc / 2) _ (omega arith) (bit_and_lt 32 0xedb8_8320 _ (omega arith))

rounds_lt : (n crc : ℕ) → crc < 2 ^ 32 → rounds n crc < 2 ^ 32
unfolding rounds
rounds_lt zero crc h = h
rounds_lt (suc n) crc h = rounds_lt n (shift crc) (shift_lt crc h)

-- Each number is a byte.
abbrev pub AreBytes : List ℕ → Type 0
AreBytes [] = Unit
AreBytes (b ∷ bs) = (b < 256) × AreBytes bs

crc_loop_lt : (crc : ℕ) (bs : List ℕ) → crc < 2 ^ 32 → AreBytes bs → crc_loop crc bs < 2 ^ 32
unfolding crc_loop
crc_loop_lt crc [] h bytes = h
crc_loop_lt crc (b ∷ bs) h (small, bytes) =
    crc_loop_lt (rounds 8 (bit_xor crc b)) bs
      (rounds_lt 8 (bit_xor crc b) (bit_xor_lt 32 crc b h (omega arith))) bytes

crc_loop-append :
    (crc : ℕ) (xs ys : List ℕ) → crc_loop crc (xs ++ ys) ≡ crc_loop (crc_loop crc xs) ys
unfolding crc_loop
crc_loop-append crc [] ys = refl
crc_loop-append crc (b ∷ bs) ys = crc_loop-append (rounds 8 (bit_xor crc b)) bs ys

complement_twice : (crc : ℕ) → crc < 2 ^ 32 → complement (complement crc) ≡ crc
unfolding complement
complement_twice crc h = omega arith

complement_lt : (crc : ℕ) → complement crc < 2 ^ 32
unfolding complement
complement_lt crc = omega arith

pub crc32_lt : (crc : ℕ) (bytes : List ℕ) → crc32 crc (some bytes) < 2 ^ 32
unfolding crc32
crc32_lt crc bytes = complement_lt (crc_loop (complement crc) bytes)

pub crc32-nil : (crc : ℕ) → crc < 2 ^ 32 → crc32 crc (some []) ≡ crc
unfolding crc32 crc_loop
crc32-nil crc h = complement_twice crc h

-- The checksum of two byte strings in turn is that of their concatenation.
pub crc32-append :
    (crc : ℕ) (xs ys : List ℕ)
    → AreBytes xs
    → crc32 (crc32 crc (some xs)) (some ys) ≡ crc32 crc (some (xs ++ ys))
unfolding crc32
crc32-append crc xs ys bytes =
    let same =
      complement_twice (crc_loop (complement crc) xs)
        (crc_loop_lt (complement crc) xs (complement_lt crc) bytes) in
    ap (λ c. complement (crc_loop c ys)) same
    ∙ ap complement (sym (crc_loop-append (complement crc) xs ys))
