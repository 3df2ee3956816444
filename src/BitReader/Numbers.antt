-- ===== src/BitReader/Numbers.antt =====
-- Bits as numbers: the bit of a source at an address, and the number that consecutive bits spell.
use stream_view.Common.{
  ℕ, zero, suc, ◌+◌, ◌-◌, ◌*◌, ◌/◌, ◌%◌, ◌^◌, ◌≤◌, ◌<◌, ◌≡◌, refl, ap, ◌∙◌, arith, add64,
}
use stream_view.BitReader.{collect_bits, push_bit}
use stream_view.Source.Bytes.{slice, get_or-slice}
use native.Mathlib.Nat.{pow-suc, one-le-pow}

-- The first bit of a byte is its highest.
unfoldable pub source_bit : (ℕ → ℕ) → ℕ → ℕ
source_bit byte address = byte (address / 8) / 2 ^ (7 - address % 8) % 2

-- The number that `count` bits from `start` on spell, the first one highest.
unfoldable pub number : (ℕ → ℕ) → ℕ → ℕ → ℕ
number bit start zero = 0
number bit start (suc count) = number bit start count * 2 + bit (start + count)

pub source_bit-lt : (byte : ℕ → ℕ) (address : ℕ) → source_bit byte address < 2
unfolding source_bit
source_bit-lt byte address = omega arith

pub pow_suc : (n : ℕ) → 2 ^ suc n ≡ 2 ^ n * 2
pow_suc n = pow-suc 2 n

pub pow_add : (m n : ℕ) → 2 ^ (m + n) ≡ 2 ^ m * 2 ^ n
pow_add m zero = let same : m + 0 ≡ m = omega arith in rw same (omega arith)
pow_add m (suc n) =
    let same : m + suc n ≡ suc (m + n) = omega arith in
    rw same (
      omega (arith, pow_suc (m + n), pow_suc n, pow_add m n, ap (λ (t : ℕ). 2 ^ m * t) (pow_suc n)))

pub one-le-pow_two : (n : ℕ) → 1 ≤ 2 ^ n
one-le-pow_two n = one-le-pow n 2 (omega arith)

pub le-mul_pow : (x n : ℕ) → x ≤ x * 2 ^ n
le-mul_pow x n = grind (arith, one-le-pow_two n)

pub number-add :
    (bit : ℕ → ℕ) (start m n : ℕ)
    → number bit start (m + n) ≡ number bit start m * 2 ^ n + number bit (start + m) n
unfolding number
number-add bit start m zero = let same : m + 0 ≡ m = omega arith in rw same (omega arith)
number-add bit start m (suc n) =
    let sum : m + suc n ≡ suc (m + n) = omega arith in
    let place : start + m + n ≡ start + (m + n) = omega arith in
    rw (sum, place)
      (omega (
        arith,
        number-add bit start m n,
        pow_suc n,
        ap (λ (t : ℕ). number bit start m * t) (pow_suc n),
      ))

number_one : (bit : ℕ → ℕ) (start : ℕ) → number bit start 1 ≡ bit start
unfolding number
number_one bit start = omega (arith, ap bit (zero_add start))
  where
    zero_add : (n : ℕ) → n + 0 ≡ n
    zero_add n = omega arith

pub number_front :
    (bit : ℕ → ℕ) (start n : ℕ)
    → number bit start (suc n) ≡ bit start * 2 ^ n + number bit (start + 1) n
number_front bit start n =
    let sum : suc n ≡ 1 + n = omega arith in
    rw sum (
      number-add bit start 1 n
      ∙ ap (λ t. t * 2 ^ n + number bit (start + 1) n) (number_one bit start))

pub number-lt : (bit : ℕ → ℕ) (start n : ℕ) → ((i : ℕ) → bit i < 2) → number bit start n < 2 ^ n
unfolding number
number-lt bit start zero h = omega arith
number-lt bit start (suc n) h = omega (arith, number-lt bit start n h, h (start + n), pow_suc n)

-- Bits that agree on the range spell the same number.
pub number-ext :
    (f g : ℕ → ℕ) (a b n : ℕ)
    → ((i : ℕ) → i < n → f (a + i) ≡ g (b + i))
    → number f a n ≡ number g b n
unfolding number
number-ext f g a b zero h = refl
number-ext f g a b (suc n) h =
    omega (arith, number-ext f g a b n (λ i l. h i (omega arith)), h n (omega arith))

-- A bit pushed while there is room does not wrap, and leaves room for what follows.
pub push_bit_lem :
    (value bit left : ℕ)
    → bit < 2
    → (value + 1) * 2 ^ suc left ≤ 2 ^ 64
    → (push_bit value bit ≡ value * 2 + bit) × ((value * 2 + bit + 1) * 2 ^ left ≤ 2 ^ 64)
push_bit_lem value bit left h fits =
    let room : (value + 1) * 2 * 2 ^ left ≤ 2 ^ 64 =
      omega (arith, ap (λ (t : ℕ). value * t) (pow_suc left), pow_suc left) in
    let low = le-mul_pow ((value + 1) * 2) left in (omega arith, grind arith)

-- The loop over the bytes of a chunk spells the source's bits behind the value so far.
pub collect_bits-number :
    (byte : ℕ → ℕ) (first count absolute left value : ℕ)
    → first ≤ absolute / 8
    → absolute + left ≤ (first + count) * 8
    → absolute + left < 2 ^ 64
    → (value + 1) * 2 ^ left ≤ 2 ^ 64
    → collect_bits (slice byte first count) first absolute left value
      ≡ value * 2 ^ left + number (source_bit byte) absolute left
unfolding collect_bits source_bit number
collect_bits-number byte first count absolute zero value lo hi wide fits = omega arith
collect_bits-number byte first count absolute (suc left) value lo hi wide fits =
    let bit = source_bit byte absolute in
    let (pushed, room) = push_bit_lem value bit left (source_bit-lt byte absolute) fits in
    let here : first + (absolute / 8 - first) ≡ absolute / 8 = omega arith in
    let next : add64 absolute 1 ≡ absolute + 1 = omega arith in
    rw (get_or-slice byte first count (absolute / 8 - first) 0 (omega arith), here, pushed, next)
      (collect_bits-number byte first count (absolute + 1) left (value * 2 + bit) (omega arith)
          (omega arith) (omega arith) room
        ∙ omega (
          arith,
          number_front (source_bit byte) absolute left,
          ap (λ (t : ℕ). value * t) (pow_suc left),
        ))
