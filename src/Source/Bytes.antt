-- ===== src/Source/Bytes.antt =====
-- Runs of consecutive bytes.
use stream_view.Common.{
  ℕ, zero, suc, ◌+◌, ◌≤◌, ◌<◌, List, [], ◌∷◌, ◌++◌, ◌∙◌, ◌≡◌, refl, ap, ap₂, length, get_or, take,
  drop, arith,
}

unfoldable pub slice : (ℕ → ℕ) → ℕ → ℕ → List ℕ
slice byte offset zero = []
slice byte offset (suc count) = byte offset ∷ slice byte (offset + 1) count

pub length-slice : (byte : ℕ → ℕ) (offset count : ℕ) → length (slice byte offset count) ≡ count
unfolding slice
length-slice byte offset zero = refl
length-slice byte offset (suc count) = ap suc (length-slice byte (offset + 1) count)

pub get_or-slice :
    (byte : ℕ → ℕ) (offset count i d : ℕ)
    → i < count
    → get_or (slice byte offset count) i d ≡ byte (offset + i)
unfolding slice
get_or-slice byte offset zero i d h = absurd (omega arith)
get_or-slice byte offset (suc count) zero d h = ap byte (omega arith)
get_or-slice byte offset (suc count) (suc i) d h =
    get_or-slice byte (offset + 1) count i d (omega arith) ∙ ap byte (omega arith)

pub slice-append :
    (byte : ℕ → ℕ) (offset m n : ℕ)
    → slice byte offset m ++ slice byte (offset + m) n ≡ slice byte offset (m + n)
unfolding slice
slice-append byte offset zero n =
    ap (λ o. slice byte o n) (omega arith) ∙ ap (slice byte offset) (omega arith)
slice-append byte offset (suc m) n =
    let sum : suc m + n ≡ suc (m + n) = omega arith in
    let next : offset + suc m ≡ offset + 1 + m = omega arith in
    rw (sum, next) (ap (◌∷◌ (byte offset)) (slice-append byte (offset + 1) m n))

pub take-slice :
    (byte : ℕ → ℕ) (offset count : ℕ)
    → take count (slice byte offset count) ≡ slice byte offset count
unfolding slice
take-slice byte offset zero = refl
take-slice byte offset (suc count) = ap (◌∷◌ (byte offset)) (take-slice byte (offset + 1) count)

pub slice-ext :
    (f g : ℕ → ℕ) (a b n : ℕ)
    → ((i : ℕ) → i < n → f (a + i) ≡ g (b + i))
    → slice f a n ≡ slice g b n
unfolding slice
slice-ext f g a b zero h = refl
slice-ext f g a b (suc n) h =
    ap₂ ◌∷◌ (ap f (omega arith) ∙ h 0 (omega arith) ∙ ap g (omega arith)) (
      slice-ext f g (a + 1) (b + 1) n
        (λ i l. ap f (omega arith) ∙ h (i + 1) (omega arith) ∙ ap g (omega arith)))

pub take-slice_le :
    (byte : ℕ → ℕ) (offset count n : ℕ)
    → n ≤ count
    → take n (slice byte offset count) ≡ slice byte offset n
unfolding slice
take-slice_le byte offset count zero h = refl
take-slice_le byte offset zero (suc n) h = absurd (omega arith)
take-slice_le byte offset (suc count) (suc n) h =
    ap (◌∷◌ (byte offset)) (take-slice_le byte (offset + 1) count n (omega arith))

pub take-drop-slice :
    (byte : ℕ → ℕ) (offset count k n : ℕ)
    → k + n ≤ count
    → take n (drop k (slice byte offset count)) ≡ slice byte (offset + k) n
unfolding slice
take-drop-slice byte offset count zero n h =
    take-slice_le byte offset count n (omega arith) ∙ ap (λ o. slice byte o n) (omega arith)
take-drop-slice byte offset zero (suc k) zero h = absurd (omega arith)
take-drop-slice byte offset zero (suc k) (suc n) h = absurd (omega arith)
take-drop-slice byte offset (suc count) (suc k) n h =
    take-drop-slice byte (offset + 1) count k n (omega arith)
    ∙ ap (λ o. slice byte o n) (omega arith)
