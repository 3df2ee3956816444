-- ===== src/SampleTables/Overflow.antt =====
-- When the overflow tests of the sample tables are passed.
use native.Mathlib.Nat.{le-div_iff_mul-le}
use stream_view.Common.{
  ℕ, zero, suc, ◌+◌, ◌*◌, ◌/◌, ◌≤◌, ◌<◌, ◌≡◌, refl, Bool, true, false, arith, u64_max, String,
  subst, Option, none, some, Bool-cases, inl, inr, leb, mul64,
}
use stream_view.Common.Int.{ℤ, pos, ◌+ℤ◌, ◌-ℤ◌, i64_max}
use stream_view.SampleTables.{
  Answer, ok, refused, refuse_if, required, Mp4SampleTableIndexStatus, arithmetic_overflow,
  multiply_would_overflow, signed_add_would_overflow,
}
use stream_view.SampleTables.Build.{◌>>=◌, ◌>>◌}
use stream_view.SampleTables.Timing.{later_dts}

pub multiply_would_overflow-fits :
    (left right : ℕ) → left * right ≤ u64_max → multiply_would_overflow left right ≡ false
unfolding multiply_would_overflow
multiply_would_overflow-fits zero right h = refl
multiply_would_overflow-fits (suc left) right h =
    let bound : right ≤ u64_max / suc left =
      (le-div_iff_mul-le {k = suc left} {x = right} {y = u64_max} (omega arith)).1 (omega arith) in
    ground (arith, bound)

pub multiply_would_overflow-bound :
    (left right : ℕ) → multiply_would_overflow left right ≡ false → left * right ≤ u64_max
unfolding multiply_would_overflow
multiply_would_overflow-bound zero right h = omega arith
multiply_would_overflow-bound (suc left) right h =
    let bound : right ≤ u64_max / suc left = ground (arith, h) in
    let fits = (le-div_iff_mul-le {k = suc left} {x = right} {y = u64_max} (omega arith)).0 bound in
    omega (arith, fits)

signed_add_would_overflow-pos :
    (d ticks : ℕ) → d + ticks ≤ i64_max → signed_add_would_overflow (pos d) (pos ticks) ≡ false
unfolding signed_add_would_overflow ◌-ℤ◌
signed_add_would_overflow-pos d ticks h = ground arith

pub +ℤ-pos : (d ticks : ℕ) → pos d +ℤ pos ticks ≡ pos (d + ticks)
unfolding ◌+ℤ◌
+ℤ-pos d ticks = ground arith

pub later_dts-ok :
    (d ticks : ℕ) → d + ticks ≤ i64_max → later_dts (pos d) ticks ≡ ok (pos (d + ticks))
unfolding later_dts
later_dts-ok d ticks h = ground (arith, signed_add_would_overflow-pos d ticks h, +ℤ-pos d ticks)

-- Of every answer that is not a refusal.
unfoldable pub OkAll {ℓ κ} : {A : Type ℓ} → (A → Type κ) → Answer A → Type κ
OkAll P (ok a) = P a
OkAll P (refused status message) = Unit {κ}

pub refuse_if-OkAll {ℓ κ} :
    {A : Type ℓ} (P : A → Type κ) (b : Bool) (status : Mp4SampleTableIndexStatus) (message : String)
    (k : Answer A)
    → (b ≡ false → OkAll P k)
    → OkAll P (refuse_if b status message >> k)
unfolding OkAll
refuse_if-OkAll P true status message k h = tt
refuse_if-OkAll P false status message k h = h refl

pub bind-OkAll {ℓ κ ι} :
    {A : Type ℓ} {B : Type ι} (P : B → Type κ) (m : Answer A) (f : A → Answer B)
    → ((a : A) → m ≡ ok a → OkAll P (f a))
    → OkAll P (m >>= f)
unfolding OkAll
bind-OkAll P (ok a) f h = h a refl
bind-OkAll P (refused status message) f h = tt

pub OkAll-elim {ℓ κ} :
    {A : Type ℓ} (P : A → Type κ) (m : Answer A) (a : A) → m ≡ ok a → OkAll P m → P a
unfolding OkAll
OkAll-elim P m a e h = subst (OkAll P) e h

pub later_dts-scaled {ℓ} :
    {A : Type ℓ} (d a b : ℕ) (status : Mp4SampleTableIndexStatus) (message : String)
    (f : ℤ → Answer A)
    → d + a * b ≤ i64_max
    → (refuse_if (multiply_would_overflow a b) status message
        >> (later_dts (pos d) (mul64 a b) >>= f))
      ≡ f (pos (d + a * b))
later_dts-scaled d a b status message f h =
    let small : mul64 a b ≡ a * b = omega arith in
    rw (multiply_would_overflow-fits a b (omega arith), small, later_dts-ok d (a * b) h) refl

signed_add_would_overflow-refuses :
    (d ticks : ℕ)
    → d ≤ i64_max
    → ticks ≤ i64_max
    → i64_max < d + ticks
    → signed_add_would_overflow (pos d) (pos ticks) ≡ true
unfolding signed_add_would_overflow ◌-ℤ◌
signed_add_would_overflow-refuses d ticks h small large = ground arith

later_dts-refuses :
    (d ticks : ℕ)
    → d ≤ i64_max
    → i64_max < d + ticks
    → later_dts (pos d) ticks ≡ refused arithmetic_overflow "stts decode timeline overflows"
unfolding later_dts
later_dts-refuses d ticks small large = elim (Bool-cases (leb ticks i64_max)) [
  | inl e ↦ rw (e, signed_add_would_overflow-refuses d ticks small (ground (arith, e)) large) refl
  | inr e ↦ rw e refl
]

pub later_dts-OkAll {ℓ κ} :
    {A : Type ℓ} (P : A → Type κ) (d ticks : ℕ) (f : ℤ → Answer A)
    → d ≤ i64_max
    → (d + ticks ≤ i64_max → OkAll P (f (pos (d + ticks))))
    → OkAll P (later_dts (pos d) ticks >>= f)
later_dts-OkAll P d ticks f small h = elim (Bool-cases (leb (d + ticks) i64_max)) [
  | inl e ↦ rw (later_dts-ok d ticks (ground (arith, e))) (h (ground (arith, e)))
  | inr e ↦ unfold OkAll in rw (later_dts-refuses d ticks small (ground (arith, e))) tt
]

pub later_dts-scaled-OkAll {ℓ κ} :
    {A : Type ℓ} (P : A → Type κ) (d a b : ℕ) (status : Mp4SampleTableIndexStatus)
    (message : String) (f : ℤ → Answer A)
    → d ≤ i64_max
    → (d + a * b ≤ i64_max → OkAll P (f (pos (d + a * b))))
    → OkAll P (
        refuse_if (multiply_would_overflow a b) status message
        >> (later_dts (pos d) (mul64 a b) >>= f))
later_dts-scaled-OkAll P d a b status message f small h =
    refuse_if-OkAll P (multiply_would_overflow a b) status message
      (later_dts (pos d) (mul64 a b) >>= f)
      (λ e.
        let fits = multiply_would_overflow-bound a b e in
        let product : mul64 a b ≡ a * b = omega arith in
        rw product (later_dts-OkAll P d (a * b) f small h))

pub every-OkAll {ℓ κ} : {A : Type ℓ} (P : A → Type κ) (m : Answer A) → ((a : A) → P a) → OkAll P m
unfolding OkAll
every-OkAll P (ok a) h = h a
every-OkAll P (refused status message) h = tt

pub map-OkAll {ℓ κ ι} :
    {A : Type ℓ} (P : A → Type κ) (Q : A → Type ι) (m : Answer A)
    → ((a : A) → P a → Q a)
    → OkAll P m
    → OkAll Q m
unfolding OkAll
map-OkAll P Q (ok a) h p = h a p
map-OkAll P Q (refused status message) h p = tt

pub refusal-OkAll {κ} :
    (P : Unit {0} → Type κ) (b : Bool) (status : Mp4SampleTableIndexStatus) (message : String)
    → (b ≡ false → P tt)
    → OkAll P (refuse_if b status message)
unfolding OkAll
refusal-OkAll P true status message h = tt
refusal-OkAll P false status message h = h refl

pub required-OkAll {ℓ κ} :
    {A : Type ℓ} (P : A → Type κ) (o : Option A) (status : Mp4SampleTableIndexStatus)
    (message : String)
    → ((a : A) → o ≡ some a → P a)
    → OkAll P (required o status message)
unfolding OkAll
required-OkAll P none status message h = tt
required-OkAll P (some a) status message h = h a refl

pub both-OkAll {ℓ κ ι} :
    {A : Type ℓ} (P : A → Type κ) (Q : A → Type ι) (m : Answer A)
    → OkAll P m
    → OkAll Q m
    → OkAll (λ a. P a × Q a) m
unfolding OkAll
both-OkAll P Q (ok a) p q = (p, q)
both-OkAll P Q (refused status message) p q = tt
