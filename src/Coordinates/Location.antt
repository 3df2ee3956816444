-- ===== src/Coordinates/Location.antt =====
-- `FieldLocation::create`: when a list of spans is accepted for a range.
use stream_view.Common.{
  ℕ, ◌+◌, ◌<◌, ◌^◌, List, [], ◌∷◌, Option, none, some, IsU64, ◌≡◌, ◌↔◌, arith, All, Option-cases,
  inl, inr,
}
use stream_view.Coordinates.{
  SourceSpan, LogicalRange, FieldLocation, SourceBitAddress, check_spans, make_location,
}
use stream_view.Coordinates.Spans.{total, Separated, FitsSource}

-- What the previous span leaves: the least start of the next one.
abbrev bound : Option SourceBitAddress → ℕ
bound none = 0
bound (some previous_end) = previous_end + 1

check_spans-Separated :
    (spans : List SourceSpan) (sum : ℕ) (previous : Option SourceBitAddress)
    → sum + total spans < 2 ^ 64
    → Separated (bound previous) spans
    → check_spans sum previous spans ≡ some (sum + total spans)
unfolding check_spans
check_spans-Separated [] sum previous h s = ground arith
check_spans-Separated (span ∷ spans) sum none h (a, b, c, d) = ground (
  arith,
  check_spans-Separated spans (sum + span.bit_length) (some (span.start + span.bit_length)),
)
check_spans-Separated (span ∷ spans) sum (some e) h (a, b, c, d) = ground (
  arith,
  check_spans-Separated spans (sum + span.bit_length) (some (span.start + span.bit_length)),
)

Separated-check_spans :
    (spans : List SourceSpan) (sum : ℕ) (previous : Option SourceBitAddress) (n : ℕ)
    → sum < 2 ^ 64
    → All FitsSource spans
    → check_spans sum previous spans ≡ some n
    → (n ≡ sum + total spans) × (n < 2 ^ 64) × Separated (bound previous) spans
unfolding check_spans
Separated-check_spans [] sum previous n u f h = ground arith
Separated-check_spans (span ∷ spans) sum none n u (f, fs) h = ground (
  arith,
  Separated-check_spans spans (sum + span.bit_length) (some (span.start + span.bit_length)) n,
)
Separated-check_spans (span ∷ spans) sum (some e) n u (f, fs) h = ground (
  arith,
  Separated-check_spans spans (sum + span.bit_length) (some (span.start + span.bit_length)) n,
)

module _ (range : LogicalRange) (spans : List SourceSpan) where
  accepted :
      All FitsSource spans
      → {location : FieldLocation} → make_location range spans ≡ some location
      → Separated 0 spans × (total spans ≡ range.bit_length)
  unfolding make_location
  accepted f h = elim (Option-cases (check_spans 0 none spans)) [
    | inl e ↦ absurd (ground arith)
    | inr (n, e) ↦
        let (sum, _, s) = Separated-check_spans spans 0 none n (omega arith) f e in
        (s, ground arith)
  ]

pub fits :
    (range : LogicalRange) (spans : List SourceSpan)
    → IsU64 range.bit_length
    → Separated 0 spans
    → total spans ≡ range.bit_length
    → make_location range spans ≡ some (record { logical_range = range; source_spans = spans })
unfolding make_location
fits range [] u s e = ground (arith, check_spans-Separated [] 0 none (omega arith) s)
fits range (span ∷ spans) u s e =
    ground (arith, check_spans-Separated (span ∷ spans) 0 none (omega arith) s)

-- Spans that fit the source are accepted for a range exactly when they are nonempty, in source
-- order with a gap between neighbours, and as long together as the range.
pub make_location_iff :
    (range : LogicalRange) (spans : List SourceSpan)
    → IsU64 range.bit_length
    → All FitsSource spans
    → (make_location range spans ≡ some (record { logical_range = range; source_spans = spans }))
      ↔ (Separated 0 spans × (total spans ≡ range.bit_length))
make_location_iff range spans u f = (accepted range spans f, λ h. fits range spans u h.0 h.1)
