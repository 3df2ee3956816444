-- ===== src/Coordinates/Spans.antt =====
-- What a list of source spans means, with no regard to how the code computes it: its length, the
-- source bit that each logical bit stands for, and the two orders that the code asks for.
use stream_view.Common.{
  ℕ, ◌+◌, ◌-◌, ◌≤◌, ◌<◌, ◌^◌, List, [], ◌∷◌, ◌++◌, Option, none, some, ltb, if◌then◌else◌, ◌≡◌,
  arith,
}
use stream_view.Coordinates.{SourceSpan, SourceMapping, LogicalRange}

abbrev pub total : List SourceSpan → ℕ
total [] = 0
total (span ∷ spans) = span.bit_length + total spans

-- The source bit at a logical offset.
unfoldable pub bit_at : List SourceSpan → ℕ → Option ℕ
bit_at [] i = none
bit_at (span ∷ spans) i =
    if ltb i span.bit_length then some (span.start + i) else bit_at spans (i - span.bit_length)

abbrev pub FitsSource : SourceSpan → Type 0
FitsSource span = span.start + span.bit_length < 2 ^ 64

-- Nonempty spans in source order, which neither overlap nor touch; the first starts at `lo` or later.
abbrev pub Separated : ℕ → List SourceSpan → Type 0
Separated lo [] = Unit {0}
Separated lo (span ∷ spans) =
    (lo ≤ span.start)
    × (0 < span.bit_length)
    × FitsSource span
    × Separated (span.start + span.bit_length + 1) spans

-- Nonempty spans in source order, which do not overlap and may touch.
abbrev pub Ordered : ℕ → List SourceSpan → Type 0
Ordered lo [] = Unit {0}
Ordered lo (span ∷ spans) =
    (lo ≤ span.start) × (0 < span.bit_length) × Ordered (span.start + span.bit_length) spans

-- Nonempty spans that end within the first `limit` bits of the source.
abbrev pub Within : ℕ → List SourceSpan → Type 0
Within limit [] = Unit {0}
Within limit (span ∷ spans) =
    (0 < span.bit_length) × (span.start + span.bit_length ≤ limit) × Within limit spans

pub Separated-mono :
    {lo : ℕ} (lo' : ℕ) (spans : List SourceSpan)
    → lo' ≤ lo
    → Separated lo spans
    → Separated lo' spans
Separated-mono lo' [] h s = tt
Separated-mono lo' (span ∷ spans) h (a, b, c, d) = (omega arith, b, c, d)

sub_sub : (a b c : ℕ) → a - b - c ≡ a - (b + c)
sub_sub a b c = omega arith

pub bit_at-append :
    (xs ys : List SourceSpan) (i : ℕ)
    → bit_at (xs ++ ys) i ≡ (if ltb i (total xs) then bit_at xs i else bit_at ys (i - total xs))
unfolding bit_at
bit_at-append [] ys i = ground arith
bit_at-append (x ∷ xs) ys i =
    ground (arith, bit_at-append xs ys (i - x.bit_length), sub_sub i x.bit_length (total xs))

-- What a `SourceMapping` promises to its users.
pub record IsMapping (mapping : SourceMapping) : Type 0 where
  pub separated : Separated 0 mapping.source_spans
  pub counted : total mapping.source_spans ≡ mapping.logical_bit_length
  pub bounded : mapping.logical_bit_length < 2 ^ 64

-- What `LogicalRange::create` checks.
abbrev pub IsRange : LogicalRange → Type 0
IsRange range = range.bit_offset + range.bit_length < 2 ^ 64
