-- ===== src/BoundedView/Refines.antt =====
-- A bounded view is a source with the bytes that its mapping picks.
use stream_view.Common.{
  ◌⊎◌, ltb, Bool-cases, inl, inr, ℕ, ◌+◌, ◌-◌, ◌*◌, ◌/◌, ◌%◌, ◌≤◌, ◌<◌, ◌≡◌, refl, sym, ap, ◌∙◌,
  List, [], ◌∷◌, ◌++◌, none, some, min, ltb, leb, ◌==◌, false, u64_max, ◌||◌, mul64, add64, arith,
  append-nil, append_assoc, All, Option-cases, inl, inr,
}
use stream_view.BoundedView.{fill, filled_result, view_read_at, bounded_view}
use stream_view.Coordinates.{SourceSpan, SourceMapping, LogicalRange, is_nil}
use stream_view.Coordinates.Spans.{total, bit_at, Within, IsMapping}
use stream_view.Coordinates.Locate.{clip, clip-Within, total-clip, bit_at-clip, locate-clip}
use stream_view.Coordinates.Address.{make_range-fits}
use stream_view.Source.{RandomAccessSource, Holds, read_result, complete, end_of_source}
use stream_view.Source.Bytes.{slice, take-slice, slice-append, slice-ext}

abbrev pub IsAligned : SourceSpan → Type 0
IsAligned span = (span.start % 8 ≡ 0) × (span.bit_length % 8 ≡ 0)

-- The byte of the base source that backs a byte of the view.
unfoldable pub view_byte : (ℕ → ℕ) → List SourceSpan → ℕ → ℕ
view_byte byte spans i = elim (bit_at spans (i * 8)) [
  | none ↦ 0
  | some address ↦ byte (address / 8)
]

pub view_byte-bit_at :
    (byte : ℕ → ℕ) (xs ys : List SourceSpan) (i j : ℕ)
    → bit_at xs (i * 8) ≡ bit_at ys (j * 8)
    → view_byte byte xs i ≡ view_byte byte ys j
unfolding view_byte
view_byte-bit_at byte xs ys i j e = rw (e, view_byte)

view_byte-lt :
    (byte : ℕ → ℕ) (spans : List SourceSpan) (i : ℕ)
    → ((offset : ℕ) → byte offset < 256)
    → view_byte byte spans i < 256
unfolding view_byte
view_byte-lt byte spans i h = elim (Option-cases (bit_at spans (i * 8))) [
  | inl e ↦ rw (e, view_byte) (omega arith)
  | inr (a, e) ↦ rw (e, view_byte) (h (a / 8))
]

is_nil-total : (spans : List SourceSpan) → 0 < total spans → is_nil spans ≡ false
is_nil-total [] h = absurd (omega arith)
is_nil-total (span ∷ spans) h = refl

-- The bytes of aligned spans.
abbrev pub span_bytes : (ℕ → ℕ) → List SourceSpan → List ℕ
span_bytes byte [] = []
span_bytes byte (span ∷ spans) =
    slice byte (span.start / 8) (span.bit_length / 8) ++ span_bytes byte spans

view_byte-first :
    (byte : ℕ → ℕ) (span : SourceSpan) (spans : List SourceSpan) (i : ℕ)
    → IsAligned span
    → i < span.bit_length / 8
    → view_byte byte (span ∷ spans) i ≡ byte (span.start / 8 + i)
unfolding view_byte bit_at
view_byte-first byte span spans i (a, b) h =
    let e : (span.start + i * 8) / 8 ≡ span.start / 8 + i = omega arith in ground (arith, e)

view_byte-rest :
    (byte : ℕ → ℕ) (span : SourceSpan) (spans : List SourceSpan) (i : ℕ)
    → IsAligned span
    → view_byte byte (span ∷ spans) (span.bit_length / 8 + i) ≡ view_byte byte spans i
unfolding view_byte bit_at
view_byte-rest byte span spans i (a, b) =
    let e : (span.bit_length / 8 + i) * 8 - span.bit_length ≡ i * 8 = omega arith in
    ground (arith, e)

pub span_bytes-slice :
    (byte : ℕ → ℕ) (spans : List SourceSpan)
    → All IsAligned spans
    → span_bytes byte spans ≡ slice (view_byte byte spans) 0 (total spans / 8)
span_bytes-slice byte [] a = unfold slice in refl
span_bytes-slice byte (span ∷ spans) (a, as') =
    let n = span.bit_length / 8 in
    let view = view_byte byte (span ∷ spans) in
    let sum : total (span ∷ spans) / 8 ≡ n + total spans / 8 = omega arith in
    let front =
      slice-ext byte view (span.start / 8) 0 n
        (λ i h. sym (ap view (omega arith) ∙ view_byte-first byte span spans i a h)) in
    let back = slice-ext (view_byte byte spans) view 0 (0 + n) (total spans / 8) (λ i h.
      ap (view_byte byte spans) (omega arith)
      ∙ sym (ap view (omega arith) ∙ view_byte-rest byte span spans i a)) in
    rw (sum, span_bytes-slice byte spans as', front, back) (slice-append view 0 n (total spans / 8))

module _ (base : RandomAccessSource) (byte : ℕ → ℕ) (holds : Holds base byte) (count size n : ℕ)
    (filled : List ℕ) (span : SourceSpan) (aligned : IsAligned span)
    (positive : 0 < span.bit_length)
    (inside : span.start + span.bit_length ≤ base.size_bytes * 8) where
  fill-last :
      n + span.bit_length / 8 ≡ count
      → fill base count size n filled (span ∷ [])
        ≡ filled_result count size count
            (filled ++ slice byte (span.start / 8) (span.bit_length / 8))
  unfolding fill
  fill-last h =
      let least : min (span.bit_length / 8) (count - n) ≡ span.bit_length / 8 = omega arith in
      ground (
        arith,
        least,
        holds.reads (span.start / 8) (span.bit_length / 8) (omega arith) (omega arith),
        take-slice byte (span.start / 8) (span.bit_length / 8),
      )

  fill-more :
      (spans : List SourceSpan)
      → n + span.bit_length / 8 < count
      → fill base count size n filled (span ∷ spans)
        ≡ fill base count size
            (n + span.bit_length / 8)
            (filled ++ slice byte (span.start / 8) (span.bit_length / 8))
            spans
  unfolding fill
  fill-more spans h =
      let least : min (span.bit_length / 8) (count - n) ≡ span.bit_length / 8 = omega arith in
      ground (
        arith,
        least,
        holds.reads (span.start / 8) (span.bit_length / 8) (omega arith) (omega arith),
        take-slice byte (span.start / 8) (span.bit_length / 8),
      )

fill-span_bytes :
    (base : RandomAccessSource) (byte : ℕ → ℕ) (count size n : ℕ) (filled : List ℕ)
    (spans : List SourceSpan)
    → Holds base byte
    → Within (base.size_bytes * 8) spans
    → All IsAligned spans
    → n + total spans / 8 ≡ count
    → fill base count size n filled spans
      ≡ filled_result count size count (filled ++ span_bytes byte spans)
fill-span_bytes base byte count size n filled [] holds w a h =
    let e : n ≡ count = omega arith in unfold fill in rw (e, append-nil filled)
fill-span_bytes base byte count size n filled (span ∷ []) holds (p, f, w) (a, as') h =
    rw append-nil (fill-last base byte holds count size n filled span a p f (omega arith))
fill-span_bytes base byte count size n filled (span ∷ next ∷ spans) holds (p, f, w) (a, as') h =
    let bytes = slice byte (span.start / 8) (span.bit_length / 8) in
    fill-more base byte holds count size n filled span a p f (next ∷ spans) (omega arith)
    ∙ fill-span_bytes base byte count size (n + span.bit_length / 8) (filled ++ bytes)
        (next ∷ spans) holds w as' (omega arith)
    ∙ ap (filled_result count size count)
        (append_assoc filled bytes (span_bytes byte (next ∷ spans)))

clip-IsAligned :
    (from to cursor : ℕ) (spans : List SourceSpan)
    → from % 8 ≡ 0
    → to % 8 ≡ 0
    → cursor % 8 ≡ 0
    → All IsAligned spans
    → All IsAligned (clip from to cursor spans)
unfolding clip
clip-IsAligned from to cursor [] f t c a = tt
clip-IsAligned from to cursor (span ∷ spans) f t c (a, as') =
    ground (arith, clip-IsAligned from to (cursor + span.bit_length) spans)

-- A view of whole bytes of the base source, through a mapping that is at least as long.
pub record IsView (base : RandomAccessSource) (mapping : SourceMapping) (size_bytes : ℕ)
    : Type 0 where
  pub valid : IsMapping mapping
  pub inside : Within (base.size_bytes * 8) mapping.source_spans
  pub aligned : All IsAligned mapping.source_spans
  pub covered : size_bytes * 8 ≤ mapping.logical_bit_length

module _ (base : RandomAccessSource) (byte : ℕ → ℕ) (mapping : SourceMapping) (size_bytes : ℕ)
    (holds : Holds base byte) (view : IsView base mapping size_bytes) where
  module _ (offset count : ℕ) (positive : 0 < count) (inside : offset + count ≤ size_bytes) where
    abbrev located : List SourceSpan
    located = clip (offset * 8) (offset * 8 + count * 8) 0 mapping.source_spans

    total-located : total located ≡ count * 8
    total-located =
        let covered = view.covered in
        let counted = view.valid.counted in
        omega (arith, total-clip (offset * 8) (offset * 8 + count * 8) 0 mapping.source_spans)

    located_bytes :
        span_bytes byte located ≡ slice (view_byte byte mapping.source_spans) offset count
    located_bytes =
        let covered = view.covered in
        let counted = view.valid.counted in
        let spans = mapping.source_spans in
        let aligned =
          clip-IsAligned (offset * 8) (offset * 8 + count * 8) 0 spans (omega arith) (omega arith)
            (omega arith) view.aligned in
        let sum : total located / 8 ≡ count = omega (arith, total-located) in
        rw (span_bytes-slice byte located aligned, sum)
          (slice-ext (view_byte byte located) (view_byte byte spans) 0 offset count (λ i h.
            view_byte-bit_at byte located spans (0 + i) (offset + i) (
              ap (bit_at located) (omega arith)
              ∙ bit_at-clip (offset * 8) (offset * 8 + count * 8) 0 spans (i * 8) (omega arith)
              ∙ ap (bit_at spans) (omega arith))))

    filled :
        (size : ℕ)
        → fill base count size 0 [] located
          ≡ filled_result count size count
              (slice (view_byte byte mapping.source_spans) offset count)
    filled size =
        let spans = mapping.source_spans in
        let aligned =
          clip-IsAligned (offset * 8) (offset * 8 + count * 8) 0 spans (omega arith) (omega arith)
            (omega arith) view.aligned in
        rw (← located_bytes) (
          fill-span_bytes base byte count size 0 [] located holds
            (clip-Within (offset * 8) (offset * 8 + count * 8) 0 (base.size_bytes * 8) spans
              view.inside)
            aligned (omega (arith, total-located)))

    located-ne-nil : is_nil located ≡ false
    located-ne-nil = is_nil-total located (omega (arith, total-located))

  view_read_at_filled :
      (offset size : ℕ)
      → 0 < size
      → offset < size_bytes
      → view_read_at base mapping size_bytes offset size
        ≡ filled_result
            (min size (size_bytes - offset))
            size
            (min size (size_bytes - offset))
            (slice (view_byte byte mapping.source_spans) offset (min size (size_bytes - offset)))
  unfolding view_read_at
  view_read_at_filled offset size positive inside =
      let count = min size (size_bytes - offset) in
      let range : LogicalRange = record {
        view_id = mapping.view_id;
        bit_offset = offset * 8;
        bit_length = count * 8;
      } in
      let covered = view.covered in
      let bounded = view.valid.bounded in
      let asked : (size == 0) ≡ false = ground arith in
      let started : leb size_bytes offset ≡ false = ground arith in
      let first : mul64 offset 8 ≡ offset * 8 = omega arith in
      let many : mul64 count 8 ≡ count * 8 = omega arith in
      let small : (ltb (u64_max / 8) offset
            || ltb (u64_max / 8) count
            || ltb (u64_max / 8) (add64 offset count))
          ≡ false =
        ground arith in
      rw (
        asked,
        started,
        small,
        first,
        many,
        make_range-fits mapping.view_id (offset * 8) (count * 8) (omega arith),
        locate-clip mapping view.valid range (omega arith) refl (omega arith),
        located-ne-nil offset count (omega arith) (omega arith),
        filled offset count (omega arith) (omega arith) size,
      )

  -- A read that starts within the view delivers its bytes from there on: all that were asked for, and
  -- is complete, when the view has so many left, and otherwise what is left, and says that the source
  -- ended.
  pub view_read_at_lem :
      (offset size : ℕ)
      → 0 < size
      → offset < size_bytes
      → (offset + size ≤ size_bytes)
          × (view_read_at base mapping size_bytes offset size
              ≡ read_result complete size ""
                  (slice (view_byte byte mapping.source_spans) offset size))
        ⊎ (size_bytes < offset + size)
          × (view_read_at base mapping size_bytes offset size
              ≡ read_result end_of_source
                  (size_bytes - offset)
                  ""
                  (slice (view_byte byte mapping.source_spans) offset (size_bytes - offset)))
  view_read_at_lem offset size positive inside =
      let read = view_read_at_filled offset size positive inside in
      elim (Bool-cases (ltb size_bytes (offset + size))) [
        | inr whole ↦
            let all : min size (size_bytes - offset) ≡ size = ground arith in
            inl (ground arith, read ∙ rw all (ground arith))
        | inl short ↦
            let some_left : min size (size_bytes - offset) ≡ size_bytes - offset = ground arith in
            let fewer : (size_bytes - offset == size) ≡ false = ground arith in
            inr (ground arith, read ∙ rw some_left (ground (arith, fewer)))
      ]

  -- Where the base source has its bytes, a view of it through a byte-aligned mapping within the source,
  -- at least as long as the view, has the bytes that its mapping picks: to its readers it is a source
  -- like any other.
  pub bounded_view-Holds :
      Holds (bounded_view base mapping size_bytes) (view_byte byte mapping.source_spans)
  unfolding bounded_view
  bounded_view-Holds = record {
    reads = λ offset count positive inside.
        let all : min count (size_bytes - offset) ≡ count = omega arith in
        view_read_at_filled offset count positive (omega arith) ∙ rw all (ground arith);
    sized = let covered = view.covered in let bounded = view.valid.bounded in omega arith;
    bytes = λ offset. view_byte-lt byte mapping.source_spans offset holds.bytes;
  }
