-- ===== src/Coordinates/Locate.antt =====
-- `SourceMapping::locate`: which source spans back a logical range.
use stream_view.Common.{
  ◌↔◌, ℕ, ◌+◌, ◌-◌, ◌≤◌, ◌<◌, ◌^◌, List, [], ◌∷◌, ◌++◌, none, some, ltb, ◌==◌, max, min, ◌≢◌, ◌⊎◌,
  if◌then◌else◌, ◌≡◌, refl, ap, ◌∙◌, arith, append-nil, append_assoc, Bool-cases, inl, inr,
}
use stream_view.Coordinates.{
  SourceSpan, LogicalRange, FieldLocation, SourceMapping, resolve, locate, push_overlap,
  make_location, end_offset_exclusive,
}
use stream_view.Coordinates.Spans.{
  total, bit_at, Separated, Separated-mono, FitsSource, Within, IsMapping, IsRange,
}
use stream_view.Coordinates.Location.{fits as location_fits}

-- The part of the spans between two logical offsets, the first span starting at `cursor`.
unfoldable pub clip : ℕ → ℕ → ℕ → List SourceSpan → List SourceSpan
clip from to cursor [] = []
clip from to cursor (span ∷ spans) =
    let rest = clip from to (cursor + span.bit_length) spans in
    let lo = max from cursor in
    let hi = min to (cursor + span.bit_length) in
    if ltb lo hi
    then record { start = span.start + (lo - cursor); bit_length = hi - lo } ∷ rest
    else rest

clip_past :
    (from to cursor : ℕ) (spans : List SourceSpan) → to ≤ cursor → clip from to cursor spans ≡ []
unfolding clip
clip_past from to cursor [] h = refl
clip_past from to cursor (span ∷ spans) h =
    ground (arith, clip_past from to (cursor + span.bit_length) spans)

clip_empty :
    (from to cursor : ℕ) (spans : List SourceSpan) → to ≤ from → clip from to cursor spans ≡ []
unfolding clip
clip_empty from to cursor [] h = refl
clip_empty from to cursor (span ∷ spans) h =
    ground (arith, clip_empty from to (cursor + span.bit_length) spans)

pub total-clip :
    (from to cursor : ℕ) (spans : List SourceSpan)
    → total (clip from to cursor spans) ≡ min to (cursor + total spans) - max from cursor
unfolding clip
total-clip from to cursor [] = omega arith
total-clip from to cursor (span ∷ spans) =
    ground (arith, total-clip from to (cursor + span.bit_length) spans)

-- `clip` on one span.
abbrev clip_span : ℕ → ℕ → ℕ → SourceSpan → List SourceSpan
clip_span from to cursor span =
    let lo = max from cursor in
    let hi = min to (cursor + span.bit_length) in
    if ltb lo hi
    then record { start = span.start + (lo - cursor); bit_length = hi - lo } ∷ []
    else []

clip-Separated :
    (from to cursor : ℕ) (spans : List SourceSpan) (lo : ℕ)
    → Separated lo spans
    → Separated lo (clip from to cursor spans)
unfolding clip
clip-Separated from to cursor [] lo s = tt
clip-Separated from to cursor (span ∷ spans) lo (a, b, c, d) =
    let rest =
      clip-Separated from to (cursor + span.bit_length) spans (span.start + span.bit_length + 1)
        d in
    let tail = clip from to (cursor + span.bit_length) spans in
    elim (Bool-cases (ltb (max from cursor) (min to (cursor + span.bit_length)))) [
      | inl p ↦
          rw p (ground arith, ground arith, ground arith, Separated-mono _ tail (ground arith) rest)
      | inr p ↦ rw p (Separated-mono lo tail (omega arith) rest)
    ]

pub bit_at-clip :
    (from to cursor : ℕ) (spans : List SourceSpan) (i : ℕ)
    → i < min to (cursor + total spans) - max from cursor
    → bit_at (clip from to cursor spans) i ≡ bit_at spans (max from cursor + i - cursor)
unfolding clip bit_at
bit_at-clip from to cursor [] i h = absurd (omega arith)
bit_at-clip from to cursor (span ∷ spans) i h =
    let next = cursor + span.bit_length in
    let taken = min to next - max from cursor in
    elim (Bool-cases (ltb (max from cursor) (min to next))) [
      | inl p ↦ rw p (ground (arith, bit_at-clip from to next spans (i - taken)))
      | inr p ↦ rw p (ground (arith, bit_at-clip from to next spans i))
    ]

pub clip-Within :
    (from to cursor limit : ℕ) (spans : List SourceSpan)
    → Within limit spans
    → Within limit (clip from to cursor spans)
unfolding clip
clip-Within from to cursor limit [] w = tt
clip-Within from to cursor limit (span ∷ spans) (a, b, c) =
    ground (arith, clip-Within from to (cursor + span.bit_length) limit spans)

push_overlap-clip :
    (from to cursor : ℕ) (found : List SourceSpan) (span : SourceSpan)
    → cursor + span.bit_length < 2 ^ 64
    → FitsSource span
    → push_overlap from to cursor span found ≡ some (found ++ clip_span from to cursor span)
unfolding push_overlap
push_overlap-clip from to cursor found span h c = ground (arith, append-nil found)

clip_step :
    (from to cursor : ℕ) (span : SourceSpan) (spans : List SourceSpan)
    → clip from to cursor (span ∷ spans)
      ≡ clip_span from to cursor span ++ clip from to (cursor + span.bit_length) spans
unfolding clip
clip_step from to cursor span spans = ground arith

resolve-clip :
    (from to cursor lo : ℕ) (found spans : List SourceSpan)
    → cursor + total spans < 2 ^ 64
    → Separated lo spans
    → resolve from to cursor found spans ≡ some (found ++ clip from to cursor spans)
unfolding resolve clip
resolve-clip from to cursor lo found [] h s = rw append-nil
resolve-clip from to cursor lo found (span ∷ spans) h (a, b, c, d) =
    let next = cursor + span.bit_length in
    let kept = found ++ clip_span from to cursor span in
    ground (
      arith,
      push_overlap-clip from to cursor found span (omega arith) c,
      resolve-clip from to next _ kept spans (omega arith) d,
      clip_past from to next spans,
      clip_step from to cursor span spans,
      append_assoc found (clip_span from to cursor span) (clip from to next spans),
      append-nil (clip_span from to cursor span),
    )

module _ (mapping : SourceMapping) (valid : IsMapping mapping) (range : LogicalRange)
    (fits : IsRange range) where
  located :
      (found : List SourceSpan)
      → range.view_id ≡ mapping.view_id
      → range.bit_offset + range.bit_length ≤ mapping.logical_bit_length
      → (range.bit_length ≡ 0 → found ≡ [])
      → resolve range.bit_offset (range.bit_offset + range.bit_length) 0 [] mapping.source_spans
        ≡ some found
      → locate mapping range ≡ some (record { logical_range = range; source_spans = found })
  unfolding locate
  located found same within none_found e =
      let end : end_offset_exclusive range ≡ range.bit_offset + range.bit_length = omega arith in
      elim (Bool-cases (range.bit_length == 0)) [
        | inl p ↦ rw (none_found (ground arith)) (ground arith)
        | inr p ↦ ground arith
      ]

  pub locate-clip :
      range.view_id ≡ mapping.view_id
      → range.bit_offset + range.bit_length ≤ mapping.logical_bit_length
      → locate mapping range
        ≡ some (record {
          logical_range = range;
          source_spans =
              clip range.bit_offset (range.bit_offset + range.bit_length) 0 mapping.source_spans;
        })
  locate-clip same within =
      let spans = mapping.source_spans in
      let to = range.bit_offset + range.bit_length in
      let long = valid.counted in
      let bounded = valid.bounded in
      located (clip range.bit_offset to 0 spans) same within
        (λ h. clip_empty range.bit_offset to 0 spans (omega arith))
        (resolve-clip range.bit_offset to 0 0 [] spans (omega arith) valid.separated)

  -- A range of the mapping's view that ends within it is located: the location's spans are those
  -- that `FieldLocation::create` accepts for the range, and they give each bit of the range the
  -- source bit that the mapping gives it.
  pub locate_lem :
      range.view_id ≡ mapping.view_id
      → range.bit_offset + range.bit_length ≤ mapping.logical_bit_length
      → (location : FieldLocation) × (locate mapping range ≡ some location)
        × (make_location range location.source_spans ≡ some location)
        × ((i : ℕ)
            → i < range.bit_length
            → bit_at location.source_spans i ≡ bit_at mapping.source_spans (range.bit_offset + i))
  locate_lem same within =
      let spans = mapping.source_spans in
      let to = range.bit_offset + range.bit_length in
      let found = clip range.bit_offset to 0 spans in
      let sum = total-clip range.bit_offset to 0 spans in
      let long = valid.counted in
      let bounded = valid.bounded in
      (
        record { logical_range = range; source_spans = found },
        locate-clip same within,
        location_fits range found (omega arith)
            (clip-Separated range.bit_offset to 0 spans 0 valid.separated) (omega arith),
        λ i h.
            bit_at-clip range.bit_offset to 0 spans i (omega arith)
            ∙ ap (bit_at spans) (omega arith),
      )

  locate-eq-none :
      (range.view_id ≢ mapping.view_id)
        ⊎ (mapping.logical_bit_length < range.bit_offset + range.bit_length)
      → locate mapping range ≡ none
  unfolding locate
  locate-eq-none (inl other) = ground arith
  locate-eq-none (inr past) = ground arith

  -- A range is located exactly when it is one of the mapping's view and ends within the mapping.
  pub locate_iff :
      ((location : FieldLocation) × (locate mapping range ≡ some location))
      ↔ (range.view_id ≡ mapping.view_id)
        × (range.bit_offset + range.bit_length ≤ mapping.logical_bit_length)
  locate_iff = (
    λ (location, found). elim (Bool-cases (range.view_id == mapping.view_id)) [
      | inr other ↦
          absurd (let refused = locate-eq-none (inl (λ same. absurd (ground arith))) in cc)
      | inl same ↦
          elim (Bool-cases (ltb mapping.logical_bit_length (range.bit_offset + range.bit_length))) [
            | inl past ↦ absurd (let refused = locate-eq-none (inr (ground arith)) in cc)
            | inr within ↦ (ground arith, ground arith)
          ]
    ],
    λ (same, within). let found = locate_lem same within in (found.0, found.1),
  )
