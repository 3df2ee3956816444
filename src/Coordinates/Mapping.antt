-- ===== src/Coordinates/Mapping.antt =====
-- `SourceMapping::create`: touching spans are merged, and every logical bit keeps its source bit.
use stream_view.Common.{
  ℕ, ◌+◌, ◌-◌, ◌≤◌, ◌<◌, ◌^◌, List, [], ◌∷◌, ◌++◌, some, ◌==◌, ◌≡◌, ◌↔◌, refl, arith, All,
  append_assoc, Option-cases, inl, inr, if◌then◌else◌,
}
use stream_view.Coordinates.{SourceSpan, SourceMapping, normalize_from, normalize, make_mapping}
use stream_view.Coordinates.Spans.{total, bit_at, Separated, Ordered, FitsSource, IsMapping}

-- The spans with touching neighbours merged; `previous` stands before them.
unfoldable pub fuse : SourceSpan → List SourceSpan → List SourceSpan
fuse previous [] = previous ∷ []
fuse previous (span ∷ spans) =
    let merged =
      fuse (record { start = previous.start; bit_length = previous.bit_length + span.bit_length })
        spans in
    let kept = fuse span spans in
    if span.start == previous.start + previous.bit_length then merged else previous ∷ kept

normalize_from-fuse :
    (spans normalized : List SourceSpan) (previous : SourceSpan) (sum : ℕ)
    → sum + total spans < 2 ^ 64
    → FitsSource previous
    → All FitsSource spans
    → Ordered (previous.start + previous.bit_length) spans
    → normalize_from normalized previous sum spans
      ≡ some (sum + total spans, normalized ++ fuse previous spans)
unfolding normalize_from fuse
normalize_from-fuse [] normalized previous sum h p f o = ground arith
normalize_from-fuse (span ∷ spans) normalized previous sum h p (f, fs) (a, b, o) =
    let merged : SourceSpan = record {
      start = previous.start;
      bit_length = previous.bit_length + span.bit_length;
    } in
    ground (
      arith,
      normalize_from-fuse spans normalized merged (sum + span.bit_length),
      normalize_from-fuse spans (normalized ++ (previous ∷ [])) span (sum + span.bit_length),
      append_assoc normalized (previous ∷ []) (fuse span spans),
    )

-- What the loop refuses: an empty span, one that starts before its predecessor's end, or too long a sum.
Ordered-normalize_from :
    (spans normalized : List SourceSpan) (previous : SourceSpan) (sum n : ℕ) (out : List SourceSpan)
    → sum < 2 ^ 64
    → FitsSource previous
    → All FitsSource spans
    → normalize_from normalized previous sum spans ≡ some (n, out)
    → Ordered (previous.start + previous.bit_length) spans × (sum + total spans < 2 ^ 64)
unfolding normalize_from
Ordered-normalize_from [] normalized previous sum n out h p f e = ground arith
Ordered-normalize_from (span ∷ spans) normalized previous sum n out h p (f, fs) e =
    let merged : SourceSpan = record {
      start = previous.start;
      bit_length = previous.bit_length + span.bit_length;
    } in
    ground (
      arith,
      Ordered-normalize_from spans normalized merged (sum + span.bit_length) n out,
      Ordered-normalize_from spans (normalized ++ (previous ∷ [])) span (sum + span.bit_length) n
          out,
    )

fuse-Separated :
    (spans : List SourceSpan) (previous : SourceSpan) (lo : ℕ)
    → lo ≤ previous.start
    → 0 < previous.bit_length
    → FitsSource previous
    → All FitsSource spans
    → Ordered (previous.start + previous.bit_length) spans
    → Separated lo (fuse previous spans)
unfolding fuse
fuse-Separated [] previous lo l b p f o = ground arith
fuse-Separated (span ∷ spans) previous lo l b p (f, fs) (x, y, o) =
    let merged : SourceSpan = record {
      start = previous.start;
      bit_length = previous.bit_length + span.bit_length;
    } in
    ground (
      arith,
      fuse-Separated spans merged lo,
      fuse-Separated spans span (previous.start + previous.bit_length + 1),
    )

total-fuse :
    (spans : List SourceSpan) (previous : SourceSpan)
    → total (fuse previous spans) ≡ previous.bit_length + total spans
unfolding fuse
total-fuse [] previous = ground arith
total-fuse (span ∷ spans) previous =
    let merged : SourceSpan = record {
      start = previous.start;
      bit_length = previous.bit_length + span.bit_length;
    } in
    ground (arith, total-fuse spans merged, total-fuse spans span)

bit_at-fuse :
    (spans : List SourceSpan) (previous : SourceSpan) (i : ℕ)
    → bit_at (fuse previous spans) i ≡ bit_at (previous ∷ spans) i
unfolding fuse bit_at
bit_at-fuse [] previous i = refl
bit_at-fuse (span ∷ spans) previous i =
    let merged : SourceSpan = record {
      start = previous.start;
      bit_length = previous.bit_length + span.bit_length;
    } in
    ground (arith, bit_at-fuse spans merged i, bit_at-fuse spans span (i - previous.bit_length))

-- The mapping's spans, for spans that are in order.
pub fused : List SourceSpan → List SourceSpan
fused [] = []
fused (span ∷ spans) = fuse span spans

normalize-fused :
    (spans : List SourceSpan)
    → total spans < 2 ^ 64
    → All FitsSource spans
    → Ordered 0 spans
    → normalize spans ≡ some (total spans, fused spans)
unfolding normalize fused
normalize-fused [] h f o = refl
normalize-fused (span ∷ spans) h (f, fs) (a, b, o) =
    ground (arith, normalize_from-fuse spans [] span span.bit_length)

Ordered-normalize :
    (spans out : List SourceSpan) (n : ℕ)
    → All FitsSource spans
    → normalize spans ≡ some (n, out)
    → Ordered 0 spans
unfolding normalize
Ordered-normalize [] out n f e = ground arith
Ordered-normalize (span ∷ spans) out n (f, fs) e =
    ground (arith, Ordered-normalize_from spans [] span span.bit_length n out)

-- Spans that fit the source and do not overlap cannot be too long together.
total-lt :
    (spans : List SourceSpan) (lo : ℕ)
    → lo < 2 ^ 64
    → All FitsSource spans
    → Ordered lo spans
    → lo + total spans < 2 ^ 64
total-lt [] lo h f o = omega arith
total-lt (span ∷ spans) lo h (f, fs) (a, b, o) =
    omega (arith, total-lt spans (span.start + span.bit_length) f fs o)

fused_parts :
    (spans : List SourceSpan)
    → All FitsSource spans
    → Ordered 0 spans
    → Separated 0 (fused spans)
      × (total (fused spans) ≡ total spans)
      × ((i : ℕ) → bit_at (fused spans) i ≡ bit_at spans i)
unfolding fused
fused_parts [] f o = (tt, refl, λ i. refl)
fused_parts (span ∷ spans) (f, fs) (a, b, o) =
    (fuse-Separated spans span 0 a b f fs o, total-fuse spans span, bit_at-fuse spans span)

module _ (view_id : ℕ) (spans : List SourceSpan) (fit : All FitsSource spans) where
  mapping-fused :
      Ordered 0 spans
      → make_mapping view_id spans
        ≡ some (record {
          view_id = view_id;
          logical_bit_length = total spans;
          source_spans = fused spans;
        })
  unfolding make_mapping
  mapping-fused o = rw (
    normalize-fused spans (omega (arith, total-lt spans 0 (omega arith) fit o)) fit o,
    make_mapping,
  )

  mapping-Ordered :
      {mapping : SourceMapping} → make_mapping view_id spans ≡ some mapping → Ordered 0 spans
  unfolding make_mapping
  mapping-Ordered h = elim (Option-cases (normalize spans)) [
    | inl e ↦ absurd (ground arith)
    | inr ((n, out), e) ↦ Ordered-normalize spans out n fit e
  ]

  -- For spans that fit the source, a mapping is made exactly when each span is nonempty and none
  -- starts before its predecessor's end; a sum of lengths too large for 64 bits does not occur.
  pub make_mapping_iff :
      ((mapping : SourceMapping) × (make_mapping view_id spans ≡ some mapping)) ↔ Ordered 0 spans
  make_mapping_iff = (λ h. mapping-Ordered h.1, λ o. (_, mapping-fused o))

  -- Where spans that fit the source make a mapping, its spans are nonempty, in source order and
  -- apart from one another, its length is the total of both and below 2 ^ 64, and every logical bit
  -- has the source bit that the given spans gave it.
  pub make_mapping-IsMapping :
      {mapping : SourceMapping}
      → make_mapping view_id spans ≡ some mapping
      → IsMapping mapping
        × (mapping.view_id ≡ view_id)
        × (mapping.logical_bit_length ≡ total spans)
        × ((i : ℕ) → bit_at mapping.source_spans i ≡ bit_at spans i)
  make_mapping-IsMapping {mapping} h =
      let o = mapping-Ordered h in
      let (s, t, b) = fused_parts spans fit o in
      let m : SourceMapping = record {
        view_id = view_id;
        logical_bit_length = total spans;
        source_spans = fused spans;
      } in
      let e : mapping ≡ m = cc (h, mapping-fused o) in
      let short = total-lt spans 0 (omega arith) fit o in
      rw e (record { separated = s; counted = t; bounded = omega arith }, refl, refl, b)
