-- ===== src/EbspRbsp/Mappings.antt =====
-- The mapping that forwarded spans give: its bytes are the RBSP.
use stream_view.Common.{
  ℕ, ◌+◌, ◌*◌, ◌/◌, ◌<◌, ◌^◌, ◌≡◌, sym, ap, ◌∙◌, List, [], ◌∷◌, some, arith, All,
}
use stream_view.BoundedView.Refines.{view_byte, span_bytes-slice, view_byte-bit_at}
use stream_view.Coordinates.{SourceSpan, SourceMapping, make_mapping}
use stream_view.Coordinates.Spans.{total, IsMapping, FitsSource, Within}
use stream_view.Coordinates.Mapping.{make_mapping_iff, make_mapping-IsMapping}
use stream_view.EbspRbsp.Rbsp.{rbsp, Forwarded}
use stream_view.Source.Bytes.{slice, slice-ext}

Within-Fits :
    (last : ℕ) (spans : List SourceSpan) → last < 2 ^ 64 → Within last spans → All FitsSource spans
Within-Fits last [] h w = tt
Within-Fits last (span ∷ spans) h (p, q, w) = (omega arith, Within-Fits last spans h w)

-- The mapping is one of the view, and its bytes are the RBSP of the first `n` bytes of the input.
pub record Gives (byte : ℕ → ℕ) (start n view_id : ℕ) (mapping : SourceMapping) : Type 0 where
  pub valid : IsMapping mapping
  pub view : mapping.view_id ≡ view_id
  pub spelled :
      slice (view_byte byte mapping.source_spans) 0 (mapping.logical_bit_length / 8)
      ≡ rbsp byte start n

module _ (byte : ℕ → ℕ) (start n : ℕ) where
  -- The mapping of forwarded spans gives the RBSP.
  pub mapping-Gives :
      (view_id : ℕ) (spans : List SourceSpan)
      → (start + n) * 8 < 2 ^ 64
      → Forwarded byte start n spans
      → (mapping : SourceMapping) × (make_mapping view_id spans ≡ some mapping)
        × Gives byte start n view_id mapping
  mapping-Gives view_id spans small f =
      let fit = Within-Fits ((start + n) * 8) spans small f.within in
      let (mapping, made) = (make_mapping_iff view_id spans fit).1 f.ordered in
      let (valid, view, long, same) = make_mapping-IsMapping view_id spans fit made in
      (
        mapping,
        made,
        record {
          valid = valid;
          view = view;
          spelled =
              ap (slice (view_byte byte mapping.source_spans) 0) (ap (λ t. t / 8) long)
              ∙ slice-ext (view_byte byte mapping.source_spans) (view_byte byte spans) 0 0
                  (total spans / 8)
                  (λ i h.
                    view_byte-bit_at byte mapping.source_spans spans (0 + i) (0 + i)
                      (same ((0 + i) * 8)))
              ∙ sym (span_bytes-slice byte spans f.aligned)
              ∙ f.spelled;
        },
      )
