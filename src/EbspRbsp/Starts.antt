-- ===== src/EbspRbsp/Starts.antt =====
-- Where a mapper starts, and that it does not go on behind its end.
use stream_view.Common.{
  ℕ, ◌+◌, ◌-◌, ◌*◌, ◌/◌, ◌%◌, ◌≤◌, ◌<◌, ◌^◌, ◌≡◌, refl, ap, none, some, String, false, ltb, ◌==◌,
  ◌||◌, not, arith,
}
use stream_view.BoundedView.Refines.{IsAligned}
use stream_view.Coordinates.{SourceSpan, byte_offset, bit_offset_in_byte}
use stream_view.EbspRbsp.{Mapper, H264EbspRbspMapStatus, H264EbspRbspMapLimits, make_mapper}
use stream_view.EbspRbsp.Batches.{batch, Cancellation, map_from, map_batch}
use stream_view.EbspRbsp.Rbsp.{rbsp, zeros_before}
use stream_view.Source.{RandomAccessSource, Holds}
use stream_view.Source.Bytes.{slice}
use stream_view.EbspRbsp.Totals.{Ready}

-- A mapper of an aligned span of the source, with limits that are not zero, is ready at the span's
-- first byte and has the span's end as its input's end.
pub make_mapper-Ready :
    (source : RandomAccessSource) (byte : ℕ → ℕ) (holds : Holds source byte) (view_id : ℕ)
    (span : SourceSpan) (limits : H264EbspRbspMapLimits)
    → 0 < limits.maximum_mapping_segments
    → 0 < limits.maximum_excluded_spans
    → 0 < limits.maximum_issues
    → IsAligned span
    → span.start + span.bit_length ≤ source.size_bytes * 8
    → source.size_bytes * 8 < 2 ^ 64
    → Ready source byte holds (span.start / 8) (make_mapper source view_id span limits)
      × ((make_mapper source view_id span limits).terminal ≡ none)
      × ((make_mapper source view_id span limits).input_end_byte * 8 ≡ span.start + span.bit_length)
unfolding make_mapper
make_mapper-Ready source byte holds view_id span limits a b c (d, e) f g =
    let limited : (limits.maximum_mapping_segments == 0
          || limits.maximum_excluded_spans == 0
          || limits.maximum_issues == 0)
        ≡ false =
      ground arith in
    let aligned : (not (bit_offset_in_byte span.start == 0) || not (span.bit_length % 8 == 0))
        ≡ false =
      ground arith in
    let inside : (ltb source.size_bytes (byte_offset span.start)
          || ltb (source.size_bytes - byte_offset span.start) (span.bit_length / 8))
        ≡ false =
      ground arith in
    let nothing : span.start / 8 - span.start / 8 ≡ 0 = omega arith in
    rw (limited, aligned, inside)
      (
        record {
          mapped = record {
            from = omega arith;
            upto = omega arith;
            addressable = omega arith;
            run = rw nothing (unfold zeros_before in ground arith);
            forwarded =
                rw nothing (record {
                  ordered = tt;
                  within = tt;
                  aligned = tt;
                  spelled = unfold rbsp in refl;
                });
            counted = refl;
            few_segments = omega arith;
            few_excluded = omega arith;
            few_issues = omega arith;
          };
          buffered = record {
            ordered = omega arith;
            inside = omega arith;
            held = rw nothing (unfold slice in refl);
          };
          sized = omega arith;
        },
        refl,
        omega arith,
      )

-- A terminal mapper is not touched by a batch, which repeats how the mapper ended.
map_batch_terminal :
    (source : RandomAccessSource) (cancellation : Cancellation) (mapper : Mapper) (maximum : ℕ)
    (status : H264EbspRbspMapStatus) (message : String)
    → mapper.terminal ≡ some (status, message)
    → map_batch source cancellation mapper maximum ≡ (mapper, batch status message)
unfolding map_batch map_from
map_batch_terminal source cancellation mapper maximum status message e =
    ap (map_from source cancellation mapper maximum) e
