-- ===== src/Tests/Streams.antt =====
-- Tests of the pager, the views and the start code scanner, and their theorems at concrete inputs.
use stream_view.Common.{
  ◌+◌, ◌*◌, ◌-◌, ◌<◌, ◌≤◌, ◌≡◌, ◌⊎◌, refl, [], ◌∷◌, none, true, min, leb, if◌then◌else◌, arith,
}
use stream_view.Coordinates.{SourceMapping}
use stream_view.Coordinates.Spans.{bit_at}
use stream_view.Source.{Holds, read_result, complete, end_of_source}
use stream_view.Source.Bytes.{slice}
use stream_view.SourcePager.{SourcePageStatus, page, page_size_bytes, page_count, load_page}
use stream_view.SourcePager.Pages.{load_page_lem, pages, pages_cover}
use stream_view.BoundedView.{view_read_at, bounded_view}
use stream_view.BoundedView.Refines.{view_byte, IsView, view_read_at_lem, bounded_view-Holds}
use stream_view.Buffered.{Buffer}
use stream_view.Buffered.Reads.{IsBuffer}
use stream_view.BitReader.{read_contiguous_bits, complete_result}
use stream_view.BitReader.Numbers.{number, source_bit}
use stream_view.BitReader.Chunks.{read_contiguous_bits_lem}
use stream_view.StartCodes.Records.{record_of, make_record_lem}
use stream_view.StartCodes.{make_record, Outcome, PrefixLength, prefix_length_at}
use stream_view.StartCodes.Prefixes.{byte_at, code_at, prefix_length_at_lem}
use stream_view.StartCodes.Scan.{initial, scan_batch}
use stream_view.StartCodes.Passed.{Covers}
use stream_view.StartCodes.Batches.{initial-Scanned, Goes, scan_batch-Scanned, scan_batch_moves}
use stream_view.StartCodes.Totals.{scan_all, scan_all-Covers}
use stream_view.Tests.{stream, stream_byte, stream-Holds}

load_page_lem_example :
    load_page stream 0
    ≡ page
        (if leb 9 (0 * page_size_bytes + page_size_bytes)
          then SourcePageStatus.end_of_source
          else SourcePageStatus.ready)
        0
        (0 * page_size_bytes)
        (slice stream_byte (0 * page_size_bytes) (min page_size_bytes (9 - 0 * page_size_bytes)))
        ""
load_page_lem_example = load_page_lem stream stream_byte stream-Holds 0 (omega arith)

pages_cover_example : pages stream (page_count stream) ≡ slice stream_byte 0 9
pages_cover_example = pages_cover stream stream_byte stream-Holds

read_contiguous_bits_lem_example :
    read_contiguous_bits stream 22 9 ≡ complete_result (number (source_bit stream_byte) 22 9) 9
read_contiguous_bits_lem_example =
    read_contiguous_bits_lem stream stream_byte 22 9 stream-Holds (omega arith) (omega arith)
      (omega arith) (omega arith)

make_record_lem_example :
    make_record (record { offset = 0; length = 3 }) 4 0 ≡ Outcome.ok (record_of 0 3 1 0)
make_record_lem_example = make_record_lem 0 3 1 0 4 (omega arith) (omega arith)

-- Bytes 1, 2 and 6 of the stream.
abbrev bytes_of : SourceMapping
bytes_of = record {
  view_id = 5;
  logical_bit_length = 24;
  source_spans = record { start = 8; bit_length = 16 } ∷ record { start = 48; bit_length = 8 } ∷ [];
}

bytes_of-IsView : IsView stream bytes_of 3
bytes_of-IsView = record {
  valid = record {
    separated =
        (omega arith, omega arith, omega arith, (omega arith, omega arith, omega arith, tt));
    counted = refl;
    bounded = omega arith;
  };
  inside = (omega arith, omega arith, (omega arith, omega arith, tt));
  aligned = (ground arith, (ground arith, tt));
  covered = omega arith;
}

view_read_at_lem_example :
    (1 + 4 ≤ 3)
      × (view_read_at stream bytes_of 3 1 4 ≡ read_result complete 4 "" (1 ∷ 1 ∷ 0 ∷ 0 ∷ []))
    ⊎ (3 < 1 + 4)
      × (view_read_at stream bytes_of 3 1 4 ≡ read_result end_of_source 2 "" (1 ∷ 1 ∷ []))
unfolding slice view_byte bit_at
view_read_at_lem_example =
    view_read_at_lem stream stream_byte bytes_of 3 stream-Holds bytes_of-IsView 1 4 (omega arith)
      (omega arith)

bounded_view-Holds_example :
    Holds (bounded_view stream bytes_of 3) (view_byte stream_byte bytes_of.source_spans)
bounded_view-Holds_example =
    bounded_view-Holds stream stream_byte bytes_of 3 stream-Holds bytes_of-IsView

abbrev no_bytes : Buffer
no_bytes = record { bytes = []; start = 0; end = 0 }

no_bytes-IsBuffer : IsBuffer stream stream_byte no_bytes
unfolding slice
no_bytes-IsBuffer = record { ordered = omega arith; inside = omega arith; held = refl }

prefix_length_at_lem_example :
    (after : Buffer) × IsBuffer stream stream_byte after
    × (prefix_length_at stream no_bytes 4
        ≡ (after, PrefixLength.prefix (code_at (byte_at stream stream_byte) 4)))
prefix_length_at_lem_example =
    prefix_length_at_lem stream stream_byte stream-Holds 4 (omega arith) no_bytes no_bytes-IsBuffer

scan_batch-Scanned_example :
    Goes stream stream_byte stream-Holds
      (omega arith)
      []
      none
      0
      (scan_batch stream none initial 2 5)
scan_batch-Scanned_example =
    scan_batch-Scanned stream stream_byte stream-Holds (omega arith) [] none 2 5 initial
      (omega arith) (omega arith) (initial-Scanned stream stream_byte stream-Holds (omega arith))

scan_batch_moves_example :
    ((scan_batch stream none initial 2 5).0.finished ≡ true)
    ⊎ (0 < (scan_batch stream none initial 2 5).0.cursor)
scan_batch_moves_example =
    scan_batch_moves stream stream_byte stream-Holds (omega arith) [] 2 5 initial (omega arith)
      (omega arith) (initial-Scanned stream stream_byte stream-Holds (omega arith))

scan_all-Covers_example :
    ((scan_all stream 2 5 (9 + 1) initial []).0.finished ≡ true)
    × Covers (byte_at stream stream_byte) (scan_all stream 2 5 (9 + 1) initial []).1 9
scan_all-Covers_example =
    scan_all-Covers stream stream_byte stream-Holds (omega arith) 2 5 (omega arith) (omega arith)
