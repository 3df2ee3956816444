-- ===== src/Tests.antt =====
-- Tests of the definitions on concrete inputs, and the theorems at concrete inputs.
mod Streams
mod Units
mod Files
mod Samples
mod Trees
mod Contexts
use stream_view.Common.{
  ℕ, ◌+◌, ◌*◌, ◌/◌, ◌<◌, ◌≤◌, ◌≡◌, ◌^◌, ◌↔◌, ◌⊎◌, ◌≢◌, refl, List, [], ◌∷◌, ◌++◌, Option, none,
  some, Bool, true, false, min, ◌==◌, ◌||◌, ltb, leb, if◌then◌else◌, arith, All, inl, inr, u64_max,
  length, get_or, take, String,
}
use stream_view.Coordinates.{
  SourceSpan, LogicalRange, FieldLocation, SourceMapping, from_byte_and_bit, make_location,
  make_mapping, locate, normalize, normalize_from, make_span, add_would_overflow, check_spans,
  resolve, push_overlap, byte_offset, bit_offset_in_byte,
}
use stream_view.Coordinates.Spans.{
  total, bit_at, FitsSource, Separated, Ordered, Within, IsMapping, IsRange,
}
use stream_view.Common.{IsU64}
use stream_view.Coordinates.Address.{from_byte_and_bit_iff}
use stream_view.Coordinates.Location.{make_location_iff}
use stream_view.Coordinates.Mapping.{make_mapping_iff, make_mapping-IsMapping}
use stream_view.Coordinates.Locate.{locate_lem, locate_iff}
use stream_view.Source.{
  File, RandomAccessSource, Holds, read_result, complete, end_of_source, file_source, file_read_at,
}
use stream_view.Source.Bytes.{slice, length-slice}
use stream_view.Source.FileReads.{IsBounded, IsRegular, file_source_complete}
use stream_view.BitReader.{
  index_backing_spans, BitReader, BitReadResult, complete_result, failed, read_bits, from_mapping,
  from_mapping_slice, read_contiguous_bits, complete, invalid_bit_count, end_of_range,
}
use stream_view.BitReader.Numbers.{number, source_bit}
use stream_view.BitReader.Chunks.{logical_bit}
use stream_view.BitReader.Reads.{
  IsReader, read_bits_lem, Transacts, read_bits_complete_iff, read_bits-IsReader, read_bits_twice,
}
use stream_view.BitReader.Slices.{from_mapping_slice_lem}

-- An Annex B stream of nine bytes, with two start codes.
abbrev pub stream_byte : ℕ → ℕ
stream_byte o = if o == 2 || o == 6 then 1 else if o == 3 || o == 7 then 103 else 0

abbrev pub stream : RandomAccessSource
stream = record {
  size_bytes = 9;
  read_at = λ offset count. read_result complete count "" (slice stream_byte offset count);
}

pub stream-Holds : Holds stream stream_byte
stream-Holds = record {
  reads = λ offset count a b. refl;
  sized = omega arith;
  bytes = λ offset. ground arith;
}

-- A file with the same nine bytes.
abbrev small_file : File
small_file = record {
  seek = λ offset. true;
  read = λ offset count. some (slice stream_byte offset count);
  has_error = λ offset count. false;
  error_string = "";
}

small_file-IsRegular : IsRegular small_file 9 stream_byte
small_file-IsRegular = record {
  seeks = λ offset h. refl;
  delivers = λ offset count h. refl;
  no_error = λ offset count. refl;
  bytes = λ offset. ground arith;
  sized = omega arith;
}

small_file-IsBounded : IsBounded small_file
small_file-IsBounded = λ offset count bytes e.
    let size = length-slice stream_byte offset count in ground (arith, e, size)

-- Two spans apart, twelve bits in all, and the same bits as three spans of which two touch.
abbrev pub two_spans : List SourceSpan
two_spans = record { start = 24; bit_length = 4 } ∷ record { start = 56; bit_length = 8 } ∷ []

abbrev three_spans : List SourceSpan
three_spans =
    record { start = 24; bit_length = 4 }
    ∷ record { start = 56; bit_length = 6 }
    ∷ record { start = 62; bit_length = 2 }
    ∷ []

abbrev pub nibbles : SourceMapping
nibbles = record { view_id = 3; logical_bit_length = 12; source_spans = two_spans }

pub nibbles-IsMapping : IsMapping nibbles
nibbles-IsMapping = record {
  separated = (omega arith, omega arith, omega arith, (omega arith, omega arith, omega arith, tt));
  counted = refl;
  bounded = omega arith;
}

pub nibbles-Within : Within (stream.size_bytes * 8) nibbles.source_spans
nibbles-Within = (omega arith, omega arith, (omega arith, omega arith, tt))

three_spans_fit : All FitsSource three_spans
three_spans_fit = (omega arith, (omega arith, (omega arith, tt)))

-- Bits 2 to 9 of the view.
abbrev middle : LogicalRange
middle = record { view_id = 3; bit_offset = 2; bit_length = 8 }

abbrev reader : BitReader
reader = record {
  backing =
      (0, record { start = 24; bit_length = 4 }) ∷ (4, record { start = 56; bit_length = 8 }) ∷ [];
  logical_bit_length = 12;
  position = 0;
}

reader-IsReader : IsReader stream two_spans reader
unfolding index_backing_spans
reader-IsReader = record {
  backed = refl;
  inside = nibbles-Within;
  counted = refl;
  bounded = omega arith;
  addressable = omega arith;
  positioned = omega arith;
}

-- Tests.
made : make_mapping 3 three_spans ≡ some nibbles
unfolding make_mapping normalize normalize_from make_span add_would_overflow
made = refl

located :
    locate nibbles middle
    ≡ some (record {
      logical_range = middle;
      source_spans =
          record { start = 26; bit_length = 2 } ∷ record { start = 56; bit_length = 6 } ∷ [];
    })
unfolding locate resolve push_overlap make_location check_spans make_span add_would_overflow
located = refl

-- The theorems at these inputs.
from_byte_and_bit_iff_example :
    (from_byte_and_bit 5 3 ≡ some 43)
    ↔ (IsU64 43 × (byte_offset 43 ≡ 5) × (bit_offset_in_byte 43 ≡ 3))
from_byte_and_bit_iff_example = from_byte_and_bit_iff 5 3 43

make_location_iff_example :
    (make_location (record { view_id = 3; bit_offset = 0; bit_length = 12 }) two_spans
      ≡ some (record {
        logical_range = record { view_id = 3; bit_offset = 0; bit_length = 12 };
        source_spans = two_spans;
      }))
    ↔ (Separated 0 two_spans × (total two_spans ≡ 12))
make_location_iff_example =
    make_location_iff (record { view_id = 3; bit_offset = 0; bit_length = 12 }) two_spans
      (omega arith) (omega arith, (omega arith, tt))

make_mapping_iff_example :
    ((mapping : SourceMapping) × (make_mapping 3 three_spans ≡ some mapping))
    ↔ Ordered 0 three_spans
make_mapping_iff_example = make_mapping_iff 3 three_spans three_spans_fit

make_mapping-IsMapping_example :
    IsMapping nibbles
    × (nibbles.view_id ≡ 3)
    × (nibbles.logical_bit_length ≡ total three_spans)
    × ((i : ℕ) → bit_at nibbles.source_spans i ≡ bit_at three_spans i)
make_mapping-IsMapping_example =
    make_mapping-IsMapping 3 three_spans three_spans_fit {mapping = nibbles} made

locate_lem_example :
    (location : FieldLocation) × (locate nibbles middle ≡ some location)
    × (make_location middle location.source_spans ≡ some location)
    × ((i : ℕ) → i < 8 → bit_at location.source_spans i ≡ bit_at two_spans (2 + i))
locate_lem_example = locate_lem nibbles nibbles-IsMapping middle (omega arith) refl (omega arith)

locate_iff_example :
    ((location : FieldLocation) × (locate nibbles middle ≡ some location))
    ↔ (middle.view_id ≡ nibbles.view_id)
      × (middle.bit_offset + middle.bit_length ≤ nibbles.logical_bit_length)
locate_iff_example = locate_iff nibbles nibbles-IsMapping middle (omega arith)

file_source_complete_example :
    (((file_source small_file 9).read_at 2 3).bytes_read ≡ 3)
    × (length ((file_source small_file 9).read_at 2 3).written ≡ 3)
    × (2 + 3 ≤ 9)
    × (small_file.seek 2 ≡ true)
    × (some (slice stream_byte 2 3) ≡ some ((file_source small_file 9).read_at 2 3).written)
unfolding file_source file_read_at slice
file_source_complete_example =
    file_source_complete small_file 9 2 3 small_file-IsBounded (omega arith) refl

read_bits_lem_example :
    read_bits stream reader 10
    ≡ (record reader { position = reader.position + 10 }, complete_result 409 10)
unfolding number logical_bit bit_at source_bit
read_bits_lem_example =
    read_bits_lem stream stream_byte two_spans reader stream-Holds reader-IsReader 10 (omega arith)
      (omega arith) (omega arith)

read_bits_complete_iff_example :
    ((read_bits stream reader 10).1.status ≡ complete)
    ↔ (0 < 10) × (10 ≤ 64) × (reader.position + 10 ≤ reader.logical_bit_length)
read_bits_complete_iff_example =
    read_bits_complete_iff stream stream_byte two_spans reader stream-Holds reader-IsReader 10

read_bits-IsReader_example :
    IsReader stream two_spans (read_bits stream reader 5).0
    × Transacts stream two_spans reader reader-IsReader 5 (read_bits stream reader 5)
read_bits-IsReader_example = read_bits-IsReader stream two_spans reader reader-IsReader 5

read_bits_twice_example :
    (read_bits stream reader 9).1.value
    ≡ (read_bits stream reader 3).1.value * 2 ^ 6
      + (read_bits stream (read_bits stream reader 3).0 6).1.value
read_bits_twice_example =
    read_bits_twice stream stream_byte two_spans reader stream-Holds reader-IsReader 3 6
      (omega arith) (omega arith) (omega arith) (omega arith)

from_mapping_slice_lem_example :
    (reader : BitReader) × (spans : List SourceSpan) × (from_mapping_slice nibbles 2 8
      ≡ some reader)
    × IsReader stream spans reader
    × (reader.logical_bit_length ≡ 8)
    × (reader.position ≡ 0)
    × ((position count : ℕ)
        → position + count ≤ 8
        → number (logical_bit stream_byte spans) position count
          ≡ number (logical_bit stream_byte two_spans) (2 + position) count)
from_mapping_slice_lem_example =
    from_mapping_slice_lem stream nibbles nibbles-IsMapping nibbles-Within (omega arith) stream_byte
      2 8 (omega arith)
