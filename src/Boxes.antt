-- ===== src/Boxes.antt =====
-- src/rules/mp4_box_scanner.cpp and its header: the scan of an MP4 file for its top-level boxes.
pub mod Headers
pub mod Rounds
pub mod Scans
use stream_view.Common.{
  ℕ, zero, suc, ◌+◌, ◌-◌, ◌*◌, ◌/◌, ◌≤◌, ◌<◌, List, [], ◌∷◌, ◌++◌, Option, none, some, Bool, true,
  false, String, ltb, leb, ◌==◌, ◌||◌, not, length, take, if◌then◌else◌, add64, u64_max, Answers,
  answers,
}
use stream_view.Buffered.{Buffer, ReadBytes, read_bytes}
use stream_view.Coordinates.{SourceSpan, make_span}
use stream_view.Source.{RandomAccessSource}

pub data Mp4BoxScanStatus : Type 0 where
  in_progress complete cancelled source_error invalid_batch_size : Mp4BoxScanStatus

pub record Mp4BoxRecord : Type 0 where
  pub box_span : Option SourceSpan
  pub box_offset : ℕ
  pub declared_box_size : ℕ
  pub truncated : Bool
  pub terminal : Bool

pub record Mp4BoxScanBatch : Type 0 where
  pub status : Mp4BoxScanStatus
  pub records : List Mp4BoxRecord
  pub error_message : String

pub record Mp4BoxScanner : Type 0 where
  pub buffer : Buffer
  pub cursor : ℕ
  pub inspected_positions : ℕ
  pub finished : Bool
  pub failed : Bool
  pub last_error_message : String

-- `readBigEndianU32` and `readBigEndianU64`, of four and of eight bytes behind a number.
unfoldable pub read_big_endian : ℕ → List ℕ → ℕ
read_big_endian number [] = number
read_big_endian number (byte ∷ bytes) = read_big_endian (number * 256 + byte) bytes

unfoldable pub check_bit_coordinate_overflow : ℕ → ℕ → Bool
check_bit_coordinate_overflow offset_bytes length_bytes =
    let max_bytes = u64_max / 8 in
    if ltb max_bytes offset_bytes || ltb max_bytes length_bytes
    then false
    else leb length_bytes (max_bytes - offset_bytes)

abbrev pub box_fallback : String
box_fallback = "Unable to read source while scanning MP4 boxes"

-- One round of the loop: it goes on behind a box, or ends with one, without one, or in a failure.
pub data Mp4Round : Type 0 where
  next : Mp4BoxScanner → Mp4BoxRecord → Mp4Round
  last : Mp4BoxScanner → Mp4BoxRecord → Mp4Round
  done : Mp4BoxScanner → Mp4Round
  fail : Mp4BoxScanner → String → Mp4Round

abbrev pub fail_box : Mp4BoxScanner → String → Mp4Round
fail_box scanner message =
    fail (record scanner { failed = true; last_error_message = message }) message

abbrev pub done_box : Mp4BoxScanner → Mp4Round
done_box scanner = done (record scanner { finished = true })

-- A box of these bytes from the cursor on; `k` goes on with its span.
abbrev pub with_span : Mp4BoxScanner → ℕ → (SourceSpan → Mp4Round) → Mp4Round
with_span scanner byte_length k =
    if not (check_bit_coordinate_overflow scanner.cursor byte_length)
    then fail_box scanner "Coordinate arithmetic overflow"
    else elim (make_span (scanner.cursor * 8) (byte_length * 8)) [
      | none ↦ fail_box scanner "Failed to create source span"
      | some span ↦ k span
    ]

-- A box that reaches to the end of the source, or past it.
unfoldable pub last_box : ℕ → Mp4BoxScanner → ℕ → Bool → Mp4Round
last_box source_size scanner declared truncated =
    with_span scanner (source_size - scanner.cursor) λ span.
      last (record scanner { cursor = source_size; finished = true })
        (record {
          box_span = some span;
          box_offset = scanner.cursor;
          declared_box_size = declared;
          truncated = truncated;
          terminal = true;
        })

unfoldable pub whole_box : ℕ → Mp4BoxScanner → ℕ → Mp4Round
whole_box source_size scanner box_size =
    let end = add64 scanner.cursor box_size in
    with_span scanner box_size λ span.
      next (record scanner { cursor = end; finished = leb source_size end || scanner.finished })
        (record {
          box_span = some span;
          box_offset = scanner.cursor;
          declared_box_size = box_size;
          truncated = false;
          terminal = false;
        })

unfoldable pub sized_box : ℕ → Mp4BoxScanner → ℕ → Mp4Round
sized_box source_size scanner box_size =
    if leb box_size (source_size - scanner.cursor)
    then whole_box source_size scanner box_size
    else last_box source_size scanner box_size true

-- Behind the read of a 64-bit size.
unfoldable pub after_large_size : ℕ → Mp4BoxScanner → Buffer × ReadBytes → Mp4Round
after_large_size source_size scanner (buffer, ReadBytes.error message) =
    fail_box (record scanner { buffer = buffer }) message
after_large_size source_size scanner (buffer, ReadBytes.end) =
    done_box (record scanner { buffer = buffer })
after_large_size source_size scanner (buffer, ReadBytes.available bytes) =
    let large_size = read_big_endian 0 bytes in
    let scanner' : Mp4BoxScanner = record scanner { buffer = buffer } in
    if ltb large_size 16 then done_box scanner' else sized_box source_size scanner' large_size

-- Behind the read of a box header.
unfoldable pub after_header : RandomAccessSource → Mp4BoxScanner → Buffer × ReadBytes → Mp4Round
after_header source scanner (buffer, ReadBytes.error message) =
    fail_box (record scanner { buffer = buffer }) message
after_header source scanner (buffer, ReadBytes.end) = done_box (record scanner { buffer = buffer })
after_header source scanner (buffer, ReadBytes.available bytes) =
    let size = read_big_endian 0 (take 4 bytes) in
    let scanner' : Mp4BoxScanner = record scanner { buffer = buffer } in
    if size == 0
    then last_box source.size_bytes scanner' 0 false
    else if size == 1
    then (if ltb (source.size_bytes - scanner.cursor) 16
        then done_box scanner'
        else after_large_size source.size_bytes scanner'
            (read_bytes source box_fallback buffer (add64 scanner.cursor 8) 8))
    else if leb 8 size
    then sized_box source.size_bytes scanner' size
    else done_box scanner'

unfoldable pub box_round : RandomAccessSource → Mp4BoxScanner → Mp4Round
box_round source scanner =
    let inspected : Mp4BoxScanner = record scanner {
      inspected_positions = add64 scanner.inspected_positions 1;
    } in
    if ltb (source.size_bytes - scanner.cursor) 8
    then done_box scanner
    else after_header source inspected
        (read_bytes source box_fallback scanner.buffer scanner.cursor 8)

abbrev pub box_batch : Mp4BoxScanStatus → List Mp4BoxRecord → String → Mp4BoxScanBatch
box_batch status records message = record {
  status = status;
  records = records;
  error_message = message;
}

-- Behind the loop of `scanBatch`.
abbrev pub end_boxes : ℕ → Mp4BoxScanner → List Mp4BoxRecord → Mp4BoxScanner × Mp4BoxScanBatch
end_boxes source_size scanner records =
    if leb source_size scanner.cursor
    then (record scanner { finished = true }, box_batch complete records "")
    else (scanner, box_batch in_progress records "")

-- The loop of `scanBatch`, with the positions that it may still inspect.
unfoldable pub box_loop :
    RandomAccessSource
    → Answers
    → ℕ
    → ℕ
    → Mp4BoxScanner
    → List Mp4BoxRecord
    → Mp4BoxScanner × Mp4BoxScanBatch
box_loop source cancellation maximum_records zero scanner records =
    end_boxes source.size_bytes scanner records
box_loop source cancellation maximum_records (suc left) scanner records =
    if leb maximum_records (length records) || leb source.size_bytes scanner.cursor
    then end_boxes source.size_bytes scanner records
    else if answers cancellation (add64 scanner.inspected_positions 1)
    then (scanner, box_batch cancelled records "")
    else elim (box_round source scanner) [
      | next scanner' found ↦
          box_loop source cancellation maximum_records left scanner' (records ++ (found ∷ []))
      | last scanner' found ↦ (scanner', box_batch complete (records ++ (found ∷ [])) "")
      | done scanner' ↦ (scanner', box_batch complete records "")
      | fail scanner' message ↦ (scanner', box_batch source_error records message)
    ]

-- `scanBatch`, for a source that is there.
unfoldable pub scan_boxes :
    RandomAccessSource → Answers → Mp4BoxScanner → ℕ → ℕ → Mp4BoxScanner × Mp4BoxScanBatch
scan_boxes source cancellation scanner maximum_records maximum_inspected_positions =
    if maximum_records == 0 || maximum_inspected_positions == 0
    then (
      scanner,
      box_batch invalid_batch_size []
          "Batch maximum record count and position limit must be greater than zero",
    )
    else if scanner.failed
    then (scanner, box_batch source_error [] scanner.last_error_message)
    else if scanner.finished || leb source.size_bytes scanner.cursor
    then (record scanner { finished = true }, box_batch complete [] "")
    else if answers cancellation 0
    then (scanner, box_batch cancelled [] "")
    else box_loop source cancellation maximum_records maximum_inspected_positions
        (record scanner { inspected_positions = 0 }) []
