-- ===== src/StartCodes/Scan.antt =====
-- The state of `H264StartCodeScanner` and `scanBatch`.
use stream_view.Common.{
  ℕ, zero, suc, ◌/◌, ◌%◌, List, [], ◌∷◌, ◌++◌, Option, none, some, Bool, true, false, String, ltb,
  leb, ◌==◌, ◌||◌, ◌&&◌, length, if◌then◌else◌, add64, u64_max,
}
use stream_view.Buffered.{Buffer, ReadByte, read_byte}
use stream_view.Source.{RandomAccessSource}
use stream_view.StartCodes.{
  H264StartCodeRecord, PendingStartCode, Outcome, ok, err, PrefixLength, prefix, fault,
  prefix_length_at, make_record, scan_fallback,
}

pub record Scanner : Type 0 where
  pub buffer : Buffer
  pub cursor : ℕ
  pub inspected_bytes : ℕ
  pub pending_trailing : ℕ
  pub pending : Option PendingStartCode
  pub finished : Bool
  pub failed : Bool

abbrev pub initial : Scanner
initial = record {
  buffer = record { bytes = []; start = 0; end = 0 };
  cursor = 0;
  inspected_bytes = 0;
  pending_trailing = 0;
  pending = none;
  finished = false;
  failed = false;
}

pub data StartCodeScanStatus : Type 0 where
  in_progress complete cancelled source_error invalid_batch_size : StartCodeScanStatus

pub record StartCodeScanBatch : Type 0 where
  pub status : StartCodeScanStatus
  pub records : List H264StartCodeRecord
  pub error_message : String

abbrev pub batch : StartCodeScanStatus → List H264StartCodeRecord → String → StartCodeScanBatch
batch status records error_message = record {
  status = status;
  records = records;
  error_message = error_message;
}

-- One round of the loop of `scanBatch`: it ends the batch, or goes on with more records.
pub data Round : Type 0 where
  stop : Scanner → StartCodeScanBatch → Round
  next : Scanner → List H264StartCodeRecord → Round

abbrev pub fail_scan : Scanner → List H264StartCodeRecord → String → Round
fail_scan scanner records message =
    stop (record scanner { failed = true }) (batch source_error records message)

-- A record that cannot be made fails the scan.
abbrev pub with_record :
    Scanner
    → List H264StartCodeRecord
    → Outcome H264StartCodeRecord
    → (H264StartCodeRecord → Round)
    → Round
with_record scanner records (err message) use_record = fail_scan scanner records message
with_record scanner records (ok found) use_record = use_record found

-- `cursor_ >= source_->sizeBytes()`: the last record ends with the source.
unfoldable pub finish_scan : ℕ → Scanner → List H264StartCodeRecord → Round
finish_scan source_size scanner records =
    let finished : Scanner = record scanner { finished = true } in
    elim (scanner.pending) [
      | none ↦ stop finished (batch complete records "")
      | some pending ↦
          with_record finished records (make_record pending source_size scanner.pending_trailing)
            λ found.
              stop (record finished { pending = none; pending_trailing = 0 })
                (batch complete (records ++ (found ∷ [])) "")
    ]

-- A byte of the pending NAL unit, as `readByte` gives it at the cursor.
unfoldable pub classify_byte : Scanner → List H264StartCodeRecord → Buffer → ReadByte → Round
classify_byte scanner records buffer (ReadByte.error message) =
    fail_scan (record scanner { buffer = buffer }) records message
classify_byte scanner records buffer ReadByte.end =
    fail_scan (record scanner { buffer = buffer }) records "Unable to classify NAL-unit byte"
classify_byte scanner records buffer (ReadByte.available value) =
    next
      (record scanner {
        buffer = buffer;
        pending_trailing = if value == 0 then add64 scanner.pending_trailing 1 else 0;
        cursor = add64 scanner.cursor 1;
      })
      records

-- The position holds no start code: its byte belongs to the pending NAL unit, if there is one.
unfoldable pub pass_byte : RandomAccessSource → Scanner → List H264StartCodeRecord → Round
pass_byte source scanner records =
    let read = read_byte source scan_fallback scanner.buffer scanner.cursor in
    elim (scanner.pending) [
      | none ↦ next (record scanner { cursor = add64 scanner.cursor 1 }) records
      | some pending ↦ classify_byte scanner records read.0 read.1
    ]

-- The position holds a start code: it ends the pending NAL unit, and begins the next.
unfoldable pub take_start_code : ℕ → Scanner → List H264StartCodeRecord → Round
take_start_code prefix_length scanner records =
    let begun : Scanner = record scanner {
      pending = some (record { offset = scanner.cursor; length = prefix_length });
      pending_trailing = 0;
      cursor = add64 scanner.cursor prefix_length;
    } in
    elim (scanner.pending) [
      | none ↦ next begun records
      | some pending ↦
          with_record scanner records (make_record pending scanner.cursor scanner.pending_trailing)
            λ found. next begun (records ++ (found ∷ []))
    ]

-- The rest of a round, after `prefixLengthAt`.
unfoldable pub after_prefix :
    RandomAccessSource → Scanner → List H264StartCodeRecord → Buffer × PrefixLength → Round
after_prefix source scanner records (buffer, fault message) =
    fail_scan (record scanner { buffer = buffer }) records message
after_prefix source scanner records (buffer, prefix length) =
    let inspected : Scanner = record scanner {
      buffer = buffer;
      inspected_bytes = add64 scanner.inspected_bytes 1;
    } in
    if length == 0
    then pass_byte source inspected records
    else take_start_code length inspected records

-- The answers of a cancellation token while a batch runs, by the bytes inspected when it is asked.
abbrev pub Cancellation : Type 0
Cancellation = Option (ℕ → Bool)

abbrev pub is_cancelled : Cancellation → ℕ → Bool
is_cancelled none inspected = false
is_cancelled (some asked) inspected = inspected % 1024 == 0 && asked inspected

unfoldable pub scan_round :
    RandomAccessSource → Cancellation → Scanner → List H264StartCodeRecord → Round
scan_round source cancellation scanner records =
    if is_cancelled cancellation scanner.inspected_bytes
    then stop scanner (batch cancelled records "")
    else if leb source.size_bytes scanner.cursor
    then finish_scan source.size_bytes scanner records
    else after_prefix source scanner records (prefix_length_at source scanner.buffer scanner.cursor)

-- The loop, with the positions that it may still inspect.
unfoldable pub scan_loop :
    RandomAccessSource
    → Cancellation
    → ℕ
    → ℕ
    → Scanner
    → List H264StartCodeRecord
    → Scanner × StartCodeScanBatch
scan_loop source cancellation maximum_records zero scanner records =
    (scanner, batch in_progress records "")
scan_loop source cancellation maximum_records (suc left) scanner records =
    if leb maximum_records (length records)
    then (scanner, batch in_progress records "")
    else elim (scan_round source cancellation scanner records) [
      | stop scanner' result ↦ (scanner', result)
      | next scanner' records' ↦
          scan_loop source cancellation maximum_records left scanner' records'
    ]

unfoldable pub scan_batch :
    RandomAccessSource → Cancellation → Scanner → ℕ → ℕ → Scanner × StartCodeScanBatch
scan_batch source cancellation scanner maximum_records maximum_inspected_positions =
    if maximum_records == 0 || maximum_inspected_positions == 0
    then (
      scanner,
      batch invalid_batch_size []
          "Maximum scan records and inspected positions must be greater than zero",
    )
    else if ltb (u64_max / 8) source.size_bytes
    then (
      record scanner { failed = true },
      batch source_error [] "Source size exceeds the bit coordinate representation limit",
    )
    else if scanner.failed
    then (scanner, batch source_error [] "Start-code scanner is in a failed state")
    else if scanner.finished
    then (scanner, batch complete [] "")
    else scan_loop source cancellation maximum_records maximum_inspected_positions scanner []
