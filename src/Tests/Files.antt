-- ===== src/Tests/Files.antt =====
-- Tests of the box scan, and its theorems at a concrete file.
use stream_view.Common.{ℕ, [], false, ◌==◌, if◌then◌else◌}
use stream_view.Boxes.{Mp4BoxScanner}
use stream_view.Boxes.Scans.{Scans}
use stream_view.Source.{RandomAccessSource, read_result}
use stream_view.Source.Bytes.{slice}

-- A box of twelve bytes, and one that says 32 bytes with 8 left.
abbrev file_byte : ℕ → ℕ
file_byte o = if o == 3 then 12 else if o == 15 then 32 else 0

abbrev file : RandomAccessSource
file = record {
  size_bytes = 20;
  read_at = λ offset count.
      read_result stream_view.Source.complete count "" (slice file_byte offset count);
}

abbrev fresh : Mp4BoxScanner
fresh = record {
  buffer = record { bytes = []; start = 0; end = 0 };
  cursor = 0;
  inspected_positions = 0;
  finished = false;
  failed = false;
  last_error_message = "";
}
