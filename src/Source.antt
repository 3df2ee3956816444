-- ===== src/Source.antt =====
-- src/core/include/streamview/core/source.h and `FileSource` of src/core/source.cpp: reads of
-- bytes at an offset. A byte buffer is a list of numbers; the state of the file is fixed between
-- reads. `QFile` is not part of the repository: its answers are the parameter `File`.
pub mod Bytes
pub mod FileReads
use stream_view.Common.{
  ℕ, ◌+◌, ◌-◌, ◌≤◌, ◌<◌, ◌^◌, List, [], Option, none, some, Bool, true, false, String, min, ltb,
  leb, ◌==◌, ◌||◌, not, length, if◌then◌else◌, ◌≡◌,
}
use Bytes.{slice}

pub data SourceReadStatus : Type 0 where
  complete end_of_source error : SourceReadStatus

-- The result of a read, with the bytes that it wrote to the front of the destination.
pub record SourceReadResult : Type 0 where
  pub status : SourceReadStatus
  pub bytes_read : ℕ
  pub error_message : String
  pub written : List ℕ

abbrev pub is_complete : SourceReadResult → Bool
is_complete result = elim (result.status) [ complete ↦ true | _ ↦ false ]

-- `read_at` takes an offset and the size of the destination.
pub record RandomAccessSource : Type 0 where
  pub size_bytes : ℕ
  pub read_at : ℕ → ℕ → SourceReadResult

abbrev pub read_result : SourceReadStatus → ℕ → String → List ℕ → SourceReadResult
read_result status bytes_read error_message written = record {
  status = status;
  bytes_read = bytes_read;
  error_message = error_message;
  written = written;
}

-- The source has these bytes: a read within its size is complete and delivers them.
pub record Holds (source : RandomAccessSource) (byte : ℕ → ℕ) : Type 0 where
  pub reads :
      (offset count : ℕ)
      → 0 < count
      → offset + count ≤ source.size_bytes
      → source.read_at offset count ≡ read_result complete count "" (slice byte offset count)
  pub sized : source.size_bytes < 2 ^ 64
  pub bytes : (offset : ℕ) → byte offset < 256

-- What `QFile` answers: whether a seek to an offset succeeds, the bytes that a read from there of
-- at most so many delivers (`none` is a negative count), and the error after it.
pub record File : Type 0 where
  pub seek : ℕ → Bool
  pub read : ℕ → ℕ → Option (List ℕ)
  pub has_error : ℕ → ℕ → Bool
  pub error_string : String

-- `FileSource::readAt`, for a destination of `count` bytes.
unfoldable pub file_read_at : File → ℕ → ℕ → ℕ → SourceReadResult
file_read_at file size_bytes byte_offset count =
    let requested = min (size_bytes - byte_offset) count in
    if count == 0
    then read_result complete 0 "" []
    else if leb size_bytes byte_offset
    then read_result end_of_source 0 "" []
    else if ltb (2 ^ 63 - 1) byte_offset || ltb (2 ^ 63 - 1) count
    then read_result error 0 "Read offset or size exceeds Qt limits" []
    else if not (file.seek byte_offset)
    then read_result error 0 file.error_string []
    else elim (file.read byte_offset requested) [
      | none ↦ read_result error 0 file.error_string []
      | some bytes ↦
          if length bytes == count
          then read_result complete (length bytes) "" bytes
          else if file.has_error byte_offset requested
          then read_result error (length bytes) file.error_string bytes
          else read_result end_of_source (length bytes) "" bytes
    ]

unfoldable pub file_source : File → ℕ → RandomAccessSource
unfolding file_read_at
file_source file size_bytes = record {
  size_bytes = size_bytes;
  read_at = λ offset count. file_read_at file size_bytes offset count;
}
