-- ===== src/Buffered.antt =====
-- The chunk buffers of the scanners: `readByte` of src/rules/h264_start_code_scanner.cpp, which reads
-- aligned chunks of 64 KiB, and `readBytes` of src/rules/mp4_box_scanner.cpp, which reads from an
-- offset on. A message is set only with an error, and is never empty then; so the error carries it.
pub mod Reads
use stream_view.Common.{
  ℕ, ◌+◌, ◌-◌, ◌*◌, ◌/◌, ◌≤◌, ◌<◌, List, Bool, true, false, String, min, ltb, leb, ◌==◌, ◌||◌, ◌&&◌,
  not, take, drop, get_or, length, if◌then◌else◌, is_empty,
}
use stream_view.Coordinates.{SourceSpan, make_span}
use stream_view.Source.{RandomAccessSource, SourceReadResult, is_complete}

pub record Buffer : Type 0 where
  pub bytes : List ℕ
  pub start : ℕ
  pub end : ℕ

abbrev pub chunk_size : ℕ
chunk_size = 64 * 1024

pub data ReadByte : Type 0 where
  available : ℕ → ReadByte
  end : ReadByte
  error : String → ReadByte

abbrev pub message_or : String → SourceReadResult → String
message_or fallback result =
    if is_empty result.error_message then fallback else result.error_message

abbrev pub short_read : SourceReadResult → ℕ → Bool
short_read result requested = not (is_complete result) || not (result.bytes_read == requested)

unfoldable pub read_byte : RandomAccessSource → String → Buffer → ℕ → Buffer × ReadByte
read_byte source fallback buffer offset =
    let start = offset / chunk_size * chunk_size in
    let requested = min chunk_size (source.size_bytes - start) in
    let result = source.read_at start requested in
    if leb source.size_bytes offset
    then (buffer, ReadByte.end)
    else if not (ltb offset buffer.start || leb buffer.end offset)
    then (buffer, available (get_or buffer.bytes (offset - buffer.start) 0))
    else if short_read result requested
    then (
      record buffer { bytes = result.written; start = start },
      error (message_or fallback result),
    )
    else (
      record { bytes = result.written; start = start; end = start + requested },
      available (get_or result.written (offset - start) 0),
    )

pub data ReadBytes : Type 0 where
  available : List ℕ → ReadBytes
  end : ReadBytes
  error : String → ReadBytes

unfoldable pub read_bytes : RandomAccessSource → String → Buffer → ℕ → ℕ → Buffer × ReadBytes
read_bytes source fallback buffer offset count =
    let requested = min chunk_size (source.size_bytes - offset) in
    let result = source.read_at offset requested in
    let filled : Buffer = record {
      bytes = result.written;
      start = offset;
      end = offset + requested;
    } in
    if leb source.size_bytes offset || ltb (source.size_bytes - offset) count
    then (buffer, ReadBytes.end)
    else if leb buffer.start offset && ltb offset buffer.end && leb count (buffer.end - offset)
    then (buffer, ReadBytes.available (take count (drop (offset - buffer.start) buffer.bytes)))
    else if short_read result requested
    then (
      record buffer { bytes = result.written; start = offset },
      ReadBytes.error (message_or fallback result),
    )
    else if ltb (offset + requested - offset) count
    then (filled, ReadBytes.error "Read count exceeds buffer range")
    else (filled, ReadBytes.available (take count result.written))
