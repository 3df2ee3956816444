-- ===== src/Buffered/Reads.antt =====
-- The buffers over a source that has its bytes: every read gives the source's bytes.
use stream_view.Common.{ℕ, ◌+◌, ◌-◌, ◌*◌, ◌/◌, ◌≤◌, ◌<◌, ◌≡◌, String, min, arith}
use stream_view.Buffered.{Buffer, chunk_size, ReadByte, ReadBytes, read_byte, read_bytes}
use stream_view.Source.{RandomAccessSource, Holds}
use stream_view.Source.Bytes.{slice, get_or-slice, take-drop-slice, take-slice_le}

-- The buffer holds the source's bytes from its start to its end.
pub record IsBuffer (source : RandomAccessSource) (byte : ℕ → ℕ) (buffer : Buffer) : Type 0 where
  pub ordered : buffer.start ≤ buffer.end
  pub inside : buffer.end ≤ source.size_bytes
  pub held : buffer.bytes ≡ slice byte buffer.start (buffer.end - buffer.start)

module _ (source : RandomAccessSource) (byte : ℕ → ℕ) (holds : Holds source byte)
    (fallback : String) (buffer : Buffer) (valid : IsBuffer source byte buffer) (offset : ℕ) where
  pub read_byte-IsBuffer : IsBuffer source byte (read_byte source fallback buffer offset).0
  unfolding read_byte
  read_byte-IsBuffer =
      let start = offset / chunk_size * chunk_size in
      let requested = min chunk_size (source.size_bytes - start) in
      let reads = holds.reads start requested in
      let sub : start + requested - start ≡ requested = omega arith in
      record {
        ordered = ground (arith, valid.ordered, reads);
        inside = ground (arith, valid.inside, reads);
        held = ground (arith, valid.held, reads, sub);
      }

  pub read_byte_lem :
      offset < source.size_bytes
      → (read_byte source fallback buffer offset).1 ≡ ReadByte.available (byte offset)
  unfolding read_byte
  read_byte_lem inside =
      let start = offset / chunk_size * chunk_size in
      let requested = min chunk_size (source.size_bytes - start) in
      let here : start + (offset - start) ≡ offset = omega arith in
      let reads = holds.reads start requested (omega arith) (omega arith) in
      ground (
        arith,
        valid.held,
        valid.ordered,
        valid.inside,
        reads,
        here,
        get_or-slice byte start requested (offset - start) 0,
        get_or-slice byte buffer.start (buffer.end - buffer.start) (offset - buffer.start) 0,
      )

  pub read_byte-end :
      source.size_bytes ≤ offset → (read_byte source fallback buffer offset).1 ≡ ReadByte.end
  unfolding read_byte
  read_byte-end past = ground arith

  module _ (count : ℕ) where
    pub read_bytes-IsBuffer :
        IsBuffer source byte (read_bytes source fallback buffer offset count).0
    unfolding read_bytes
    read_bytes-IsBuffer =
        let requested = min chunk_size (source.size_bytes - offset) in
        let reads = holds.reads offset requested in
        let sub : offset + requested - offset ≡ requested = omega arith in
        record {
          ordered = ground (arith, valid.ordered, reads);
          inside = ground (arith, valid.inside, reads);
          held = ground (arith, valid.held, reads, sub);
        }

    pub read_bytes_lem :
        0 < count
        → count ≤ chunk_size
        → offset + count ≤ source.size_bytes
        → (read_bytes source fallback buffer offset count).1
          ≡ ReadBytes.available (slice byte offset count)
    unfolding read_bytes
    read_bytes_lem positive small inside =
        let requested = min chunk_size (source.size_bytes - offset) in
        let reads = holds.reads offset requested (omega arith) (omega arith) in
        let here : buffer.start ≤ offset → buffer.start + (offset - buffer.start) ≡ offset =
          omega arith in
        ground (
          arith,
          valid.held,
          valid.ordered,
          valid.inside,
          reads,
          here,
          take-slice_le byte offset requested count (omega arith),
          take-drop-slice byte buffer.start (buffer.end - buffer.start) (offset - buffer.start)
              count,
        )
