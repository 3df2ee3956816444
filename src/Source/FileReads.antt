-- ===== src/Source/FileReads.antt =====
-- `FileSource::readAt` over a file that is not touched while it is open.
use stream_view.Common.{
  List, length, Option-cases, Bool-cases, refl, ◌||◌, ◌==◌, leb, ltb, inl, inr, ℕ, ◌+◌, ◌-◌, ◌≤◌,
  ◌<◌, ◌^◌, some, true, false, min, ◌≡◌, arith,
}
use stream_view.Source.{
  File, file_source, Holds, read_result, end_of_source, complete, error, file_read_at,
}
use stream_view.Source.Bytes.{slice, length-slice}

-- What Qt documents of any `QIODevice::read`: it delivers no more than it was asked for.
abbrev pub IsBounded : File → Type 0
IsBounded file =
    (offset count : ℕ) (bytes : List ℕ) → file.read offset count ≡ some bytes → length bytes ≤ count

-- Whatever else the file answers, a read of some bytes that is complete delivers exactly as many as
-- were asked for, they lie within the size that the file was opened with, the offset is one that the
-- file could be moved to, and they are what the file delivered there.
pub file_source_complete :
    (file : File) (size_bytes offset count : ℕ)
    → IsBounded file
    → 0 < count
    → ((file_source file size_bytes).read_at offset count).status ≡ complete
    → (((file_source file size_bytes).read_at offset count).bytes_read ≡ count)
      × (length ((file_source file size_bytes).read_at offset count).written ≡ count)
      × (offset + count ≤ size_bytes)
      × (file.seek offset ≡ true)
      × (file.read offset count ≡ some ((file_source file size_bytes).read_at offset count).written)
unfolding file_source file_read_at
file_source_complete file size_bytes offset count limited positive e =
    let requested = min (size_bytes - offset) count in
    let asked : (count == 0) ≡ false = ground arith in
    elim (Bool-cases (leb size_bytes offset)) [
      | inl past ↦ absurd (ground (arith, past, e))
      | inr within ↦ elim (Bool-cases (ltb (2 ^ 63 - 1) offset || ltb (2 ^ 63 - 1) count)) [
        | inl large ↦
            absurd
              (let clash : error ≡ complete = rw (file_read_at, asked, within, large) at e in cc)
        | inr small ↦ elim (Bool-cases (file.seek offset)) [
          | inr stuck ↦ absurd (
              let clash : error ≡ complete = rw (file_read_at, asked, within, small, stuck) at e in
              cc)
          | inl moved ↦ elim (Option-cases (file.read offset requested)) [
            | inl failed ↦ absurd (
                let clash : error ≡ complete =
                  rw (file_read_at, asked, within, small, moved, failed) at e in
                cc)
            | inr (bytes, read) ↦ elim (Bool-cases (length bytes == count)) [
              | inl whole ↦
                  let few = limited offset requested bytes read in
                  let long : length bytes ≡ count = ground (arith, whole) in
                  let all : requested ≡ count = omega (arith, few, long) in
                  let there : file.read offset count ≡ some bytes = rw all at read in
                  rw (file_read_at, asked, within, small, moved, read, whole)
                    (long, long, ground (arith, within, all), refl, there)
              | inr short ↦ absurd (ground (arith, asked, within, small, moved, read, short, e))
            ]
          ]
        ]
      ]
    ]

-- What Qt documents of an open, regular file of this size: seeks succeed within it, and a read
-- delivers the bytes from there on, as many as asked for or as there are.
pub record IsRegular (file : File) (size_bytes : ℕ) (byte : ℕ → ℕ) : Type 0 where
  pub seeks : (offset : ℕ) → offset ≤ size_bytes → file.seek offset ≡ true
  pub delivers :
      (offset count : ℕ)
      → offset + count ≤ size_bytes
      → file.read offset count ≡ some (slice byte offset count)
  pub no_error : (offset count : ℕ) → file.has_error offset count ≡ false
  pub bytes : (offset : ℕ) → byte offset < 256
  pub sized : size_bytes < 2 ^ 63

module _ (file : File) (size_bytes : ℕ) (byte : ℕ → ℕ)
    (regular : IsRegular file size_bytes byte) where
  -- Reads of a regular file's source within its size are complete and deliver its bytes.
  file_source-Holds : Holds (file_source file size_bytes) byte
  unfolding file_source
  file_source-Holds = record {
    reads = λ offset count h fits.
        let n : min (size_bytes - offset) count ≡ count = omega arith in
        ground (
          arith,
          n,
          regular.seeks offset,
          regular.delivers offset count fits,
          length-slice byte offset count,
          regular.sized,
        );
    sized = omega (arith, regular.sized);
    bytes = regular.bytes;
  }

  -- A read that starts within a regular file and asks for more than is left delivers what is
  -- left, and says that the source ended.
  file_source_short :
      (offset count : ℕ)
      → offset < size_bytes
      → size_bytes < offset + count
      → count < 2 ^ 63
      → (file_source file size_bytes).read_at offset count
        ≡ read_result end_of_source
            (size_bytes - offset)
            ""
            (slice byte offset (size_bytes - offset))
  unfolding file_source
  file_source_short offset count h past small =
      let left = size_bytes - offset in
      let n : min left count ≡ left = omega arith in
      ground (
        arith,
        n,
        regular.seeks offset,
        regular.delivers offset left (omega arith),
        length-slice byte offset left,
        regular.no_error offset left,
        regular.sized,
      )
