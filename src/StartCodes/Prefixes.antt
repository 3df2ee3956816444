-- ===== src/StartCodes/Prefixes.antt =====
-- Where start codes stand: `prefixLengthAt` against the bytes of the source.
use stream_view.Common.{
  ℕ, ◌+◌, ◌<◌, ◌^◌, ◌≡◌, ◌∙◌, true, ltb, ◌==◌, ◌&&◌, ◌||◌, not, if◌then◌else◌, add64, arith,
  Bool-cases, inl, inr, some,
}
use stream_view.Buffered.{Buffer, read_byte}
use stream_view.Buffered.Reads.{IsBuffer, read_byte_lem, read_byte-end, read_byte-IsBuffer}
use stream_view.Source.{RandomAccessSource, Holds}
use stream_view.StartCodes.{
  PrefixLength, prefix, with_byte, scan_fallback, prefix_length_at, prefix_after_first,
  prefix_after_second, prefix_after_third, h264_start_code_prefix_length,
}

-- The source's byte, and 0 past its end.
unfoldable pub byte_at : RandomAccessSource → (ℕ → ℕ) → ℕ → ℕ
byte_at source byte offset = if ltb offset source.size_bytes then byte offset else 0

-- The length of the start code 00 00 01 or 00 00 00 01 at an offset, and 0 if there is none.
unfoldable pub code_at : (ℕ → ℕ) → ℕ → ℕ
code_at at offset =
    if not (at offset == 0) || not (at (offset + 1) == 0)
    then 0
    else if at (offset + 2) == 1
    then 3
    else if at (offset + 2) == 0 && at (offset + 3) == 1
    then 4
    else 0

after_third_zero :
    (source : RandomAccessSource) (offset first second third : ℕ) (buffer : Buffer)
    → (third == 0) ≡ true
    → prefix_after_third source offset first second buffer third
      ≡ with_byte source buffer (add64 offset 3) (λ buffer' fourth.
        (buffer', prefix (h264_start_code_prefix_length first second (some third) (some fourth))))
unfolding prefix_after_third
after_third_zero source offset first second third buffer h = rw h

module _ (source : RandomAccessSource) (byte : ℕ → ℕ) (holds : Holds source byte) where
  -- A read that goes on with its byte keeps the buffer valid.
  pub record Reads (offset : ℕ) (next : Buffer → ℕ → Buffer × PrefixLength) (buffer : Buffer)
      : Type 0 where
    pub after : Buffer
    pub valid : IsBuffer source byte after
    pub same : with_byte source buffer offset next ≡ next after (byte_at source byte offset)

  with_byte_lem :
      (offset : ℕ) (next : Buffer → ℕ → Buffer × PrefixLength) (buffer : Buffer)
      → IsBuffer source byte buffer
      → Reads offset next buffer
  unfolding byte_at
  with_byte_lem offset next buffer valid = record {
    after = (read_byte source scan_fallback buffer offset).0;
    valid = read_byte-IsBuffer source byte holds scan_fallback buffer valid offset;
    same = elim (Bool-cases (ltb offset source.size_bytes)) [
      | inl inside ↦
          let read =
            read_byte_lem source byte holds scan_fallback buffer valid offset (ground arith) in
          ground (arith, read)
      | inr past ↦
          let read =
            read_byte-end source byte holds scan_fallback buffer valid offset (ground arith) in
          ground (arith, read)
    ];
  }

  -- The rest of `prefixLengthAt` finds the code, given the bytes that it has read.
  abbrev Finds : (Buffer → ℕ → Buffer × PrefixLength) → ℕ → ℕ → Type 0
  Finds rest value found =
      (buffer : Buffer)
      → IsBuffer source byte buffer
      → (after : Buffer) × IsBuffer source byte after × (rest buffer value ≡ (after, prefix found))

  with_byte-Finds :
      (offset found : ℕ) (next : Buffer → ℕ → Buffer × PrefixLength)
      → Finds next (byte_at source byte offset) found
      → (buffer : Buffer) → IsBuffer source byte buffer
      → (after : Buffer) × IsBuffer source byte after
        × (with_byte source buffer offset next ≡ (after, prefix found))
  with_byte-Finds offset found next finds buffer valid =
      let read = with_byte_lem offset next buffer valid in
      let (after, kept, e) = finds read.after read.valid in (after, kept, read.same ∙ e)

  module _ (offset : ℕ) (small : offset + 3 < 2 ^ 64) where
    abbrev at : ℕ → ℕ
    at = byte_at source byte

    third-Finds :
        at offset ≡ 0
        → at (offset + 1) ≡ 0
        → Finds
            (prefix_after_third source offset (at offset) (at (offset + 1)))
            (at (offset + 2))
            (code_at at offset)
    unfolding prefix_after_third code_at h264_start_code_prefix_length
    third-Finds a b buffer valid =
        let next : add64 offset 3 ≡ offset + 3 = omega arith in
        elim (Bool-cases (at (offset + 2) == 0)) [
          | inl none_yet ↦
              let (after, kept, e) =
                with_byte-Finds (add64 offset 3) (code_at at offset)
                  (λ buffer' fourth. (
                    buffer',
                    prefix (
                        h264_start_code_prefix_length (at offset) (at (offset + 1))
                          (some (at (offset + 2))) (some fourth)),
                  ))
                  (λ b' v'. (b', v', ground arith)) buffer valid in
              (
                after,
                kept,
                after_third_zero source offset (at offset) (at (offset + 1)) (at (offset + 2))
                      buffer none_yet
                    ∙ e,
              )
          | inr other ↦ (buffer, valid, ground arith)
        ]

    second-Finds :
        at offset ≡ 0
        → Finds
            (prefix_after_second source offset (at offset))
            (at (offset + 1))
            (code_at at offset)
    unfolding prefix_after_second
    second-Finds a buffer valid =
        let next : add64 offset 2 ≡ offset + 2 = omega arith in
        elim (Bool-cases (at (offset + 1) == 0)) [
          | inl none_yet ↦
              rw (none_yet, next)
                (with_byte-Finds (offset + 2) (code_at at offset)
                  (prefix_after_third source offset (at offset) (at (offset + 1)))
                  (third-Finds a (ground arith)) buffer valid)
          | inr other ↦ (buffer, valid, unfold code_at in ground arith)
        ]

    first-Finds : Finds (prefix_after_first source offset) (at offset) (code_at at offset)
    unfolding prefix_after_first
    first-Finds buffer valid =
        let next : add64 offset 1 ≡ offset + 1 = omega arith in
        elim (Bool-cases (at offset == 0)) [
          | inl none_yet ↦
              rw (none_yet, next)
                (with_byte-Finds (offset + 1) (code_at at offset)
                  (prefix_after_second source offset (at offset)) (second-Finds (ground arith))
                  buffer valid)
          | inr other ↦ (buffer, valid, unfold code_at in ground arith)
        ]

    -- In a source that has its bytes `prefixLengthAt` finds the start code at the offset.
    pub prefix_length_at_lem :
        (buffer : Buffer)
        → IsBuffer source byte buffer
        → (after : Buffer) × IsBuffer source byte after
          × (prefix_length_at source buffer offset ≡ (after, prefix (code_at at offset)))
    unfolding prefix_length_at
    prefix_length_at_lem buffer valid =
        with_byte-Finds offset (code_at at offset) (prefix_after_first source offset) first-Finds
          buffer valid
