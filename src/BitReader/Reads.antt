-- ===== src/BitReader/Reads.antt =====
-- `readBits` on a reader over spans of a source.
use stream_view.Common.{
  ℕ, suc, ◌+◌, ◌-◌, ◌*◌, ◌^◌, ◌≤◌, ◌<◌, List, [], ◌∷◌, ◌≡◌, refl, ap, ◌∙◌, arith, ltb, ◌==◌, add64,
  ◌⊎◌, ◌≢◌, ◌↔◌, drop, ◌||◌, true, false, if◌then◌else◌, Bool-cases, inl, inr,
}
use stream_view.BitReader.{
  BitReader, BitReadResult, complete, complete_result, failed, index_backing_spans, upper_bound,
  read_from, read_bits, remaining_bits, invalid_bit_count, end_of_range,
}
use stream_view.BitReader.Numbers.{number, number-add}
use stream_view.BitReader.Chunks.{Reaches, logical_bit, logical_bit_rest, read_chunks-number}
use stream_view.Coordinates.{SourceSpan}
use stream_view.Coordinates.Spans.{total, Within}
use native.Mathlib.Nat.{le_refl, pow-le-pow_right}
use stream_view.Source.{RandomAccessSource, Holds}

-- The spans from the last on that starts by the position.
record Suffix (byte : ℕ → ℕ) (limit start position : ℕ) (spans : List SourceSpan) : Type 0 where
  index : ℕ
  first : ℕ
  rest : List SourceSpan
  bound : upper_bound position (index_backing_spans start spans) ≡ suc index
  dropped : drop index (index_backing_spans start spans) ≡ index_backing_spans first rest
  before : first ≤ position
  from : start ≤ first
  reaches : Reaches position first rest
  inside : Within limit rest
  end : first + total rest ≡ start + total spans
  same :
      (i : ℕ) → first ≤ i → logical_bit byte spans (i - start) ≡ logical_bit byte rest (i - first)

upper_bound-zero :
    (position start : ℕ) (spans : List SourceSpan)
    → position < start
    → upper_bound position (index_backing_spans start spans) ≡ 0
unfolding upper_bound index_backing_spans
upper_bound-zero position start [] h = refl
upper_bound-zero position start (span ∷ spans) h = ground arith

Suffix-later :
    (byte : ℕ → ℕ) (limit start position : ℕ) (span : SourceSpan) (spans : List SourceSpan)
    → start ≤ position
    → start + span.bit_length ≤ position
    → start + span.bit_length < 2 ^ 64
    → Suffix byte limit (start + span.bit_length) position spans
    → Suffix byte limit start position (span ∷ spans)
unfolding upper_bound index_backing_spans
Suffix-later byte limit start position span spans lo past short s =
    let next : add64 start span.bit_length ≡ start + span.bit_length = omega arith in
    let started : ltb position start ≡ false = ground arith in
    record {
      index = suc s.index;
      first = s.first;
      rest = s.rest;
      bound = rw (started, next, s.bound);
      dropped = rw (next, s.dropped);
      before = s.before;
      reaches = s.reaches;
      inside = s.inside;
      end = omega (arith, s.end);
      from = omega (arith, s.from);
      same = λ i h.
          logical_bit_rest byte span spans (i - start) (omega (arith, s.from))
          ∙ ap (logical_bit byte spans) (omega arith)
          ∙ s.same i h;
    }

suffix :
    (byte : ℕ → ℕ) (limit start position : ℕ) (spans : List SourceSpan)
    → Within limit spans
    → start ≤ position
    → position < start + total spans
    → start + total spans < 2 ^ 64
    → Suffix byte limit start position spans
unfolding upper_bound index_backing_spans
suffix byte limit start position [] w lo hi short = absurd (omega arith)
suffix byte limit start position (span ∷ spans) (p, f, ws) lo hi short =
    let next : add64 start span.bit_length ≡ start + span.bit_length = omega arith in
    let started : ltb position start ≡ false = ground arith in
    elim (Bool-cases (ltb position (start + span.bit_length))) [
      | inl here ↦ record {
        index = 0;
        first = start;
        rest = span ∷ spans;
        bound = rw (
          started,
          next,
          upper_bound-zero position (start + span.bit_length) spans (ground arith),
        );
        dropped = refl;
        before = lo;
        from = le_refl start;
        reaches = ground arith;
        inside = (p, f, ws);
        end = refl;
        same = λ i h. refl;
      }
      | inr past ↦
          Suffix-later byte limit start position span spans lo (ground arith) (omega arith) (
            suffix byte limit (start + span.bit_length) position spans ws (ground arith)
              (omega arith) (omega arith))
    ]

-- A reader over spans of the source.
pub record IsReader (source : RandomAccessSource) (spans : List SourceSpan) (reader : BitReader)
    : Type 0 where
  pub backed : reader.backing ≡ index_backing_spans 0 spans
  pub inside : Within (source.size_bytes * 8) spans
  pub counted : total spans ≡ reader.logical_bit_length
  pub bounded : reader.logical_bit_length < 2 ^ 64
  pub addressable : source.size_bytes * 8 < 2 ^ 64
  pub positioned : reader.position ≤ reader.logical_bit_length

module _ (source : RandomAccessSource) (byte : ℕ → ℕ) (spans : List SourceSpan) (reader : BitReader)
    (holds : Holds source byte) (valid : IsReader source spans reader) (count : ℕ) where
  read_from_lem :
      0 < count
      → count ≤ 64
      → reader.position + count ≤ reader.logical_bit_length
      → read_from source reader count (upper_bound reader.position reader.backing)
        ≡ complete_result (number (logical_bit byte spans) reader.position count) count
  unfolding read_from
  read_from_lem positive small fits =
      let sum = valid.counted in
      let short = valid.bounded in
      let s =
        suffix byte (source.size_bytes * 8) 0 reader.position spans valid.inside (omega arith)
          (omega arith) (omega arith) in
      let power : 2 ^ count ≤ 2 ^ 64 = pow-le-pow_right (omega arith) small in
      let read =
        read_chunks-number source byte count s.rest s.first reader.position count 0
          (logical_bit byte spans) holds s.inside valid.addressable (omega (arith, s.end))
          (λ h. s.before) (omega (arith, s.end)) (λ h. s.reaches) small (omega arith)
          (λ i h.
            ap (logical_bit byte spans) (omega arith)
            ∙ s.same (reader.position + i) (omega (arith, s.before))) in
      rw (valid.backed, s.bound, s.dropped) (read ∙ ap (λ v. complete_result v count) (omega arith))

  -- With a source that has its bytes, a read of 1 to 64 bits that are left is complete: its value
  -- is the number that the reader's next bits spell, and the reader moves past them.
  pub read_bits_lem :
      0 < count
      → count ≤ 64
      → reader.position + count ≤ reader.logical_bit_length
      → read_bits source reader count ≡ (
        record reader { position = reader.position + count },
        complete_result (number (logical_bit byte spans) reader.position count) count,
      )
  unfolding read_bits
  read_bits_lem positive small fits =
      let bounded = valid.bounded in
      let next : add64 reader.position count ≡ reader.position + count = omega arith in
      let in_size : (count == 0 || ltb 64 count) ≡ false = ground arith in
      let in_range : ltb (remaining_bits reader) count ≡ false = ground arith in
      let read = read_from_lem positive small fits in rw (in_size, in_range, read, read, next)

module _ (source : RandomAccessSource) (spans : List SourceSpan) (reader : BitReader)
    (valid : IsReader source spans reader) (count : ℕ) where
  -- A read of no bits, of more than 64 or of more than are left fails, reads nothing and leaves the
  -- reader as it was; its status says whether the count was wrong in itself or past the range.
  read_bits_refused :
      (count ≡ 0) ⊎ (64 < count) ⊎ (reader.logical_bit_length < reader.position + count)
      → read_bits source reader count ≡ (
        reader,
        if count == 0 || ltb 64 count
            then failed invalid_bit_count "Bit count must be 1..64"
            else failed end_of_range "",
      )
  unfolding read_bits
  read_bits_refused wrong =
      let bounded = valid.bounded in
      let positioned = valid.positioned in
      elim (Bool-cases (count == 0 || ltb 64 count)) [
        | inl p ↦ rw p
        | inr p ↦
            let short : ltb (remaining_bits reader) count ≡ true = ground (arith, wrong) in
            rw (p, short)
      ]

  read_bits_within : IsReader source spans (read_bits source reader count).0
  unfolding read_bits
  read_bits_within = record {
    backed = ground (arith, valid.backed);
    inside = valid.inside;
    counted = ground (arith, valid.counted);
    bounded = ground (arith, valid.bounded);
    addressable = valid.addressable;
    positioned = ground (arith, valid.positioned, valid.bounded);
  }

  -- What a read does to the reader: a complete one moves it by the bits that were asked for, and any
  -- other leaves it as it was.
  abbrev pub Transacts : BitReader × BitReadResult → Type 0
  Transacts (after, result) =
      (result.status ≡ complete) × (after ≡ record reader { position = reader.position + count })
      ⊎ (result.status ≢ complete) × (after ≡ reader)

  read_bits-Transacts : Transacts (read_bits source reader count)
  unfolding read_bits
  read_bits-Transacts =
      let bounded = valid.bounded in
      let positioned = valid.positioned in
      let result = read_from source reader count (upper_bound reader.position reader.backing) in
      elim (Bool-cases (count == 0 || ltb 64 count)) [
        | inl wrong ↦ rw wrong (inr (λ e. absurd (cc), refl))
        | inr right ↦ elim (Bool-cases (ltb (remaining_bits reader) count)) [
          | inl past ↦ rw (right, past) (inr (λ e. absurd (cc), refl))
          | inr left ↦
              let next : add64 reader.position count ≡ reader.position + count =
                ground (arith, right, left) in
              rw (right, left) (ground (arith, next))
        ]
      ]

  -- Whatever the source answers, a read leaves a reader over the same spans, within its range. A
  -- complete read moves it by exactly the bits that were asked for, and any other does not move it.
  pub read_bits-IsReader :
      IsReader source spans (read_bits source reader count).0
      × Transacts (read_bits source reader count)
  read_bits-IsReader = (read_bits_within, read_bits-Transacts)

-- Over a source that has its bytes a read is complete exactly when it asks for 1 to 64 bits and for
-- no more than are left.
pub read_bits_complete_iff :
    (source : RandomAccessSource) (byte : ℕ → ℕ) (spans : List SourceSpan) (reader : BitReader)
    → Holds source byte
    → IsReader source spans reader
    → (count : ℕ)
    → ((read_bits source reader count).1.status ≡ complete)
      ↔ (0 < count) × (count ≤ 64) × (reader.position + count ≤ reader.logical_bit_length)
read_bits_complete_iff source byte spans reader holds valid count = (
  λ e. elim (Bool-cases (count == 0 || ltb 64 count)) [
    | inl wrong ↦ absurd (
        let refused = read_bits_refused source spans reader valid count (ground arith) in
        let status : invalid_bit_count ≡ complete = rw (refused, wrong) at e in cc)
    | inr right ↦ elim (Bool-cases (ltb reader.logical_bit_length (reader.position + count))) [
      | inl past ↦ absurd (
          let refused =
            read_bits_refused source spans reader valid count (inr (inr (ground arith))) in
          let status : end_of_range ≡ complete = rw (refused, right) at e in cc)
      | inr left ↦ (ground arith, ground arith, ground arith)
    ]
  ],
  λ (positive, small, fits).
      rw (read_bits_lem source byte spans reader holds valid count positive small fits) refl,
)

-- Two reads in a row spell what one read of both lengths spells.
pub read_bits_twice :
    (source : RandomAccessSource) (byte : ℕ → ℕ) (spans : List SourceSpan) (reader : BitReader)
    → Holds source byte
    → IsReader source spans reader
    → (m n : ℕ) → 0 < m
    → 0 < n
    → m + n ≤ 64
    → reader.position + m + n ≤ reader.logical_bit_length
    → (read_bits source reader (m + n)).1.value
      ≡ (read_bits source reader m).1.value * 2 ^ n
        + (read_bits source (read_bits source reader m).0 n).1.value
read_bits_twice source byte spans reader holds valid m n a b small fits =
    let bit = logical_bit byte spans in
    let first =
      read_bits_lem source byte spans reader holds valid m a (omega arith) (omega arith) in
    let moved = rw first at (read_bits-IsReader source spans reader valid m).0 in
    let second =
      read_bits_lem source byte spans (record reader { position = reader.position + m }) holds moved
        n b (omega arith) (omega arith) in
    let both =
      read_bits_lem source byte spans reader holds valid (m + n) (omega arith) small
        (omega arith) in
    rw (first, second, both) (number-add bit reader.position m n)
