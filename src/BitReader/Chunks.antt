-- ===== src/BitReader/Chunks.antt =====
-- `readContiguousBits`, and the loop of `readBits` over the spans.
use stream_view.Common.{
  ℕ, zero, suc, ◌+◌, ◌-◌, ◌*◌, ◌/◌, ◌^◌, ◌≤◌, ◌<◌, List, [], ◌∷◌, ◌≡◌, none, some, ap, ◌∙◌, arith,
  ◌==◌, min, add64, sub64, false, sym, subst, Option-cases, Bool-cases, inl, inr,
}
use stream_view.BitReader.{
  read_contiguous_bits, complete_result, read_chunks, index_backing_spans, join_chunk,
}
use stream_view.BitReader.Numbers.{
  source_bit, number, collect_bits-number, number-lt, number-add, number-ext, source_bit-lt,
  pow_add, le-mul_pow,
}
use stream_view.Coordinates.{SourceSpan}
use stream_view.Coordinates.Spans.{total, bit_at, Within}
use stream_view.Source.{RandomAccessSource, Holds}
use native.Mathlib.Nat.{pow-le-pow_right}

-- The position lies in the first of the spans.
abbrev pub Reaches : ℕ → ℕ → List SourceSpan → Type 0
Reaches position start [] = ⊥
Reaches position start (span ∷ spans) = position < start + span.bit_length

-- The bit at a logical offset of the spans; 0 past their end.
unfoldable pub logical_bit : (ℕ → ℕ) → List SourceSpan → ℕ → ℕ
logical_bit byte spans i = elim (bit_at spans i) [
  | none ↦ 0
  | some address ↦ source_bit byte address
]

pub logical_bit-lt : (byte : ℕ → ℕ) (spans : List SourceSpan) (i : ℕ) → logical_bit byte spans i < 2
unfolding logical_bit
logical_bit-lt byte spans i = elim (Option-cases (bit_at spans i)) [
  | inl e ↦ rw (e, logical_bit) (omega arith)
  | inr (a, e) ↦ rw (e, logical_bit) (source_bit-lt byte a)
]

-- At most 64 bits that lie within the source spell their number.
pub read_contiguous_bits_lem :
    (source : RandomAccessSource) (byte : ℕ → ℕ) (start count : ℕ)
    → Holds source byte
    → 0 < count
    → count ≤ 64
    → start + count ≤ source.size_bytes * 8
    → start + count < 2 ^ 64
    → read_contiguous_bits source start count
      ≡ complete_result (number (source_bit byte) start count) count
unfolding read_contiguous_bits
read_contiguous_bits_lem source byte start count holds pos small fits bounded =
    let first = start / 8 in
    let n = (start + count - 1) / 8 - first + 1 in
    let counted : sub64 (sub64 (add64 start count) 1 / 8) first + 1 ≡ n = omega arith in
    let power : 2 ^ count ≤ 2 ^ 64 = pow-le-pow_right (omega arith) small in
    let spelt =
      collect_bits-number byte first n start count 0 (omega arith) (omega arith) (omega arith)
        (omega arith) in
    rw (counted, holds.reads first n (omega arith) (omega arith)) (ground (arith, spelt))

logical_bit_first :
    (byte : ℕ → ℕ) (span : SourceSpan) (spans : List SourceSpan) (i : ℕ)
    → i < span.bit_length
    → logical_bit byte (span ∷ spans) i ≡ source_bit byte (span.start + i)
unfolding logical_bit bit_at
logical_bit_first byte span spans i h = ground arith

pub logical_bit_rest :
    (byte : ℕ → ℕ) (span : SourceSpan) (spans : List SourceSpan) (i : ℕ)
    → span.bit_length ≤ i
    → logical_bit byte (span ∷ spans) i ≡ logical_bit byte spans (i - span.bit_length)
unfolding logical_bit bit_at
logical_bit_rest byte span spans i h = ground arith

-- A chunk joined while there is room does not wrap, and leaves room for what follows.
join_chunk_lem :
    (value bits chunk left : ℕ)
    → chunk < 2 ^ bits
    → bits + left ≤ 64
    → (value + 1) * 2 ^ (bits + left) ≤ 2 ^ 64
    → (join_chunk value bits chunk ≡ value * 2 ^ bits + chunk)
      × ((value * 2 ^ bits + chunk + 1) * 2 ^ left ≤ 2 ^ 64)
join_chunk_lem value bits chunk left c small fits =
    let power : (value + 1) * 2 ^ bits * 2 ^ left ≤ 2 ^ 64 =
      omega (arith, ap (λ (t : ℕ). (value + 1) * t) (pow_add bits left)) in
    let low = le-mul_pow ((value + 1) * 2 ^ bits) left in
    let below : (value * 2 ^ bits + chunk + 1) * 2 ^ left ≤ (value + 1) * 2 ^ bits * 2 ^ left =
      grind arith in
    (joined (omega arith), omega arith)
  where
    joined :
        (value + 1) * 2 ^ bits ≤ 2 ^ 64 → join_chunk value bits chunk ≡ value * 2 ^ bits + chunk
    joined h = elim (Bool-cases (bits == 64)) [
      | inl p ↦
          let e : bits ≡ 64 = ground arith in
          let v : value ≡ 0 = omega (arith, rw e at h) in rw (p, v) (omega arith)
      | inr p ↦ rw p (omega arith)
    ]

-- A round of the loop on a chunk that lies within its span.
read_chunks_step :
    (source : RandomAccessSource) (byte : ℕ → ℕ) (bit_count start position left bits value : ℕ)
    (span : SourceSpan) (backing : List (ℕ × SourceSpan))
    → Holds source byte
    → start ≤ position
    → position + bits ≤ start + span.bit_length
    → start + span.bit_length < 2 ^ 64
    → span.start + span.bit_length ≤ source.size_bytes * 8
    → span.start + span.bit_length < 2 ^ 64
    → 0 < bits
    → bits + left ≤ 64
    → min (start + span.bit_length - position) (bits + left) ≡ bits
    → (value + 1) * 2 ^ (bits + left) ≤ 2 ^ 64
    → read_chunks source bit_count position ((start, span) ∷ backing) (bits + left) value
      ≡ read_chunks source bit_count
          (position + bits)
          backing
          left
          (value * 2 ^ bits + number (source_bit byte) (span.start + (position - start)) bits)
unfolding read_chunks
read_chunks_step source byte n start position left bits value span backing holds lo within short
      inside fits pos small least room =
    let offset : sub64 position start ≡ position - start = omega arith in
    let taken : min (sub64 span.bit_length (position - start)) (bits + left) ≡ bits = omega arith in
    let address : add64 span.start (position - start) ≡ span.start + (position - start) =
      omega arith in
    let next : add64 position bits ≡ position + bits = omega arith in
    let rest : bits + left - bits ≡ left = omega arith in
    let some_left : (bits + left == 0) ≡ false = ground arith in
    let chunk = number (source_bit byte) (span.start + (position - start)) bits in
    let joined =
      (join_chunk_lem value bits chunk left
        (number-lt (source_bit byte) _ bits (source_bit-lt byte)) small room).0 in
    let read =
      read_contiguous_bits_lem source byte (span.start + (position - start)) bits holds pos
        (omega arith) (omega arith) (omega arith) in
    rw (offset, taken, address, read, offset, taken, address, read, next, rest, joined, some_left)

Reaches-next :
    (start left : ℕ) (spans : List SourceSpan) (limit : ℕ)
    → 0 < left
    → start + left ≤ start + total spans
    → Within limit spans
    → Reaches start start spans
Reaches-next start left [] limit pos h w = absurd (omega arith)
Reaches-next start left (span ∷ spans) limit pos h (w, _, _) = omega arith

-- The reader's spans from one on that starts at `start`; the position lies in the first of them.
-- The bits still wanted follow the value so far.
pub read_chunks-number :
    (source : RandomAccessSource) (byte : ℕ → ℕ) (bit_count : ℕ) (spans : List SourceSpan)
    (start position left value : ℕ) (bit : ℕ → ℕ)
    → Holds source byte
    → Within (source.size_bytes * 8) spans
    → source.size_bytes * 8 < 2 ^ 64
    → start + total spans < 2 ^ 64
    → (0 < left → start ≤ position)
    → position + left ≤ start + total spans
    → (0 < left → Reaches position start spans)
    → left ≤ 64
    → (value + 1) * 2 ^ left ≤ 2 ^ 64
    → ((i : ℕ) → i < left → bit (position + i) ≡ logical_bit byte spans (position + i - start))
    → read_chunks source bit_count position (index_backing_spans start spans) left value
      ≡ complete_result (value * 2 ^ left + number bit position left) bit_count
unfolding index_backing_spans
read_chunks-number source byte n [] start position zero value bit holds inside size short lo hi
      reach small room same =
    unfold number read_chunks in ground arith
read_chunks-number source byte n [] start position (suc left) value bit holds inside size short lo
      hi reach small room same =
    absurd (reach (omega arith))
read_chunks-number source byte n (span ∷ spans) start position zero value bit holds inside size
      short lo hi reach small room same =
    unfold number read_chunks in ground arith
read_chunks-number source byte n (span ∷ spans) start position (suc left) value bit holds (w, f, ws)
      size short lo hi reach small room same =
    let from = lo (omega arith) in
    let to = reach (omega arith) in
    let bits = min (start + span.bit_length - position) (suc left) in
    let more = suc left - bits in
    let all : suc left ≡ bits + more = omega arith in
    let next : add64 start span.bit_length ≡ start + span.bit_length = omega arith in
    let chunk : number (source_bit byte) (span.start + (position - start)) bits
        ≡ number bit position bits =
      number-ext (source_bit byte) bit _ position bits (λ i h.
        ap (source_bit byte) (omega arith)
        ∙ sym (
            same i (omega arith)
            ∙ logical_bit_first byte span spans (position + i - start) (omega arith))) in
    let value' =
      value * 2 ^ bits + number (source_bit byte) (span.start + (position - start)) bits in
    let joined =
      join_chunk_lem value bits (number (source_bit byte) (span.start + (position - start)) bits)
        more (number-lt (source_bit byte) _ bits (source_bit-lt byte)) (omega arith)
        (rw all at room) in
    let ih =
      read_chunks-number source byte n spans (start + span.bit_length) (position + bits) more value'
        bit holds ws size (omega arith) (λ h. omega arith) (omega arith)
        (λ h.
          let here : start + span.bit_length ≡ position + bits = omega arith in
          subst (λ p. Reaches p (start + span.bit_length) spans) here
            (Reaches-next (start + span.bit_length) more spans _ h (omega arith) ws))
        (omega arith) joined.1
        (λ i h.
          ap bit (omega arith)
          ∙ same (bits + i) (omega arith)
          ∙ logical_bit_rest byte span spans (position + (bits + i) - start) (omega arith)
          ∙ ap (logical_bit byte spans) (omega arith)) in
    let sum : value' * 2 ^ more + number bit (position + bits) more
        ≡ value * 2 ^ (bits + more) + number bit position (bits + more) =
      omega (
        arith,
        number-add bit position bits more,
        ap (λ (t : ℕ). value * t) (pow_add bits more),
        ap (λ (t : ℕ). t * 2 ^ more) chunk,
      ) in
    let round =
      read_chunks_step source byte n start position more bits value span
        (index_backing_spans (start + span.bit_length) spans) holds from (omega arith) (omega arith)
        f (omega arith) (omega arith) (omega arith) (omega arith) (rw all at room) in
    subst
      (λ t.
        read_chunks source n position
          ((start, span) ∷ index_backing_spans (add64 start span.bit_length) spans) t value
        ≡ complete_result (value * 2 ^ t + number bit position t) n)
      (sym all) (rw next (round ∙ ih ∙ ap (λ v. complete_result v n) sum))
