-- ===== src/StartCodes/Records.antt =====
-- What the records of a scan say of the bytes: each is a start code with its NAL unit and the zero
-- bytes behind it, and one begins where the one before it ends.
use stream_view.Common.{
  ℕ, ◌+◌, ◌-◌, ◌*◌, ◌/◌, ◌≤◌, ◌<◌, ◌≡◌, ◌≢◌, refl, List, [], ◌∷◌, ◌++◌, ◌==◌, if◌then◌else◌, add64,
  arith, some, none, u64_max,
}
use stream_view.Coordinates.{SourceSpan}
use stream_view.Coordinates.Address.{make_span-fits}
use stream_view.Source.{RandomAccessSource}
use stream_view.StartCodes.{H264StartCodeRecord, ok, make_record, make_byte_span}
use stream_view.StartCodes.Prefixes.{byte_at, code_at}

abbrev pub byte_span : ℕ → ℕ → SourceSpan
byte_span offset length = record { start = offset * 8; bit_length = length * 8 }

make_byte_span_lem :
    (offset length : ℕ)
    → offset + length ≤ u64_max / 8
    → make_byte_span offset length ≡ some (byte_span offset length)
unfolding make_byte_span
make_byte_span_lem offset length h =
    ground (arith, make_span-fits (offset * 8) (length * 8) (omega arith))

-- The record of a start code of `code` bytes with `nal` bytes and `trailing` zero bytes behind it.
abbrev pub record_of : ℕ → ℕ → ℕ → ℕ → H264StartCodeRecord
record_of start code nal trailing = record {
  start_code = some (byte_span start code);
  nal_unit = if nal == 0 then none else some (byte_span (start + code) nal);
  trailing_zero_8_bits =
      if trailing == 0 then none else some (byte_span (start + code + nal) trailing);
  start_code_offset = start;
  start_code_length = code;
  nal_unit_offset = start + code;
  nal_unit_length = nal;
  trailing_zero_8_bits_offset = start + code + nal;
  trailing_zero_8_bits_length = trailing;
}

-- Ordered offsets that bit coordinates can hold make the record.
pub make_record_lem :
    (start code nal trailing stop : ℕ)
    → start + code + nal + trailing ≡ stop
    → stop ≤ u64_max / 8
    → make_record (record { offset = start; length = code }) stop trailing
      ≡ ok (record_of start code nal trailing)
unfolding make_record
make_record_lem start code nal trailing stop sum fits =
    let begun : add64 start code ≡ start + code = omega arith in
    let rest : stop - (start + code) - trailing ≡ nal = omega arith in
    let tail : add64 (start + code) nal ≡ start + code + nal = omega arith in
    ground (
      arith,
      begun,
      rest,
      tail,
      make_byte_span_lem start code (omega arith),
      make_byte_span_lem (start + code) nal (omega arith),
      make_byte_span_lem (start + code + nal) trailing (omega arith),
    )

-- A record of the bytes from one offset to another: a start code, a NAL unit that no start code
-- begins in and that does not end in a zero byte, and the zero bytes behind it.
pub record IsRecord (at : ℕ → ℕ) (start stop : ℕ) (found : H264StartCodeRecord) : Type 0 where
  pub nal : ℕ
  pub trailing : ℕ
  pub whole : found ≡ record_of start (code_at at start) nal trailing
  pub begins : 0 < code_at at start
  pub ends : start + code_at at start + nal + trailing ≡ stop
  pub clear : (o : ℕ) → start + code_at at start ≤ o → o < stop → code_at at o ≡ 0
  pub zero_tail : (o : ℕ) → stop ≤ o + trailing → o < stop → at o ≡ 0
  pub full : 0 < nal → at (start + code_at at start + nal - 1) ≢ 0

abbrev pub Tiles : (ℕ → ℕ) → ℕ → List H264StartCodeRecord → ℕ → Type 0
Tiles at from [] to = from ≡ to
Tiles at from (found ∷ rest) to = (stop : ℕ) × IsRecord at from stop found × Tiles at stop rest to

pub Tiles-snoc :
    (at : ℕ → ℕ) (from mid to : ℕ) (records : List H264StartCodeRecord)
    (found : H264StartCodeRecord)
    → Tiles at from records mid
    → IsRecord at mid to found
    → Tiles at from (records ++ (found ∷ [])) to
Tiles-snoc at from mid to [] found t r = (to, rw t r, refl)
Tiles-snoc at from mid to (x ∷ xs) found (stop, x', t) r =
    (stop, x', Tiles-snoc at stop mid to xs found t r)

-- A start code lies within the source.
pub code_at-le :
    (source : RandomAccessSource) (byte : ℕ → ℕ) (offset : ℕ)
    → 0 < code_at (byte_at source byte) offset
    → offset + code_at (byte_at source byte) offset ≤ source.size_bytes
unfolding code_at byte_at
code_at-le source byte offset h = ground arith
