-- ===== src/Coordinates/Address.antt =====
-- Byte and bit coordinates of an address.
use stream_view.Common.{ℕ, ◌+◌, ◌<◌, ◌^◌, some, IsU64, ◌≡◌, ◌↔◌, arith}
use stream_view.Coordinates.{
  make_range, make_span, from_byte_and_bit, byte_offset, bit_offset_in_byte,
}

-- A byte and a bit form an address exactly when they are the coordinates of a 64-bit one.
pub from_byte_and_bit_iff :
    (byte bit address : ℕ)
    → (from_byte_and_bit byte bit ≡ some address)
      ↔ (IsU64 address × (byte_offset address ≡ byte) × (bit_offset_in_byte address ≡ bit))
unfolding from_byte_and_bit
from_byte_and_bit_iff byte bit address = ground arith

-- A range and a span are made exactly when their end fits 64 bits.
pub make_range-fits :
    (view_id bit_offset bit_length : ℕ)
    → bit_offset + bit_length < 2 ^ 64
    → make_range view_id bit_offset bit_length
      ≡ some (record { view_id = view_id; bit_offset = bit_offset; bit_length = bit_length })
unfolding make_range
make_range-fits view_id bit_offset bit_length h = ground arith

pub make_span-fits :
    (start bit_length : ℕ)
    → start + bit_length < 2 ^ 64
    → make_span start bit_length ≡ some (record { start = start; bit_length = bit_length })
unfolding make_span
make_span-fits start bit_length h = ground arith
