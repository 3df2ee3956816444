-- ===== src/Boxes/Headers.antt =====
-- The sizes that a box header of ISO/IEC 14496-12 declares, by the bytes of the source, and the
-- places that begin no box.
use stream_view.Common.{ℕ, ◌+◌, ◌*◌, ◌^◌, ◌<◌, ◌≡◌, ◌⊎◌, take, ◌==◌, if◌then◌else◌, arith}
use stream_view.Boxes.{read_big_endian}
use stream_view.Source.Bytes.{slice}

-- A 32-bit and a 64-bit number with its most significant byte first.
abbrev pub u32_at : (ℕ → ℕ) → ℕ → ℕ
u32_at byte o = byte o * 2 ^ 24 + byte (o + 1) * 2 ^ 16 + byte (o + 2) * 2 ^ 8 + byte (o + 3)

abbrev pub u64_at : (ℕ → ℕ) → ℕ → ℕ
u64_at byte o = u32_at byte o * 2 ^ 32 + u32_at byte (o + 4)

-- The size of the box at an offset: its first four bytes, or for a 1 there the eight bytes behind the
-- type.
abbrev pub declared_at : (ℕ → ℕ) → ℕ → ℕ
declared_at byte o = if u32_at byte o == 1 then u64_at byte (o + 8) else u32_at byte o

-- No box begins at an offset: its header does not fit, or it declares less than its header.
abbrev pub NoBox : (ℕ → ℕ) → ℕ → ℕ → Type 0
NoBox byte source_size o =
    (source_size < o + 8)
    ⊎ ((1 < u32_at byte o) × (u32_at byte o < 8))
    ⊎ ((u32_at byte o ≡ 1) × ((source_size < o + 16) ⊎ (u64_at byte (o + 8) < 16)))

pub read_u32 : (byte : ℕ → ℕ) (o : ℕ) → read_big_endian 0 (take 4 (slice byte o 8)) ≡ u32_at byte o
unfolding read_big_endian slice
read_u32 byte o =
    let two : o + 1 + 1 ≡ o + 2 = omega arith in
    let three : o + 2 + 1 ≡ o + 3 = omega arith in rw (two, three) (omega arith)

pub read_u64 : (byte : ℕ → ℕ) (o : ℕ) → read_big_endian 0 (slice byte o 8) ≡ u64_at byte o
unfolding read_big_endian slice
read_u64 byte o =
    let two : o + 1 + 1 ≡ o + 2 = omega arith in
    let three : o + 2 + 1 ≡ o + 3 = omega arith in
    let four : o + 3 + 1 ≡ o + 4 = omega arith in
    let six : o + 4 + 1 + 1 ≡ o + 4 + 2 = omega arith in
    let seven : o + 4 + 2 + 1 ≡ o + 4 + 3 = omega arith in
    rw (two, three, four, six, seven) (omega arith)
