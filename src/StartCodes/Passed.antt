-- ===== src/StartCodes/Passed.antt =====
-- What a scan has passed: records that tile the bytes, and the NAL unit that is still open.
use stream_view.Common.{
  ℕ, ◌+◌, ◌-◌, ◌≤◌, ◌<◌, ◌≡◌, ◌≢◌, refl, ◌∙◌, ap, List, [], Bool, true, false, ltb, arith, some,
  none, Option, Bool-cases, inl, inr,
}
use stream_view.Buffered.Reads.{IsBuffer}
use stream_view.Source.{RandomAccessSource}
use stream_view.StartCodes.{H264StartCodeRecord, PendingStartCode}
use stream_view.StartCodes.Scan.{Scanner}
use stream_view.StartCodes.Prefixes.{byte_at, code_at}
use stream_view.StartCodes.Records.{record_of, IsRecord, Tiles}

-- No start code begins between the offsets.
abbrev pub Clear : (ℕ → ℕ) → ℕ → ℕ → Type 0
Clear at from to = (o : ℕ) → from ≤ o → o < to → code_at at o ≡ 0

-- The open NAL unit: its bytes up to the cursor, the last `trailing` of them zero and no more.
pub record IsOpen (at : ℕ → ℕ) (pending : PendingStartCode) (trailing cursor : ℕ) : Type 0 where
  pub code : pending.length ≡ code_at at pending.offset
  pub begins : 0 < pending.length
  pub room : pending.offset + pending.length + trailing ≤ cursor
  pub clear : Clear at (pending.offset + pending.length) cursor
  pub zero_tail : (o : ℕ) → cursor ≤ o + trailing → o < cursor → at o ≡ 0
  pub full : pending.offset + pending.length + trailing < cursor → at (cursor - trailing - 1) ≢ 0

-- The records tile the bytes from the first start code to an offset.
abbrev pub Covers : (ℕ → ℕ) → List H264StartCodeRecord → ℕ → Type 0
Covers at records to = (first : ℕ) × Clear at 0 first × Tiles at first records to

abbrev pub Passed :
    (ℕ → ℕ) → ℕ → List H264StartCodeRecord → Bool → Option PendingStartCode → ℕ → ℕ → Type 0
Passed at size records true pending trailing cursor = Covers at records size
Passed at size records false none trailing cursor = (records ≡ []) × Clear at 0 cursor
Passed at size records false (some pending) trailing cursor =
    Covers at records pending.offset × IsOpen at pending trailing cursor

-- A scanner that has emitted these records over all its batches.
pub record Scanned (source : RandomAccessSource) (byte : ℕ → ℕ) (records : List H264StartCodeRecord)
    (scanner : Scanner) : Type 0 where
  pub buffered : IsBuffer source byte scanner.buffer
  pub within : scanner.cursor ≤ source.size_bytes
  pub sound : scanner.failed ≡ false
  pub passed :
      Passed
        (byte_at source byte)
        source.size_bytes
        records
        scanner.finished
        scanner.pending
        scanner.pending_trailing
        scanner.cursor

pub close-IsRecord :
    (at : ℕ → ℕ) (pending : PendingStartCode) (trailing cursor : ℕ)
    → IsOpen at pending trailing cursor
    → IsRecord at pending.offset cursor (
        record_of pending.offset pending.length
          (cursor - (pending.offset + pending.length) - trailing)
          trailing)
close-IsRecord at pending trailing cursor o =
    let code = o.code in
    let room = o.room in
    record {
      nal = cursor - (pending.offset + pending.length) - trailing;
      trailing = trailing;
      whole = rw code;
      begins = omega (arith, o.begins);
      ends = omega arith;
      clear = λ i a b. o.clear i (omega arith) b;
      zero_tail = o.zero_tail;
      full = λ h e. o.full (omega arith) (ap at (omega arith) ∙ e);
    }

pub Clear-suc :
    (at : ℕ → ℕ) (from cursor : ℕ)
    → Clear at from cursor
    → code_at at cursor ≡ 0
    → Clear at from (cursor + 1)
Clear-suc at from cursor clear h o a b = elim (Bool-cases (ltb o cursor)) [
  | inl p ↦ clear o a (ground arith)
  | inr p ↦ let here : o ≡ cursor = ground arith in ap (code_at at) here ∙ h
]

pub IsOpen-begun :
    (at : ℕ → ℕ) (cursor : ℕ)
    → 0 < code_at at cursor
    → IsOpen at
        (record { offset = cursor; length = code_at at cursor })
        0
        (cursor + code_at at cursor)
IsOpen-begun at cursor h = record {
  code = refl;
  begins = h;
  room = omega arith;
  clear = λ o a b. absurd (omega arith);
  zero_tail = λ o a b. absurd (omega arith);
  full = λ a. absurd (omega arith);
}

-- The next byte of an open NAL unit joins its zero bytes, or ends them.
pub IsOpen-zero :
    (at : ℕ → ℕ) (pending : PendingStartCode) (trailing cursor : ℕ)
    → IsOpen at pending trailing cursor
    → code_at at cursor ≡ 0
    → at cursor ≡ 0
    → IsOpen at pending (trailing + 1) (cursor + 1)
IsOpen-zero at pending trailing cursor o h z =
    let room = o.room in
    record {
      code = o.code;
      begins = o.begins;
      room = omega arith;
      clear = Clear-suc at _ cursor o.clear h;
      zero_tail = λ i a b. elim (Bool-cases (ltb i cursor)) [
        | inl p ↦ o.zero_tail i (omega arith) (ground arith)
        | inr p ↦ let here : i ≡ cursor = ground arith in ap at here ∙ z
      ];
      full = λ a e. o.full (omega arith) (ap at (omega arith) ∙ e);
    }

pub IsOpen-full :
    (at : ℕ → ℕ) (pending : PendingStartCode) (trailing cursor : ℕ)
    → IsOpen at pending trailing cursor
    → code_at at cursor ≡ 0
    → at cursor ≢ 0
    → IsOpen at pending 0 (cursor + 1)
IsOpen-full at pending trailing cursor o h z =
    let room = o.room in
    record {
      code = o.code;
      begins = o.begins;
      room = omega arith;
      clear = Clear-suc at _ cursor o.clear h;
      zero_tail = λ i a b. absurd (omega arith);
      full = λ a e. z (ap at (omega arith) ∙ e);
    }

pub byte_at_inside :
    (source : RandomAccessSource) (byte : ℕ → ℕ) (offset : ℕ)
    → offset < source.size_bytes
    → byte_at source byte offset ≡ byte offset
unfolding byte_at
byte_at_inside source byte offset h = ground arith
