-- ===== src/StartCodes/Steps.antt =====
-- The rounds of the scan keep track of the bytes that they have passed.
use stream_view.Common.{
  ℕ, ◌+◌, ◌-◌, ◌/◌, ◌≤◌, ◌<◌, ◌≡◌, ◌≢◌, ◌⊎◌, refl, List, [], ◌∷◌, ◌++◌, append_assoc, subst, true,
  false, leb, ◌==◌, add64, arith, some, none, Option, u64_max, Bool-cases, inl, inr,
}
use stream_view.Buffered.{Buffer}
use stream_view.Buffered.Reads.{IsBuffer, read_byte_lem, read_byte-IsBuffer}
use stream_view.Source.{RandomAccessSource, Holds}
use stream_view.StartCodes.{H264StartCodeRecord, PendingStartCode, scan_fallback, prefix}
use stream_view.StartCodes.Scan.{
  Scanner, Round, stop, next, finish_scan, pass_byte, classify_byte, after_prefix, take_start_code,
  scan_round, Cancellation, complete, cancelled, is_cancelled,
}
use stream_view.StartCodes.Prefixes.{byte_at, code_at, prefix_length_at_lem}
use stream_view.StartCodes.Records.{
  record_of, make_record_lem, IsRecord, Tiles, Tiles-snoc, code_at-le,
}
use stream_view.StartCodes.Passed.{
  Clear-suc, IsOpen-begun, IsOpen-full, IsOpen-zero, Passed, Scanned, byte_at_inside,
  close-IsRecord,
}

cancelled-ne-none :
    (cancellation : Cancellation) (inspected : ℕ)
    → is_cancelled cancellation inspected ≡ true
    → cancellation ≢ none
cancelled-ne-none none inspected h e = cc
cancelled-ne-none (some asked) inspected h e = cc

module _ (source : RandomAccessSource) (byte : ℕ → ℕ) (holds : Holds source byte)
    (sized : source.size_bytes ≤ u64_max / 8) (history : List H264StartCodeRecord)
    (cancellation : Cancellation) where
  -- A round keeps the account: it moves the cursor on, or it is cancelled, or it finishes.
  abbrev pub Keeps : ℕ → Round → Type 0
  Keeps cursor (next scanner' records) =
      Scanned source byte (history ++ records) scanner'
      × (cursor < scanner'.cursor)
      × (scanner'.finished ≡ false)
  Keeps cursor (stop scanner' result) =
      Scanned source byte (history ++ result.records) scanner'
      × (cursor ≤ scanner'.cursor)
      × ((result.status ≡ complete) × (scanner'.finished ≡ true)
          ⊎ (result.status ≡ cancelled) × (scanner'.finished ≡ false) × (cancellation ≢ none))

  -- A scanner that has neither finished nor failed.
  abbrev state : Buffer → ℕ → ℕ → ℕ → Option PendingStartCode → Scanner
  state buffer cursor inspected trailing pending = record {
    buffer = buffer;
    cursor = cursor;
    inspected_bytes = inspected;
    pending_trailing = trailing;
    pending = pending;
    finished = false;
    failed = false;
  }

  module _ (buffer : Buffer) (cursor inspected trailing : ℕ) (records : List H264StartCodeRecord)
      (valid : IsBuffer source byte buffer) (within : cursor ≤ source.size_bytes) where
    abbrev at : ℕ → ℕ
    at = byte_at source byte

    abbrev Before : Option PendingStartCode → Type 0
    Before pending = Passed at source.size_bytes (history ++ records) false pending trailing cursor

    finish_scan-Keeps :
        (pending : Option PendingStartCode)
        → source.size_bytes ≤ cursor
        → Before pending
        → Keeps cursor
            (finish_scan source.size_bytes (state buffer cursor inspected trailing pending) records)
    unfolding finish_scan
    finish_scan-Keeps none past (e, clear) = (
      record {
        buffered = valid;
        within = within;
        sound = refl;
        passed = rw e (source.size_bytes, λ o a b. clear o a (omega arith), refl);
      },
      omega arith,
      inl (refl, refl),
    )
    finish_scan-Keeps (some pending) past ((first, clear, tiles), open_unit) =
        let room = open_unit.room in
        let all : cursor ≡ source.size_bytes = omega arith in
        let found =
          record_of pending.offset pending.length
            (cursor - (pending.offset + pending.length) - trailing) trailing in
        let made =
          make_record_lem pending.offset pending.length
            (cursor - (pending.offset + pending.length) - trailing) trailing source.size_bytes
            (omega arith) sized in
        let closed = close-IsRecord at pending trailing cursor open_unit in
        rw made (
          record {
            buffered = valid;
            within = within;
            sound = refl;
            passed = (
              first,
              clear,
              subst (λ l. Tiles at first l source.size_bytes)
                  (append_assoc history records (found ∷ []))
                  (Tiles-snoc at first pending.offset source.size_bytes (history ++ records) found
                    tiles (subst (λ c. IsRecord at pending.offset c found) all closed)),
            );
          },
          omega arith,
          inl (refl, refl),
        )

    take_start_code-Keeps :
        (pending : Option PendingStartCode)
        → 0 < code_at at cursor
        → Before pending
        → Keeps cursor (
            take_start_code
              (code_at at cursor)
              (state buffer cursor inspected trailing pending)
              records)
    unfolding take_start_code
    take_start_code-Keeps none code (e, clear) =
        let inside = code_at-le source byte cursor code in
        let moved : add64 cursor (code_at at cursor) ≡ cursor + code_at at cursor = omega arith in
        rw moved (
          record {
            buffered = valid;
            within = inside;
            sound = refl;
            passed = ((cursor, clear, rw e refl), IsOpen-begun at cursor code);
          },
          omega arith,
          refl,
        )
    take_start_code-Keeps (some pending) code ((first, clear, tiles), open_unit) =
        let inside = code_at-le source byte cursor code in
        let moved : add64 cursor (code_at at cursor) ≡ cursor + code_at at cursor = omega arith in
        let room = open_unit.room in
        let found =
          record_of pending.offset pending.length
            (cursor - (pending.offset + pending.length) - trailing) trailing in
        let made =
          make_record_lem pending.offset pending.length
            (cursor - (pending.offset + pending.length) - trailing) trailing cursor (omega arith)
            (omega arith) in
        rw (made, moved)
          (
            record {
              buffered = valid;
              within = inside;
              sound = refl;
              passed = (
                (
                  first,
                  clear,
                  subst (λ l. Tiles at first l cursor) (append_assoc history records (found ∷ []))
                      (Tiles-snoc at first pending.offset cursor (history ++ records) found tiles
                        (close-IsRecord at pending trailing cursor open_unit)),
                ),
                IsOpen-begun at cursor code,
              );
            },
            omega arith,
            refl,
          )

    pass_byte-Keeps :
        (pending : Option PendingStartCode)
        → cursor < source.size_bytes
        → code_at at cursor ≡ 0
        → Before pending
        → Keeps cursor (pass_byte source (state buffer cursor inspected trailing pending) records)
    unfolding pass_byte classify_byte
    pass_byte-Keeps none inside no_code (e, clear) =
        let moved : add64 cursor 1 ≡ cursor + 1 = omega arith in
        rw moved (
          record {
            buffered = valid;
            within = omega arith;
            sound = refl;
            passed = (e, Clear-suc at 0 cursor clear no_code);
          },
          omega arith,
          refl,
        )
    pass_byte-Keeps (some pending) inside no_code ((first, clear, tiles), open_unit) =
        let moved : add64 cursor 1 ≡ cursor + 1 = omega arith in
        let room = open_unit.room in
        let more : add64 trailing 1 ≡ trailing + 1 = omega arith in
        let here = byte_at_inside source byte cursor inside in
        let after = read_byte-IsBuffer source byte holds scan_fallback buffer valid cursor in
        let read = read_byte_lem source byte holds scan_fallback buffer valid cursor inside in
        rw read (elim (Bool-cases (byte cursor == 0)) [
          | inl z ↦
              rw (z, moved, more)
                (
                  record {
                    buffered = after;
                    within = omega arith;
                    sound = refl;
                    passed = (
                      (first, clear, tiles),
                      IsOpen-zero at pending trailing cursor open_unit no_code (ground arith),
                    );
                  },
                  omega arith,
                  refl,
                )
          | inr z ↦
              rw (z, moved)
                (
                  record {
                    buffered = after;
                    within = omega arith;
                    sound = refl;
                    passed = (
                      (first, clear, tiles),
                      IsOpen-full at pending trailing cursor open_unit no_code (ground arith),
                    );
                  },
                  omega arith,
                  refl,
                )
        ])

  module _ (records : List H264StartCodeRecord) where
    after_prefix-Keeps :
        (buffer : Buffer) (cursor inspected trailing : ℕ) (pending : Option PendingStartCode)
        (buffer' : Buffer)
        → IsBuffer source byte buffer'
        → cursor < source.size_bytes
        → Passed
            (byte_at source byte)
            source.size_bytes
            (history ++ records)
            false
            pending
            trailing
            cursor
        → Keeps cursor (
            after_prefix source
              (state buffer cursor inspected trailing pending)
              records
              (buffer', prefix (code_at (byte_at source byte) cursor)))
    unfolding after_prefix
    after_prefix-Keeps buffer cursor inspected trailing pending buffer' valid inside passed =
        let at = byte_at source byte in
        elim (Bool-cases (code_at at cursor == 0)) [
          | inl p ↦ rw p (
              pass_byte-Keeps buffer' cursor (add64 inspected 1) trailing records valid
                (omega arith) pending inside (ground arith) passed)
          | inr p ↦ rw p (
              take_start_code-Keeps buffer' cursor (add64 inspected 1) trailing records valid
                (omega arith) pending (ground arith) passed)
        ]

    scan_round-state-Keeps :
        (buffer : Buffer) (cursor inspected trailing : ℕ) (pending : Option PendingStartCode)
        → Scanned source byte (history ++ records) (state buffer cursor inspected trailing pending)
        → Keeps cursor (
            scan_round source cancellation (state buffer cursor inspected trailing pending) records)
    unfolding scan_round
    scan_round-state-Keeps buffer cursor inspected trailing pending s =
        let (buffer', valid, found) =
          prefix_length_at_lem source byte holds cursor (omega (arith, s.within)) buffer
            s.buffered in
        elim (Bool-cases (is_cancelled cancellation inspected)) [
          | inl c ↦
              rw c (s, omega arith, inr (refl, refl, cancelled-ne-none cancellation inspected c))
          | inr c ↦ elim (Bool-cases (leb source.size_bytes cursor)) [
            | inl past ↦
                rw (c, past)
                  (finish_scan-Keeps buffer cursor inspected trailing records s.buffered s.within
                    pending (ground arith) s.passed)
            | inr inside ↦
                rw (c, inside, found)
                  (after_prefix-Keeps buffer cursor inspected trailing pending buffer' valid
                    (ground arith) s.passed)
          ]
        ]

    pub scan_round-Keeps :
        (scanner : Scanner)
        → scanner.finished ≡ false
        → Scanned source byte (history ++ records) scanner
        → Keeps scanner.cursor (scan_round source cancellation scanner records)
    scan_round-Keeps scanner open_scan s =
        let same : scanner
            ≡ state scanner.buffer scanner.cursor scanner.inspected_bytes scanner.pending_trailing
                scanner.pending =
          λ i. record scanner { finished = open_scan i; failed = s.sound i } in
        rw same (
          scan_round-state-Keeps _ _ _ _ _
            (subst (Scanned source byte (history ++ records)) same s))
