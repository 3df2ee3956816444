-- ===== src/StartCodes/Batches.antt =====
-- Batches of a scan, one after the other.
use stream_view.Common.{
  ℕ, zero, suc, ◌/◌, ◌≤◌, ◌<◌, ◌≡◌, ◌≢◌, ◌⊎◌, refl, List, [], ◌++◌, append-nil, subst, sym, true,
  false, leb, length, arith, none, u64_max, Bool-cases, inl, inr,
}
use stream_view.Source.Bytes.{slice}
use stream_view.Source.{RandomAccessSource, Holds}
use stream_view.StartCodes.{H264StartCodeRecord}
use stream_view.StartCodes.Scan.{
  Scanner, Round, stop, next, StartCodeScanBatch, Cancellation, complete, cancelled, in_progress,
  scan_round, scan_loop, scan_batch, batch, initial,
}
use stream_view.StartCodes.Passed.{Scanned}
use stream_view.StartCodes.Steps.{Keeps, scan_round-Keeps}

module _ (source : RandomAccessSource) (byte : ℕ → ℕ) (holds : Holds source byte)
    (sized : source.size_bytes ≤ u64_max / 8) where
  -- A scan that starts has passed nothing.
  pub initial-Scanned : Scanned source byte [] initial
  unfolding slice
  initial-Scanned = record {
    buffered = record { ordered = omega arith; inside = omega arith; held = refl };
    within = omega arith;
    sound = refl;
    passed = (refl, λ o a b. absurd (omega arith));
  }

  module _ (history : List H264StartCodeRecord) (cancellation : Cancellation) where
    -- What a batch leaves behind.
    abbrev pub Goes : ℕ → Scanner × StartCodeScanBatch → Type 0
    Goes cursor end =
        Scanned source byte (history ++ end.1.records) end.0
        × (cursor ≤ end.0.cursor)
        × ((end.1.status ≡ complete) × (end.0.finished ≡ true)
            ⊎ (end.1.status ≡ in_progress) × (end.0.finished ≡ false)
            ⊎ (end.1.status ≡ cancelled) × (end.0.finished ≡ false) × (cancellation ≢ none))

    Goes-le :
        (low cursor : ℕ) (result : Scanner × StartCodeScanBatch)
        → low ≤ cursor
        → Goes cursor result
        → Goes low result
    Goes-le low cursor (scanner, result) h (s, le, done) = (s, omega arith, done)

    abbrev go : ℕ → ℕ → Round → Scanner × StartCodeScanBatch
    go maximum left round = elim round [
      | stop scanner' result ↦ (scanner', result)
      | next scanner' records ↦ scan_loop source cancellation maximum left scanner' records
    ]

    go-Goes :
        (maximum left cursor : ℕ) (round : Round)
        → Keeps source byte holds sized history cancellation cursor round
        → ((scanner : Scanner) (records : List H264StartCodeRecord)
            → scanner.finished ≡ false
            → Scanned source byte (history ++ records) scanner
            → Goes scanner.cursor (scan_loop source cancellation maximum left scanner records))
        → Goes cursor (go maximum left round)
    go-Goes maximum left cursor (stop scanner result) (s, le, inl done) loop = (s, le, inl done)
    go-Goes maximum left cursor (stop scanner result) (s, le, inr halted) loop =
        (s, le, inr (inr halted))
    go-Goes maximum left cursor (next scanner records) (s, lt, f) loop =
        Goes-le cursor scanner.cursor (scan_loop source cancellation maximum left scanner records)
          (omega arith) (loop scanner records f s)

    scan_loop-Goes :
        (maximum left : ℕ) (scanner : Scanner) (records : List H264StartCodeRecord)
        → scanner.finished ≡ false
        → Scanned source byte (history ++ records) scanner
        → Goes scanner.cursor (scan_loop source cancellation maximum left scanner records)
    unfolding scan_loop
    scan_loop-Goes maximum zero scanner records f s = (s, omega arith, inr (inl (refl, f)))
    scan_loop-Goes maximum (suc left) scanner records f s =
        elim (Bool-cases (leb maximum (length records))) [
          | inl full ↦ rw full (s, omega arith, inr (inl (refl, f)))
          | inr room ↦ rw room (
              go-Goes maximum left scanner.cursor (scan_round source cancellation scanner records)
                (scan_round-Keeps source byte holds sized history cancellation records scanner f s)
                (scan_loop-Goes maximum left))
        ]

    module _ (maximum_records maximum_positions : ℕ) (scanner : Scanner)
        (records_asked : 0 < maximum_records) (positions_asked : 0 < maximum_positions)
        (valid : Scanned source byte history scanner) where
      scan_batch-loop :
          scanner.finished ≡ false
          → scan_batch source cancellation scanner maximum_records maximum_positions
            ≡ scan_loop source cancellation maximum_records maximum_positions scanner []
      unfolding scan_batch
      scan_batch-loop more = ground (arith, valid.sound)

      scan_batch-done :
          scanner.finished ≡ true
          → scan_batch source cancellation scanner maximum_records maximum_positions
            ≡ (scanner, batch complete [] "")
      unfolding scan_batch
      scan_batch-done done = ground (arith, valid.sound)

      -- A batch of a valid scan, in a source that has its bytes, keeps the scan valid: the records of
      -- all batches so far account for every byte that the cursor has passed. It is complete
      -- exactly when the scan has finished, and otherwise in progress or cancelled, and the cursor
      -- never goes back.
      pub scan_batch-Scanned :
          Goes scanner.cursor
            (scan_batch source cancellation scanner maximum_records maximum_positions)
      scan_batch-Scanned =
          let kept = subst (λ l. Scanned source byte l scanner) (sym (append-nil history)) valid in
          elim (Bool-cases scanner.finished) [
            | inl done ↦
                subst (Goes scanner.cursor) (sym (scan_batch-done done))
                  (kept, omega arith, inl (refl, done))
            | inr more ↦
                subst (Goes scanner.cursor) (sym (scan_batch-loop more))
                  (scan_loop-Goes maximum_records maximum_positions scanner [] more kept)
          ]

  module _ (history : List H264StartCodeRecord) where
    go-moves :
        (maximum left cursor : ℕ) (round : Round)
        → Keeps source byte holds sized history none cursor round
        → ((go history none maximum left round).0.finished ≡ true)
          ⊎ (cursor < (go history none maximum left round).0.cursor)
    go-moves maximum left cursor (stop scanner result) (s, le, inl (_, done)) = inl done
    go-moves maximum left cursor (stop scanner result) (s, le, inr (_, _, never)) =
        absurd (never refl)
    go-moves maximum left cursor (next scanner records) (s, lt, f) =
        let later = scan_loop-Goes history none maximum left scanner records f s in
        let onward = later.1 in inr (omega arith)

    -- Without a cancellation token, a batch of a valid scan, with a positive number of records and
    -- of positions, finishes the scan or moves its cursor on.
    pub scan_batch_moves :
        (m n : ℕ) (scanner : Scanner)
        → 0 < m
        → 0 < n
        → Scanned source byte history scanner
        → ((scan_batch source none scanner m n).0.finished ≡ true)
          ⊎ (scanner.cursor < (scan_batch source none scanner m n).0.cursor)
    scan_batch_moves m zero scanner a b valid = absurd (omega arith)
    scan_batch_moves m (suc n) scanner a b valid = elim (Bool-cases scanner.finished) [
      | inl done ↦ rw (scan_batch-done history none m (suc n) scanner a b valid done) (inl done)
      | inr more ↦
          let kept = subst (λ l. Scanned source byte l scanner) (sym (append-nil history)) valid in
          let room : leb m (length {A = H264StartCodeRecord} []) ≡ false = ground arith in
          rw (scan_batch-loop history none m (suc n) scanner a b valid more) (
            unfold scan_loop in
            rw room (
              go-moves m n scanner.cursor (scan_round source none scanner [])
                (scan_round-Keeps source byte holds sized history none [] scanner more kept)))
    ]
