-- ===== src/StartCodes/Totals.antt =====
-- A scan as a whole: batches until it has finished.
use stream_view.Common.{
  ℕ, zero, suc, ◌+◌, ◌/◌, ◌≤◌, ◌<◌, ◌≡◌, ◌⊎◌, List, [], ◌++◌, subst, Bool, true, false,
  if◌then◌else◌, arith, none, u64_max, Bool-cases, inl, inr,
}
use stream_view.Source.{RandomAccessSource, Holds}
use stream_view.StartCodes.{H264StartCodeRecord}
use stream_view.StartCodes.Scan.{Scanner, scan_batch, initial}
use stream_view.StartCodes.Prefixes.{byte_at}
use stream_view.StartCodes.Passed.{Scanned, Covers, Passed}
use stream_view.StartCodes.Batches.{scan_batch-Scanned, scan_batch_moves, initial-Scanned}

-- Batches without cancellation, until the scan has finished or there were `fuel` of them.
unfoldable pub scan_all :
    RandomAccessSource
    → ℕ
    → ℕ
    → ℕ
    → Scanner
    → List H264StartCodeRecord
    → Scanner × List H264StartCodeRecord
scan_all source maximum_records maximum_positions zero scanner records = (scanner, records)
scan_all source maximum_records maximum_positions (suc fuel) scanner records =
    let result = scan_batch source none scanner maximum_records maximum_positions in
    let rest =
      scan_all source maximum_records maximum_positions fuel result.0
        (records ++ result.1.records) in
    if result.0.finished then (result.0, records ++ result.1.records) else rest

module _ (source : RandomAccessSource) (byte : ℕ → ℕ) (holds : Holds source byte)
    (sized : source.size_bytes ≤ u64_max / 8) (m n : ℕ) (some_records : 0 < m)
    (some_positions : 0 < n) where
  finished-Covers :
      (scanner : Scanner) (records : List H264StartCodeRecord)
      → scanner.finished ≡ true
      → Scanned source byte records scanner
      → Covers (byte_at source byte) records source.size_bytes
  finished-Covers scanner records done s =
      subst
        (λ b.
          Passed (byte_at source byte) source.size_bytes records b scanner.pending
            scanner.pending_trailing scanner.cursor)
        done s.passed

  scan_from-Covers :
      (fuel : ℕ) (scanner : Scanner) (records : List H264StartCodeRecord)
      → source.size_bytes < scanner.cursor + fuel
      → Scanned source byte records scanner
      → ((scan_all source m n fuel scanner records).0.finished ≡ true)
        × Covers
            (byte_at source byte)
            (scan_all source m n fuel scanner records).1
            source.size_bytes
  unfolding scan_all
  scan_from-Covers zero scanner records h s = absurd (omega (arith, s.within))
  scan_from-Covers (suc fuel) scanner records h s =
      let result = scan_batch source none scanner m n in
      let kept =
        scan_batch-Scanned source byte holds sized records none m n scanner some_records
          some_positions s in
      let moved =
        scan_batch_moves source byte holds sized records m n scanner some_records some_positions
          s in
      elim (Bool-cases (result.0.finished)) [
        | inl done ↦
            rw done (done, finished-Covers result.0 (records ++ result.1.records) done kept.0)
        | inr more ↦ rw more (
            scan_from-Covers fuel result.0 (records ++ result.1.records) (advance moved more)
              kept.0)
      ]
    where
      advance :
          {f : Bool} {c : ℕ}
          → (f ≡ true) ⊎ (scanner.cursor < c)
          → f ≡ false
          → source.size_bytes < c + fuel
      advance (inl done) more = absurd (cc)
      advance (inr lt) more = omega arith

  -- In a source that has its bytes, batches of any size finish the scan after at most one more
  -- than there are bytes. The records then cover the source from its first start code to its end:
  -- each is a start code, a NAL unit in which no start code begins and whose last byte is not
  -- zero, and the zero bytes behind it, and each record begins where the one before it ends.
  pub scan_all-Covers :
      ((scan_all source m n (source.size_bytes + 1) initial []).0.finished ≡ true)
      × Covers
          (byte_at source byte)
          (scan_all source m n (source.size_bytes + 1) initial []).1
          source.size_bytes
  scan_all-Covers =
      scan_from-Covers (source.size_bytes + 1) initial [] (omega arith)
        (initial-Scanned source byte holds sized)
