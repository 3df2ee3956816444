-- ===== src/SampleTables/Offsets.antt =====
-- The byte offset of a sample: the start of its chunk and the sizes of the samples before it there.
use stream_view.Common.{
  ℕ, zero, suc, ◌+◌, ◌≤◌, ◌≡◌, refl, sym, ap, Option, none, some, String, Bool-cases, inl, inr,
  arith, leb, ◌==◌, not, add64, u64_max, if◌then◌else◌,
}
use stream_view.SampleTables.{Mp4SampleTableIndex, add_would_overflow}
use stream_view.SampleTables.Chunks.{table_read, read_sample_size, read_chunk_offset, catch_up}
use stream_view.SampleTables.Overflow.{OkAll, map-OkAll, required-OkAll}
use stream_view.SampleTables.Gives.{Gives, bind-Gives, refuse_if-Gives}

-- An entry of a table, or 0 where its reader has none.
abbrev pub entry_or_zero : Option ℕ → ℕ
entry_or_zero none = 0
entry_or_zero (some size) = size

abbrev pub size_entry : Option (ℕ → Option ℕ) → ℕ → ℕ
size_entry none i = 0
size_entry (some read) i = entry_or_zero (read i)

-- The size of a sample: the one size of stsz, or its entry.
unfoldable pub size_at : Mp4SampleTableIndex → ℕ → ℕ
size_at index i =
    if not (index.tables.default_sample_size == 0)
    then index.tables.default_sample_size
    else size_entry index.readers.sample_size i

-- The sizes of `count` samples from `first` on.
unfoldable pub sum_sizes : Mp4SampleTableIndex → ℕ → ℕ → ℕ
sum_sizes index first zero = 0
sum_sizes index first (suc count) = sum_sizes index first count + size_at index (first + count)

-- The chunk offset table has an entry for a chunk.
unfoldable pub StartsAt : Option (ℕ → Option ℕ) → ℕ → ℕ → Type 0
StartsAt none chunk start = ⊥
StartsAt (some read) chunk start = read chunk ≡ some start

table_read-Gives :
    (maximum i : ℕ) (read : ℕ → Option ℕ) (message : String)
    → Gives (λ size. read i ≡ some size) (table_read maximum (some read) i message)
unfolding table_read OkAll
table_read-Gives maximum i read message reads = elim (Bool-cases (leb maximum reads)) [
  | inl e ↦ rw e tt
  | inr e ↦ rw e (required-OkAll _ (read i) _ _ (λ size found. found))
]

module _ (index : Mp4SampleTableIndex) (maximum : ℕ) where
  read_entry-Gives :
      (reader : Option (ℕ → Option ℕ)) (i : ℕ) (message : String)
      → Gives (λ size. StartsAt reader i size) (table_read maximum reader i message)
  unfolding StartsAt
  read_entry-Gives none i message = λ reads.
      unfold table_read OkAll in
      elim (Bool-cases (leb maximum reads)) [ inl e ↦ rw e tt | inr e ↦ rw e tt ]
  read_entry-Gives (some read) i message = table_read-Gives maximum i read message

  StartsAt-size_entry :
      (reader : Option (ℕ → Option ℕ)) (i size : ℕ)
      → StartsAt reader i size
      → size ≡ size_entry reader i
  unfolding StartsAt
  StartsAt-size_entry none i size h = absurd h
  StartsAt-size_entry (some read) i size h = sym (ap entry_or_zero h)

  pub read_sample_size-Gives :
      (i : ℕ) → Gives (λ size. size ≡ size_at index i) (read_sample_size index maximum i)
  unfolding read_sample_size size_at OkAll
  read_sample_size-Gives i = elim (Bool-cases (not (index.tables.default_sample_size == 0))) [
    | inl e ↦ rw e (λ reads. refl)
    | inr e ↦ rw e (λ reads.
        map-OkAll _ _
          (table_read maximum index.readers.sample_size i
            "Sample size table could not supply an entry" reads).1
          (λ size found. StartsAt-size_entry index.readers.sample_size i size found)
          (read_entry-Gives index.readers.sample_size i _ reads))
  ]

  pub read_chunk_offset-Gives :
      (chunk : ℕ)
      → Gives (StartsAt index.readers.chunk_offset chunk) (read_chunk_offset index maximum chunk)
  unfolding read_chunk_offset
  read_chunk_offset-Gives chunk =
      refuse_if-Gives _ (leb index.tables.chunk_count chunk) _ _ _
        (λ within. read_entry-Gives index.readers.chunk_offset chunk _)

  sum_sizes-front :
      (first count : ℕ)
      → sum_sizes index first (suc count) ≡ size_at index first + sum_sizes index (first + 1) count
  unfolding sum_sizes
  sum_sizes-front first zero = let same : first + 0 ≡ first = omega arith in rw same (omega arith)
  sum_sizes-front first (suc count) =
      let same : first + suc count ≡ first + 1 + count = omega arith in
      rw same (omega (arith, sum_sizes-front first count))

  pub catch_up-Gives :
      (preceding first offset : ℕ)
      → first + preceding ≤ u64_max
      → offset ≤ u64_max
      → Gives
          (λ total. (total ≡ offset + sum_sizes index first preceding) × (total ≤ u64_max))
          (catch_up index maximum preceding first offset)
  unfolding catch_up OkAll add_would_overflow
  catch_up-Gives zero first offset few small = λ reads. (unfold sum_sizes in omega arith, small)
  catch_up-Gives (suc preceding) first offset few small =
      let next : add64 first 1 ≡ first + 1 = omega arith in
      bind-Gives (λ size. size ≡ size_at index first) _ (read_sample_size index maximum first) _
        (read_sample_size-Gives first)
        (λ size e. refuse_if-Gives _ (add_would_overflow offset size) _ _ _ (λ fits.
          let sum : add64 offset size ≡ offset + size = ground (arith, fits) in
          let front = sum_sizes-front first preceding in
          let total : offset + size + sum_sizes index (first + 1) preceding
              ≡ offset + sum_sizes index first (suc preceding) =
            omega (arith, e, front) in
          rw (next, sum, ← total)
            (catch_up-Gives preceding (first + 1) (offset + size) (omega arith)
              (ground (arith, fits)))))
