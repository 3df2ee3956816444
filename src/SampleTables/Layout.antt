-- ===== src/SampleTables/Layout.antt =====
-- Where the chunks of a track hold its samples, and how the cursor into stsc follows them.
use native.Mathlib.Nat.{div-add-mod, div-lt_iff_lt-mul, mod-lt}
use stream_view.Common.{
  ℕ, ◌+◌, ◌-◌, ◌*◌, ◌/◌, ◌≤◌, ◌<◌, ◌≡◌, ◌⊎◌, refl, sym, ap, ◌∙◌, List, [], ◌∷◌, some, Bool-cases,
  true, false, inl, inr, arith, ltb, add64, sub64, u64_max, IsU64,
}
use stream_view.SampleTables.{Mp4TrackSampleTables, Mp4SampleToChunkRow}
use stream_view.SampleTables.Chunks.{ChunkCursor, locate_run, samples_in_run}
use stream_view.SampleTables.Checked.{Ascending, chunk_samples}

-- The chunk behind a run.
unfoldable pub run_end : ℕ → List Mp4SampleToChunkRow → ℕ
run_end chunk_count [] = chunk_count + 1
run_end chunk_count (entry ∷ rows) = entry.first_chunk

abbrev pub run_samples : ℕ → Mp4SampleToChunkRow → List Mp4SampleToChunkRow → ℕ
run_samples chunk_count entry rows =
    (run_end chunk_count rows - entry.first_chunk) * entry.samples_per_chunk

-- The cursor's chunk and place in it are those of sample `i` of a run: the chunks of the run before
-- its chunk are full.
pub record InRun (chunk_count : ℕ) (entry : Mp4SampleToChunkRow) (rows : List Mp4SampleToChunkRow)
    (i : ℕ) (cursor : ChunkCursor) : Type 0 where
  pub on : cursor.rows ≡ entry ∷ rows
  pub behind : entry.first_chunk ≤ cursor.chunk_index + 1
  pub before : cursor.chunk_index + 1 < run_end chunk_count rows
  pub placed : cursor.ordinal_in_chunk < entry.samples_per_chunk
  pub counted :
      i
      ≡ (cursor.chunk_index + 1 - entry.first_chunk) * entry.samples_per_chunk
        + cursor.ordinal_in_chunk
  pub names : cursor.sample_description_index ≡ entry.sample_description_index

-- The cursor is at sample `i` of the runs.
unfoldable pub Stands : ℕ → List Mp4SampleToChunkRow → ℕ → ChunkCursor → Type 0
Stands chunk_count [] i cursor = ⊥
Stands chunk_count (entry ∷ rows) i cursor =
    InRun chunk_count entry rows i cursor
    ⊎ ((run_samples chunk_count entry rows ≤ i)
        × Stands chunk_count rows (i - run_samples chunk_count entry rows) cursor)

-- In ascending runs, a run has a chunk, and its samples are counted without a wrap-around.
pub ordered_run :
    (tables : Mp4TrackSampleTables) (previous : ℕ) (entry : Mp4SampleToChunkRow)
    (rows : List Mp4SampleToChunkRow)
    → IsU64 tables.chunk_count
    → Ascending tables previous (entry ∷ rows)
    → run_samples tables.chunk_count entry rows ≤ u64_max
    → (0 < entry.first_chunk)
      × (entry.first_chunk < run_end tables.chunk_count rows)
      × (entry.first_chunk ≤ tables.chunk_count)
      × (0 < entry.samples_per_chunk)
      × (samples_in_run tables.chunk_count entry rows ≡ run_samples tables.chunk_count entry rows)
      × (run_end tables.chunk_count rows ≤ tables.chunk_count + 1)
unfolding Ascending run_end samples_in_run
ordered_run tables previous entry [] wide valid small =
    let chunks : sub64 (add64 tables.chunk_count 1) entry.first_chunk
        ≡ tables.chunk_count + 1 - entry.first_chunk =
      omega (arith, wide, valid.0, valid.1) in
    (
      omega (arith, valid.0),
      omega (arith, valid.1),
      valid.1,
      valid.2,
      rw chunks (omega arith),
      omega arith,
    )
ordered_run tables previous entry (next ∷ rows) wide valid small =
    let chunks : sub64 next.first_chunk entry.first_chunk ≡ next.first_chunk - entry.first_chunk =
      omega (arith, wide, valid.5.0, valid.5.1) in
    (
      omega (arith, valid.0),
      valid.5.0,
      valid.1,
      valid.2,
      rw chunks (omega arith),
      omega (arith, valid.5.1),
    )

pub chunk_samples-run :
    (chunk_count : ℕ) (entry : Mp4SampleToChunkRow) (rows : List Mp4SampleToChunkRow)
    → chunk_samples chunk_count (entry ∷ rows)
      ≡ run_samples chunk_count entry rows + chunk_samples chunk_count rows
unfolding chunk_samples run_end
chunk_samples-run chunk_count entry [] = omega arith
chunk_samples-run chunk_count entry (next ∷ rows) = refl

pub Ascending-tail :
    (tables : Mp4TrackSampleTables) (previous : ℕ) (entry : Mp4SampleToChunkRow)
    (rows : List Mp4SampleToChunkRow)
    → Ascending tables previous (entry ∷ rows)
    → Ascending tables entry.first_chunk rows
unfolding Ascending
Ascending-tail tables previous entry rows valid = valid.5

pub locate_run-Stands :
    (tables : Mp4TrackSampleTables) (previous consumed i : ℕ) (rows : List Mp4SampleToChunkRow)
    → IsU64 tables.chunk_count
    → Ascending tables previous rows
    → consumed + chunk_samples tables.chunk_count rows ≤ u64_max
    → i < chunk_samples tables.chunk_count rows
    → (cursor : ChunkCursor) × (locate_run tables.chunk_count consumed rows (consumed + i)
        ≡ some cursor)
      × Stands tables.chunk_count rows i cursor
unfolding locate_run Stands chunk_samples
locate_run-Stands tables previous consumed i [] wide valid fits inside = absurd (omega arith)
locate_run-Stands tables previous consumed i (entry ∷ rows) wide valid fits inside =
    let all_chunks = tables.chunk_count in
    let run = run_samples all_chunks entry rows in
    let total = chunk_samples-run all_chunks entry rows in
    let facts = ordered_run tables previous entry rows wide valid (omega arith) in
    let behind : add64 consumed (samples_in_run all_chunks entry rows) ≡ consumed + run =
      omega (arith, facts.4, total) in
    let ordinal : sub64 (consumed + i) consumed ≡ i = omega (arith, total) in
    elim (Bool-cases (ltb i run)) [
      | inl e ↦
          let here : ltb (consumed + i) (consumed + run) ≡ true = ground (arith, e) in
          let split = div-add-mod i entry.samples_per_chunk in
          let part = mod-lt i {m = entry.samples_per_chunk} facts.3 in
          let chunk = i / entry.samples_per_chunk in
          let few : chunk < run_end all_chunks rows - entry.first_chunk =
            (div-lt_iff_lt-mul {k = entry.samples_per_chunk} facts.3).1 (ground (arith, e)) in
          let exact : add64 (sub64 entry.first_chunk 1) chunk ≡ entry.first_chunk - 1 + chunk =
            omega (arith, facts, few, wide) in
          let chunks : entry.first_chunk - 1 + chunk + 1 - entry.first_chunk ≡ chunk =
            omega (arith, facts.0) in
          rw (behind, ordinal, here, exact)
            (
              _,
              refl,
              inl (record {
                on = refl;
                behind = omega (arith, facts.0);
                before = omega (arith, facts.0, few);
                placed = part;
                counted = rw chunks (omega (arith, split));
                names = refl;
              }),
            )
      | inr e ↦
          let there : ltb (consumed + i) (consumed + run) ≡ false = ground (arith, e) in
          let at : consumed + run + (i - run) ≡ consumed + i = ground (arith, e) in
          let rest =
            locate_run-Stands tables entry.first_chunk (consumed + run) (i - run) rows wide
              (Ascending-tail tables previous entry rows valid) (omega (arith, total))
              (ground (arith, e, total, inside)) in
          rw (behind, there)
            (
              rest.0,
              ap (locate_run all_chunks (consumed + run) rows) (sym at) ∙ rest.1,
              inr (ground (arith, e), rest.2),
            )
    ]
