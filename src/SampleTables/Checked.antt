-- ===== src/SampleTables/Checked.antt =====
-- What the checks of `Mp4SampleTableIndex::build` establish.
use stream_view.Common.{
  ℕ, ◌+◌, ◌-◌, ◌*◌, ◌≤◌, ◌<◌, ◌≡◌, ◌⊎◌, inl, inr, refl, List, [], ◌∷◌, false, ltb, leb, ◌==◌, ◌&&◌,
  ◌||◌, not, arith, add64, sub64, mul64, u64_max, IsU64, length,
}
use stream_view.Coordinates.{is_nil}
use stream_view.SampleTables.{
  Mp4TrackSampleTables, Mp4SampleToChunkRow, Mp4TimeToSampleRow, Mp4CompositionOffsetRow, Answer,
  ok, refuse_if, arithmetic_overflow, add_would_overflow, multiply_would_overflow,
}
use stream_view.SampleTables.Build.{
  ◌>>◌, check_chunk_rows, cover_chunks, cover_times, cover_compositions, check_compositions,
  check_first_row, check_tables,
}
use stream_view.SampleTables.Overflow.{
  OkAll, refuse_if-OkAll, refusal-OkAll, bind-OkAll, OkAll-elim, map-OkAll,
  multiply_would_overflow-bound,
}
use stream_view.SampleTables.Timelines.{described}
use stream_view.SampleTables.Compositions.{offsets_described}

-- The runs of stsc behind a chunk: every one begins behind the run before, within the chunks, and
-- names a description that is there.
unfoldable pub Ascending : Mp4TrackSampleTables → ℕ → List Mp4SampleToChunkRow → Type 0
Ascending tables previous [] = Unit {0}
Ascending tables previous (entry ∷ rows) =
    (previous < entry.first_chunk)
    × (entry.first_chunk ≤ tables.chunk_count)
    × (0 < entry.samples_per_chunk)
    × (0 < entry.sample_description_index)
    × ((length tables.sample_descriptions ≡ 0)
        ⊎ (entry.sample_description_index ≤ length tables.sample_descriptions))
    × Ascending tables entry.first_chunk rows

-- The samples in the chunks of the runs.
unfoldable pub chunk_samples : ℕ → List Mp4SampleToChunkRow → ℕ
chunk_samples chunk_count [] = 0
chunk_samples chunk_count (entry ∷ []) =
    (chunk_count + 1 - entry.first_chunk) * entry.samples_per_chunk
chunk_samples chunk_count (entry ∷ next ∷ rows) =
    (next.first_chunk - entry.first_chunk) * entry.samples_per_chunk
    + chunk_samples chunk_count (next ∷ rows)

-- The first run begins at chunk 1.
abbrev pub first_chunk_of : List Mp4SampleToChunkRow → ℕ
first_chunk_of [] = 0
first_chunk_of (entry ∷ rows) = entry.first_chunk

-- The tables of a track agree on how many samples there are.
pub record Agree (tables : Mp4TrackSampleTables) : Type 0 where
  pub ascending : Ascending tables 0 tables.sample_to_chunk
  pub from_first : first_chunk_of tables.sample_to_chunk ≡ 1
  pub chunked :
      chunk_samples tables.chunk_count tables.sample_to_chunk ≡ tables.declared_sample_count
  pub timed : described tables.time_to_sample ≡ tables.declared_sample_count
  pub composed :
      (tables.composition_offsets ≡ [])
      ⊎ (offsets_described tables.composition_offsets ≡ tables.declared_sample_count)

cover_times-OkAll :
    (covered : ℕ) (rows : List Mp4TimeToSampleRow)
    → covered ≤ u64_max
    → OkAll (λ total. total ≡ covered + described rows) (cover_times covered rows)
unfolding cover_times described add_would_overflow OkAll
cover_times-OkAll covered [] h = omega arith
cover_times-OkAll covered (entry ∷ rows) h =
    refuse_if-OkAll _ (add_would_overflow covered entry.sample_count) _ _ _ (λ fits.
      let sum : add64 covered entry.sample_count ≡ covered + entry.sample_count =
        ground (arith, fits) in
      let assoc : covered + entry.sample_count + described rows
          ≡ covered + (entry.sample_count + described rows) =
        omega arith in
      rw (sum, ← assoc)
        (cover_times-OkAll (covered + entry.sample_count) rows (ground (arith, fits))))

cover_compositions-OkAll :
    (covered : ℕ) (rows : List Mp4CompositionOffsetRow)
    → covered ≤ u64_max
    → OkAll (λ total. total ≡ covered + offsets_described rows) (cover_compositions covered rows)
unfolding cover_compositions offsets_described add_would_overflow OkAll
cover_compositions-OkAll covered [] h = omega arith
cover_compositions-OkAll covered (entry ∷ rows) h =
    refuse_if-OkAll _ (add_would_overflow covered entry.sample_count) _ _ _ (λ fits.
      let sum : add64 covered entry.sample_count ≡ covered + entry.sample_count =
        ground (arith, fits) in
      let assoc : covered + entry.sample_count + offsets_described rows
          ≡ covered + (entry.sample_count + offsets_described rows) =
        omega arith in
      rw (sum, ← assoc)
        (cover_compositions-OkAll (covered + entry.sample_count) rows (ground (arith, fits))))

matching_description {ℓ} :
    {A : Type ℓ} (descriptions : List A) (i : ℕ)
    → (not (is_nil descriptions) && ltb (length descriptions) i) ≡ false
    → (length descriptions ≡ 0) ⊎ (i ≤ length descriptions)
matching_description [] i h = inl refl
matching_description (a ∷ descriptions) i h = inr (ground (arith, h))

check_chunk_rows-OkAll :
    (tables : Mp4TrackSampleTables) (previous : ℕ) (rows : List Mp4SampleToChunkRow)
    → OkAll (λ _. Ascending tables previous rows) (check_chunk_rows tables previous rows)
unfolding check_chunk_rows Ascending OkAll
check_chunk_rows-OkAll tables previous [] = tt
check_chunk_rows-OkAll tables previous (entry ∷ rows) =
    refuse_if-OkAll _ (entry.first_chunk == 0 || leb entry.first_chunk previous) _ _ _ (λ rising.
      refuse_if-OkAll _ (entry.samples_per_chunk == 0) _ _ _ (λ filled.
        refuse_if-OkAll _ (entry.sample_description_index == 0) _ _ _ (λ based.
          refuse_if-OkAll _
            (not (is_nil tables.sample_descriptions)
              && ltb (length tables.sample_descriptions) entry.sample_description_index)
            _ _ _
            (λ matched.
              refuse_if-OkAll _ (ltb tables.chunk_count entry.first_chunk) _ _ _ (λ within.
                map-OkAll _ _ (check_chunk_rows tables entry.first_chunk rows)
                  (λ _ rest. (
                    ground (arith, rising),
                    ground (arith, within),
                    ground (arith, filled),
                    ground (arith, based),
                    matching_description tables.sample_descriptions entry.sample_description_index
                        matched,
                    rest,
                  ))
                  (check_chunk_rows-OkAll tables entry.first_chunk rows))))))

-- One run of `cover_chunks`.
cover_run-OkAll {ℓ} :
    (P : ℕ → Type ℓ) (covered chunks per_chunk : ℕ) (k : ℕ → Answer ℕ)
    → covered ≤ u64_max
    → (covered + chunks * per_chunk ≤ u64_max → OkAll P (k (covered + chunks * per_chunk)))
    → OkAll P (
        refuse_if
          (multiply_would_overflow chunks per_chunk)
          arithmetic_overflow
          "stsc run sample count overflows"
        >> (refuse_if
              (add_would_overflow covered (mul64 chunks per_chunk))
              arithmetic_overflow
              "stsc total sample count overflows"
            >> k (add64 covered (mul64 chunks per_chunk))))
unfolding add_would_overflow
cover_run-OkAll P covered chunks per_chunk k room h =
    refuse_if-OkAll _ (multiply_would_overflow chunks per_chunk) _ _ _ (λ e.
      refuse_if-OkAll _ (ltb (u64_max - covered) (mul64 chunks per_chunk)) _ _
        (k (add64 covered (mul64 chunks per_chunk)))
        (λ fits.
          let small = multiply_would_overflow-bound chunks per_chunk e in
          let product : mul64 chunks per_chunk ≡ chunks * per_chunk = omega arith in
          let sum : add64 covered (mul64 chunks per_chunk) ≡ covered + chunks * per_chunk =
            ground (arith, fits) in
          rw sum (h (ground (arith, fits)))))

cover_chunks-OkAll :
    (tables : Mp4TrackSampleTables) (previous covered : ℕ) (rows : List Mp4SampleToChunkRow)
    → IsU64 tables.chunk_count
    → covered ≤ u64_max
    → Ascending tables previous rows
    → OkAll
        (λ total. total ≡ covered + chunk_samples tables.chunk_count rows)
        (cover_chunks tables.chunk_count covered rows)
unfolding cover_chunks chunk_samples Ascending OkAll
cover_chunks-OkAll tables previous covered [] wide h valid = omega arith
cover_chunks-OkAll tables previous covered (entry ∷ []) wide h valid =
    let chunks : sub64 (add64 tables.chunk_count 1) entry.first_chunk
        ≡ tables.chunk_count + 1 - entry.first_chunk =
      omega (arith, wide, valid.0, valid.1) in
    rw chunks (
      cover_run-OkAll _ covered (tables.chunk_count + 1 - entry.first_chunk) entry.samples_per_chunk
        (λ covered. cover_chunks tables.chunk_count covered []) h (λ fits. refl))
cover_chunks-OkAll tables previous covered (entry ∷ next ∷ rows) wide h valid =
    let chunks : sub64 next.first_chunk entry.first_chunk ≡ next.first_chunk - entry.first_chunk =
      omega (arith, wide, valid.5.0, valid.5.1) in
    let samples = (next.first_chunk - entry.first_chunk) * entry.samples_per_chunk in
    let assoc : covered + samples + chunk_samples tables.chunk_count (next ∷ rows)
        ≡ covered + (samples + chunk_samples tables.chunk_count (next ∷ rows)) =
      omega arith in
    rw (chunks, ← assoc)
      (cover_run-OkAll _ covered (next.first_chunk - entry.first_chunk) entry.samples_per_chunk
        (λ covered. cover_chunks tables.chunk_count covered (next ∷ rows)) h
        (λ fits.
          cover_chunks-OkAll tables entry.first_chunk (covered + samples) (next ∷ rows) wide fits
            valid.5))

check_compositions-OkAll :
    (sample_count : ℕ) (rows : List Mp4CompositionOffsetRow)
    → OkAll
        (λ _. (rows ≡ []) ⊎ (offsets_described rows ≡ sample_count))
        (check_compositions sample_count rows)
unfolding check_compositions OkAll
check_compositions-OkAll sample_count [] = inl refl
check_compositions-OkAll sample_count (entry ∷ rows) =
    bind-OkAll _ (cover_compositions 0 (entry ∷ rows)) _ (λ covered e.
      let total =
        OkAll-elim _ (cover_compositions 0 (entry ∷ rows)) covered e
          (cover_compositions-OkAll 0 (entry ∷ rows) (omega arith)) in
      refusal-OkAll _ (not (covered == sample_count)) _ _
        (λ exact. inr (ground (arith, exact, total))))

check_first_row-OkAll :
    (rows : List Mp4SampleToChunkRow)
    → is_nil rows ≡ false
    → OkAll (λ _. first_chunk_of rows ≡ 1) (check_first_row rows)
unfolding check_first_row
check_first_row-OkAll [] h = absurd (cc)
check_first_row-OkAll (entry ∷ rows) h =
    refusal-OkAll _ (not (entry.first_chunk == 1)) _ _ (λ first. ground (arith, first))

agreed :
    (tables : Mp4TrackSampleTables)
    → IsU64 tables.chunk_count
    → is_nil tables.sample_to_chunk ≡ false
    → check_chunk_rows tables 0 tables.sample_to_chunk ≡ ok tt
    → check_first_row tables.sample_to_chunk ≡ ok tt
    → (covered : ℕ) → cover_chunks tables.chunk_count 0 tables.sample_to_chunk ≡ ok covered
    → covered ≡ tables.declared_sample_count
    → (timed : ℕ) → cover_times 0 tables.time_to_sample ≡ ok timed
    → timed ≡ tables.declared_sample_count
    → (tables.composition_offsets ≡ [])
      ⊎ (offsets_described tables.composition_offsets ≡ tables.declared_sample_count)
    → Agree tables
agreed tables wide some_runs rows_e first_e covered covered_e exact timed timed_e on_time composed =
    let runs = tables.sample_to_chunk in
    let valid =
      OkAll-elim _ (check_chunk_rows tables 0 runs) tt rows_e
        (check_chunk_rows-OkAll tables 0 runs) in
    let first =
      OkAll-elim _ (check_first_row runs) tt first_e (check_first_row-OkAll runs some_runs) in
    let total =
      OkAll-elim _ (cover_chunks tables.chunk_count 0 runs) covered covered_e
        (cover_chunks-OkAll tables 0 0 runs wide (omega arith) valid) in
    let times =
      OkAll-elim _ (cover_times 0 tables.time_to_sample) timed timed_e
        (cover_times-OkAll 0 tables.time_to_sample (omega arith)) in
    record {
      ascending = valid;
      from_first = first;
      chunked = omega (arith, total, exact);
      timed = omega (arith, times, on_time);
      composed = composed;
    }

pub check_tables-OkAll :
    (tables : Mp4TrackSampleTables)
    → IsU64 tables.chunk_count
    → OkAll (λ _. Agree tables) (check_tables tables)
unfolding check_tables
check_tables-OkAll tables wide =
    let runs = tables.sample_to_chunk in
    let declared = tables.declared_sample_count in
    refuse_if-OkAll _ (is_nil runs) _ _ _ (λ some_runs.
      refuse_if-OkAll _ (tables.chunk_count == 0) _ _ _ (λ some_chunks.
        bind-OkAll _ (check_chunk_rows tables 0 runs) _ (λ _ rows_e.
          bind-OkAll _ (check_first_row runs) _ (λ _ first_e.
            bind-OkAll _ (cover_chunks tables.chunk_count 0 runs) _ (λ covered covered_e.
              refuse_if-OkAll _ (not (covered == declared)) _ _ _ (λ chunks_exact.
                bind-OkAll _ (cover_times 0 tables.time_to_sample) _ (λ timed timed_e.
                  refuse_if-OkAll _ (not (timed == declared)) _ _ _ (λ times_exact.
                    map-OkAll _ _ (check_compositions declared tables.composition_offsets)
                      (λ _ composed.
                        agreed tables wide some_runs rows_e first_e covered covered_e
                          (ground (arith, chunks_exact)) timed timed_e (ground (arith, times_exact))
                          composed)
                      (check_compositions-OkAll declared tables.composition_offsets)))))))))
