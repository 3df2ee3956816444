-- ===== src/SampleTables/Built.antt =====
-- The index that `Mp4SampleTableIndex::build` makes.
use stream_view.Common.{
  ◌≤◌, ◌<◌, ◌≡◌, ◌⊎◌, inl, inr, refl, Bool-cases, true, false, ltb, ◌==◌, ◌&&◌, ◌||◌, not, arith,
  IsU64, length, has_value,
}
use stream_view.SampleTables.{Mp4SampleTableIndex, Mp4SampleTableReaders, Mp4TrackSampleTables, ok}
use stream_view.SampleTables.Build.{made_index, check_tables, build, maximum_run_rows}
use stream_view.SampleTables.Overflow.{OkAll, refuse_if-OkAll, bind-OkAll, OkAll-elim}
use stream_view.SampleTables.Checked.{Agree, check_tables-OkAll}

-- An index that `build` makes.
pub record IsIndex (index : Mp4SampleTableIndex) : Type 0 where
  pub timescale : 0 < index.tables.timescale
  pub version : index.tables.composition_offset_version ≤ 1
  pub counted : index.sample_count ≡ index.tables.declared_sample_count
  pub agree : (index.sample_count ≡ 0) ⊎ Agree index.tables
  pub reads_offsets : has_value index.readers.chunk_offset ≡ true
  pub reads_sizes :
      (0 < index.tables.default_sample_size) ⊎ (has_value index.readers.sample_size ≡ true)
  pub reads_syncs :
      (index.tables.has_sync_sample_table ≡ false) ⊎ (has_value index.readers.is_sync_sample ≡ true)

made_index-IsIndex :
    (tables : Mp4TrackSampleTables) (readers : Mp4SampleTableReaders)
    → (tables.timescale == 0) ≡ false
    → ltb 1 tables.composition_offset_version ≡ false
    → not (has_value readers.chunk_offset) ≡ false
    → (tables.default_sample_size == 0 && not (has_value readers.sample_size)) ≡ false
    → (tables.has_sync_sample_table && not (has_value readers.is_sync_sample)) ≡ false
    → (tables.declared_sample_count ≡ 0) ⊎ Agree tables
    → IsIndex (made_index tables readers)
made_index-IsIndex tables readers scaled version offsets sizes syncs agree = record {
  timescale = ground (arith, scaled);
  version = ground (arith, version);
  counted = refl;
  agree = agree;
  reads_offsets = ground (arith, offsets);
  reads_sizes = ground (arith, sizes);
  reads_syncs = ground (arith, syncs);
}

build-OkAll :
    (tables : Mp4TrackSampleTables) (readers : Mp4SampleTableReaders)
    → IsU64 tables.chunk_count
    → OkAll (λ index. IsIndex index × (index ≡ made_index tables readers)) (build tables readers)
unfolding build OkAll
build-OkAll tables readers wide = refuse_if-OkAll _ (tables.timescale == 0) _ _ _ (λ scaled.
    refuse_if-OkAll _ (ltb 1 tables.composition_offset_version) _ _ _ (λ version.
      refuse_if-OkAll _
        (ltb maximum_run_rows (length tables.time_to_sample)
          || ltb maximum_run_rows (length tables.sample_to_chunk)
          || ltb maximum_run_rows (length tables.composition_offsets))
        _ _ _
        (λ few. refuse_if-OkAll _ (not (has_value readers.chunk_offset)) _ _ _ (λ offsets.
          refuse_if-OkAll _ (tables.default_sample_size == 0 && not (has_value readers.sample_size))
            _ _ _
            (λ sizes.
              refuse_if-OkAll _
                (tables.has_sync_sample_table && not (has_value readers.is_sync_sample)) _ _ _
                (λ syncs. elim (Bool-cases (tables.declared_sample_count == 0)) [
                  | inl none_declared ↦ rw none_declared (
                    made_index-IsIndex tables readers scaled version offsets sizes syncs
                        (inl (ground (arith, none_declared))),
                    refl,
                  )
                  | inr some_declared ↦ rw some_declared (
                      bind-OkAll _ (check_tables tables) (λ _. ok (made_index tables readers))
                        (λ _ e. (
                          made_index-IsIndex tables readers scaled version offsets sizes syncs (
                              inr (
                                OkAll-elim _ (check_tables tables) tt e
                                  (check_tables-OkAll tables wide))),
                          refl,
                        )))
                ]))))))

-- An index that `build` makes holds the tables and readers that it was given. If it has a sample,
-- its tables pass every check: the runs of stsc begin at chunk 1, ascend within the chunks and name
-- descriptions that are there, and stsc, stts and a ctts that is there each describe exactly the
-- declared samples. With samples or without, the readers that the pages need are there.
pub build-IsIndex :
    (tables : Mp4TrackSampleTables) (readers : Mp4SampleTableReaders) (index : Mp4SampleTableIndex)
    → IsU64 tables.chunk_count
    → build tables readers ≡ ok index
    → IsIndex index × (index ≡ made_index tables readers)
build-IsIndex tables readers index wide e =
    OkAll-elim _ (build tables readers) index e (build-OkAll tables readers wide)
