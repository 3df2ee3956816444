-- ===== src/SampleTables.antt =====
-- src/rules/mp4_sample_table_index.cpp and its header: the samples of an MP4 track, from the tables
-- that describe them in runs.
pub mod Build
pub mod Chunks
pub mod Timing
pub mod Overflow
pub mod Timelines
pub mod TimelineSteps
pub mod TimelineBounds
pub mod Compositions
pub mod Checked
pub mod Built
pub mod Gives
pub mod Layout
pub mod LayoutSteps
pub mod Offsets
pub mod Located
pub mod LocatedSteps
pub mod Budget
pub mod Paged
pub mod PageLoop
pub mod WholePage
pub mod Pages
pub mod DescriptorPage
use stream_view.Common.{
  ℕ, ◌+◌, ◌-◌, ◌*◌, ◌/◌, ◌%◌, ◌^◌, List, [], ◌∷◌, Option, none, some, Bool, true, false, String,
  ltb, leb, ◌==◌, ◌&&◌, not, if◌then◌else◌, u64_max, u64_mod,
}
use stream_view.Common.Int.{ℤ, pos, negsuc, ◌-ℤ◌, ltb_ℤ, i64_max, i64_min}

-- `Built` is the answer `ok`.
pub data Mp4SampleTableIndexStatus : Type 0 where
  built inconsistent_tables unsupported_tables arithmetic_overflow out_of_source_range
        invalid_request resource_limit source_error cancelled :
      Mp4SampleTableIndexStatus

pub record Mp4TimeToSampleRow : Type 0 where
  pub sample_count : ℕ
  pub sample_delta : ℕ

pub record Mp4SampleToChunkRow : Type 0 where
  pub first_chunk : ℕ
  pub samples_per_chunk : ℕ
  pub sample_description_index : ℕ

pub record Mp4CompositionOffsetRow : Type 0 where
  pub sample_count : ℕ
  pub raw_sample_offset : ℕ

pub record Mp4SampleDescriptionBinding : Type 0 where
  pub sample_description_index : ℕ
  pub entry_node : ℕ
  pub target_format : String
  pub configuration_node : Option ℕ
  pub prefix_length_bytes : Option ℕ
  pub configuration_nodes : List ℕ

-- The readers of the tables that are not held in memory; `none` is an empty `std::function`.
pub record Mp4SampleTableReaders : Type 0 where
  pub sample_size : Option (ℕ → Option ℕ)
  pub chunk_offset : Option (ℕ → Option ℕ)
  pub is_sync_sample : Option (ℕ → Option Bool)

pub record Mp4TrackSampleTables : Type 0 where
  pub track_id : ℕ
  pub timescale : ℕ
  pub source_size_bytes : ℕ
  pub time_to_sample : List Mp4TimeToSampleRow
  pub sample_to_chunk : List Mp4SampleToChunkRow
  pub chunk_count : ℕ
  pub default_sample_size : ℕ
  pub declared_sample_count : ℕ
  pub has_sync_sample_table : Bool
  pub composition_offsets : List Mp4CompositionOffsetRow
  pub composition_offset_version : ℕ
  pub sample_descriptions : List Mp4SampleDescriptionBinding

pub record Mp4SampleTableIndex : Type 0 where
  pub tables : Mp4TrackSampleTables
  pub readers : Mp4SampleTableReaders
  pub sample_count : ℕ

-- A value, or the status and the message of a return without one.
pub data Answer {ℓ} (A : Type ℓ) : Type ℓ where
  ok : A → Answer A
  refused : Mp4SampleTableIndexStatus → String → Answer A

abbrev pub refuse_if : Bool → Mp4SampleTableIndexStatus → String → Answer (Unit {0})
refuse_if true status message = refused status message
refuse_if false status message = ok tt

abbrev pub required {ℓ} : {A : Type ℓ} → Option A → Mp4SampleTableIndexStatus → String → Answer A
required none status message = refused status message
required (some a) status message = ok a

unfoldable pub add_would_overflow : ℕ → ℕ → Bool
add_would_overflow left right = ltb (u64_max - left) right

unfoldable pub multiply_would_overflow : ℕ → ℕ → Bool
multiply_would_overflow left right = not (left == 0) && ltb (u64_max / left) right

unfoldable pub signed_add_would_overflow : ℤ → ℤ → Bool
signed_add_would_overflow left right =
    if ltb_ℤ (pos 0) right
    then ltb_ℤ (pos i64_max -ℤ right) left
    else if ltb_ℤ right (pos 0)
    then ltb_ℤ left (i64_min -ℤ right)
    else false

abbrev pub unsigned_fits_signed : ℕ → Bool
unsigned_fits_signed value = leb value i64_max

unfoldable pub reinterpret_composition_offset : ℕ → ℕ → ℤ
reinterpret_composition_offset raw_offset version =
    let truncated = raw_offset % 2 ^ 32 in
    if version == 0
    then pos truncated
    else if leb 0x80000000 truncated
    then pos truncated -ℤ pos 0x100000000
    else pos truncated

unfoldable pub ranges_intersect : ℕ → ℕ → ℕ → ℕ → Bool
ranges_intersect first_start first_size second_start second_size =
    if first_size == 0
    then false
    else if second_size == 0
    then false
    else ltb first_start ((second_start + second_size) % u64_mod)
      && ltb second_start ((first_start + first_size) % u64_mod)
