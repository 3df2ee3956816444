-- ===== src/Tests/Units.antt =====
-- Tests of the EBSP mapper, and its theorems at a concrete NAL unit.
use stream_view.Common.{
  ℕ, ◌+◌, ◌*◌, ◌-◌, ◌<◌, ◌≡◌, refl, [], ◌∷◌, none, some, ◌==◌, if◌then◌else◌, arith,
}
use stream_view.EbspRbsp.{Mapper, H264EbspRbspMapLimits, cancelled, make_mapper}
use stream_view.EbspRbsp.Bytes.{map_byte}
use stream_view.EbspRbsp.Batches.{map_batch}
use stream_view.EbspRbsp.Rbsp.{rbsp, escapes}
use stream_view.EbspRbsp.Steps.{Stepped, OkAll, map_byte-Stepped}
use stream_view.EbspRbsp.Starts.{make_mapper-Ready}
use stream_view.EbspRbsp.Totals.{Ready, Goes, map_batch-Goes}
use stream_view.Source.{RandomAccessSource, Holds, read_result, complete}
use stream_view.Source.Bytes.{slice}

-- A NAL unit of seven bytes with an emulation prevention byte.
abbrev nal_byte : ℕ → ℕ
nal_byte o = if o == 0 then 103 else if o == 3 then 3 else if o == 4 then 1 else 0

abbrev nal : RandomAccessSource
nal = record {
  size_bytes = 7;
  read_at = λ offset count. read_result complete count "" (slice nal_byte offset count);
}

nal-Holds : Holds nal nal_byte
nal-Holds = record {
  reads = λ offset count a b. refl;
  sized = omega arith;
  bytes = λ offset. ground arith;
}

abbrev nal_limits : H264EbspRbspMapLimits
nal_limits = record { maximum_mapping_segments = 4; maximum_excluded_spans = 4; maximum_issues = 4 }

abbrev nal_mapper : Mapper
nal_mapper = make_mapper nal 9 (record { start = 0; bit_length = 56 }) nal_limits

nal_mapper-Ready :
    Ready nal nal_byte nal-Holds 0 nal_mapper
    × (nal_mapper.terminal ≡ none)
    × (nal_mapper.input_end_byte * 8 ≡ 0 + 56)
nal_mapper-Ready =
    make_mapper-Ready nal nal_byte nal-Holds 9 (record { start = 0; bit_length = 56 }) nal_limits
      (omega arith) (omega arith) (omega arith) (omega arith, omega arith) (omega arith)
      (omega arith)

-- The RBSP of the unit.
nal_rbsp : rbsp nal_byte 0 7 ≡ 103 ∷ 0 ∷ 0 ∷ 1 ∷ 0 ∷ 0 ∷ []
unfolding rbsp escapes
nal_rbsp = refl

make_mapper-Ready_example :
    Ready nal nal_byte nal-Holds 0 nal_mapper
    × (nal_mapper.terminal ≡ none)
    × (nal_mapper.input_end_byte * 8 ≡ 0 + 56)
make_mapper-Ready_example =
    make_mapper-Ready nal nal_byte nal-Holds 9 (record { start = 0; bit_length = 56 }) nal_limits
      (omega arith) (omega arith) (omega arith) (omega arith, omega arith) (omega arith)
      (omega arith)

map_batch-Goes_example :
    Goes nal nal_byte nal-Holds 0 none nal_mapper.source_cursor nal_mapper.input_end_byte
      (map_batch nal none nal_mapper 5)
map_batch-Goes_example =
    map_batch-Goes nal nal_byte nal-Holds 0 none nal_mapper 5 (omega arith) nal_mapper-Ready.0
      nal_mapper-Ready.1

nal_mapper-inside : nal_mapper.source_cursor < nal_mapper.input_end_byte
unfolding make_mapper
nal_mapper-inside = omega arith

map_byte-Stepped_example :
    OkAll
      (Stepped nal_byte 0 nal_mapper nal_mapper-Ready.0.mapped nal_mapper-inside)
      (map_byte nal_mapper (nal_byte (0 + (nal_mapper.source_cursor - 0))))
map_byte-Stepped_example =
    map_byte-Stepped nal_byte 0 nal_mapper nal_mapper-Ready.0.mapped nal_mapper-inside

abbrev ended_mapper : Mapper
ended_mapper = record nal_mapper { terminal = some (cancelled, "") }
