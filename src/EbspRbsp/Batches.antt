-- ===== src/EbspRbsp/Batches.antt =====
-- `mapBatch`.
use stream_view.Common.{
  ℕ, zero, suc, ◌+◌, ◌-◌, ◌%◌, Option, none, some, Bool, true, false, String, min, ltb, leb, ◌==◌,
  ◌||◌, ◌&&◌, not, if◌then◌else◌, get_or, is_empty,
}
use stream_view.Buffered.{Buffer, ReadByte, chunk_size}
use stream_view.Coordinates.{SourceMapping, make_mapping}
use stream_view.EbspRbsp.{
  Mapper, H264EbspRbspMapStatus, in_progress, complete, cancelled, source_error, invalid_batch_size,
  resource_limit, forwarded_spans,
}
use stream_view.EbspRbsp.Bytes.{Planned, ok, limit, map_byte}
use stream_view.Source.{RandomAccessSource, SourceReadResult, SourceReadStatus, is_complete}

pub record H264EbspRbspMapBatch : Type 0 where
  pub status : H264EbspRbspMapStatus
  pub error_message : String

abbrev pub batch : H264EbspRbspMapStatus → String → H264EbspRbspMapBatch
batch status message = record { status = status; error_message = message }

-- A mapper with the mapping that could be made of the forwarded spans, and terminal if so asked.
unfoldable pub finish_with :
    Mapper
    → H264EbspRbspMapStatus
    → String
    → Bool
    → Option SourceMapping
    → Mapper × H264EbspRbspMapBatch
finish_with mapper status message terminal none = (
  record mapper {
    terminal = some (resource_limit, "Unable to represent the H.264 RBSP source mapping");
  },
  batch resource_limit "Unable to represent the H.264 RBSP source mapping",
)
finish_with mapper status message terminal (some mapping) = (
  record mapper {
    mapping = mapping;
    terminal = if terminal then some (status, message) else mapper.terminal;
  },
  batch status message,
)

unfoldable pub finish :
    Mapper → H264EbspRbspMapStatus → String → Bool → Mapper × H264EbspRbspMapBatch
finish mapper status message terminal =
    finish_with mapper status message terminal
      (make_mapping mapper.rbsp_view_id (forwarded_spans mapper))

abbrev pub read_message : SourceReadResult → String
read_message result = elim (result.status) [
  | SourceReadStatus.complete ↦ "Source reported an incomplete successful read"
  | SourceReadStatus.end_of_source ↦
      if not (is_empty result.error_message)
      then result.error_message
      else "Source ended before the validated H.264 EBSP span"
  | SourceReadStatus.error ↦
      if not (is_empty result.error_message)
      then result.error_message
      else "Unable to read source while mapping H.264 EBSP"
]

-- The `readByte` of the batch, at the cursor.
unfoldable pub read_input : RandomAccessSource → Mapper → Buffer × ReadByte
read_input source mapper =
    let cursor = mapper.source_cursor in
    let requested = min chunk_size (mapper.input_end_byte - cursor) in
    let result = source.read_at cursor requested in
    if not (ltb cursor mapper.buffer.start || leb mapper.buffer.end cursor)
    then (
      mapper.buffer,
      ReadByte.available (get_or mapper.buffer.bytes (cursor - mapper.buffer.start) 0),
    )
    else if not (is_complete result) || not (result.bytes_read == requested)
    then (
      record mapper.buffer { bytes = result.written; start = cursor },
      ReadByte.error (read_message result),
    )
    else (
      record { bytes = result.written; start = cursor; end = cursor + requested },
      ReadByte.available (get_or result.written 0 0),
    )

abbrev pub Cancellation : Type 0
Cancellation = Option (ℕ → Bool)

abbrev pub asks : Cancellation → ℕ → Bool
asks none inspected = false
asks (some asked) inspected = asked inspected

-- The batch goes on with a mapper, or ends with one.
pub data Round : Type 0 where
  next : Mapper → Round
  stop : Mapper × H264EbspRbspMapBatch → Round

unfoldable pub after_byte : Cancellation → Mapper → Planned Mapper → Round
after_byte cancellation mapper (limit message) = stop (finish mapper resource_limit message true)
after_byte cancellation mapper (ok mapped) =
    if mapped.inspected_bytes % 1024 == 0 && asks cancellation mapped.inspected_bytes
    then stop (finish mapped cancelled "" true)
    else next mapped

unfoldable pub after_read : Cancellation → Mapper → Buffer × ReadByte → Round
after_read cancellation mapper (buffer, ReadByte.available value) =
    after_byte cancellation (record mapper { buffer = buffer })
      (map_byte (record mapper { buffer = buffer }) value)
after_read cancellation mapper (buffer, ReadByte.end) =
    stop (finish (record mapper { buffer = buffer }) source_error "" true)
after_read cancellation mapper (buffer, ReadByte.error message) =
    stop (finish (record mapper { buffer = buffer }) source_error message true)

abbrev pub end_batch : Mapper → Mapper × H264EbspRbspMapBatch
end_batch mapper =
    if leb mapper.input_end_byte mapper.source_cursor
    then finish mapper complete "" true
    else finish mapper in_progress "" false

-- The loop, with the bytes that it may still inspect.
unfoldable pub map_loop :
    RandomAccessSource → Cancellation → ℕ → Mapper → Mapper × H264EbspRbspMapBatch
map_loop source cancellation zero mapper = end_batch mapper
map_loop source cancellation (suc left) mapper =
    if leb mapper.input_end_byte mapper.source_cursor
    then end_batch mapper
    else elim (after_read cancellation mapper (read_input source mapper)) [
      | next mapper' ↦ map_loop source cancellation left mapper'
      | stop result ↦ result
    ]

-- The batch of a mapper that has been left in this terminal state, or in none.
unfoldable pub map_from :
    RandomAccessSource
    → Cancellation
    → Mapper
    → ℕ
    → Option (H264EbspRbspMapStatus × String)
    → Mapper × H264EbspRbspMapBatch
map_from source cancellation mapper maximum_inspected_bytes (some (status, message)) =
    (mapper, batch status message)
map_from source cancellation mapper maximum_inspected_bytes none =
    if maximum_inspected_bytes == 0
    then (
      mapper,
      batch invalid_batch_size "Maximum inspected H.264 EBSP bytes must be greater than zero",
    )
    else if asks cancellation mapper.inspected_bytes
    then finish mapper cancelled "" true
    else if leb mapper.input_end_byte mapper.source_cursor
    then finish mapper complete "" true
    else map_loop source cancellation maximum_inspected_bytes mapper

unfoldable pub map_batch :
    RandomAccessSource → Cancellation → Mapper → ℕ → Mapper × H264EbspRbspMapBatch
map_batch source cancellation mapper maximum_inspected_bytes =
    map_from source cancellation mapper maximum_inspected_bytes mapper.terminal
