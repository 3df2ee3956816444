-- ===== src/SourcePager.antt =====
-- src/core/source_pager.cpp: pages of 64 KiB of a source.
pub mod Pages
use stream_view.Common.{
  ℕ, zero, suc, ◌+◌, ◌-◌, ◌*◌, ◌/◌, ◌%◌, List, [], ◌++◌, Bool, true, false, String, min, ltb, leb,
  ◌==◌, ◌||◌, ◌&&◌, not, take, if◌then◌else◌, is_empty, mul64, add64, u64_max,
}
use stream_view.Source.{RandomAccessSource, SourceReadResult, SourceReadStatus}

pub data SourcePageStatus : Type 0 where
  ready end_of_source error : SourcePageStatus

pub record SourcePage : Type 0 where
  pub status : SourcePageStatus
  pub page_index : ℕ
  pub byte_offset : ℕ
  pub bytes : List ℕ
  pub error_message : String

abbrev pub page_size_bytes : ℕ
page_size_bytes = 64 * 1024

unfoldable pub page_count : RandomAccessSource → ℕ
page_count source =
    source.size_bytes / page_size_bytes
    + (if source.size_bytes % page_size_bytes == 0 then 0 else 1)

abbrev pub page : SourcePageStatus → ℕ → ℕ → List ℕ → String → SourcePage
page status page_index byte_offset bytes error_message = record {
  status = status;
  page_index = page_index;
  byte_offset = byte_offset;
  bytes = bytes;
  error_message = error_message;
}

-- What `loadPage` makes of the answer to its read of `requested` bytes at `byte_offset`.
unfoldable pub finish_page : ℕ → ℕ → ℕ → ℕ → SourceReadResult → SourcePage
finish_page source_size page_index byte_offset requested result =
    let bytes = take result.bytes_read result.written in
    let reached_declared_end = leb source_size (add64 byte_offset result.bytes_read) in
    let ended = page SourcePageStatus.end_of_source page_index byte_offset bytes "" in
    if ltb requested result.bytes_read
    then page SourcePageStatus.error page_index byte_offset []
        "Source reported more bytes than the page request"
    else elim (result.status) [
      | SourceReadStatus.error ↦ page SourcePageStatus.error page_index byte_offset bytes (
          if is_empty result.error_message then "Source page read failed" else result.error_message)
      | SourceReadStatus.complete ↦
          (if not (result.bytes_read == requested)
            then page SourcePageStatus.error page_index byte_offset bytes
                "Source completed a page read without all bytes"
            else if reached_declared_end
            then ended
            else page SourcePageStatus.ready page_index byte_offset bytes "")
      | SourceReadStatus.end_of_source ↦
          (if not reached_declared_end
            then page SourcePageStatus.error page_index byte_offset bytes
                "Source ended before the declared source end"
            else ended)
    ]

unfoldable pub load_page : RandomAccessSource → ℕ → SourcePage
load_page source page_index =
    let byte_offset = mul64 page_index page_size_bytes in
    let requested = min page_size_bytes (source.size_bytes - byte_offset) in
    if ltb (u64_max / page_size_bytes) page_index
    then page SourcePageStatus.error page_index 0 []
        "Page index exceeds the source coordinate range"
    else if leb source.size_bytes byte_offset
    then page SourcePageStatus.end_of_source page_index byte_offset [] ""
    else finish_page source.size_bytes page_index byte_offset requested
        (source.read_at byte_offset requested)
