-- ===== src/SourcePager/Pages.antt =====
-- The pages of a source that has its bytes.
use stream_view.Common.{
  ℕ, zero, suc, ◌+◌, ◌-◌, ◌*◌, ◌≤◌, ◌<◌, ◌≡◌, ◌↔◌, refl, sym, ap, ◌∙◌, List, [], ◌++◌, min, leb,
  if◌then◌else◌, mul64, arith,
}
use stream_view.Source.{RandomAccessSource, Holds}
use stream_view.Source.Bytes.{slice, take-slice, slice-append}
use stream_view.SourcePager.{
  SourcePageStatus, page, page_size_bytes, page_count, finish_page, load_page,
}

module _ (source : RandomAccessSource) (byte : ℕ → ℕ) (holds : Holds source byte) (index : ℕ) where
  -- A page that starts within the source holds the bytes from its offset on, up to the page size
  -- or the end of the source; it says that the source ended when it reaches that end.
  pub load_page_lem :
      index * page_size_bytes < source.size_bytes
      → load_page source index
        ≡ page
            (if leb source.size_bytes (index * page_size_bytes + page_size_bytes)
              then SourcePageStatus.end_of_source
              else SourcePageStatus.ready)
            index
            (index * page_size_bytes)
            (slice byte
              (index * page_size_bytes)
              (min page_size_bytes (source.size_bytes - index * page_size_bytes)))
            ""
  unfolding load_page finish_page
  load_page_lem inside =
      let n = min page_size_bytes (source.size_bytes - index * page_size_bytes) in
      let sized = holds.sized in
      let offset : mul64 index page_size_bytes ≡ index * page_size_bytes = omega arith in
      ground (
        arith,
        offset,
        holds.reads (index * page_size_bytes) n (omega arith) (omega arith),
        take-slice byte (index * page_size_bytes) n,
      )

-- The bytes of the pages below an index, one page after the other.
abbrev pub pages : RandomAccessSource → ℕ → List ℕ
pages source zero = []
pages source (suc n) = pages source n ++ (load_page source n).bytes

-- A page has an index below the count exactly when it starts within the source.
page_count_iff :
    (source : RandomAccessSource) (index : ℕ)
    → (index < page_count source) ↔ (index * page_size_bytes < source.size_bytes)
unfolding page_count
page_count_iff source index = ground arith

page_count_covers :
    (source : RandomAccessSource) → source.size_bytes ≤ page_count source * page_size_bytes
unfolding page_count
page_count_covers source = ground arith

pages-slice :
    (source : RandomAccessSource) (byte : ℕ → ℕ) (n : ℕ)
    → Holds source byte
    → n ≤ page_count source
    → pages source n ≡ slice byte 0 (min (n * page_size_bytes) source.size_bytes)
pages-slice source byte zero holds h =
    let none_yet : min (0 * page_size_bytes) source.size_bytes ≡ 0 = omega arith in
    rw none_yet (unfold slice in refl)
pages-slice source byte (suc n) holds h =
    let start = n * page_size_bytes in
    let inside = (page_count_iff source n).0 h in
    let next = min page_size_bytes (source.size_bytes - start) in
    let before : min start source.size_bytes ≡ start = omega arith in
    let after : min (suc n * page_size_bytes) source.size_bytes ≡ start + next = omega arith in
    let here : 0 + start ≡ start = omega arith in
    rw
      (
        load_page_lem source byte holds n inside,
        pages-slice source byte n holds (omega arith),
        before,
        after,
      )
      (ap (λ o. slice byte 0 start ++ slice byte o next) (sym here)
        ∙ slice-append byte 0 start next)

-- The pages of a source, in order, hold its bytes, each once.
pub pages_cover :
    (source : RandomAccessSource) (byte : ℕ → ℕ)
    → Holds source byte
    → pages source (page_count source) ≡ slice byte 0 source.size_bytes
pages_cover source byte holds =
    pages-slice source byte (page_count source) holds (omega arith) ∙ ap (slice byte 0) (all source)
  where
    all :
        (source : RandomAccessSource)
        → min (page_count source * page_size_bytes) source.size_bytes ≡ source.size_bytes
    all source = omega (arith, page_count_covers source)
