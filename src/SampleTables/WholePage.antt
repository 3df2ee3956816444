-- ===== src/SampleTables/WholePage.antt =====
-- A page request as a whole: no descriptor, or exactly the samples that the request asks for.
use stream_view.Common.{
  ℕ, suc, ◌-◌, ◌*◌, ◌≤◌, ◌<◌, ◌≡◌, ◌⊎◌, refl, ◌∙◌, List, [], inl, inr, arith, ltb, leb, ◌==◌, sub64,
  mul64, IsU64, min, length, answers,
}
use stream_view.SampleTables.{Mp4SampleTableIndex, Answer, built, multiply_would_overflow}
use stream_view.SampleTables.Overflow.{
  OkAll, refuse_if-OkAll, map-OkAll, multiply_would_overflow-bound,
}
use stream_view.SampleTables.Built.{IsIndex}
use stream_view.SampleTables.Checked.{Agree}
use stream_view.SampleTables.Paged.{Sound}
use stream_view.SampleTables.Offsets.{StartsAt}
use stream_view.SampleTables.PageLoop.{covers, covers_few, Follows, page_samples-Gives}
use stream_view.SampleTables.Pages.{
  SampleDescriptor, Mp4SamplePageRequest, Mp4SamplePageResult, page_samples,
}
use stream_view.SampleTables.DescriptorPage.{
  check_request, page_count, page_outcome, page_of, descriptor_page,
}

Agree-Sound :
    (index : Mp4SampleTableIndex)
    → Agree index.tables
    → IsU64 index.tables.declared_sample_count
    → IsU64 index.tables.chunk_count
    → ((chunk start : ℕ) → StartsAt index.readers.chunk_offset chunk start → IsU64 start)
    → Sound index
Agree-Sound index agree wide chunks starts =
    let declared = index.tables.declared_sample_count in
    let few = covers_few index.tables.composition_offsets declared agree.composed in
    record {
      wide = chunks;
      ascending = agree.ascending;
      chunked = omega (arith, agree.chunked, agree.timed);
      few = omega (arith, agree.timed, wide);
      few_offsets = omega (arith, few, wide);
      covered = λ j h.
          covers index.tables.composition_offsets declared agree.composed j
            (omega (arith, h, agree.timed));
      starts = starts;
    }

-- A result with the samples of a request, up to the last of the index.
pub record IsPage (index : Mp4SampleTableIndex) (request : Mp4SamplePageRequest)
    (result : Mp4SamplePageResult) : Type 0 where
  pub succeeded : result.status ≡ built
  pub first : result.first_sample_index ≡ request.page_index * request.page_size
  pub exists : result.first_sample_index < index.sample_count
  pub whole :
      length result.descriptors
      ≡ min request.page_size (index.sample_count - result.first_sample_index)
  pub few : length result.descriptors ≤ request.maximum_descriptors_per_page
  pub samples : Follows index request result.first_sample_index result.descriptors

module _ (index : Mp4SampleTableIndex) (request : Mp4SamplePageRequest)
    (wide : IsU64 index.sample_count) (chunks : IsU64 index.tables.chunk_count)
    (starts : (chunk start : ℕ)
      → StartsAt index.readers.chunk_offset chunk start
      → IsU64 start) where
  -- A request that passes the tests.
  record IsRequest (start : ℕ) : Type 0 where
    pub some_samples : 0 < request.page_size
    pub first : start ≡ request.page_index * request.page_size
    pub exists : start < index.sample_count
    pub few :
        min request.page_size (index.sample_count - start) ≤ request.maximum_descriptors_per_page

  check_request-IsRequest : OkAll IsRequest (check_request index request)
  unfolding check_request OkAll
  check_request-IsRequest =
      let start = mul64 request.page_index request.page_size in
      refuse_if-OkAll _ (request.page_size == 0) _ _ _ (λ some_samples.
        refuse_if-OkAll _ (answers request.cancellation 0) _ _ _ (λ going.
          refuse_if-OkAll _ (multiply_would_overflow request.page_index request.page_size) _ _ _
            (λ fits. refuse_if-OkAll _ (leb index.sample_count start) _ _ _ (λ exists.
              refuse_if-OkAll _
                (ltb request.maximum_descriptors_per_page
                  (min request.page_size (sub64 index.sample_count start)))
                _ _ _
                (λ few.
                  let product =
                    multiply_would_overflow-bound request.page_index request.page_size fits in
                  let first : start ≡ request.page_index * request.page_size = omega arith in
                  let exact : sub64 index.sample_count start ≡ index.sample_count - start =
                    ground (arith, exists) in
                  record {
                    some_samples = ground (arith, some_samples);
                    first = first;
                    exists = ground (arith, exists);
                    few = ground (arith, few, exact);
                  })))))

  samples-OkAll :
      (start : ℕ)
      → IsIndex index
      → IsRequest start
      → OkAll
          (λ descriptors.
            Follows index request start descriptors
            × (length descriptors ≡ min request.page_size (index.sample_count - start)))
          (page_samples index request start (page_count index request start) 0).1
  unfolding page_count
  samples-OkAll start valid asked =
      let agree : Agree index.tables = elim (valid.agree) [
        | inl e ↦ absurd (omega (arith, e, asked.exists))
        | inr agree ↦ agree
      ] in
      let exact : sub64 index.sample_count start ≡ index.sample_count - start =
        omega (arith, wide, asked.exists) in
      let count = min request.page_size (index.sample_count - start) in
      let some_samples : suc (count - 1) ≡ count =
        omega (arith, asked.exists, asked.some_samples) in
      rw exact (
        map-OkAll
          (λ descriptors.
            Follows index request start descriptors × (length descriptors ≡ suc (count - 1)))
          _ (page_samples index request start count 0).1
          (λ descriptors (page, size). (page, size ∙ some_samples))
          (page_samples-Gives index request start count
            (Agree-Sound index agree (omega (arith, valid.counted, wide)) chunks starts)
            (omega (arith, agree.timed, valid.counted, asked.exists, asked.some_samples)) 0))

  outcome-IsPage :
      (start : ℕ) (result : ℕ × Answer (List SampleDescriptor))
      → IsRequest start
      → OkAll
          (λ descriptors.
            Follows index request start descriptors
            × (length descriptors ≡ min request.page_size (index.sample_count - start)))
          result.1
      → ((page_outcome index request start result).descriptors ≡ [])
        ⊎ IsPage index request (page_outcome index request start result)
  unfolding page_outcome OkAll
  outcome-IsPage start (reads, Answer.refused status message) asked given = inl refl
  outcome-IsPage start (reads, Answer.ok descriptors) asked (page, count) = inr (record {
    succeeded = refl;
    first = asked.first;
    exists = asked.exists;
    whole = count;
    few = omega (arith, count, asked.few);
    samples = page;
  })

  page_of-IsPage :
      (checked : Answer ℕ)
      → IsIndex index
      → OkAll IsRequest checked
      → ((page_of index request checked).descriptors ≡ [])
        ⊎ IsPage index request (page_of index request checked)
  unfolding page_of OkAll page_count
  page_of-IsPage (Answer.refused status message) valid asked = inl refl
  page_of-IsPage (Answer.ok start) valid asked =
      outcome-IsPage start (page_samples index request start (page_count index request start) 0)
        asked (samples-OkAll start valid asked)

-- A page of an index that `build` makes, whose chunk offsets are 64-bit numbers, is all or nothing:
-- either it carries no descriptor, or it succeeds with the consecutive samples from
-- page_index * page_size on, as many as the page size and the index's last sample allow. Every one
-- has the decode time, the duration and the presentation time that the tables describe; its bytes
-- begin at the start of its chunk and the sizes of the samples before it in that chunk, and lie in
-- the source if its size is known, that is, not 0. They are apart from the bytes of the sample before
-- it; for the first sample of the page that is the last one of the page before, unless its end is
-- past the 64-bit numbers.
pub descriptor_page-IsPage :
    (index : Mp4SampleTableIndex) (request : Mp4SamplePageRequest)
    → IsU64 index.sample_count
    → IsU64 index.tables.chunk_count
    → ((chunk start : ℕ) → StartsAt index.readers.chunk_offset chunk start → IsU64 start)
    → IsIndex index
    → ((descriptor_page index request).descriptors ≡ [])
      ⊎ IsPage index request (descriptor_page index request)
unfolding descriptor_page
descriptor_page-IsPage index request wide chunks starts valid =
    page_of-IsPage index request wide chunks starts (check_request index request) valid
      (check_request-IsRequest index request wide chunks starts)
