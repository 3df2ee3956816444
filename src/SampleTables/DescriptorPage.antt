-- ===== src/SampleTables/DescriptorPage.antt =====
-- `Mp4SampleTableIndex::descriptorPage` as a whole: the request's tests, then the page.
use stream_view.Common.{ℕ, List, [], String, ltb, leb, ◌==◌, min, sub64, mul64, answers}
use stream_view.SampleTables.{
  Mp4SampleTableIndex, Mp4SampleTableIndexStatus, Answer, ok, refused, refuse_if, built,
  invalid_request, resource_limit, cancelled, multiply_would_overflow,
}
use stream_view.SampleTables.Build.{◌>>◌}
use stream_view.SampleTables.Pages.{
  SampleDescriptor, Mp4SamplePageRequest, Mp4SamplePageResult, cache_page_key, page_samples,
}

module _ (index : Mp4SampleTableIndex) (request : Mp4SamplePageRequest) where
  -- The tests before a table is read, in their order: the first sample of the page.
  unfoldable pub check_request : Answer ℕ
  check_request = do
    refuse_if (request.page_size == 0) invalid_request "Page size must be greater than zero"
    refuse_if (answers request.cancellation 0) cancelled ""
    refuse_if (multiply_would_overflow request.page_index request.page_size) invalid_request
        "Page start index overflows"
    let start = mul64 request.page_index request.page_size
    refuse_if (leb index.sample_count start) invalid_request
        "Page start index is beyond the sample count"
    refuse_if
        (ltb request.maximum_descriptors_per_page
          (min request.page_size (sub64 index.sample_count start)))
        resource_limit "Requested page exceeds the descriptor budget"
    ok start

  unfoldable pub page_count : ℕ → ℕ
  page_count start = min request.page_size (sub64 index.sample_count start)

  abbrev pub page_result :
      Mp4SampleTableIndexStatus → List SampleDescriptor → ℕ → ℕ → String → Mp4SamplePageResult
  page_result status descriptors first reads message = record {
    status = status;
    descriptors = descriptors;
    first_sample_index = first;
    table_read_count = reads;
    cache_key = cache_page_key index request.page_index;
    error_message = message;
  }

  -- A refusal clears the descriptors and leaves the count of reads.
  unfoldable pub page_outcome : ℕ → ℕ × Answer (List SampleDescriptor) → Mp4SamplePageResult
  page_outcome first (reads, ok descriptors) = page_result built descriptors first reads ""
  page_outcome first (reads, refused status message) = page_result status [] first reads message

  unfoldable pub page_of : Answer ℕ → Mp4SamplePageResult
  page_of (refused status message) = page_result status [] 0 0 message
  page_of (ok start) = page_outcome start (page_samples index request start (page_count start) 0)

  unfoldable pub descriptor_page : Mp4SamplePageResult
  descriptor_page = page_of check_request
