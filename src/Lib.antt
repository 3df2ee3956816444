-- ===== src/Lib.antt =====
-- StreamView, the parts of its core and rules libraries that turn source bytes into located data.
--
-- The program opens a media file as a random-access source, scans it in bounded batches for the
-- units of its format, and describes each field by the source bits that back it. A source answers
-- reads; coordinates name bits of it and map logical views to it; a bit reader and a bounded view
-- read through such a mapping; a pager shows the bytes; the H.264 start code scanner splits a byte
-- stream into NAL units, the EBSP mapper makes of each unit the mapping of its RBSP, the MP4 box
-- scanner splits a file into its top-level boxes, and the MP4 sample table index gives the samples of
-- a track, a page at a time, from tables that describe them in runs. What the analyzers find is a tree of
-- nodes with their locations, and the parameter sets and configurations that later data depends on
-- are kept in a directory by key and source position.
--
-- Files and the code that they model:
-- Common: native numbers, integers, lists, Boolean tests, cancellation tokens and `quint64`
--   arithmetic for all of them.
-- Coordinates: src/core/coordinates.cpp and its header. `SourceBitAddress` is its bit offset;
--   `make_span`, `make_range`, `make_location` and `make_mapping` are the `create` functions
--   `SourceSpan::create`, `LogicalRange::create`, `FieldLocation::create` and
--   `SourceMapping::create`; `locate` is `SourceMapping::locate`.
-- Source: src/core/source.cpp (`FileSource::readAt`) and src/core/include/streamview/core/source.h.
--   A source is its size and its read function; a result carries the bytes written.
-- BitReader: src/core/bit_reader.cpp. `read_bits` is `BitReader::readBits`.
-- SourcePager: src/core/source_pager.cpp. `load_page` is `SourcePager::loadPage`.
-- BoundedView: src/core/bounded_source_view.cpp. `view_read_at` is `BoundedSourceView::readAt`.
-- Buffered: `readByte` of the start code scanner and `readBytes` of the box scanner, with their 64 KiB
--   buffers.
-- StartCodes: src/rules/h264_start_code_scanner.cpp and src/rules/h264_start_code_prefix.h. `Scanner` is the
--   state of `H264StartCodeScanner`, `scan_batch` is `scanBatch`, and `scan_round` one round of its loop.
-- EbspRbsp: src/rules/h264_ebsp_rbsp_mapper.cpp. `Mapper` is the state of `H264EbspRbspMapper`,
--   `make_mapper` its constructor, `map_batch` is `mapBatch` and `map_byte` one byte of its loop.
-- Boxes: src/rules/mp4_box_scanner.cpp. `Mp4BoxScanner` is the scanner's state, `scan_boxes` is its
--   `scanBatch` and `box_round` one round of its loop.
-- SampleTables: src/rules/mp4_sample_table_index.cpp and its header. `build` is
--   `Mp4SampleTableIndex::build` and `descriptor_page` is `descriptorPage`; Build, Timing, Chunks,
--   Pages and DescriptorPage are the code, the modules beside them its theorems. A cursor that is an
--   index into a table of runs there is the list of runs from that index on here, and a row behind
--   the last one, which the code reads without a test, is a refusal.
-- AnalysisTree: src/core/analysis_model.cpp and its header. Nodes and Operations are the code of
--   `AnalysisTree` but for `mostSpecificMaterializedNodeAt`, which is in Locate; the modules beside
--   them are its theorems. A `Command` is a call of one of the operations that change a
--   tree but for `restore`: `append_child`, `transition`, `add_diagnostic`, `mark_partial` and
--   `resume_cancelled`.
-- ContextDirectory: src/core/context_directory.cpp and its header. `register` is
--   `registerDefinition`, `resolve_before` is `resolveBefore` and `resolve_latest_before` is
--   `resolveLatestBefore`; Definitions, Lookups, Guards and Registration are the code. A `std::map` is its
--   entries in order, and `std::upper_bound` and `std::lower_bound` are the scans they stand for.
-- Tests: concrete inputs.
--
-- How it is modelled. Numbers are natural numbers, and 64-bit wrap-around is written out where the
-- code adds, subtracts or multiplies without a check of its own. Objects that the code changes are
-- passed on as values. A source answers a read by its offset and length alone, so that reads do
-- not change it; `Holds` says that reads within its size are complete and deliver its bytes. `QFile`
-- is a parameter (`File`), and `IsRegular` is what Qt documents of an open regular file that nobody
-- touches, `IsBounded` what it documents of any read; the mutex around its seek and read is taken for
-- granted. A cancellation token is the answers that one batch gets of it, by the number of bytes
-- inspected when it is asked (a batch asks at most once for each), or for the box scan and the pages
-- by how often they have asked. The message of an error is the code's.
--
-- The readers of the sample tables that are not in memory are parameters too, functions of an entry's
-- number; a page counts its calls of them. Signed 64-bit times are integers, under the code's own
-- overflow checks.
--
-- The value of an analysis node is a `QVariant`, here a type parameter, and the global counter of
-- tree identities is passed along. The search for the depth of a node has the number of nodes as its
-- fuel, which a well-formed tree never exhausts, and the loop over two lists of spans the spans that
-- are left; `resolveBefore` recurses on the room that its own limit of 64 leaves on its stack.
--
-- Loops run over a list or over the budget of a batch, which is an argument of the code itself, so
-- that no fuel is added. `scan_all` repeats batches with a count that is one more than the source has
-- bytes, and that is enough because every batch that does not finish moves the cursor.
--
-- Not modelled: opening files and fingerprints (file I/O), the other scanners, the analyzers and
-- the sample table extractor of src/rules, the rule language and its packages, the caches over SQLite, the
-- application and the tools.
pub mod Common
pub mod Coordinates
pub mod Source
pub mod BitReader
pub mod SourcePager
pub mod BoundedView
pub mod Buffered
pub mod StartCodes
pub mod EbspRbsp
pub mod Boxes
pub mod SampleTables
pub mod AnalysisTree
pub mod ContextDirectory
pub mod Tests
