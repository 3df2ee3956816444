-- ===== src/EbspRbsp/Totals.antt =====
-- Batches of a mapper: what they pass, and the RBSP that its mapping then gives.
use stream_view.Common.{
  ℕ, zero, suc, ◌+◌, ◌-◌, ◌%◌, ◌≤◌, ◌<◌, ◌≡◌, ◌≢◌, ◌⊎◌, refl, sym, ap, ◌∙◌, subst, none, String,
  Bool, true, false, min, ltb, leb, ◌==◌, ◌&&◌, ◌||◌, arith, Bool-cases, inl, inr, get_or,
}
use stream_view.Buffered.{Buffer, ReadByte, chunk_size}
use stream_view.Buffered.Reads.{IsBuffer}
use stream_view.EbspRbsp.{
  Mapper, H264EbspRbspMapStatus, in_progress, complete, cancelled, resource_limit, forwarded_spans,
}
use stream_view.EbspRbsp.Batches.{
  H264EbspRbspMapBatch, batch, finish, finish_with, read_input, Cancellation, asks, Round, next,
  stop, after_byte, after_read, end_batch, map_loop, map_from, map_batch,
}
use stream_view.EbspRbsp.Bytes.{Planned, ok, limit, map_byte}
use stream_view.EbspRbsp.Steps.{Mapped, Stepped, OkAll, map_byte-Stepped}
use stream_view.Source.{RandomAccessSource, Holds}
use stream_view.Source.Bytes.{slice, get_or-slice}
use stream_view.EbspRbsp.Mappings.{Gives, mapping-Gives}

module _ (source : RandomAccessSource) (byte : ℕ → ℕ) (holds : Holds source byte) (start : ℕ) where
  -- A mapper that has its batches ahead: what it holds is true, and so is its buffer.
  pub record Ready (mapper : Mapper) : Type 0 where
    pub mapped : Mapped byte start mapper
    pub buffered : IsBuffer source byte mapper.buffer
    pub sized : mapper.input_end_byte ≤ source.size_bytes

  -- The mapper's mapping gives the RBSP of what it has passed.
  abbrev pub Mirrors : Mapper → Type 0
  Mirrors mapper =
      Gives byte start (mapper.source_cursor - start) mapper.rbsp_view_id mapper.mapping

  finish-Mirrors :
      (mapper : Mapper) (status : H264EbspRbspMapStatus) (message : String) (terminal : Bool)
      → Ready mapper
      → Ready (finish mapper status message terminal).0
        × Mirrors (finish mapper status message terminal).0
        × ((finish mapper status message terminal).0.source_cursor ≡ mapper.source_cursor)
        × ((finish mapper status message terminal).0.input_end_byte ≡ mapper.input_end_byte)
        × ((finish mapper status message terminal).1 ≡ batch status message)
        × (terminal ≡ false → (finish mapper status message terminal).0.terminal ≡ mapper.terminal)
  unfolding finish finish_with
  finish-Mirrors mapper status message terminal ready =
      let addressable = ready.mapped.addressable in
      let n = mapper.source_cursor - start in
      let (mapping, made, gives) =
        mapping-Gives byte start n mapper.rbsp_view_id (forwarded_spans mapper)
          (omega (arith, ready.mapped.from, ready.mapped.upto)) ready.mapped.forwarded in
      rw made (
        record {
          mapped = record {
            from = ready.mapped.from;
            upto = ready.mapped.upto;
            addressable = ready.mapped.addressable;
            run = ready.mapped.run;
            forwarded = ready.mapped.forwarded;
            counted = ready.mapped.counted;
            few_segments = ready.mapped.few_segments;
            few_excluded = ready.mapped.few_excluded;
            few_issues = ready.mapped.few_issues;
          };
          buffered = ready.buffered;
          sized = ready.sized;
        },
        gives,
        refl,
        refl,
        refl,
        λ no. rw no,
      )

  -- Within the input, `readByte` gives the byte at the cursor.
  read_input_lem :
      (mapper : Mapper)
      → Ready mapper
      → mapper.source_cursor < mapper.input_end_byte
      → (buffer : Buffer) × IsBuffer source byte buffer
        × (read_input source mapper ≡ (buffer, ReadByte.available (byte mapper.source_cursor)))
  unfolding read_input
  read_input_lem mapper ready inside =
      let cursor = mapper.source_cursor in
      let requested = min chunk_size (mapper.input_end_byte - cursor) in
      let sized = ready.sized in
      let reads = holds.reads cursor requested (omega arith) (omega arith) in
      let old = mapper.buffer in
      let first : get_or (slice byte cursor requested) 0 0 ≡ byte cursor =
        get_or-slice byte cursor requested 0 0 (omega arith) ∙ ap byte (omega arith) in
      let here : old.start ≤ cursor → old.start + (cursor - old.start) ≡ cursor = omega arith in
      let sub : cursor + requested - cursor ≡ requested = omega arith in
      elim (Bool-cases (ltb cursor old.start || leb old.end cursor)) [
        | inl outside ↦ (
          record { bytes = slice byte cursor requested; start = cursor; end = cursor + requested },
          record {
            ordered = omega arith;
            inside = omega arith;
            held = ap (slice byte cursor) (sym sub);
          },
          ground (arith, outside, reads, first),
        )
        | inr within ↦ (
          old,
          ready.buffered,
          ground (
            arith,
            within,
            ready.buffered.held,
            ready.buffered.ordered,
            here,
            get_or-slice byte old.start (old.end - old.start) (cursor - old.start) 0,
          ),
        )
      ]

  module _ (cancellation : Cancellation) where
    -- How a batch from a cursor may leave the mapper: its mapping gives the RBSP of all that it
    -- has passed, which is the whole input when the batch is complete.
    abbrev pub Goes : ℕ → ℕ → Mapper × H264EbspRbspMapBatch → Type 0
    Goes cursor stop_at end =
        Ready end.0
        × Mirrors end.0
        × (cursor ≤ end.0.source_cursor)
        × ((end.1.status ≡ complete) × (end.0.source_cursor ≡ stop_at)
            ⊎ (end.1.status ≡ in_progress)
              × (end.0.terminal ≡ none)
              × (cursor < end.0.source_cursor)
            ⊎ (end.1.status ≡ cancelled) × (cancellation ≢ none)
            ⊎ (end.1.status ≡ resource_limit))

    abbrev KeepsRound : Mapper → Round → Type 0
    KeepsRound mapper (next mapped) =
        Ready mapped
        × (mapped.source_cursor ≡ mapper.source_cursor + 1)
        × (mapped.input_end_byte ≡ mapper.input_end_byte)
        × (mapped.terminal ≡ mapper.terminal)
    KeepsRound mapper (stop result) =
        Ready result.0
        × Mirrors result.0
        × (mapper.source_cursor ≤ result.0.source_cursor)
        × ((result.1.status ≡ cancelled) × (cancellation ≢ none)
            ⊎ (result.1.status ≡ resource_limit))

    asks-none : (inspected : ℕ) → asks cancellation inspected ≡ true → cancellation ≢ none
    asks-none inspected h e =
        let clash : false ≡ true = sym (ap (λ c. asks c inspected) e) ∙ h in absurd (cc)

    after_byte-Keeps :
        (mapper : Mapper) (planned : Planned Mapper)
        → Ready mapper
        → (inside : mapper.source_cursor < mapper.input_end_byte)
        → ((m : Mapper)
            → planned ≡ ok m
            → Ready m
              × (m.source_cursor ≡ mapper.source_cursor + 1)
              × (m.input_end_byte ≡ mapper.input_end_byte)
              × (m.terminal ≡ mapper.terminal))
        → KeepsRound mapper (after_byte cancellation mapper planned)
    unfolding after_byte
    after_byte-Keeps mapper (limit message) ready inside h =
        let (r, m, c, i, s, k) = finish-Mirrors mapper resource_limit message true ready in
        (r, m, omega arith, inr (ap H264EbspRbspMapBatch.status s))
    after_byte-Keeps mapper (ok mapped) ready inside h =
        let (mready, cur, e, t) = h mapped refl in
        let (r, m, c, i, s, k) = finish-Mirrors mapped cancelled "" true mready in
        elim (Bool-cases
          (mapped.inspected_bytes % 1024 == 0 && asks cancellation mapped.inspected_bytes)) [
            | inl asked ↦ rw asked (
              r,
              m,
              omega arith,
              inl (
                ap H264EbspRbspMapBatch.status s,
                asks-none mapped.inspected_bytes (ground arith),
              ),
            )
            | inr quiet ↦ rw quiet (mready, cur, e, t)
          ]

    with_buffer : Mapper → Buffer → Mapper
    with_buffer mapper buffer = record mapper { buffer = buffer }

    with_buffer-Ready :
        (mapper : Mapper) (buffer : Buffer)
        → Ready mapper
        → IsBuffer source byte buffer
        → Ready (record mapper { buffer = buffer })
    with_buffer-Ready mapper buffer ready held = record {
      mapped = record {
        from = ready.mapped.from;
        upto = ready.mapped.upto;
        addressable = ready.mapped.addressable;
        run = ready.mapped.run;
        forwarded = ready.mapped.forwarded;
        counted = ready.mapped.counted;
        few_segments = ready.mapped.few_segments;
        few_excluded = ready.mapped.few_excluded;
        few_issues = ready.mapped.few_issues;
      };
      buffered = held;
      sized = ready.sized;
    }

    map_byte-Ready :
        (mapper : Mapper) (ready : Ready mapper)
        (inside : mapper.source_cursor < mapper.input_end_byte) (mapped : Mapper)
        → map_byte mapper (byte mapper.source_cursor) ≡ ok mapped
        → Ready mapped
          × (mapped.source_cursor ≡ mapper.source_cursor + 1)
          × (mapped.input_end_byte ≡ mapper.input_end_byte)
          × (mapped.terminal ≡ mapper.terminal)
    unfolding Stepped
    map_byte-Ready mapper ready inside mapped e =
        let here : start + (mapper.source_cursor - start) ≡ mapper.source_cursor =
          omega (arith, ready.mapped.from) in
        let kept =
          subst (OkAll (Stepped byte start mapper ready.mapped inside))
            (ap (λ o. map_byte mapper (byte o)) here ∙ e)
            (map_byte-Stepped byte start mapper ready.mapped inside) in
        let (m, c, i, b, t) = kept in
        (
          record {
            mapped = m;
            buffered = subst (IsBuffer source byte) (sym b) ready.buffered;
            sized = omega (arith, ready.sized);
          },
          c,
          i,
          t,
        )

    round-Keeps :
        (mapper : Mapper)
        → Ready mapper
        → mapper.source_cursor < mapper.input_end_byte
        → KeepsRound mapper (after_read cancellation mapper (read_input source mapper))
    unfolding after_read
    round-Keeps mapper ready inside =
        let (buffer, held, e) = read_input_lem mapper ready inside in
        let filled = with_buffer-Ready mapper buffer ready held in
        let mapper' : Mapper = record mapper { buffer = buffer } in
        subst (λ r. KeepsRound mapper (after_read cancellation mapper r)) (sym e)
          (after_byte-Keeps mapper' (map_byte mapper' (byte mapper.source_cursor)) filled inside
            (map_byte-Ready mapper' filled inside))

    abbrev go : ℕ → Round → Mapper × H264EbspRbspMapBatch
    go left round = elim round [
      | next mapped ↦ map_loop source cancellation left mapped
      | stop result ↦ result
    ]

    finished-Goes :
        (mapper : Mapper) (cursor : ℕ)
        → Ready mapper
        → cursor ≤ mapper.source_cursor
        → leb mapper.input_end_byte mapper.source_cursor ≡ true
        → Goes cursor mapper.input_end_byte (finish mapper complete "" true)
    finished-Goes mapper cursor ready h done =
        let upto = ready.mapped.upto in
        let (r, m, c, i, s, k) = finish-Mirrors mapper complete "" true ready in
        (r, m, omega arith, inl (ap H264EbspRbspMapBatch.status s, (c ∙ ground arith)))

    end_batch-Goes :
        (mapper : Mapper) (cursor : ℕ)
        → Ready mapper
        → mapper.terminal ≡ none
        → cursor ≤ mapper.source_cursor
        → (mapper.source_cursor < mapper.input_end_byte → cursor < mapper.source_cursor)
        → Goes cursor mapper.input_end_byte (end_batch mapper)
    end_batch-Goes mapper cursor ready fresh h moved =
        let upto = ready.mapped.upto in
        elim (Bool-cases (leb mapper.input_end_byte mapper.source_cursor)) [
          | inl done ↦ rw done (finished-Goes mapper cursor ready h done)
          | inr more ↦
              let (r, m, c, i, s, k) = finish-Mirrors mapper in_progress "" false ready in
              let lt = moved (ground arith) in
              rw more (
                r,
                m,
                omega arith,
                inr (inl (ap H264EbspRbspMapBatch.status s, k refl ∙ fresh, omega arith)),
              )
        ]

    go-Goes :
        (left : ℕ) (mapper : Mapper) (round : Round)
        → mapper.terminal ≡ none
        → KeepsRound mapper round
        → ((mapped : Mapper)
            → Ready mapped
            → mapped.terminal ≡ none
            → mapper.source_cursor < mapped.source_cursor
            → Goes mapper.source_cursor mapped.input_end_byte
                (map_loop source cancellation left mapped))
        → Goes mapper.source_cursor mapper.input_end_byte (go left round)
    go-Goes left mapper (next mapped) fresh (r, c, e, t) loop =
        subst
          (λ stop_at. Goes mapper.source_cursor stop_at (map_loop source cancellation left mapped))
          e (loop mapped r (t ∙ fresh) (omega arith))
    go-Goes left mapper (stop result) fresh (r, m, c, inl s) loop = (r, m, c, inr (inr (inl s)))
    go-Goes left mapper (stop result) fresh (r, m, c, inr s) loop = (r, m, c, inr (inr (inr s)))

    Goes-le :
        (low cursor stop_at : ℕ) (result : Mapper × H264EbspRbspMapBatch)
        → low ≤ cursor
        → Goes cursor stop_at result
        → Goes low stop_at result
    Goes-le low cursor stop_at (mapper, result) h (r, m, c, inl s) = (r, m, omega arith, inl s)
    Goes-le low cursor stop_at (mapper, result) h (r, m, c, inr (inl (s, f, lt))) =
        (r, m, omega arith, inr (inl (s, f, omega arith)))
    Goes-le low cursor stop_at (mapper, result) h (r, m, c, inr (inr s)) =
        (r, m, omega arith, inr (inr s))

    map_loop-Goes :
        (left : ℕ) (mapper : Mapper) (cursor : ℕ)
        → Ready mapper
        → mapper.terminal ≡ none
        → cursor ≤ mapper.source_cursor
        → cursor < mapper.source_cursor + left
        → Goes cursor mapper.input_end_byte (map_loop source cancellation left mapper)
    unfolding map_loop
    map_loop-Goes zero mapper cursor ready fresh h moved =
        end_batch-Goes mapper cursor ready fresh h (λ more. omega arith)
    map_loop-Goes (suc left) mapper cursor ready fresh h moved =
        elim (Bool-cases (leb mapper.input_end_byte mapper.source_cursor)) [
          | inl done ↦ rw done (finished-Goes mapper cursor ready h done)
          | inr more ↦ rw more (
              Goes-le cursor mapper.source_cursor mapper.input_end_byte
                (go left (after_read cancellation mapper (read_input source mapper))) h
                (go-Goes left mapper (after_read cancellation mapper (read_input source mapper))
                  fresh (round-Keeps mapper ready (ground arith))
                  (λ mapped r f lt.
                    map_loop-Goes left mapped mapper.source_cursor r f (omega arith)
                      (omega arith))))
        ]

    map_from-Goes :
        (mapper : Mapper) (maximum : ℕ)
        → 0 < maximum
        → Ready mapper
        → mapper.terminal ≡ none
        → Goes mapper.source_cursor mapper.input_end_byte
            (map_from source cancellation mapper maximum none)
    unfolding map_from
    map_from-Goes mapper maximum positive ready fresh =
        let cursor = mapper.source_cursor in
        let some_bytes : (maximum == 0) ≡ false = ground arith in
        let (r, m, c, i, s, k) = finish-Mirrors mapper cancelled "" true ready in
        elim (Bool-cases (asks cancellation mapper.inspected_bytes)) [
          | inl asked ↦
              rw (some_bytes, asked)
                (
                  r,
                  m,
                  omega arith,
                  inr (
                      inr (
                        inl (
                          ap H264EbspRbspMapBatch.status s,
                          asks-none mapper.inspected_bytes asked,
                        ))),
                )
          | inr quiet ↦ elim (Bool-cases (leb mapper.input_end_byte cursor)) [
            | inl done ↦
                rw (some_bytes, quiet, done) (finished-Goes mapper cursor ready (omega arith) done)
            | inr more ↦
                rw (some_bytes, quiet, more)
                  (map_loop-Goes maximum mapper cursor ready fresh (omega arith) (omega arith))
          ]
        ]

    -- In a source that has its bytes, a batch of a mapper that is not terminal leaves a mapping of the
    -- asked view whose bytes are the RBSP of the input that the mapper has passed: its bytes
    -- without each 03 behind two zero bytes. The cursor does not go back; it is at the input's end
    -- when the batch is complete, and further on when the batch is in progress. A batch ends in no
    -- other way but by a cancellation or a limit, and no list is longer than its limit.
    pub map_batch-Goes :
        (mapper : Mapper) (maximum_inspected_bytes : ℕ)
        → 0 < maximum_inspected_bytes
        → Ready mapper
        → mapper.terminal ≡ none
        → Goes mapper.source_cursor mapper.input_end_byte
            (map_batch source cancellation mapper maximum_inspected_bytes)
    unfolding map_batch
    map_batch-Goes mapper maximum positive ready fresh =
        subst
          (λ t.
            Goes mapper.source_cursor mapper.input_end_byte
              (map_from source cancellation mapper maximum t))
          (sym fresh) (map_from-Goes mapper maximum positive ready fresh)
