-- ===== src/EbspRbsp/Steps.antt =====
-- One byte of a batch keeps the mapper's state true to the bytes that it has passed.
use stream_view.Common.{
  ℕ, suc, ◌+◌, ◌-◌, ◌*◌, ◌≤◌, ◌<◌, ◌^◌, ◌≡◌, refl, sym, ap, ◌∙◌, subst, List, [], ◌∷◌, ◌++◌, Option,
  none, some, String, Bool, true, false, ltb, leb, ◌==◌, ◌||◌, arith, length, length-append,
  Bool-cases, inl, inr, u64_max, add64,
}
use stream_view.Coordinates.{SourceSpan, make_span, end_exclusive, from_byte_and_bit}
use stream_view.Coordinates.Address.{make_span-fits}
use stream_view.Coordinates.Spans.{total}
use stream_view.EbspRbsp.{Mapper, forwarded_spans, listed, make_byte_span}
use stream_view.EbspRbsp.Bytes.{
  Planned, ok, limit, ◌>>=◌, ◌>>◌, refuse_if, required, Issues, listed_issues, plan_escape,
  plan_prohibited, plan_final, excludes_byte, begin_segment, extend_segment, forward_behind,
  forward, exclude, commit, place_byte, map_byte,
}
use stream_view.EbspRbsp.Rbsp.{
  escapes, zeros_before, zeros_before-suc, escapes-zeros, Forwarded, longer, Within-last,
  total-snoc, Forwarded-skip, Forwarded-begin, Forwarded-longer,
}

-- The mapper's state after the input's bytes from `start` to the cursor: its forwarded spans spell
-- the RBSP of these bytes, and no list is longer than its limit.
pub record Mapped (byte : ℕ → ℕ) (start : ℕ) (mapper : Mapper) : Type 0 where
  pub from : start ≤ mapper.source_cursor
  pub upto : mapper.source_cursor ≤ mapper.input_end_byte
  pub addressable : mapper.input_end_byte * 8 < 2 ^ 64
  pub run : mapper.zero_run ≡ zeros_before byte start (mapper.source_cursor - start)
  pub forwarded : Forwarded byte start (mapper.source_cursor - start) (forwarded_spans mapper)
  pub counted : total (forwarded_spans mapper) ≡ mapper.rbsp_logical_bit_length
  pub few_segments : length (forwarded_spans mapper) ≤ mapper.limits.maximum_mapping_segments
  pub few_excluded : length mapper.excluded_spans ≤ mapper.limits.maximum_excluded_spans
  pub few_issues : length mapper.issues ≤ mapper.limits.maximum_issues

-- What holds of every result that is not a limit.
abbrev pub OkAll {ℓ κ} : {A : Type ℓ} → (A → Type κ) → Planned A → Type κ
OkAll P (ok a) = P a
OkAll P (limit message) = Unit {κ}

refuse_if-OkAll {ℓ κ} :
    {A : Type ℓ} (P : A → Type κ) (refused : Bool) (message : String) (k : Planned A)
    → (refused ≡ false → OkAll P k)
    → OkAll P (refuse_if refused message >> k)
refuse_if-OkAll P true message k h = tt
refuse_if-OkAll P false message k h = h refl

required-OkAll {ℓ κ ι} :
    {A : Type ℓ} {B : Type ι} (P : B → Type κ) (o : Option A) (message : String) (f : A → Planned B)
    → ((a : A) → o ≡ some a → OkAll P (f a))
    → OkAll P (required o message >>= f)
required-OkAll P none message f h = tt
required-OkAll P (some a) message f h = h a refl

bind-OkAll {ℓ κ ι} :
    {A : Type ℓ} {B : Type ι} (P : B → Type κ) (m : Planned A) (f : A → Planned B)
    → ((a : A) → m ≡ ok a → OkAll P (f a))
    → OkAll P (m >>= f)
bind-OkAll P (ok a) f h = h a refl
bind-OkAll P (limit message) f h = tt

OkAll-elim {ℓ κ} :
    {A : Type ℓ} (P : A → Type κ) (m : Planned A) (a : A) → m ≡ ok a → OkAll P m → P a
OkAll-elim P m a e h = subst (OkAll P) e h

pub make_byte_span-byte :
    (offset : ℕ)
    → (offset + 1) * 8 < 2 ^ 64
    → make_byte_span offset 1 ≡ some (record { start = offset * 8; bit_length = 8 })
unfolding make_byte_span from_byte_and_bit
make_byte_span-byte offset h = ground (arith, make_span-fits (offset * 8) 8 (omega arith))

module _ (byte : ℕ → ℕ) (start : ℕ) (mapper : Mapper) (valid : Mapped byte start mapper)
    (inside : mapper.source_cursor < mapper.input_end_byte) where
  abbrev n : ℕ
  n = mapper.source_cursor - start

  abbrev span : SourceSpan
  span = record { start = (start + n) * 8; bit_length = 8 }

  here : start + n ≡ mapper.source_cursor
  here = omega (arith, valid.from)

  zeros-escaped : escapes byte start n ≡ true → 0 ≡ zeros_before byte start (suc n)
  zeros-escaped e = ground (arith, zeros_before-suc byte start n, escapes-zeros byte start n)

  excluded-escapes : excludes_byte mapper (byte (start + n)) ≡ escapes byte start n
  excluded-escapes = rw (valid.run) (sym (escapes-zeros byte start n))

  -- What `forward` makes of the spans.
  abbrev Grown : List SourceSpan × Option SourceSpan → Type 0
  Grown (front, back) =
      Forwarded byte start (suc n) (front ++ listed back)
      × (total (front ++ listed back) ≡ mapper.rbsp_logical_bit_length + 8)
      × (mapper.rbsp_logical_bit_length + 8 < 2 ^ 64)
      × (length (front ++ listed back) ≤ mapper.limits.maximum_mapping_segments)

  begin-Grown :
      escapes byte start n ≡ false
      → leb mapper.limits.maximum_mapping_segments (length (forwarded_spans mapper)) ≡ false
      → ltb (u64_max - 8) mapper.rbsp_logical_bit_length ≡ false
      → Grown (forwarded_spans mapper, some span)
  begin-Grown e few short =
      let spans = forwarded_spans mapper in
      (
        Forwarded-begin byte start n spans e valid.forwarded,
        total-snoc spans span ∙ ap (λ t. t + 8) valid.counted,
        ground arith,
        (let sum = length-append spans (span ∷ []) in ground (arith, sum)),
      )

  longer-Grown :
      (back merged : SourceSpan)
      → escapes byte start n ≡ false
      → mapper.back ≡ some back
      → (end_exclusive back == span.start) ≡ true
      → ltb (u64_max - 8) mapper.rbsp_logical_bit_length ≡ false
      → make_span back.start (back.bit_length + 8) ≡ some merged
      → Grown (mapper.front, some merged)
  longer-Grown back merged e b touch short made =
      let addressable = valid.addressable in
      let forwarded = rw b at valid.forwarded in
      let counted = rw b at valid.counted in
      let few = rw b at valid.few_segments in
      let (positive, before) = Within-last ((start + n) * 8) mapper.front back forwarded.within in
      let from = here in
      let m : merged ≡ longer back =
        ground (arith, make_span-fits back.start (back.bit_length + 8) (omega arith), made) in
      let sum = total-snoc mapper.front back in
      let sum' = total-snoc mapper.front (longer back) in
      let size = length-append mapper.front (back ∷ []) in
      let size' = length-append mapper.front (longer back ∷ []) in
      subst (λ s. Grown (mapper.front, some s)) (sym m)
        (
          Forwarded-longer byte start n mapper.front back e (ground arith) forwarded,
          omega arith,
          ground arith,
          omega arith,
        )

  begin_segment-Grown : escapes byte start n ≡ false → OkAll Grown (begin_segment mapper span)
  unfolding begin_segment
  begin_segment-Grown e =
      refuse_if-OkAll Grown
        (leb mapper.limits.maximum_mapping_segments (length (forwarded_spans mapper)))
        "H.264 RBSP mapping segment limit exceeded" _
        (λ few.
          refuse_if-OkAll Grown (ltb (u64_max - 8) mapper.rbsp_logical_bit_length)
            "H.264 RBSP logical length exceeds coordinate limits"
            (ok (forwarded_spans mapper, some span)) (begin-Grown e few))

  extend_segment-Grown :
      (back : SourceSpan)
      → escapes byte start n ≡ false
      → mapper.back ≡ some back
      → (end_exclusive back == span.start) ≡ true
      → OkAll Grown (extend_segment mapper back)
  unfolding extend_segment
  extend_segment-Grown back e b touch =
      refuse_if-OkAll Grown (ltb (u64_max - 8) mapper.rbsp_logical_bit_length)
        "H.264 RBSP logical length exceeds coordinate limits" _
        (λ short.
          refuse_if-OkAll Grown (ltb (u64_max - 8) back.bit_length)
            "H.264 RBSP source span exceeds coordinate limits" _
            (λ fits.
              required-OkAll Grown (make_span back.start (back.bit_length + 8))
                "H.264 RBSP source span exceeds coordinate limits"
                (λ merged. ok (mapper.front, some merged))
                (λ merged made. longer-Grown back merged e b touch short made)))

  forward_behind-Grown :
      (back : Option SourceSpan)
      → escapes byte start n ≡ false
      → mapper.back ≡ back
      → OkAll Grown (forward_behind mapper span back)
  unfolding forward_behind
  forward_behind-Grown none e b = begin_segment-Grown e
  forward_behind-Grown (some back) e b = elim (Bool-cases (end_exclusive back == span.start)) [
    | inl touch ↦ rw touch (extend_segment-Grown back e b touch)
    | inr apart ↦ rw apart (begin_segment-Grown e)
  ]

  forward-Grown : escapes byte start n ≡ false → OkAll Grown (forward mapper span)
  unfolding forward
  forward-Grown e = forward_behind-Grown mapper.back e refl

  -- What the byte at the cursor leaves: the mapper one byte on, or a limit.
  unfoldable pub Stepped : Mapper → Type 0
  Stepped mapped =
      Mapped byte start mapped
      × (mapped.source_cursor ≡ mapper.source_cursor + 1)
      × (mapped.input_end_byte ≡ mapper.input_end_byte)
      × (mapped.buffer ≡ mapper.buffer)
      × (mapped.terminal ≡ mapper.terminal)

  module _ (issues : Issues)
      (few : length (mapper.issues ++ listed_issues issues) ≤ mapper.limits.maximum_issues) where
    exclude-Stepped :
        escapes byte start n ≡ true
        → leb mapper.limits.maximum_excluded_spans (length mapper.excluded_spans) ≡ false
        → Stepped (exclude mapper span issues)
    unfolding exclude Stepped
    exclude-Stepped e room =
        let addressable = valid.addressable in
        let next : add64 mapper.source_cursor 1 ≡ mapper.source_cursor + 1 = omega arith in
        let passed : mapper.source_cursor + 1 - start ≡ suc n = omega (arith, valid.from) in
        (
          record {
            from = omega (arith, valid.from);
            upto = omega arith;
            addressable = valid.addressable;
            run = rw (next, passed) (zeros-escaped e);
            forwarded =
                rw (next, passed)
                  (Forwarded-skip byte start n (forwarded_spans mapper) e valid.forwarded);
            counted = valid.counted;
            few_segments = valid.few_segments;
            few_excluded =
                (let size = length-append mapper.excluded_spans (
                    record { source_span = span; rbsp_bit_offset = mapper.rbsp_logical_bit_length }
                    ∷ []) in
                  ground (arith, size));
            few_issues = few;
          },
          next,
          refl,
          refl,
          refl,
        )

    commit-Stepped :
        (front : List SourceSpan) (back : Option SourceSpan)
        → mapper.source_cursor < mapper.input_end_byte
        → Grown (front, back)
        → Stepped (commit mapper (byte (start + n)) issues (front, back))
    unfolding commit Stepped
    commit-Stepped front back le (f, sum, short, size) =
        let addressable = valid.addressable in
        let next : add64 mapper.source_cursor 1 ≡ mapper.source_cursor + 1 = omega arith in
        let passed : mapper.source_cursor + 1 - start ≡ suc n = omega (arith, valid.from) in
        (
          record {
            from = omega (arith, valid.from);
            upto = omega arith;
            addressable = valid.addressable;
            run = rw (next, passed, valid.run) (sym (zeros_before-suc byte start n));
            forwarded = rw (next, passed) f;
            counted = omega arith;
            few_segments = size;
            few_excluded = valid.few_excluded;
            few_issues = few;
          },
          next,
          refl,
          refl,
          refl,
        )

    place_byte-Stepped : OkAll Stepped (place_byte mapper (byte (start + n)) span issues)
    unfolding place_byte
    place_byte-Stepped = elim (Bool-cases (escapes byte start n)) [
      | inl e ↦ rw (excluded-escapes ∙ e) (
          refuse_if-OkAll Stepped
            (leb mapper.limits.maximum_excluded_spans (length mapper.excluded_spans))
            "H.264 EBSP excluded-span limit exceeded" _ (exclude-Stepped e))
      | inr e ↦ rw (excluded-escapes ∙ e) (
          bind-OkAll Stepped (forward mapper span) _ (λ spans made.
            commit-Stepped spans.0 spans.1 inside
              (OkAll-elim Grown (forward mapper span) spans made (forward-Grown e))))
    ]

  -- The byte at the cursor, before the input's end, either is refused for a limit or leaves a
  -- mapper one byte on: its forwarded spans spell the RBSP up to there, its zero run counts the zero
  -- bytes before the cursor, no list is longer than its limit, and nothing else has changed.
  pub map_byte-Stepped : OkAll Stepped (map_byte mapper (byte (start + n)))
  unfolding map_byte
  map_byte-Stepped =
      let addressable = valid.addressable in
      let value = byte (start + n) in
      let made_span : make_byte_span mapper.source_cursor 1 ≡ some span =
        make_byte_span-byte mapper.source_cursor (omega arith)
        ∙ ap (λ o. some (record { start = o * 8; bit_length = 8 })) (sym here) in
      rw made_span (
        bind-OkAll Stepped (plan_escape mapper value (none, none)) _ (λ escaped made.
          bind-OkAll Stepped (plan_prohibited mapper value escaped) _ (λ prohibited made'.
            let issues = plan_final mapper value span prohibited in
            refuse_if-OkAll Stepped
              (ltb mapper.limits.maximum_issues (length mapper.issues)
                || ltb (mapper.limits.maximum_issues - length mapper.issues)
                    (length (listed_issues issues)))
              "H.264 EBSP conformance issue limit exceeded" _
              (λ room. place_byte-Stepped issues (
                let size = length-append mapper.issues (listed_issues issues) in
                ground (arith, size))))))
