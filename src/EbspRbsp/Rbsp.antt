-- ===== src/EbspRbsp/Rbsp.antt =====
-- What an RBSP is, with no regard to the mapper, and the spans that forward it.
use stream_view.Common.{
  ℕ, zero, suc, ◌+◌, ◌-◌, ◌*◌, ◌/◌, ◌≤◌, ◌<◌, ◌≡◌, refl, sym, ap, ap₂, ◌∙◌, List, [], ◌∷◌, ◌++◌,
  Bool, true, false, min, leb, ◌==◌, ◌&&◌, if◌then◌else◌, arith, append-nil, append_assoc, All,
}
use stream_view.BoundedView.Refines.{IsAligned, span_bytes}
use stream_view.Coordinates.{SourceSpan}
use stream_view.Coordinates.Spans.{total, Within, Ordered}
use stream_view.Source.Bytes.{slice, slice-append}

-- Whether the byte `n` behind `start` is an emulation prevention byte: 03 behind two zero bytes.
unfoldable pub escapes : (ℕ → ℕ) → ℕ → ℕ → Bool
escapes byte start n =
    leb 2 n && byte (start + n - 2) == 0 && byte (start + n - 1) == 0 && byte (start + n) == 3

-- The first `n` bytes from `start` on, without the emulation prevention bytes.
unfoldable pub rbsp : (ℕ → ℕ) → ℕ → ℕ → List ℕ
rbsp byte start zero = []
rbsp byte start (suc n) =
    if escapes byte start n then rbsp byte start n else rbsp byte start n ++ (byte (start + n) ∷ [])

-- How many zero bytes, two at most, precede the byte `n` behind `start`.
unfoldable pub zeros_before : (ℕ → ℕ) → ℕ → ℕ → ℕ
zeros_before byte start n =
    if leb 1 n && byte (start + n - 1) == 0
    then (if leb 2 n && byte (start + n - 2) == 0 then 2 else 1)
    else 0

pub zeros_before-suc :
    (byte : ℕ → ℕ) (start n : ℕ)
    → zeros_before byte start (suc n)
      ≡ (if byte (start + n) == 0 then min 2 (zeros_before byte start n + 1) else 0)
unfolding zeros_before
zeros_before-suc byte start n =
    let last : start + suc n - 1 ≡ start + n = omega arith in
    let previous : start + suc n - 2 ≡ start + n - 1 = omega arith in
    rw (last, previous) (ground arith)

pub escapes-zeros :
    (byte : ℕ → ℕ) (start n : ℕ)
    → escapes byte start n ≡ (leb 2 (zeros_before byte start n) && byte (start + n) == 3)
unfolding escapes zeros_before
escapes-zeros byte start n = ground arith

-- Aligned spans before a source byte whose bytes are the RBSP up to there.
pub record Forwarded (byte : ℕ → ℕ) (start n : ℕ) (spans : List SourceSpan) : Type 0 where
  pub ordered : Ordered 0 spans
  pub within : Within ((start + n) * 8) spans
  pub aligned : All IsAligned spans
  pub spelled : span_bytes byte spans ≡ rbsp byte start n

abbrev pub longer : SourceSpan → SourceSpan
longer span = record { start = span.start; bit_length = span.bit_length + 8 }

Ordered-snoc :
    (lo limit : ℕ) (spans : List SourceSpan) (span : SourceSpan)
    → lo ≤ limit
    → Ordered lo spans
    → Within limit spans
    → limit ≤ span.start
    → 0 < span.bit_length
    → Ordered lo (spans ++ (span ∷ []))
Ordered-snoc lo limit [] span h o w a b = (omega arith, b, tt)
Ordered-snoc lo limit (first ∷ spans) span h (p, q, o) (f, g, w) a b =
    (p, q, Ordered-snoc (first.start + first.bit_length) limit spans span g o w a b)

Within-snoc :
    (limit limit' : ℕ) (spans : List SourceSpan) (span : SourceSpan)
    → Within limit spans
    → limit ≤ limit'
    → 0 < span.bit_length
    → span.start + span.bit_length ≤ limit'
    → Within limit' (spans ++ (span ∷ []))
Within-snoc limit limit' [] span w h a b = (a, b, tt)
Within-snoc limit limit' (first ∷ spans) span (p, q, w) h a b =
    (p, omega arith, Within-snoc limit limit' spans span w h a b)

pub Within-mono :
    (limit limit' : ℕ) (spans : List SourceSpan)
    → Within limit spans
    → limit ≤ limit'
    → Within limit' spans
Within-mono limit limit' [] w h = tt
Within-mono limit limit' (first ∷ spans) (p, q, w) h =
    (p, omega arith, Within-mono limit limit' spans w h)

pub Within-last :
    (limit : ℕ) (spans : List SourceSpan) (span : SourceSpan)
    → Within limit (spans ++ (span ∷ []))
    → (0 < span.bit_length) × (span.start + span.bit_length ≤ limit)
Within-last limit [] span (p, q, w) = (p, q)
Within-last limit (first ∷ spans) span (p, q, w) = Within-last limit spans span w

Within-front :
    (limit : ℕ) (spans : List SourceSpan) (span : SourceSpan)
    → Within limit (spans ++ (span ∷ []))
    → Within limit spans
Within-front limit [] span w = tt
Within-front limit (first ∷ spans) span (p, q, w) = (p, q, Within-front limit spans span w)

Ordered-longer :
    (lo : ℕ) (spans : List SourceSpan) (span : SourceSpan)
    → Ordered lo (spans ++ (span ∷ []))
    → Ordered lo (spans ++ (longer span ∷ []))
Ordered-longer lo [] span (a, b, o) = (a, omega arith, tt)
Ordered-longer lo (first ∷ spans) span (a, b, o) =
    (a, b, Ordered-longer (first.start + first.bit_length) spans span o)

All-snoc :
    (spans : List SourceSpan) (span : SourceSpan)
    → All IsAligned spans
    → IsAligned span
    → All IsAligned (spans ++ (span ∷ []))
All-snoc [] span a b = (b, tt)
All-snoc (first ∷ spans) span (p, a) b = (p, All-snoc spans span a b)

All-last :
    (spans : List SourceSpan) (span : SourceSpan)
    → All IsAligned (spans ++ (span ∷ []))
    → All IsAligned spans × IsAligned span
All-last [] span (p, a) = (tt, p)
All-last (first ∷ spans) span (p, a) = let (q, r) = All-last spans span a in ((p, q), r)

span_bytes-snoc :
    (byte : ℕ → ℕ) (spans : List SourceSpan) (span : SourceSpan)
    → span_bytes byte (spans ++ (span ∷ []))
      ≡ span_bytes byte spans ++ slice byte (span.start / 8) (span.bit_length / 8)
span_bytes-snoc byte [] span = append-nil (slice byte (span.start / 8) (span.bit_length / 8))
span_bytes-snoc byte (first ∷ spans) span =
    ap (◌++◌ (slice byte (first.start / 8) (first.bit_length / 8)))
      (span_bytes-snoc byte spans span)
    ∙ sym (
        append_assoc (slice byte (first.start / 8) (first.bit_length / 8)) (span_bytes byte spans)
          (slice byte (span.start / 8) (span.bit_length / 8)))

slice-one : (byte : ℕ → ℕ) (offset : ℕ) → slice byte offset 1 ≡ byte offset ∷ []
unfolding slice
slice-one byte offset = refl

pub total-snoc :
    (spans : List SourceSpan) (span : SourceSpan)
    → total (spans ++ (span ∷ [])) ≡ total spans + span.bit_length
total-snoc [] span = omega arith
total-snoc (first ∷ spans) span = omega (arith, total-snoc spans span)

module _ (byte : ℕ → ℕ) (start n : ℕ) where
  rbsp-kept :
      escapes byte start n ≡ false
      → rbsp byte start (suc n) ≡ rbsp byte start n ++ (byte (start + n) ∷ [])
  unfolding rbsp
  rbsp-kept e = rw e

  -- Nothing is forwarded for an emulation prevention byte.
  pub Forwarded-skip :
      (spans : List SourceSpan)
      → escapes byte start n ≡ true
      → Forwarded byte start n spans
      → Forwarded byte start (suc n) spans
  unfolding rbsp
  Forwarded-skip spans e f = record {
    ordered = f.ordered;
    within = Within-mono ((start + n) * 8) ((start + suc n) * 8) spans f.within (omega arith);
    aligned = f.aligned;
    spelled = rw e f.spelled;
  }

  -- Any other byte stands in a span of its own,
  pub Forwarded-begin :
      (spans : List SourceSpan)
      → escapes byte start n ≡ false
      → Forwarded byte start n spans
      → Forwarded byte start
          (suc n)
          (spans ++ (record { start = (start + n) * 8; bit_length = 8 } ∷ []))
  Forwarded-begin spans e f =
      let span : SourceSpan = record { start = (start + n) * 8; bit_length = 8 } in
      let at : (start + n) * 8 / 8 ≡ start + n = omega arith in
      record {
        ordered =
            Ordered-snoc 0 ((start + n) * 8) spans span (omega arith) f.ordered f.within
              (omega arith) (omega arith);
        within =
            Within-snoc ((start + n) * 8) ((start + suc n) * 8) spans span f.within (omega arith)
              (omega arith) (omega arith);
        aligned = All-snoc spans span f.aligned (omega arith, omega arith);
        spelled =
            span_bytes-snoc byte spans span
            ∙ ap₂ ◌++◌ f.spelled (ap (λ o. slice byte o 1) at ∙ slice-one byte (start + n))
            ∙ sym (rbsp-kept e);
      }

  -- or makes the last span longer, when that ends where the byte starts.
  pub Forwarded-longer :
      (spans : List SourceSpan) (last : SourceSpan)
      → escapes byte start n ≡ false
      → last.start + last.bit_length ≡ (start + n) * 8
      → Forwarded byte start n (spans ++ (last ∷ []))
      → Forwarded byte start (suc n) (spans ++ (longer last ∷ []))
  Forwarded-longer spans last e touch f =
      let (aligned, (a, b)) = All-last spans last f.aligned in
      let (positive, inside) = Within-last ((start + n) * 8) spans last f.within in
      let count : (last.bit_length + 8) / 8 ≡ last.bit_length / 8 + 1 = omega arith in
      let here : last.start / 8 + last.bit_length / 8 ≡ start + n = omega arith in
      record {
        ordered = Ordered-longer 0 spans last f.ordered;
        within =
            Within-snoc ((start + n) * 8) ((start + suc n) * 8) spans (longer last)
              (Within-front ((start + n) * 8) spans last f.within) (omega arith) (omega arith)
              (omega arith);
        aligned = All-snoc spans (longer last) aligned (a, omega arith);
        spelled =
            span_bytes-snoc byte spans (longer last)
            ∙ ap (λ k. span_bytes byte spans ++ slice byte (last.start / 8) k) count
            ∙ ap (◌++◌ (span_bytes byte spans)) (
                sym (slice-append byte (last.start / 8) (last.bit_length / 8) 1)
                ∙ ap (λ o. slice byte (last.start / 8) (last.bit_length / 8) ++ slice byte o 1)
                    here)
            ∙ sym (
                append_assoc (span_bytes byte spans)
                  (slice byte (last.start / 8) (last.bit_length / 8)) (slice byte (start + n) 1))
            ∙ ap₂ ◌++◌ (sym (span_bytes-snoc byte spans last) ∙ f.spelled)
                (slice-one byte (start + n))
            ∙ sym (rbsp-kept e);
      }
