-- ===== src/SampleTables/Compositions.antt =====
-- Composition offsets by single samples, and how the cursor into ctts follows them.
use stream_view.Common.{
  ℕ, suc, ◌+◌, ◌-◌, ◌≤◌, ◌<◌, ◌≡◌, refl, ap, ◌∙◌, List, [], ◌∷◌, some, Bool-cases, inl, inr, true,
  false, ltb, ◌==◌, if◌then◌else◌, arith, add64, sub64, u64_max,
}
use stream_view.Common.Int.{ℤ, pos}
use stream_view.SampleTables.{Mp4CompositionOffsetRow, reinterpret_composition_offset}
use stream_view.SampleTables.Timing.{
  CompositionCursor, seek_offsets, seek_composition, skip_empty_offsets, rest_on_offset,
  advance_composition, composition_offset_at,
}

-- How many samples the rows describe.
unfoldable pub offsets_described : List Mp4CompositionOffsetRow → ℕ
offsets_described [] = 0
offsets_described (entry ∷ rows) = entry.sample_count + offsets_described rows

-- The offset of a sample, which is 0 without ctts.
unfoldable pub offset_of : ℕ → List Mp4CompositionOffsetRow → ℕ → ℤ
offset_of version [] i = pos 0
offset_of version (entry ∷ rows) i =
    if ltb i entry.sample_count
    then reinterpret_composition_offset entry.raw_sample_offset version
    else offset_of version rows (i - entry.sample_count)

-- Without ctts every sample is covered.
unfoldable pub Covered : List Mp4CompositionOffsetRow → ℕ → Type 0
Covered [] i = Unit {0}
Covered (entry ∷ rows) i = i < offsets_described (entry ∷ rows)

-- The rows from a sample's row on, and the sample's place in that row.
unfoldable pub offset_cursor : List Mp4CompositionOffsetRow → ℕ → CompositionCursor
offset_cursor [] i = record { rows = []; ordinal_in_run = 0 }
offset_cursor (entry ∷ rows) i =
    if ltb i entry.sample_count
    then record { rows = entry ∷ rows; ordinal_in_run = i }
    else offset_cursor rows (i - entry.sample_count)

seek_offsets-some :
    (rows : List Mp4CompositionOffsetRow) (consumed i : ℕ)
    → consumed + offsets_described rows ≤ u64_max
    → i < offsets_described rows
    → seek_offsets rows consumed (consumed + i) ≡ some (offset_cursor rows i)
unfolding seek_offsets offsets_described offset_cursor
seek_offsets-some [] consumed i fits inside = absurd (omega arith)
seek_offsets-some (entry ∷ rows) consumed i fits inside =
    let c = entry.sample_count in
    let end : add64 consumed c ≡ consumed + c = omega arith in
    let ordinal : sub64 (consumed + i) consumed ≡ i = omega arith in
    elim (Bool-cases (ltb i c)) [
      | inl e ↦
          let here : ltb (consumed + i) (consumed + c) ≡ true = ground (arith, e) in
          rw (end, ordinal, here, e) refl
      | inr e ↦
          let behind : ltb (consumed + i) (consumed + c) ≡ false = ground (arith, e) in
          let at : consumed + i ≡ consumed + c + (i - c) = ground (arith, e) in
          rw (end, behind, e)
            (ap (seek_offsets rows (consumed + c)) at
              ∙ seek_offsets-some rows (consumed + c) (i - c) (omega arith) (ground (arith, e)))
    ]

pub seek_composition-some :
    (rows : List Mp4CompositionOffsetRow) (i : ℕ)
    → offsets_described rows ≤ u64_max
    → Covered rows i
    → seek_composition rows i ≡ some (offset_cursor rows i)
unfolding seek_composition Covered offset_cursor
seek_composition-some [] i fits inside = refl
seek_composition-some (entry ∷ rows) i fits inside =
    let from_zero : i ≡ 0 + i = omega arith in
    ap (seek_offsets (entry ∷ rows) 0) from_zero
    ∙ seek_offsets-some (entry ∷ rows) 0 i (omega arith) inside

pub composition_offset_at-offset_cursor :
    (version : ℕ) (rows : List Mp4CompositionOffsetRow) (i : ℕ)
    → composition_offset_at version (offset_cursor rows i) ≡ offset_of version rows i
unfolding offset_cursor offset_of
composition_offset_at-offset_cursor version [] i = refl
composition_offset_at-offset_cursor version (entry ∷ rows) i =
    elim (Bool-cases (ltb i entry.sample_count)) [
      | inl e ↦ rw e refl
      | inr e ↦ rw e (composition_offset_at-offset_cursor version rows (i - entry.sample_count))
    ]

rest_on_offset-some :
    (rows : List Mp4CompositionOffsetRow)
    → 0 < offsets_described rows
    → rest_on_offset (skip_empty_offsets rows) ≡ some (offset_cursor rows 0)
unfolding offsets_described offset_cursor skip_empty_offsets
rest_on_offset-some [] h = absurd (omega arith)
rest_on_offset-some (entry ∷ rows) h = elim (Bool-cases (entry.sample_count == 0)) [
  | inl e ↦
      let none_here : ltb 0 entry.sample_count ≡ false = ground (arith, e) in
      let first : 0 - entry.sample_count ≡ 0 = omega arith in
      rw (e, none_here, first) (rest_on_offset-some rows (ground (arith, e)))
  | inr e ↦ ground (arith, e)
]

advance_composition-inside :
    (rows : List Mp4CompositionOffsetRow) (i : ℕ)
    → offsets_described rows ≤ u64_max
    → suc i < offsets_described rows
    → advance_composition (offset_cursor rows i) ≡ some (offset_cursor rows (suc i))
unfolding offsets_described offset_cursor advance_composition
advance_composition-inside [] i fits inside = absurd (omega arith)
advance_composition-inside (entry ∷ rows) i fits inside =
    let next : add64 i 1 ≡ suc i = omega arith in
    elim (Bool-cases (ltb i entry.sample_count)) [
      | inl e ↦ elim (Bool-cases (ltb (suc i) entry.sample_count)) [
        | inl more ↦ rw (e, next, more) refl
        | inr last ↦
            let first : suc i - entry.sample_count ≡ 0 = ground (arith, e, last) in
            rw (e, next, last, first) (rest_on_offset-some rows (ground (arith, e, last)))
      ]
      | inr e ↦
          let later : ltb (suc i) entry.sample_count ≡ false = ground (arith, e) in
          let one_more : suc i - entry.sample_count ≡ suc (i - entry.sample_count) =
            ground (arith, e) in
          rw (e, later, one_more)
            (advance_composition-inside rows (i - entry.sample_count) (omega arith)
              (ground (arith, e)))
    ]

pub advance_composition-some :
    (rows : List Mp4CompositionOffsetRow) (i : ℕ)
    → offsets_described rows ≤ u64_max
    → Covered rows (suc i)
    → advance_composition (offset_cursor rows i) ≡ some (offset_cursor rows (suc i))
unfolding Covered
advance_composition-some [] i fits inside = unfold advance_composition offset_cursor in refl
advance_composition-some (entry ∷ rows) i fits inside =
    advance_composition-inside (entry ∷ rows) i fits inside
