-- ===== src/ContextDirectory/Accepted.antt =====
-- What the guards of a registration accept, and that a directory stays well-formed.
use stream_view.Common.{
  ◌-◌, ◌≤◌, ◌≡◌, true, false, not, ◌||◌, Option, none, some, List, [], ◌∷◌, ◌++◌, length, get_elem?,
  get_elem?-lt, ◌==◌, ltb, leb, Bool-cases, Option-cases, inl, inr, All, refl, arith, u64_max,
}
use stream_view.Coordinates.{SourceSpan, make_mapping}
use stream_view.ContextDirectory.Definitions.{
  ContextDefinition, ContextDefinitionId, ContextDefinitionSpec, ContextDirectory, definition,
  end_of, find, is_known_kind, source_end,
}
use stream_view.ContextDirectory.Guards.{
  refuse_dependencies, replaces_stale, same_spans, stale_or_new,
}
use stream_view.ContextDirectory.Registration.{register}
use stream_view.ContextDirectory.Registered.{IsDirectory, Replaces, add_definition-IsDirectory}

definition-inside :
    (definitions : List ContextDefinition) (id : ContextDefinitionId) {entry : ContextDefinition}
    → definition definitions id ≡ some entry
    → (id ≤ length definitions) × (get_elem? definitions (id - 1) ≡ some entry)
unfolding definition
definition-inside definitions id {entry} e =
    elim (Bool-cases (id == 0 || ltb (length definitions) id)) [
      | inl out ↦ absurd (let clash : none ≡ some entry = rw out at e in cc)
      | inr inside ↦ (ground arith, rw inside at e)
    ]

same_spans-source_end :
    (left right : List SourceSpan)
    → same_spans left right ≡ true
    → source_end left ≡ source_end right
unfolding source_end
same_spans-source_end [] [] same = refl
same_spans-source_end [] (right ∷ rights) same = absurd (cc)
same_spans-source_end (left ∷ lefts) [] same = absurd (cc)
same_spans-source_end (left ∷ []) (right ∷ []) same = ground arith
same_spans-source_end (left ∷ []) (right ∷ (next ∷ rights)) same = absurd (ground arith)
same_spans-source_end (left ∷ (next ∷ lefts)) (right ∷ []) same = absurd (ground arith)
same_spans-source_end (left ∷ (next ∷ lefts)) (right ∷ (other ∷ rights)) same =
    same_spans-source_end (next ∷ lefts) (other ∷ rights) (ground arith)

replaces_stale-Replaces :
    (directory : ContextDirectory) (previous : ContextDefinitionId) (spec : ContextDefinitionSpec)
    → replaces_stale directory previous spec ≡ true
    → Replaces directory.definitions (some previous) spec.source_spans
unfolding replaces_stale end_of
replaces_stale-Replaces directory previous spec stale =
    elim (Option-cases (definition directory.definitions previous)) [
      | inl unknown ↦
          absurd (let clash : false ≡ true = rw (replaces_stale, unknown) at stale in cc)
      | inr (old, known) ↦ elim (Option-cases (find spec.key directory.definitions_by_key)) [
        | inl unlisted ↦
            absurd (let clash : false ≡ true = rw (replaces_stale, known, unlisted) at stale in cc)
        | inr (ids, listed) ↦
            let (few, there) = definition-inside directory.definitions previous known in
            let all = rw (replaces_stale, known, listed) at stale in
            let spans : same_spans old.source_spans spec.source_spans ≡ true = ground arith in
            (
              get_elem?-lt directory.definitions (previous - 1) there,
              rw (end_of, there) (same_spans-source_end old.source_spans spec.source_spans spans),
            )
      ]
    ]

refuse_dependencies-none :
    (directory : ContextDirectory) (spec : ContextDefinitionSpec)
    (checked ids : List ContextDefinitionId)
    → refuse_dependencies directory spec checked ids ≡ none
    → All (λ id. id ≤ length directory.definitions) ids
unfolding refuse_dependencies
refuse_dependencies-none directory spec checked [] accepted = tt
refuse_dependencies-none directory spec checked (id ∷ ids) accepted =
    elim (Option-cases (definition directory.definitions id)) [
      | inl unknown ↦ absurd (let clash = rw (refuse_dependencies, unknown) at accepted in cc)
      | inr (dependency, known) ↦
          let (few, there) = definition-inside directory.definitions id known in
          let rest : refuse_dependencies directory spec (checked ++ (id ∷ [])) ids ≡ none =
            (let opened = rw (refuse_dependencies, known) at accepted in ground arith) in
          (few, refuse_dependencies-none directory spec (checked ++ (id ∷ [])) ids rest)
    ]

stale_or_new-Replaces :
    (directory : ContextDirectory) (previous : Option ContextDefinitionId)
    (spec : ContextDefinitionSpec)
    → stale_or_new directory previous spec ≡ true
    → Replaces directory.definitions previous spec.source_spans
unfolding stale_or_new
stale_or_new-Replaces directory none spec accepted = tt
stale_or_new-Replaces directory (some previous) spec accepted =
    replaces_stale-Replaces directory previous spec accepted

-- a registration, or the replacement of a stale definition, keeps a directory well-formed, on
-- every branch
pub register-IsDirectory :
    (directory : ContextDirectory) (previous : Option ContextDefinitionId)
    (given : ContextDefinitionSpec)
    → IsDirectory directory
    → IsDirectory (register directory previous given).0
unfolding register
register-IsDirectory directory previous given shaped =
    elim (Option-cases (make_mapping 1 given.source_spans)) [
      | inl unmapped ↦ rw (register, unmapped) shaped
      | inr (mapping, mapped) ↦
          let spec : ContextDefinitionSpec = record given { source_spans = mapping.source_spans } in
          elim (Bool-cases (
            not (is_known_kind spec.key.kind)
            || mapping.logical_bit_length == 0
            || spec.analysis_node_id == 0)) [
              | inl invalid ↦ rw (register, mapped, invalid) shaped
              | inr valid ↦ elim (Bool-cases (stale_or_new directory previous spec)) [
                | inr fresh ↦ rw (register, mapped, valid, fresh) shaped
                | inl accepted ↦
                    elim (Option-cases (refuse_dependencies directory spec [] spec.dependencies)) [
                      | inr (status, refused) ↦
                          rw (register, mapped, valid, accepted, refused) shaped
                      | inl resolved ↦
                          elim (Bool-cases (leb u64_max (length directory.definitions))) [
                            | inl full ↦
                                rw (register, mapped, valid, accepted, resolved, full) shaped
                            | inr room ↦
                                rw (register, mapped, valid, accepted, resolved, room)
                                  (add_definition-IsDirectory directory previous spec shaped
                                    (ground arith)
                                    (refuse_dependencies-none directory spec [] spec.dependencies
                                      resolved)
                                    (stale_or_new-Replaces directory previous spec accepted))
                          ]
                    ]
              ]
            ]
    ]
