-- ===== src/ContextDirectory/Registered.antt =====
-- Registration and replacement keep a directory well-formed.
use stream_view.Common.{
  suc, ◌-◌, ◌≤◌, ◌<◌, ◌≡◌, Option, none, some, List, [], ◌∷◌, ◌++◌, length, get_elem?,
  get_elem?-append_lt, get_elem?-append_cases, get_elem?-append_end, get_elem?-lt, length-append,
  Option-cases, inl, inr, All, All-both, All-map, refl, sym, ap, ◌∙◌, arith, subst, u64_max, add64,
}
use stream_view.Coordinates.{SourceSpan}
use stream_view.ContextDirectory.Definitions.{
  ContextDefinition, ContextDefinitionId, ContextDefinitionSpec, ContextDirectory, ContextKey,
  end_of, find, source_end,
}
use stream_view.ContextDirectory.Registration.{
  add_definition, entry_or_empty, find_overlap, list_definition, make_definition,
}
use stream_view.ContextDirectory.Resolved.{IsOrdered}
use stream_view.ContextDirectory.Entries.{
  All-find, All-set_entry, Ascending, IsEntry, Listed, insert_by_end-Ascending,
  replace_first-Ascending, All-insert_by_end, All-replace_first,
}

-- Identifiers are positions, dependencies stand before what depends on them, and each key lists
-- its own definitions in the order of their ends.
pub record IsDirectory (directory : ContextDirectory) : Type 0 where
  pub ordered : IsOrdered directory.definitions
  pub bounded : length directory.definitions ≤ u64_max
  pub entries : All (IsEntry directory.definitions) directory.definitions_by_key

module _ (definitions : List ContextDefinition) (made : ContextDefinition) where
  Listed-grown :
      (key : ContextKey) (id : ContextDefinitionId)
      → Listed definitions key id
      → Listed (definitions ++ (made ∷ [])) key id
  Listed-grown key id (entry, (there, named)) = (
    entry,
    (
      get_elem?-append_lt definitions (made ∷ []) (id - 1) (get_elem?-lt definitions (id - 1) there)
          ∙ there,
      named,
    ),
  )

  end_of-grown :
      (id : ContextDefinitionId)
      → id - 1 < length definitions
      → end_of (definitions ++ (made ∷ [])) id ≡ end_of definitions id
  unfolding end_of
  end_of-grown id inside =
      rw (end_of, get_elem?-append_lt definitions (made ∷ []) (id - 1) inside) refl

  ends-grown :
      (key : ContextKey) (ids : List ContextDefinitionId)
      → All (Listed definitions key) ids
      → All (λ id. end_of (definitions ++ (made ∷ [])) id ≡ end_of definitions id) ids
  ends-grown key ids listed =
      All-map ids (λ id mine. end_of-grown id (get_elem?-lt definitions (id - 1) mine.1.0)) listed

  Ascending-grown :
      (key : ContextKey) (ids : List ContextDefinitionId)
      → All (Listed definitions key) ids
      → Ascending definitions ids
      → Ascending (definitions ++ (made ∷ [])) ids
  Ascending-grown key [] listed ascending = tt
  Ascending-grown key (id ∷ ids) (mine, listed) (first, ascending) =
      let same = end_of-grown id (get_elem?-lt definitions (id - 1) mine.1.0) in
      (
        All-both ids (λ other over equal. omega (arith, same, over, equal)) first
            (ends-grown key ids listed),
        Ascending-grown key ids listed ascending,
      )

  IsEntry-grown :
      (entry : ContextKey × List ContextDefinitionId)
      → IsEntry definitions entry
      → IsEntry (definitions ++ (made ∷ [])) entry
  IsEntry-grown entry (ascending, listed) = (
    Ascending-grown entry.0 entry.1 listed ascending,
    All-map entry.1 (λ id mine. Listed-grown entry.0 id mine) listed,
  )

  IsOrdered-grown :
      IsOrdered definitions
      → made.id ≡ suc (length definitions)
      → All (λ id. id < made.id) made.dependencies
      → IsOrdered (definitions ++ (made ∷ []))
  IsOrdered-grown ordered fresh before = record {
    numbered = λ position entry found.
        elim (get_elem?-append_cases definitions made position found) [
          | inl (end, is) ↦ ap (λ x. x.id) is ∙ (fresh ∙ ap suc (sym end))
          | inr old ↦ ordered.numbered position entry old
        ];
    earlier = λ position entry found.
        elim (get_elem?-append_cases definitions made position found) [
          | inl (end, is) ↦ rw is before
          | inr old ↦ ordered.earlier position entry old
        ];
  }

-- The definition that is replaced exists and ends where the new one ends.
abbrev pub Replaces : List ContextDefinition → Option ContextDefinitionId → List SourceSpan → Type 0
Replaces definitions none spans = Unit
Replaces definitions (some previous) spans =
    (previous - 1 < length definitions) × (end_of definitions previous ≡ source_end spans)

module _ (definitions : List ContextDefinition) (spec : ContextDefinitionSpec) where
  made-there :
      get_elem?
        (definitions ++ (make_definition definitions spec ∷ []))
        (suc (length definitions) - 1)
      ≡ some (make_definition definitions spec)
  made-there =
      let back : suc (length definitions) - 1 ≡ length definitions = omega arith in
      rw back (get_elem?-append_end definitions (make_definition definitions spec))

  made-ends :
      end_of (definitions ++ (make_definition definitions spec ∷ [])) (suc (length definitions))
      ≡ source_end spec.source_spans
  unfolding end_of
  made-ends = rw (end_of, made-there) refl

  list_definition-IsEntry :
      (previous : Option ContextDefinitionId) (ids : List ContextDefinitionId)
      → Replaces definitions previous spec.source_spans
      → IsEntry definitions (spec.key, ids)
      → IsEntry (definitions ++ (make_definition definitions spec ∷ [])) (
        spec.key,
        list_definition definitions previous
            (source_end spec.source_spans)
            (suc (length definitions))
            ids,
      )
  unfolding list_definition
  list_definition-IsEntry none ids replaces (ascending, listed) =
      let made = make_definition definitions spec in
      let later = definitions ++ (made ∷ []) in
      let (rising, mine) = IsEntry-grown definitions made (spec.key, ids) (ascending, listed) in
      (
        insert_by_end-Ascending definitions later (source_end spec.source_spans)
            (suc (length definitions)) ids made-ends
            (ends-grown definitions made spec.key ids listed) rising,
        All-insert_by_end definitions (Listed later spec.key) (source_end spec.source_spans)
            (suc (length definitions)) ids (made, (made-there, refl)) mine,
      )
  list_definition-IsEntry (some old) ids (inside, same) (ascending, listed) =
      let made = make_definition definitions spec in
      let later = definitions ++ (made ∷ []) in
      let (rising, mine) = IsEntry-grown definitions made (spec.key, ids) (ascending, listed) in
      (
        replace_first-Ascending later old (suc (length definitions)) ids
            (made-ends ∙ (sym same ∙ sym (end_of-grown definitions made old inside))) rising,
        All-replace_first (Listed later spec.key) old (suc (length definitions)) ids
            (λ before. (made, (made-there, refl))) mine,
      )

  entry_or_empty-IsEntry :
      (entries : List (ContextKey × List ContextDefinitionId))
      → All (IsEntry definitions) entries
      → IsEntry definitions (spec.key, entry_or_empty (find spec.key entries))
  entry_or_empty-IsEntry entries all = elim (Option-cases (find spec.key entries)) [
    | inl unlisted ↦ rw unlisted (tt, tt)
    | inr (ids, listed) ↦ rw listed (All-find (IsEntry definitions) spec.key entries listed all)
  ]

pub add_definition-IsDirectory :
    (directory : ContextDirectory) (previous : Option ContextDefinitionId)
    (spec : ContextDefinitionSpec)
    → IsDirectory directory
    → length directory.definitions < u64_max
    → All (λ id. id ≤ length directory.definitions) spec.dependencies
    → Replaces directory.definitions previous spec.source_spans
    → IsDirectory (add_definition directory previous spec).0
unfolding add_definition
add_definition-IsDirectory directory previous spec shaped room before replaces =
    let definitions = directory.definitions in
    let key_ids = entry_or_empty (find spec.key directory.definitions_by_key) in
    let fresh : add64 (length definitions) 1 ≡ suc (length definitions) = ground arith in
    let made = make_definition definitions spec in
    let entry =
      list_definition-IsEntry definitions spec previous key_ids replaces
        (entry_or_empty-IsEntry definitions spec directory.definitions_by_key shaped.entries) in
    let numbered =
      subst
        (λ id. IsEntry (definitions ++ (made ∷ [])) (
          spec.key,
          list_definition definitions previous (source_end spec.source_spans) id key_ids,
        ))
        (sym fresh) entry in
    let kept =
      All-map directory.definitions_by_key (IsEntry-grown definitions made) shaped.entries in
    let longer = length-append definitions (made ∷ []) in
    elim (Option-cases (find_overlap definitions previous spec.source_spans key_ids)) [
      | inr (conflict, overlaps) ↦ rw (add_definition, overlaps) shaped
      | inl clear ↦
          rw (add_definition, clear)
            (record {
              ordered =
                  IsOrdered-grown definitions made shaped.ordered fresh
                    (All-map spec.dependencies (λ id small. ground (arith, small)) before);
              bounded = omega arith;
              entries =
                  All-set_entry (IsEntry (definitions ++ (made ∷ []))) spec.key _
                    directory.definitions_by_key numbered kept;
            })
    ]
