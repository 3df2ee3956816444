-- ===== src/ContextDirectory/Latest.antt =====
-- Lookups in a directory that registrations made: what they find is the newest definition of the
-- key, with dependencies that are the newest of theirs.
use stream_view.Common.{
  ◌-◌, ◌≡◌, Option, none, some, List, [], ◌∷◌, get_elem?, All, All-get, Option-cases, inl, inr,
  arith,
}
use stream_view.Coordinates.{SourceBitAddress}
use stream_view.ContextDirectory.Definitions.{
  ContextDefinition, ContextDefinitionId, ContextDefinitionSpec, ContextDirectory, ContextKey, find,
  maximum_dependency_depth,
}
use stream_view.ContextDirectory.Lookups.{candidate_of, resolve_before, visible_candidate}
use stream_view.ContextDirectory.Registration.{register}
use stream_view.ContextDirectory.Accepted.{register-IsDirectory}
use stream_view.ContextDirectory.Entries.{All-find, IsEntry, Listed}
use stream_view.ContextDirectory.Registered.{IsDirectory}
use stream_view.ContextDirectory.Dependencies.{Found}
use stream_view.ContextDirectory.Resolved.{Resolved, resolve_before-Resolved}
use stream_view.ContextDirectory.Visible.{IsVisible, visible_candidate-IsVisible}

abbrev pub empty : ContextDirectory
empty = record { definitions = []; definitions_by_key = [] }

-- Registrations in order, of new definitions and of ones that replace a stale one.
unfoldable pub register_all :
    List (Option ContextDefinitionId × ContextDefinitionSpec) → ContextDirectory → ContextDirectory
register_all [] directory = directory
register_all (request ∷ requests) directory =
    register_all requests (register directory request.0 request.1).0

register_all-IsDirectory :
    (requests : List (Option ContextDefinitionId × ContextDefinitionSpec))
    (directory : ContextDirectory)
    → IsDirectory directory
    → IsDirectory (register_all requests directory)
unfolding register_all
register_all-IsDirectory [] directory shaped = shaped
register_all-IsDirectory (request ∷ requests) directory shaped =
    register_all-IsDirectory requests (register directory request.0 request.1).0
      (register-IsDirectory directory request.0 request.1 shaped)

empty-IsDirectory : IsDirectory empty
empty-IsDirectory = record {
  ordered = record {
    numbered = λ position entry e. absurd (cc);
    earlier = λ position entry e. absurd (cc);
  };
  bounded = omega arith;
  entries = tt;
}

-- The definition of a listed identifier that is the visible one of the key.
pub record IsLatest (directory : ContextDirectory) (key : ContextKey) (position : SourceBitAddress)
    (candidate : ContextDefinition) : Type 0 where
  pub ids : List ContextDefinitionId
  pub id : ContextDefinitionId
  pub listed : find key directory.definitions_by_key ≡ some ids
  pub stands : get_elem? directory.definitions (id - 1) ≡ some candidate
  pub key_of : candidate.key ≡ key
  pub visible : IsVisible directory.definitions position ids (some id)

visible-Listed :
    (definitions : List ContextDefinition) (key : ContextKey) (position : SourceBitAddress)
    (ids : List ContextDefinitionId) (id : ContextDefinitionId)
    → All (Listed definitions key) ids
    → IsVisible definitions position ids (some id)
    → Listed definitions key id
visible-Listed definitions key position ids id listed (inl in_band) =
    All-get (Listed definitions key) ids in_band.place id in_band.there listed
visible-Listed definitions key position ids id listed (inr (no_band, last)) =
    All-get (Listed definitions key) ids last.place id last.there listed

candidate_of-IsLatest :
    (directory : ContextDirectory) (key : ContextKey) (position : SourceBitAddress)
    (candidate : ContextDefinition)
    → IsDirectory directory
    → candidate_of directory position key ≡ some candidate
    → IsLatest directory key position candidate
unfolding candidate_of
candidate_of-IsLatest directory key position candidate shaped is =
    elim (Option-cases (find key directory.definitions_by_key)) [
      | inl unlisted ↦
          absurd (let clash : none ≡ some candidate = rw (candidate_of, unlisted) at is in cc)
      | inr (ids, listed) ↦
          let (ascending, mine) =
            All-find (IsEntry directory.definitions) key directory.definitions_by_key listed
              shaped.entries in
          let seen = visible_candidate-IsVisible directory.definitions position ids ascending in
          elim (Option-cases (visible_candidate directory.definitions ids position)) [
            | inl hidden ↦
                absurd (
                  let clash : none ≡ some candidate = rw (candidate_of, listed, hidden) at is in cc)
            | inr (id, picked) ↦
                let visible : IsVisible directory.definitions position ids (some id) =
                  rw picked at seen in
                let there : get_elem? directory.definitions (id - 1) ≡ some candidate =
                  rw (candidate_of, listed, picked) at is in
                let (entry, (stands, named)) =
                  visible-Listed directory.definitions key position ids id mine visible in
                let same : entry ≡ candidate = cc in
                record {
                  ids = ids;
                  id = id;
                  listed = listed;
                  stands = there;
                  key_of = rw (← same) named;
                  visible = visible;
                }
          ]
    ]

-- what a lookup finds after any registrations in an empty directory is the visible definition of
-- its key, and its dependencies resolve to themselves
pub register_all-IsLatest :
    (requests : List (Option ContextDefinitionId × ContextDefinitionSpec)) (key : ContextKey)
    (position : SourceBitAddress) (candidate : ContextDefinition)
    → Found (resolve_before (register_all requests empty) key position) candidate
    → IsLatest (register_all requests empty) key position candidate
      × Resolved (register_all requests empty) position maximum_dependency_depth key candidate
unfolding Resolved
register_all-IsLatest requests key position candidate found =
    let directory = register_all requests empty in
    let shaped = register_all-IsDirectory requests empty empty-IsDirectory in
    let resolved =
      (resolve_before-Resolved directory key position candidate shaped.ordered).0 found in
    (candidate_of-IsLatest directory key position candidate shaped resolved.0, resolved)
