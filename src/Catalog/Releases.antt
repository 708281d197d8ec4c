-- ===== src/Catalog/Releases.antt =====
-- Releases are immutable.
use managed_python_runner_en.Prelude.{
  String, ◌≡◌, ◌≢◌, ◌∙◌, false, none, some, inl, inr, Bool-cases, Option-cases, arith, ◌==◌, eq_iff,
  eq_self, string_eq, get, get-put,
}
use managed_python_runner_en.Errors.{ok, Result-cases}
use managed_python_runner_en.Model.{Bytes, OperatorRelease}
use managed_python_runner_en.State.Codec.{item}
use managed_python_runner_en.Catalog.{
  Catalog, Folder, Manifest, get_release, same_release, written, save_as, save,
}

-- A release that can be read has a folder.
get_release-found :
    (c : Catalog) (release_id : String) (r : OperatorRelease)
    → get_release c release_id ≡ ok r
    → get release_id c.folders ≢ none
unfolding get_release
get_release-found c id r h missing = ground arith

-- What is read depends on the release's folder only.
get_release-same :
    (c : Catalog) (manifest : Manifest) (artifact : Bytes) (id other : String)
    → get other (written c manifest artifact id).folders ≡ get other c.folders
    → get_release (written c manifest artifact id) other ≡ get_release c other
unfolding get_release
get_release-same c manifest artifact id other same = rw same

save_as_keeps :
    (c : Catalog) (manifest : Manifest) (artifact : Bytes) (id other : String) (r : OperatorRelease)
    → get_release c other ≡ ok r
    → get_release (save_as c manifest artifact id).1 other ≡ ok r
unfolding save_as
save_as_keeps c manifest artifact id other r h = elim (Option-cases (get id c.folders)) [
  | inr (folder, e) ↦ rw (e, save_as) h
  | inl e ↦
      let differs : (id == other) ≡ false = elim (Bool-cases (id == other)) [
        | inr miss ↦ miss
        | inl hit ↦
            let same : id ≡ other = (eq_iff id other).0 hit in
            let missing : get other c.folders ≡ none = rw (← same) e in
            absurd (get_release-found c other r h missing)
      ] in
      rw (e, save_as)
        (get_release-same c manifest artifact id other (
            get-put id other (record { artifact = some artifact; metadata = some manifest })
              c.folders
            ∙ (rw differs))
          ∙ h)
]

-- A release that can be read is read as the same release after any save, whatever the save is of
-- and however it ends.
pub save_keeps :
    (manifest : Manifest) (artifact : Bytes) (c : Catalog) (other : String) (r : OperatorRelease)
    → get_release c other ≡ ok r
    → get_release (save manifest artifact c).1 other ≡ ok r
unfolding save
save_keeps manifest artifact c other r h = elim (Result-cases (item manifest.id "id")) [
  | inr (x, e) ↦ rw (e, save) h
  | inl (id, e) ↦ rw (e, save) (save_as_keeps c manifest artifact id other r h)
]

same_release-ok :
    (c : Catalog) (manifest : Manifest) (id : String) (r : OperatorRelease)
    → same_release c manifest id ≡ ok r
    → (get_release c id ≡ ok r) × (manifest.artifact_sha256 ≡ some r.artifact_sha256)
unfolding same_release
same_release-ok c manifest id r h = elim (Result-cases (get_release c id)) [
  | inr (x, e) ↦ absurd (ground arith)
  | inl (existing, e) ↦ elim (Option-cases manifest.artifact_sha256) [
    | inl e' ↦ absurd (ground arith)
    | inr (sha256, e') ↦ (ground arith, ground (arith, eq_iff existing.artifact_sha256 sha256))
  ]
]

get_release-sha256 :
    (c : Catalog) (id : String) (r : OperatorRelease) (artifact : Bytes) (manifest : Manifest)
    → get id c.folders ≡ some (record { artifact = some artifact; metadata = some manifest })
    → get_release c id ≡ ok r
    → manifest.artifact_sha256 ≡ some r.artifact_sha256
unfolding get_release
get_release-sha256 c id r artifact manifest at h = elim (Option-cases manifest.artifact_sha256) [
  | inl e ↦ absurd (ground arith)
  | inr (sha256, e) ↦ ground arith
]

-- Where save returns a release for a manifest with an identifier, get returns that release
-- afterwards, and its hash is the manifest's.
pub get_release-save :
    (manifest : Manifest) (artifact : Bytes) (c : Catalog) (release_id : String)
    (r : OperatorRelease)
    → manifest.id ≡ some release_id
    → (save manifest artifact c).0 ≡ ok r
    → (get_release (save manifest artifact c).1 release_id ≡ ok r)
      × (manifest.artifact_sha256 ≡ some r.artifact_sha256)
unfolding save save_as
get_release-save manifest artifact c id r named = elim (Option-cases (get id c.folders)) [
  | inr (folder, e) ↦ rw (named, save) (rw (e, save_as) (λ h. same_release-ok c manifest id r h))
  | inl e ↦
      let folder : Folder = record { artifact = some artifact; metadata = some manifest } in
      let at : get id (written c manifest artifact id).folders ≡ some folder =
        get-put id id folder c.folders ∙ (rw (eq_self id)) in
      rw (named, save)
        (rw (e, save_as)
          (λ h.
            (h, get_release-sha256 (written c manifest artifact id) id r artifact manifest at h)))
]
