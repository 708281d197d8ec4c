-- ===== src/Catalog.antt =====
-- runner_engine/catalog.py: `Catalog`, a folder for each release. A folder is there once its
-- release is being saved; a temporary file that is renamed at once is not kept apart. `json` reads
-- back what it wrote: `release.json` is the manifest.
pub mod Releases
use Prim.Native.String.{◌++◌}
use managed_python_runner_en.Prelude.{
  String, Bool, not, Option, none, some, List, [], ◌==◌, if◌then◌else◌, Dict, string_eq, get, put,
}
use managed_python_runner_en.Errors.{Result, ok, err, catalog, raise, raise_if, ◌>>=◌, ◌>>◌}
use managed_python_runner_en.Model.{Bytes, RuntimeEnv, OperatorRelease}
use managed_python_runner_en.State.Codec.{get_or, item}

pub record RuntimeManifest : Type 0 where
  pub id : Option String
  pub image : Option String
  pub python : Option String

-- The keys that the catalog reads, of which any may be missing.
pub record Manifest : Type 0 where
  pub id : Option String
  pub artifact_sha256 : Option String
  pub runtime : Option RuntimeManifest
  pub entrypoint : Option String
  pub profile : Option String
  pub input_attributes : Option (List String)
  pub output_attributes : Option (List String)

-- operator.tar.gz and release.json
pub record Folder : Type 0 where
  pub artifact : Option Bytes
  pub metadata : Option Manifest

pub record Catalog : Type 0 where
  pub root : String
  pub folders : Dict String Folder

abbrev metadata_of : Option Folder → Option Manifest
metadata_of none = none
metadata_of (some folder) = folder.metadata

abbrev artifact_of : Option Folder → Option Bytes
artifact_of none = none
artifact_of (some folder) = folder.artifact

-- `is_file`, and what `get` raises where it is False.
abbrev found {ℓ} : {A : Type ℓ} → Option A → String → String → Result A
found none code message = raise catalog code message Bool.false
found (some a) code message = ok a

unfoldable pub read_runtime : RuntimeManifest → Result RuntimeEnv
read_runtime raw = do
  id ← item raw.id "id"
  image ← item raw.image "image"
  ok (record { id = id; image = image; python = get_or raw.python "3.12" })

unfoldable pub get_release : Catalog → String → Result OperatorRelease
unfolding read_runtime
get_release c release_id = do
  raw ←
      found (metadata_of (get release_id c.folders)) "RELEASE_NOT_FOUND"
        ("unknown release " ++ release_id)
  runtime_raw ← item raw.runtime "runtime"
  runtime ← read_runtime runtime_raw
  artifact ←
      found (artifact_of (get release_id c.folders)) "ARTIFACT_NOT_FOUND"
        ("artifact missing for " ++ release_id)
  id ← item raw.id "id"
  sha256 ← item raw.artifact_sha256 "artifact_sha256"
  entrypoint ← item raw.entrypoint "entrypoint"
  ok (record {
    id = id;
    artifact_path = c.root ++ ("/" ++ (release_id ++ "/operator.tar.gz"));
    artifact_sha256 = sha256;
    runtime = runtime;
    entrypoint = entrypoint;
    profile = get_or raw.profile "standard";
    input_attributes = get_or raw.input_attributes [];
    output_attributes = get_or raw.output_attributes [];
  })

-- A release whose folder is there: nothing is written.
unfoldable pub same_release : Catalog → Manifest → String → Result OperatorRelease
unfolding get_release
same_release c manifest release_id = do
  existing ← get_release c release_id
  sha256 ← item manifest.artifact_sha256 "artifact_sha256"
  raise_if (not (existing.artifact_sha256 == sha256)) catalog "CATALOG_CONFLICT"
      ("release " ++ (release_id ++ " already exists with different bits")) Bool.false
  ok existing

abbrev pub written : Catalog → Manifest → Bytes → String → Catalog
written c manifest artifact release_id = record c {
  folders =
      put release_id (record { artifact = some artifact; metadata = some manifest }) c.folders;
}

unfoldable pub save_as : Catalog → Manifest → Bytes → String → Result OperatorRelease × Catalog
unfolding same_release get_release
save_as c manifest artifact release_id = elim (get release_id c.folders) [
  | some _ ↦ (same_release c manifest release_id, c)
  | none ↦ (
    get_release (written c manifest artifact release_id) release_id,
    written c manifest artifact release_id,
  )
]

unfoldable pub save : Manifest → Bytes → Catalog → Result OperatorRelease × Catalog
unfolding save_as
save manifest artifact c = elim (item manifest.id "id") [
  | err e ↦ (err e, c)
  | ok release_id ↦ save_as c manifest artifact release_id
]
