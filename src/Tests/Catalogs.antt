-- ===== src/Tests/Catalogs.antt =====
-- Examples of the catalog: two releases are saved.
use managed_python_runner_en.Prelude.{◌≡◌, refl, some, none, [], ◌∷◌, get, put, string_eq}
use managed_python_runner_en.Errors.{ok}
use managed_python_runner_en.Model.{OperatorRelease}
use managed_python_runner_en.Catalog.{Catalog, Manifest, get_release, read_runtime, save, save_as}
use managed_python_runner_en.Catalog.Releases.{save_keeps, get_release-save}

abbrev hello_manifest : Manifest
hello_manifest = record {
  id = some "hello-1";
  artifact_sha256 = some "00";
  runtime = some (record { id = some "py311"; image = some "python"; python = none });
  entrypoint = some "main:process";
  profile = none;
  input_attributes = none;
  output_attributes = none;
}

abbrev next_manifest : Manifest
next_manifest = record hello_manifest { id = some "hello-2" }

abbrev saved_release : OperatorRelease
saved_release = record {
  id = "hello-1";
  artifact_path = "catalog/hello-1/operator.tar.gz";
  artifact_sha256 = "00";
  runtime = record { id = "py311"; image = "python"; python = "3.12" };
  entrypoint = "main:process";
  profile = "standard";
  input_attributes = [];
  output_attributes = [];
}

abbrev empty_catalog : Catalog
empty_catalog = record { root = "catalog"; folders = [] }

abbrev one_release : Catalog
one_release = (save hello_manifest (1 ∷ []) empty_catalog).1

saved : (save hello_manifest (1 ∷ []) empty_catalog).0 ≡ ok saved_release
unfolding save save_as get_release read_runtime get put
saved = refl

readable : get_release one_release "hello-1" ≡ ok saved_release
unfolding save save_as get_release read_runtime get put
readable = refl

get_release-save_example :
    (get_release (save hello_manifest (1 ∷ []) empty_catalog).1 "hello-1" ≡ ok saved_release)
    × (hello_manifest.artifact_sha256 ≡ some "00")
get_release-save_example =
    get_release-save hello_manifest (1 ∷ []) empty_catalog "hello-1" saved_release refl saved

save_keeps_example :
    get_release (save next_manifest (2 ∷ []) one_release).1 "hello-1" ≡ ok saved_release
save_keeps_example = save_keeps next_manifest (2 ∷ []) one_release "hello-1" saved_release readable
