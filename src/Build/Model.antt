-- ===== src/Build/Model.antt =====
-- `RuntimeBuildSpec` of build_service/model.py. SHA-256 and the canonical JSON are in `Digests`.
use Prim.Native.String.{find, len}
use managed_python_runner_en.Prelude.{String, Bool, not, ltb, if◌then◌else◌}
use managed_python_runner_en.Errors.{Result, ok, raise_error, value_error}
use managed_python_runner_en.Build.Lock.{Packages, parse_locked_packages}

pub record RuntimeBuildSpec : Type 0 where
  pub base_image : String
  pub python_version : String
  pub platform : String
  pub requirements_lock : String
  pub build_policy_version : String

-- The dict `identity`; its "schema" is always 1.
pub record BuildIdentity : Type 0 where
  pub base_image : String
  pub python_version : String
  pub platform : String
  pub requirements_lock_sha256 : String
  pub build_policy_version : String

-- What other libraries compute: the SHA-256 of a text and that of an identity's canonical JSON, in
-- hexadecimal, `canonicalize_name`, and `repr` of a text.
pub record Digests : Type 0 where
  pub text_sha256 : String → String
  pub identity_sha256 : BuildIdentity → String
  pub canonicalize_name : String → String
  pub repr : String → String

abbrev pub lock_sha256 : Digests → RuntimeBuildSpec → String
lock_sha256 d spec = d.text_sha256 spec.requirements_lock

abbrev pub packages_of : Digests → RuntimeBuildSpec → Result Packages
packages_of d spec = parse_locked_packages d.canonicalize_name d.repr spec.requirements_lock

-- "@sha256:" in base_image
unfoldable pub is_pinned : String → Bool
is_pinned base_image = ltb (find base_image "@sha256:") (len base_image)

unfoldable pub env_key : Digests → RuntimeBuildSpec → Result String
env_key d spec =
    if not (is_pinned spec.base_image)
    then raise_error value_error "base_image must be pinned as repo@sha256:<digest>"
    else ok (
        d.identity_sha256 (record {
          base_image = spec.base_image;
          python_version = spec.python_version;
          platform = spec.platform;
          requirements_lock_sha256 = lock_sha256 d spec;
          build_policy_version = spec.build_policy_version;
        }))
