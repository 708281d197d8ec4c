-- ===== src/Publish/Backends.antt =====
-- publish_service/backends: the contract of a backend that a virtual contract is compiled to. Hashes
-- and the canonical JSON are arguments; so is `str.upper` of one character. Options are texts.
pub mod Names
use Prim.Native.Char.{Char, char, code}
use Prim.Native.String.{◌++◌, slice}
use text.Mathlib.TextBridge.{of_list}
use managed_python_runner_en.Prelude.{
  ℕ, String, Bool, true, false, not, ◌&&◌, ◌||◌, Option, none, some, List, [], ◌∷◌, leb, eqb, ◌==◌,
  if◌then◌else◌, Dict, string_eq, get,
}
use managed_python_runner_en.Build.Lock.{chars}
use managed_python_runner_en.Authoring.Model.{Json, VirtualOperatorContract}
use managed_python_runner_en.Authoring.Plans.{CompiledParameter, ExecutionPlan}

pub record RunnerManifest : Type 0 where
  pub name : String
  pub entrypoint : String
  pub input_attributes : List String
  pub output_attributes : List String

pub record RunnerParameter : Type 0 where
  pub key : String
  pub nifi_property_name : String
  pub display_name : String
  pub description : String
  pub required : Bool
  pub has_default : Bool
  pub default_value : Option Json

pub record RunnerBackendContract : Type 0 where
  pub parent : VirtualOperatorContract
  pub parent_contract_id : String
  pub parent_contract_version : ℕ
  pub parent_contract_sha256 : String
  pub compiler_version : String
  pub variant_key : String
  pub runtime_profile : String
  pub runner_manifest : RunnerManifest
  pub parameters : List RunnerParameter

pub record NifiNativeBackendContract : Type 0 where
  pub parent : VirtualOperatorContract
  pub parent_contract_id : String
  pub parent_contract_version : ℕ
  pub parent_contract_sha256 : String
  pub compiler_version : String
  pub variant_key : String
  pub class_name : String
  pub package_name : String
  pub properties : List CompiledParameter
  pub requirements : List String

pub data BackendContract : Type 0 where
  runner_contract : RunnerBackendContract → BackendContract
  native_contract : NifiNativeBackendContract → BackendContract

-- What `backend_variant_key` hashes.
pub record VariantPayload : Type 0 where
  pub contract_sha256 : String
  pub backend : String
  pub compiler_version : String
  pub options : Dict String String

pub record BackendHashes : Type 0 where
  pub variant_sha256 : VariantPayload → String
  pub backend_contract_sha256 : BackendContract → String
  pub contract_json : BackendContract → Json
  pub options_json : Dict String String → Json
  pub upper : Char → Char

unfoldable pub runner_parameters : List CompiledParameter → List RunnerParameter
runner_parameters [] = []
runner_parameters (item ∷ items) =
    record {
      key = item.key;
      nifi_property_name = "Parameter." ++ item.key;
      display_name = item.display_name;
      description = item.description;
      required = item.required;
      has_default = item.has_default;
      default_value = item.default_value;
    }
    ∷ runner_parameters items

-- [A-Za-z0-9]
unfoldable pub is_alnum : Char → Bool
is_alnum c =
    (leb 65 (code c) && leb (code c) 90)
    || (leb 97 (code c) && leb (code c) 122)
    || (leb 48 (code c) && leb (code c) 57)

-- str.isdigit of a character of a name that has only ASCII digits
unfoldable pub is_digit : Char → Bool
is_digit c = leb 48 (code c) && leb (code c) 57

abbrev pub underscore : Char
underscore = char 95 tt

-- re.sub(r"[^A-Za-z0-9_]+", "_", value); the flag tells that the character before was replaced.
unfoldable pub substituted : Bool → List Char → List Char
unfolding is_alnum
substituted replaced [] = []
substituted replaced (c ∷ cs) =
    let kept = substituted false cs in
    let dropped = substituted true cs in
    if is_alnum c || eqb (code c) 95
    then c ∷ kept
    else if replaced
    then dropped
    else underscore ∷ dropped

-- .strip("_"), at the beginning
unfoldable pub lstrip_underscores : List Char → List Char
lstrip_underscores [] = []
lstrip_underscores (c ∷ cs) =
    let rest = lstrip_underscores cs in if eqb (code c) 95 then rest else c ∷ cs

-- .strip("_"), at the end
unfoldable pub rstrip_underscores : List Char → List Char
rstrip_underscores [] = []
rstrip_underscores (c ∷ cs) = elim (rstrip_underscores cs) [
  | [] ↦ if eqb (code c) 95 then [] else c ∷ []
  | d ∷ ds ↦ c ∷ d ∷ ds
]

abbrev pub generated : List Char → List Char
unfolding chars
generated [] = chars "GeneratedOperator"
generated (c ∷ cs) = c ∷ cs

abbrev pub not_digit_first : List Char → List Char
unfolding is_digit
not_digit_first [] = []
not_digit_first (c ∷ cs) = if is_digit c then underscore ∷ c ∷ cs else c ∷ cs

unfoldable pub identifier_chars : List Char → List Char
unfolding substituted lstrip_underscores rstrip_underscores chars is_digit
identifier_chars value =
    not_digit_first (generated (rstrip_underscores (lstrip_underscores (substituted false value))))

abbrev pub identifier : String → String
unfolding identifier_chars chars
identifier value = of_list (identifier_chars (chars value))

-- value[:8]
unfoldable pub first_eight : ℕ → List Char → List Char
first_eight ℕ.zero cs = []
first_eight (ℕ.suc n) [] = []
first_eight (ℕ.suc n) (c ∷ cs) = c ∷ first_eight n cs

abbrev pub prefix8 : String → String
unfolding first_eight chars
prefix8 text = of_list (first_eight 8 (chars text))

abbrev pub joined : List Char → List Char → List Char
joined [] more = more
joined (c ∷ cs) more = c ∷ joined cs more

-- The parts between other characters, each with a capital: the flag tells that a part begins.
unfoldable pub capitalised : (Char → Char) → Bool → List Char → List Char
unfolding is_alnum
capitalised upper begins [] = []
capitalised upper begins (c ∷ cs) =
    let inside = capitalised upper false cs in
    let outside = capitalised upper true cs in
    if is_alnum c then (if begins then upper c else c) ∷ inside else outside

abbrev pub operator_prefixed : List Char → List Char
unfolding is_digit chars
operator_prefixed [] = []
operator_prefixed (c ∷ cs) = if is_digit c then joined (chars "Operator") (c ∷ cs) else c ∷ cs

unfoldable pub class_name : (Char → Char) → String → String → String
unfolding capitalised chars is_digit
class_name upper name suffix =
    of_list (operator_prefixed (generated (capitalised upper true (chars name)))) ++ ("_" ++ suffix)

-- str(options.get(key) or other)
abbrev pub option_or : Dict String String → String → String → String
unfolding get
option_or options key other = elim (get key options) [
  | none ↦ other
  | some value ↦ if value == "" then other else value
]

-- str(options.get(key, other))
abbrev pub option_default : Dict String String → String → String → String
unfolding get
option_default options key other = elim (get key options) [ none ↦ other | some value ↦ value ]

module _ (t : BackendHashes) where
  unfoldable pub compile_runner_contract :
      String
      → ℕ
      → VirtualOperatorContract
      → ExecutionPlan
      → Dict String String
      → RunnerBackendContract
  unfolding get runner_parameters
  compile_runner_contract contract_id contract_version parent plan options =
      let profile = option_default options "profile" "standard" in
      record {
        parent = parent;
        parent_contract_id = contract_id;
        parent_contract_version = contract_version;
        parent_contract_sha256 = plan.contract_sha256;
        compiler_version = "runner-contract-v1";
        variant_key = t.variant_sha256 (record {
          contract_sha256 = plan.contract_sha256;
          backend = "runner";
          compiler_version = "runner-contract-v1";
          options = ("profile", profile) ∷ [];
        });
        runtime_profile = profile;
        runner_manifest = record {
          name = parent.metadata.name;
          entrypoint = "__dsc_entry__:process";
          input_attributes = plan.input_metadata;
          output_attributes = plan.output_metadata;
        };
        parameters = runner_parameters plan.parameters;
      }

  -- `requirements` is what `read_requirements` found in the source.
  unfoldable pub compile_nifi_native_contract :
      String
      → ℕ
      → VirtualOperatorContract
      → ExecutionPlan
      → List String
      → Dict String String
      → NifiNativeBackendContract
  unfolding get class_name identifier_chars
  compile_nifi_native_contract contract_id contract_version parent plan requirements options =
      let suffix = prefix8 plan.contract_sha256 in
      let named = option_or options "className" (class_name t.upper parent.metadata.name suffix) in
      let packaged =
        option_or options "packageName"
          (identifier ("dsc_" ++ (parent.metadata.name ++ ("_" ++ suffix)))) in
      record {
        parent = parent;
        parent_contract_id = contract_id;
        parent_contract_version = contract_version;
        parent_contract_sha256 = plan.contract_sha256;
        compiler_version = "nifi-native-contract-v1";
        variant_key = t.variant_sha256 (record {
          contract_sha256 = plan.contract_sha256;
          backend = "nifi_native";
          compiler_version = "nifi-native-contract-v1";
          options = ("className", named) ∷ ("packageName", packaged) ∷ [];
        });
        class_name = named;
        package_name = packaged;
        properties = plan.parameters;
        requirements = requirements;
      }
