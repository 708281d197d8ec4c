-- ===== src/Authoring/Plans.antt =====
-- The plan of operator_authoring/compiler.py, and what it is put together from.
use Prim.Native.String.{compare}
use text.Mathlib.Text.{is_lt}
use text.Mathlib.TextBridge.{of_list}
use managed_python_runner_en.Prelude.{
  ℕ, String, Bool, true, false, not, ◌&&◌, ◌||◌, Option, none, some, List, [], ◌∷◌, ◌==◌,
  if◌then◌else◌, Dict, string_eq, put,
}
use managed_python_runner_en.Errors.{Result, ok, raise_error, value_error, ◌>>=◌}
use managed_python_runner_en.Build.Lock.{chars}
use managed_python_runner_en.Authoring.Texts.{cut}
use managed_python_runner_en.Authoring.Model.{
  CallableKind, BindingSource, input_metadata, Codec, Json, ParameterInfo, CallableInfo,
  OperatorParameterSpec, ArgumentBinding, OutputSpec, is_missing, VirtualOperatorContract,
}

-- What Python and SHA-256 compute: `repr` of a text, `str` of a number, whether two values are equal,
-- and `contract_sha256`, the hash of the canonical JSON.
pub record Rendering : Type 0 where
  pub repr : String → String
  pub decimal : ℕ → String
  pub equal : Option Json → Option Json → Bool
  pub contract_sha256 : VirtualOperatorContract → String

pub record CompiledParameter : Type 0 where
  pub key : String
  pub display_name : String
  pub description : String
  pub required : Bool
  pub has_default : Bool
  pub default_value : Option Json

-- The dict that `_compile_binding` returns.
pub record BindingPayload : Type 0 where
  pub source : BindingSource
  pub codec : Codec
  pub required : Bool
  pub metadata_key : Option String
  pub parameter_key : Option String
  pub constant : Option Json
  pub has_default : Bool
  pub default_value : Option Json

-- The dict that `_target_payload` returns.
pub record TargetPayload : Type 0 where
  pub kind : CallableKind
  pub module_name : String
  pub qualname : String
  pub class_target : Option String
  pub method_name : Option String
  pub class_name : Option (String × String)

pub record ExecutionPlan : Type 0 where
  pub source_revision : String
  pub source_ref : Option String
  pub python_path : String
  pub target : TargetPayload
  pub constructor_arguments : Dict String BindingPayload
  pub arguments : Dict String BindingPayload
  pub output : OutputSpec
  pub parameters : List CompiledParameter
  pub input_metadata : List String
  pub output_metadata : List String
  pub contract_sha256 : String

abbrev pub is_supported_kind : String → Bool
is_supported_kind kind = kind == "POSITIONAL_OR_KEYWORD" || kind == "KEYWORD_ONLY"

unfoldable pub keys : {V : Type 0} → Dict String V → List String
keys [] = []
keys ((name, value) ∷ d) = name ∷ keys d

-- `in` of a dict
unfoldable pub has_key : {V : Type 0} → String → Dict String V → Bool
has_key name [] = false
has_key name ((other, value) ∷ d) = other == name || has_key name d

unfoldable pub parameter_map_onto :
    Dict String ParameterInfo → List ParameterInfo → Dict String ParameterInfo
unfolding put
parameter_map_onto d [] = d
parameter_map_onto d (item ∷ parameters) = parameter_map_onto (put item.name item d) parameters

abbrev pub parameter_map : List ParameterInfo → Dict String ParameterInfo
parameter_map parameters = parameter_map_onto [] parameters

-- The names that are bound and are no parameter's.
unfoldable pub unknown_names :
    {V : Type 0} → Dict String ParameterInfo → Dict String V → List String
unfolding has_key
unknown_names known [] = []
unknown_names known ((name, value) ∷ d) =
    let rest = unknown_names known d in if has_key name known then rest else name ∷ rest

unfoldable pub missing_names : {V : Type 0} → List ParameterInfo → Dict String V → List String
unfolding has_key
missing_names [] bindings = []
missing_names (item ∷ parameters) bindings =
    let rest = missing_names parameters bindings in
    if item.required && not (has_key item.name bindings) then item.name ∷ rest else rest

-- truthiness of a list
abbrev pub is_empty : List String → Bool
is_empty [] = true
is_empty (value ∷ values) = false

abbrev pub chained : List String → List String → List String
chained [] more = more
chained (value ∷ values) more = value ∷ chained values more

abbrev pub same_flag : Bool → Bool → Bool
same_flag a b = if a then b else not b

abbrev pub compiled_parameter : ParameterInfo → OperatorParameterSpec → CompiledParameter
compiled_parameter parameter spec = record {
  key = spec.key;
  display_name = if spec.display_name == "" then spec.key else spec.display_name;
  description = spec.description;
  required = spec.required || parameter.required;
  has_default = spec.has_default;
  default_value = spec.default_value;
}

abbrev pub plain_payload : ParameterInfo → ArgumentBinding → BindingPayload
plain_payload parameter binding = record {
  source = binding.source;
  codec = binding.codec;
  required = parameter.required;
  metadata_key = binding.metadata_key;
  parameter_key = none;
  constant = binding.constant;
  has_default = false;
  default_value = none;
}

unfoldable pub class_name_of : Option String → Result (Option (String × String))
unfolding cut chars
class_name_of none = ok none
class_name_of (some target) = if target == "" then ok none else elim (cut 58 (chars target)) [
  | none ↦ raise_error value_error "not enough values to unpack (expected 2, got 1)"
  | some (module_name, qualname) ↦ ok (some (of_list module_name, of_list qualname))
]

unfoldable pub target_payload : CallableInfo → Result TargetPayload
unfolding class_name_of
target_payload info = class_name_of info.class_target >>= λ class_name. ok (record {
  kind = info.kind;
  module_name = info.module_name;
  qualname = info.qualname;
  class_target = info.class_target;
  method_name = info.method_name;
  class_name = class_name;
})

abbrev pub line_of : Option ℕ → ℕ
line_of none = 0
line_of (some line) = line

abbrev pub or_empty : Option String → String
or_empty none = ""
or_empty (some text) = text

-- The metadata keys of the bindings that read the input's metadata.
unfoldable pub metadata_keys : Dict String BindingPayload → List String
metadata_keys [] = []
metadata_keys ((name, item) ∷ items) =
    let rest = metadata_keys items in
    elim item.source [
      | input_metadata ↦
          if is_missing item.metadata_key then rest else or_empty item.metadata_key ∷ rest
      | _ ↦ rest
    ]

-- sorted(parameters.values(), key=…): the keys differ.
unfoldable pub insert_parameter :
    CompiledParameter → List CompiledParameter → List CompiledParameter
insert_parameter item [] = item ∷ []
insert_parameter item (other ∷ items) =
    let rest = insert_parameter item items in
    if is_lt (compare other.key item.key) then other ∷ rest else item ∷ other ∷ items

unfoldable pub sorted_parameters : Dict String CompiledParameter → List CompiledParameter
unfolding insert_parameter
sorted_parameters [] = []
sorted_parameters ((key, item) ∷ parameters) = insert_parameter item (sorted_parameters parameters)
