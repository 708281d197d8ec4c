-- ===== src/Publish/Selection.antt =====
-- publish_service/selection.py, and the requests of publish_service/model.py that it reads.
pub mod Valid
use managed_python_runner_en.Prelude.{
  ℕ, String, Bool, true, false, Option, none, some, List, [], ◌∷◌, ◌==◌, if◌then◌else◌, Dict,
}
use managed_python_runner_en.Errors.{Result, ok, raise_error, value_error, ◌>>=◌}
use managed_python_runner_en.Authoring.Model.{
  BindingSource, input_metadata, operator_parameter, Codec, NonePolicy, OutputValueSource, Json,
  PathPart, OperatorParameterSpec, validate_key, ArgumentBinding, is_missing, validate_binding,
  validate_name, OutputValueSpec, validate_value, OutputSpec, validate_python_path,
  VirtualOperatorContract,
}
use managed_python_runner_en.Authoring.Plans.{or_empty}

pub record BindingSelection : Type 0 where
  pub source : BindingSource
  pub codec : Codec
  pub metadata_key : Option String
  pub parameter_key : Option String
  pub parameter_display_name : Option String
  pub parameter_description : String
  pub parameter_required : Bool
  pub parameter_has_default : Bool
  pub parameter_default : Option Json
  pub constant : Option Json

unfoldable pub validate_selection : BindingSelection → Result BindingSelection
validate_selection value = elim value.source [
  | input_metadata ↦
      if is_missing value.metadata_key
      then raise_error value_error "input.metadata requires metadataKey"
      else ok value
  | operator_parameter ↦
      if is_missing value.parameter_key
      then raise_error value_error "operator.parameter requires parameterKey"
      else ok value
  | _ ↦ ok value
]

pub record OutputValueSelection : Type 0 where
  pub source : OutputValueSource
  pub path : List PathPart
  pub codec : Codec
  pub value : Option Json

pub record OutputSelection : Type 0 where
  pub payload : OutputValueSelection
  pub metadata : Dict String OutputValueSelection
  pub none_policy : NonePolicy

pub record OperatorSelection : Type 0 where
  pub name : String
  pub display_name : String
  pub description : String

pub record CreateVirtualContractRequest : Type 0 where
  pub workspace : String
  pub source_revision : String
  pub python_root : String
  pub operator : OperatorSelection
  pub callable_id : String
  pub constructor_bindings : Dict String BindingSelection
  pub argument_bindings : Dict String BindingSelection
  pub output : OutputSelection

-- value or other
abbrev pub text_or : Option String → String → String
text_or none other = other
text_or (some text) other = if text == "" then other else text

unfoldable pub parameter_spec : BindingSelection → Result (Option OperatorParameterSpec)
unfolding validate_key
parameter_spec value = elim value.source [
  | operator_parameter ↦ validate_key (or_empty value.parameter_key) >>= λ key. ok (
      some (record {
        key = key;
        display_name = text_or value.parameter_display_name (or_empty value.parameter_key);
        description = value.parameter_description;
        required = value.parameter_required;
        has_default = value.parameter_has_default;
        default_value = value.parameter_default;
      }))
  | _ ↦ ok none
]

unfoldable pub binding : BindingSelection → Result ArgumentBinding
unfolding parameter_spec validate_binding
binding value = parameter_spec value >>= λ parameter. validate_binding (record {
  source = value.source;
  codec = value.codec;
  metadata_key = value.metadata_key;
  parameter = parameter;
  constant = value.constant;
})

unfoldable pub bindings : Dict String BindingSelection → Result (Dict String ArgumentBinding)
unfolding binding
bindings [] = ok []
bindings ((name, value) ∷ items) =
    binding value >>= λ first. bindings items >>= λ rest. ok ((name, first) ∷ rest)

unfoldable pub output_value : OutputValueSelection → Result OutputValueSpec
unfolding validate_value
output_value item =
    validate_value
      (record { source = item.source; path = item.path; codec = item.codec; value = item.value })

unfoldable pub output_values :
    Dict String OutputValueSelection → Result (Dict String OutputValueSpec)
unfolding output_value
output_values [] = ok []
output_values ((name, item) ∷ items) =
    output_value item >>= λ first. output_values items >>= λ rest. ok ((name, first) ∷ rest)

unfoldable pub selection_to_virtual_contract :
    CreateVirtualContractRequest → Option String → Result VirtualOperatorContract
unfolding validate_name validate_python_path bindings output_value output_values
selection_to_virtual_contract selection source_ref =
    validate_name selection.operator.name >>= λ name.
    validate_python_path selection.python_root >>= λ python_path.
    bindings selection.constructor_bindings >>= λ constructor_arguments.
    bindings selection.argument_bindings >>= λ arguments.
    output_value selection.output.payload >>= λ payload.
    output_values selection.output.metadata >>= λ metadata. ok (record {
      metadata = record {
        name = name;
        display_name = selection.operator.display_name;
        description = selection.operator.description;
      };
      source = record {
        source_revision = selection.source_revision;
        python_path = python_path;
        source_ref = source_ref;
      };
      callable_id = selection.callable_id;
      constructor_arguments = constructor_arguments;
      arguments = arguments;
      output = record {
        payload = payload;
        metadata = metadata;
        none_policy = selection.output.none_policy;
      };
    })
