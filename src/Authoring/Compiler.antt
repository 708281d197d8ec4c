-- ===== src/Authoring/Compiler.antt =====
-- operator_authoring/compiler.py.
pub mod Bindings
pub mod Failures
use managed_python_runner_en.Authoring.Plans.{
  Rendering, CompiledParameter, BindingPayload, TargetPayload, ExecutionPlan, is_supported_kind,
  keys, has_key, parameter_map_onto, parameter_map, unknown_names, missing_names, is_empty, chained,
  same_flag, compiled_parameter, plain_payload, class_name_of, target_payload, line_of, or_empty,
  metadata_keys, insert_parameter, sorted_parameters,
}
use Prim.Native.Char.{Char}
use Prim.Native.String.{compare, ◌++◌}
use text.Mathlib.Text.{is_lt}
use text.Mathlib.TextBridge.{of_list}
use managed_python_runner_en.Prelude.{
  ℕ, String, Bool, true, false, not, ◌&&◌, ◌||◌, Option, none, some, List, [], ◌∷◌, ◌==◌,
  if◌then◌else◌, Dict, string_eq, get, put,
}
use managed_python_runner_en.Errors.{
  Result, ok, err, raise_error, value_error, key_error, contract_compilation_error, exception,
  ◌>>=◌, ◌>>◌,
}
use managed_python_runner_en.Build.Lock.{chars}
use managed_python_runner_en.Authoring.Texts.{join, sorted_set, cut}
use managed_python_runner_en.Authoring.Model.{
  CallableKind, function_kind, instance_method, static_method, class_method, BindingSource,
  input_metadata, operator_parameter, Codec, Json, CatalogWarning, ParameterInfo, CallableInfo,
  ClassInfo, ProjectCatalog, callable_by_id, class_by_target, first_by_id, OperatorParameterSpec,
  ArgumentBinding, OutputSpec, OutputValueSpec, is_missing, VirtualOperatorContract,
}

module _ (t : Rendering) where
  unfoldable pub unsupported_kinds : String → List ParameterInfo → List String
  unsupported_kinds label [] = []
  unsupported_kinds label (item ∷ parameters) =
      let rest = unsupported_kinds label parameters in
      if is_supported_kind item.kind
      then rest
      else (label ++ (t.repr item.name ++ (" uses unsupported kind " ++ item.kind))) ∷ rest

  unfoldable pub class_reasons : CallableInfo → ProjectCatalog → List String
  unfolding unsupported_kinds
  class_reasons info catalog = elim info.kind [
    | instance_method ↦ elim info.class_target [
      | none ↦ "instance method has no class metadata" ∷ []
      | some target ↦
          if target == ""
          then "instance method has no class metadata" ∷ []
          else elim (class_by_target catalog target) [
            | none ↦ "class metadata is missing" ∷ []
            | some class_info ↦
                unsupported_kinds "constructor parameter " class_info.constructor_parameters
          ]
    ]
    | _ ↦ []
  ]

  unfoldable pub callable_support_reasons : CallableInfo → ProjectCatalog → List String
  unfolding unsupported_kinds class_reasons
  callable_support_reasons info catalog =
      chained
        (if info.is_async then "async callable is not supported by Direct Invoke v1" ∷ [] else [])
        (chained (unsupported_kinds "parameter " info.parameters) (class_reasons info catalog))

  unfoldable pub reprs : List String → List String
  reprs [] = []
  reprs (value ∷ values) = t.repr value ∷ reprs values

  -- A list in an f-string.
  unfoldable pub shown : List String → String
  unfolding reprs
  shown values = "[" ++ (join ", " (reprs values) ++ "]")

  unfoldable pub validate_bindings :
      List ParameterInfo → Dict String ArgumentBinding → String → Result (Unit {0})
  unfolding unknown_names missing_names sorted_set parameter_map_onto shown
  validate_bindings parameters bindings label =
      let unknown = sorted_set (unknown_names (parameter_map parameters) bindings) in
      let missing = missing_names parameters bindings in
      if not (is_empty unknown)
      then raise_error contract_compilation_error
          (label ++ (" contains bindings for unknown parameters: " ++ shown unknown))
      else if not (is_empty missing)
      then raise_error contract_compilation_error
          (label ++ (" is missing required parameter bindings: " ++ shown missing))
      else ok tt

  -- The two `model_dump()`s are equal.
  unfoldable pub same_parameter : CompiledParameter → CompiledParameter → Bool
  same_parameter a b =
      a.key == b.key
      && a.display_name == b.display_name
      && a.description == b.description
      && same_flag a.required b.required
      && same_flag a.has_default b.has_default
      && t.equal a.default_value b.default_value

  unfoldable pub conflicts : CompiledParameter → Option CompiledParameter → Bool
  unfolding same_parameter
  conflicts compiled none = false
  conflicts compiled (some existing) = not (same_parameter existing compiled)

  unfoldable pub add_parameter :
      ParameterInfo
      → ArgumentBinding
      → OperatorParameterSpec
      → Dict String CompiledParameter
      → Result (BindingPayload × Dict String CompiledParameter)
  unfolding get put conflicts
  add_parameter parameter binding spec parameters =
      let compiled = compiled_parameter parameter spec in
      if conflicts compiled (get spec.key parameters)
      then raise_error contract_compilation_error
          ("conflicting definitions for operator parameter " ++ t.repr spec.key)
      else ok (
        record (plain_payload parameter binding) {
          parameter_key = some spec.key;
          required = compiled.required;
          has_default = compiled.has_default;
          default_value = compiled.default_value;
        },
        put spec.key compiled parameters,
      )

  -- An operator parameter without its spec fails an `assert`.
  unfoldable pub compile_binding :
      ParameterInfo
      → ArgumentBinding
      → Dict String CompiledParameter
      → Result (BindingPayload × Dict String CompiledParameter)
  unfolding add_parameter
  compile_binding parameter binding parameters = elim binding.source [
    | operator_parameter ↦ elim binding.parameter [
      | none ↦ err (exception "AssertionError: ")
      | some spec ↦ add_parameter parameter binding spec parameters
    ]
    | _ ↦ ok (plain_payload parameter binding, parameters)
  ]

  -- The dict comprehension, whose calls write `parameters` one after the other.
  unfoldable pub compile_each :
      Dict String ParameterInfo
      → Dict String ArgumentBinding
      → Dict String CompiledParameter
      → Result (Dict String BindingPayload × Dict String CompiledParameter)
  unfolding get compile_binding
  compile_each by_name [] parameters = ok ([], parameters)
  compile_each by_name ((name, binding) ∷ bindings) parameters = elim (get name by_name) [
    | none ↦ raise_error key_error (t.repr name)
    | some parameter ↦ compile_binding parameter binding parameters >>= λ first.
        compile_each by_name bindings first.1 >>= λ rest. ok ((name, first.0) ∷ rest.0, rest.1)
  ]

  unfoldable pub compile_bindings :
      List ParameterInfo
      → Dict String ArgumentBinding
      → Dict String CompiledParameter
      → Result (Dict String BindingPayload × Dict String CompiledParameter)
  unfolding parameter_map_onto compile_each
  compile_bindings parameter_defs bindings parameters =
      compile_each (parameter_map parameter_defs) bindings parameters

  unfoldable pub blocking_messages : List CatalogWarning → List String
  blocking_messages [] = []
  blocking_messages (item ∷ warnings) =
      let rest = blocking_messages warnings in
      if item.is_error
      then (item.file ++ (":" ++ (t.decimal (line_of item.line) ++ (": " ++ item.message)))) ∷ rest
      else rest

  -- The constructor's parameters, where their bindings are in order.
  unfoldable pub constructor_of :
      VirtualOperatorContract → CallableInfo → ProjectCatalog → Result (List ParameterInfo)
  unfolding validate_bindings
  constructor_of contract info catalog = elim info.kind [
    | instance_method ↦ elim (class_by_target catalog (or_empty info.class_target)) [
      | none ↦
          raise_error contract_compilation_error
            ("selected class not found: " ++ or_empty info.class_target)
      | some class_info ↦
          validate_bindings class_info.constructor_parameters contract.constructor_arguments
            "constructor arguments"
          >> ok class_info.constructor_parameters
    ]
    | _ ↦ elim contract.constructor_arguments [
      | [] ↦ ok []
      | item ∷ items ↦
          raise_error contract_compilation_error
            "constructor arguments are only valid for instance methods"
    ]
  ]

  unfoldable pub plan_of :
      VirtualOperatorContract
      → TargetPayload
      → Dict String BindingPayload
      → Dict String BindingPayload
      → Dict String CompiledParameter
      → ExecutionPlan
  unfolding sorted_set metadata_keys sorted_parameters keys
  plan_of contract target constructor_arguments arguments parameters = record {
    source_revision = contract.source.source_revision;
    source_ref = contract.source.source_ref;
    python_path = contract.source.python_path;
    target = target;
    constructor_arguments = constructor_arguments;
    arguments = arguments;
    output = contract.output;
    parameters = sorted_parameters parameters;
    input_metadata =
        sorted_set (chained (metadata_keys constructor_arguments) (metadata_keys arguments));
    output_metadata = sorted_set (keys contract.output.metadata);
    contract_sha256 = t.contract_sha256 contract;
  }

  -- From the checks on.
  unfoldable pub compile_callable :
      VirtualOperatorContract → CallableInfo → ProjectCatalog → Result ExecutionPlan
  unfolding constructor_of validate_bindings compile_bindings target_payload plan_of
  compile_callable contract info catalog =
      constructor_of contract info catalog >>= λ constructor_defs.
      validate_bindings info.parameters contract.arguments "invoke arguments" >>= λ valid.
      compile_bindings constructor_defs contract.constructor_arguments [] >>= λ first.
      compile_bindings info.parameters contract.arguments first.1 >>= λ second.
      target_payload info >>= λ target. ok (plan_of contract target first.0 second.0 second.1)

  unfoldable pub compile_virtual_contract :
      VirtualOperatorContract → ProjectCatalog → Result ExecutionPlan
  unfolding blocking_messages callable_support_reasons compile_callable first_by_id
  compile_virtual_contract contract catalog =
      let messages = blocking_messages catalog.warnings in
      if not (contract.source.source_revision == catalog.source_revision)
      then raise_error contract_compilation_error
          "source revision does not match the immutable source snapshot"
      else if not (contract.source.python_path == catalog.python_path)
      then raise_error contract_compilation_error
          "contract python_path does not match the analyzed project"
      else if not (is_empty messages)
      then raise_error contract_compilation_error
          ("source contains Python syntax errors: " ++ join "; " messages)
      else elim (callable_by_id catalog contract.callable_id) [
        | none ↦
            raise_error contract_compilation_error
              ("selected callable not found: " ++ contract.callable_id)
        | some info ↦
            (let reasons = callable_support_reasons info catalog in
              if not (is_empty reasons)
              then raise_error contract_compilation_error (join "; " reasons)
              else compile_callable contract info catalog)
      ]
