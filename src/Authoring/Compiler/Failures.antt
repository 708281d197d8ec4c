-- ===== src/Authoring/Compiler/Failures.antt =====
-- Whatever is wrong with a contract whose bindings are valid, compiling it raises a ValueError.
use managed_python_runner_en.Prelude.{
  String, ◌≡◌, refl, true, List, [], ◌∷◌, arith, ◌⊎◌, inl, inr, Option-cases, Dict, string_eq, All,
}
use managed_python_runner_en.Errors.{ok, err, Error, Result-cases}
use managed_python_runner_en.Http.{is_value_error}
use managed_python_runner_en.Build.Lock.{chars}
use managed_python_runner_en.Authoring.Texts.{cut}
use managed_python_runner_en.Authoring.Model.{
  BindingSource, input_payload, input_metadata, operator_parameter, constant_source, ParameterInfo,
  OperatorParameterSpec, CallableInfo, ProjectCatalog, callable_by_id, class_by_target,
  ArgumentBinding, validate_binding, VirtualOperatorContract,
}
use managed_python_runner_en.Authoring.Plans.{
  Rendering, CompiledParameter, parameter_map, unknown_names, or_empty, class_name_of,
  target_payload,
}
use managed_python_runner_en.Authoring.Compiler.{
  validate_bindings, add_parameter, compile_binding, compile_each, compile_bindings, constructor_of,
  compile_callable, compile_virtual_contract,
}
use managed_python_runner_en.Authoring.Compiler.Bindings.{
  has_key-get, kind_cases, validate_bindings-Bound, constructor_of-Bound,
}

abbrev pub ValidBindings : Dict String ArgumentBinding → Type 0
ValidBindings bindings = All (λ item. validate_binding item.1 ≡ ok item.1) bindings

pub source_cases :
    (s : BindingSource)
    → (s ≡ operator_parameter)
      ⊎ ((s ≡ input_payload) ⊎ ((s ≡ input_metadata) ⊎ (s ≡ constant_source)))
source_cases input_payload = inr (inl refl)
source_cases input_metadata = inr (inr (inl refl))
source_cases operator_parameter = inl refl
source_cases constant_source = inr (inr (inr refl))

module _ (t : Rendering) where
  validate_bindings-failure :
      (parameters : List ParameterInfo) (bindings : Dict String ArgumentBinding) (label : String)
      (e : Error)
      → validate_bindings t parameters bindings label ≡ err e
      → is_value_error e ≡ true
  unfolding validate_bindings is_value_error
  validate_bindings-failure parameters bindings label e h = ground arith

  add_parameter-failure :
      (parameter : ParameterInfo) (binding : ArgumentBinding) (spec : OperatorParameterSpec)
      (parameters : Dict String CompiledParameter) (e : Error)
      → add_parameter t parameter binding spec parameters ≡ err e
      → is_value_error e ≡ true
  unfolding add_parameter is_value_error
  add_parameter-failure parameter binding spec parameters e h = ground arith

  compile_binding-failure :
      (parameter : ParameterInfo) (binding : ArgumentBinding)
      (parameters : Dict String CompiledParameter) (e : Error)
      → validate_binding binding ≡ ok binding
      → compile_binding t parameter binding parameters ≡ err e
      → is_value_error e ≡ true
  unfolding compile_binding validate_binding
  compile_binding-failure parameter binding parameters e valid h =
      elim (source_cases binding.source) [
        | inl s ↦ elim (Option-cases binding.parameter) [
          | inl missing ↦ absurd (ground arith)
          | inr (spec, given) ↦
              add_parameter-failure parameter binding spec parameters e (ground arith)
        ]
        | inr (inl s) ↦ absurd (ground arith)
        | inr (inr (inl s)) ↦ absurd (ground arith)
        | inr (inr (inr s)) ↦ absurd (ground arith)
      ]

  compile_each-failure :
      (by_name : Dict String ParameterInfo) (bindings : Dict String ArgumentBinding)
      (parameters : Dict String CompiledParameter) (e : Error)
      → ValidBindings bindings
      → unknown_names by_name bindings ≡ []
      → compile_each t by_name bindings parameters ≡ err e
      → is_value_error e ≡ true
  unfolding compile_each unknown_names
  compile_each-failure by_name [] parameters e valid known h = absurd (ground arith)
  compile_each-failure by_name ((name, binding) ∷ bindings) parameters e valid known h =
      let (parameter, found) = has_key-get name by_name (ground arith) in
      elim (Result-cases (compile_binding t parameter binding parameters)) [
        | inr (raised, k) ↦
            compile_binding-failure parameter binding parameters e valid.0 (ground arith)
        | inl ((payload, mid), k) ↦ elim (Result-cases (compile_each t by_name bindings mid)) [
          | inr (raised, k') ↦
              compile_each-failure by_name bindings mid e valid.1 (ground arith) (ground arith)
          | inl ((rest, last), k') ↦ absurd (ground arith)
        ]
      ]

  target_payload-failure :
      (info : CallableInfo) (e : Error) → target_payload info ≡ err e → is_value_error e ≡ true
  unfolding target_payload class_name_of is_value_error
  target_payload-failure info e h = elim (Option-cases info.class_target) [
    | inl missing ↦ absurd (ground arith)
    | inr (target, given) ↦ elim (Option-cases (cut 58 (chars target))) [
      | inl bad ↦ ground arith
      | inr (parts, good) ↦ absurd (ground arith)
    ]
  ]

  constructor_of-failure :
      (contract : VirtualOperatorContract) (info : CallableInfo) (catalog : ProjectCatalog)
      (e : Error)
      → constructor_of t contract info catalog ≡ err e
      → is_value_error e ≡ true
  unfolding constructor_of is_value_error
  constructor_of-failure contract info catalog e h = elim (kind_cases t info.kind) [
    | inl k ↦ elim (Option-cases (class_by_target catalog (or_empty info.class_target))) [
      | inl missing ↦ ground arith
      | inr (c, found) ↦
          validate_bindings-failure c.constructor_parameters contract.constructor_arguments
            "constructor arguments" e (ground arith)
    ]
    | inr (inl k) ↦ ground arith
    | inr (inr (inl k)) ↦ ground arith
    | inr (inr (inr k)) ↦ ground arith
  ]

  compile_callable-failure :
      (contract : VirtualOperatorContract) (info : CallableInfo) (catalog : ProjectCatalog)
      (e : Error)
      → ValidBindings contract.constructor_arguments
      → ValidBindings contract.arguments
      → compile_callable t contract info catalog ≡ err e
      → is_value_error e ≡ true
  unfolding compile_callable compile_bindings
  compile_callable-failure contract info catalog e vc va h =
      elim (Result-cases (constructor_of t contract info catalog)) [
        | inr (raised, c) ↦ constructor_of-failure contract info catalog e (ground arith)
        | inl (defs, c) ↦
            elim (Result-cases
              (validate_bindings t info.parameters contract.arguments "invoke arguments")) [
                | inr (raised, v) ↦
                    validate_bindings-failure info.parameters contract.arguments "invoke arguments"
                      e (ground arith)
                | inl (done, v) ↦
                    elim (Result-cases
                      (compile_each t (parameter_map defs) contract.constructor_arguments [])) [
                        | inr (raised, k) ↦
                            compile_each-failure (parameter_map defs) contract.constructor_arguments
                              [] e vc (constructor_of-Bound t contract info catalog defs c).known
                              (ground arith)
                        | inl ((first, mid), k) ↦
                            elim (Result-cases (
                              compile_each t (parameter_map info.parameters) contract.arguments
                                mid)) [
                                  | inr (raised, k') ↦
                                      compile_each-failure (parameter_map info.parameters)
                                        contract.arguments mid e va
                                        (validate_bindings-Bound t info.parameters
                                          contract.arguments "invoke arguments" v).known
                                        (ground arith)
                                  | inl ((second, last), k') ↦
                                      target_payload-failure info e (ground arith)
                                ]
                      ]
              ]
      ]

  pub compile_virtual_contract-failure :
      (contract : VirtualOperatorContract) (catalog : ProjectCatalog) (e : Error)
      → ValidBindings contract.constructor_arguments
      → ValidBindings contract.arguments
      → compile_virtual_contract t contract catalog ≡ err e
      → is_value_error e ≡ true
  unfolding compile_virtual_contract is_value_error
  compile_virtual_contract-failure contract catalog e vc va h =
      elim (Option-cases (callable_by_id catalog contract.callable_id)) [
        | inl missing ↦ ground arith
        | inr (info, found) ↦ ground (arith, compile_callable-failure contract info catalog e vc va)
      ]
