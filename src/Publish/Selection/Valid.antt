-- ===== src/Publish/Selection/Valid.antt =====
-- A contract that is made from a request has valid bindings, and so compiles or is refused.
use managed_python_runner_en.Prelude.{
  String, ◌≡◌, subst, true, Option, [], ◌∷◌, arith, ◌⊎◌, inl, inr, Option-cases, Dict,
}
use managed_python_runner_en.Errors.{Result, ok, err, Error, Result-cases, ◌>>=◌}
use managed_python_runner_en.Http.{is_value_error}
use managed_python_runner_en.Authoring.Model.{
  ArgumentBinding, validate_binding, validate_key, validate_name, validate_python_path,
  validate_value, ProjectCatalog, VirtualOperatorContract,
}
use managed_python_runner_en.Authoring.Plans.{Rendering, ExecutionPlan}
use managed_python_runner_en.Authoring.Compiler.{compile_virtual_contract}
use managed_python_runner_en.Authoring.Compiler.Failures.{
  ValidBindings, source_cases, compile_virtual_contract-failure,
}
use managed_python_runner_en.Publish.Selection.{
  BindingSelection, OutputValueSelection, CreateVirtualContractRequest, parameter_spec, binding,
  bindings, output_value, output_values, selection_to_virtual_contract,
}

validate_binding_same : (b c : ArgumentBinding) → validate_binding b ≡ ok c → b ≡ c
unfolding validate_binding
validate_binding_same b c h = elim (source_cases b.source) [
  | inl s ↦ elim (Option-cases b.parameter) [
    | inl e ↦ absurd (ground arith)
    | inr (x, e) ↦ ground arith
  ]
  | inr (inl s) ↦ ground arith
  | inr (inr (inl s)) ↦ ground arith
  | inr (inr (inr s)) ↦ ground arith
]

binding-valid :
    (value : BindingSelection) (b : ArgumentBinding)
    → binding value ≡ ok b
    → validate_binding b ≡ ok b
unfolding binding
binding-valid value b h = elim (Result-cases (parameter_spec value)) [
  | inr (e, k) ↦ absurd (ground arith)
  | inl (parameter, k) ↦
      let made : ArgumentBinding = record {
        source = value.source;
        codec = value.codec;
        metadata_key = value.metadata_key;
        parameter = parameter;
        constant = value.constant;
      } in
      let passes : validate_binding made ≡ ok b = ground arith in
      subst (λ x. validate_binding x ≡ ok b) (validate_binding_same made b passes) passes
]

bindings-ValidBindings :
    (items : Dict String BindingSelection) (result : Dict String ArgumentBinding)
    → bindings items ≡ ok result
    → ValidBindings result
unfolding bindings
bindings-ValidBindings [] result h = (let same : result ≡ [] = ground arith in rw same tt)
bindings-ValidBindings ((name, value) ∷ items) result h = elim (Result-cases (binding value)) [
  | inr (e, k) ↦ absurd (ground arith)
  | inl (first, k) ↦ elim (Result-cases (bindings items)) [
    | inr (e, k') ↦ absurd (ground arith)
    | inl (rest, k') ↦
        let same : result ≡ (name, first) ∷ rest = ground arith in
        rw same (binding-valid value first k, bindings-ValidBindings items rest k')
  ]
]

selection_to_virtual_contract-ValidBindings :
    (selection : CreateVirtualContractRequest) (source_ref : Option String)
    (contract : VirtualOperatorContract)
    → selection_to_virtual_contract selection source_ref ≡ ok contract
    → ValidBindings contract.constructor_arguments × ValidBindings contract.arguments
unfolding selection_to_virtual_contract
selection_to_virtual_contract-ValidBindings selection source_ref contract h =
    elim (Result-cases (bindings selection.constructor_bindings)) [
      | inr (e, k) ↦ absurd (ground arith)
      | inl (constructor_arguments, k) ↦
          elim (Result-cases (bindings selection.argument_bindings)) [
            | inr (e, k') ↦ absurd (ground arith)
            | inl (arguments, k') ↦
                let first : constructor_arguments ≡ contract.constructor_arguments = ground arith in
                let second : arguments ≡ contract.arguments = ground arith in
                (
                  rw (← first) (
                      bindings-ValidBindings selection.constructor_bindings constructor_arguments
                        k),
                  rw (← second) (bindings-ValidBindings selection.argument_bindings arguments k'),
                )
          ]
    ]

-- The draft of a request and its plan.
abbrev pub compile_selection :
    Rendering → CreateVirtualContractRequest → Option String → ProjectCatalog → Result ExecutionPlan
unfolding selection_to_virtual_contract compile_virtual_contract
compile_selection t selection source_ref catalog =
    selection_to_virtual_contract selection source_ref >>= λ contract.
    compile_virtual_contract t contract catalog

parameter_spec-failure :
    (value : BindingSelection) (e : Error) → parameter_spec value ≡ err e → is_value_error e ≡ true
unfolding parameter_spec validate_key is_value_error
parameter_spec-failure value e h = elim (source_cases value.source) [
  | inl s ↦ ground arith
  | inr (inl s) ↦ absurd (ground arith)
  | inr (inr (inl s)) ↦ absurd (ground arith)
  | inr (inr (inr s)) ↦ absurd (ground arith)
]

validate_binding-failure :
    (b : ArgumentBinding) (e : Error) → validate_binding b ≡ err e → is_value_error e ≡ true
unfolding validate_binding is_value_error
validate_binding-failure b e h = elim (source_cases b.source) [
  | inl s ↦ elim (Option-cases b.parameter) [
    | inl k ↦ ground arith
    | inr (x, k) ↦ absurd (ground arith)
  ]
  | inr (inl s) ↦ absurd (ground arith)
  | inr (inr (inl s)) ↦ ground arith
  | inr (inr (inr s)) ↦ absurd (ground arith)
]

binding-failure :
    (value : BindingSelection) (e : Error) → binding value ≡ err e → is_value_error e ≡ true
unfolding binding
binding-failure value e h = elim (Result-cases (parameter_spec value)) [
  | inr (raised, k) ↦ parameter_spec-failure value e (ground arith)
  | inl (parameter, k) ↦
      validate_binding-failure
        (record {
          source = value.source;
          codec = value.codec;
          metadata_key = value.metadata_key;
          parameter = parameter;
          constant = value.constant;
        })
        e (ground arith)
]

bindings-failure :
    (items : Dict String BindingSelection) (e : Error)
    → bindings items ≡ err e
    → is_value_error e ≡ true
unfolding bindings
bindings-failure [] e h = absurd (ground arith)
bindings-failure ((name, value) ∷ items) e h = elim (Result-cases (binding value)) [
  | inr (raised, k) ↦ binding-failure value e (ground arith)
  | inl (first, k) ↦ elim (Result-cases (bindings items)) [
    | inr (raised, k') ↦ bindings-failure items e (ground arith)
    | inl (rest, k') ↦ absurd (ground arith)
  ]
]

output_value-failure :
    (item : OutputValueSelection) (e : Error) → output_value item ≡ err e → is_value_error e ≡ true
unfolding output_value validate_value is_value_error
output_value-failure item e h = ground arith

output_values-failure :
    (items : Dict String OutputValueSelection) (e : Error)
    → output_values items ≡ err e
    → is_value_error e ≡ true
unfolding output_values
output_values-failure [] e h = absurd (ground arith)
output_values-failure ((name, item) ∷ items) e h = elim (Result-cases (output_value item)) [
  | inr (raised, k) ↦ output_value-failure item e (ground arith)
  | inl (first, k) ↦ elim (Result-cases (output_values items)) [
    | inr (raised, k') ↦ output_values-failure items e (ground arith)
    | inl (rest, k') ↦ absurd (ground arith)
  ]
]

names-failure :
    (raw : String) (e : Error)
    → (validate_name raw ≡ err e) ⊎ (validate_python_path raw ≡ err e)
    → is_value_error e ≡ true
unfolding validate_name validate_python_path is_value_error
names-failure raw e (inl h) = ground arith
names-failure raw e (inr h) = ground arith

selection_to_virtual_contract-failure :
    (selection : CreateVirtualContractRequest) (source_ref : Option String) (e : Error)
    → selection_to_virtual_contract selection source_ref ≡ err e
    → is_value_error e ≡ true
unfolding selection_to_virtual_contract
selection_to_virtual_contract-failure selection source_ref e h =
    elim (Result-cases (validate_name selection.operator.name)) [
      | inr (raised, n) ↦ names-failure selection.operator.name e (inl (ground arith))
      | inl (name, n) ↦ elim (Result-cases (validate_python_path selection.python_root)) [
        | inr (raised, p) ↦ names-failure selection.python_root e (inr (ground arith))
        | inl (path, p) ↦ elim (Result-cases (bindings selection.constructor_bindings)) [
          | inr (raised, k) ↦ bindings-failure selection.constructor_bindings e (ground arith)
          | inl (first, k) ↦ elim (Result-cases (bindings selection.argument_bindings)) [
            | inr (raised, k') ↦ bindings-failure selection.argument_bindings e (ground arith)
            | inl (second, k') ↦ elim (Result-cases (output_value selection.output.payload)) [
              | inr (raised, o) ↦ output_value-failure selection.output.payload e (ground arith)
              | inl (payload, o) ↦ elim (Result-cases (output_values selection.output.metadata)) [
                | inr (raised, m) ↦ output_values-failure selection.output.metadata e (ground arith)
                | inl (metadata, m) ↦ absurd (ground arith)
              ]
            ]
          ]
        ]
      ]
    ]

-- Whatever is wrong with a request or with the source's catalog, making the request's contract and
-- compiling it raises a ValueError, never a KeyError or the failure of an assertion.
pub compile_selection-failure :
    (t : Rendering) (selection : CreateVirtualContractRequest) (source_ref : Option String)
    (catalog : ProjectCatalog) (e : Error)
    → compile_selection t selection source_ref catalog ≡ err e
    → is_value_error e ≡ true
unfolding selection_to_virtual_contract compile_virtual_contract
compile_selection-failure t selection source_ref catalog e h =
    elim (Result-cases (selection_to_virtual_contract selection source_ref)) [
      | inr (raised, k) ↦
          selection_to_virtual_contract-failure selection source_ref e (ground arith)
      | inl (contract, k) ↦
          let (first, second) =
            selection_to_virtual_contract-ValidBindings selection source_ref contract k in
          compile_virtual_contract-failure t contract catalog e first second (ground arith)
    ]
