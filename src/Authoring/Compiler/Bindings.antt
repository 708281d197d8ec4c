-- ===== src/Authoring/Compiler/Bindings.antt =====
-- What a virtual contract binds once it compiles, and how compiling it fails.
use mathlib.Core.List.{Memᴰ}
use managed_python_runner_en.Prelude.{
  String, ◌≡◌, refl, sym, ◌∙◌, subst, true, some, List, [], ◌∷◌, arith, ◌==◌, eq_iff, ◌⊎◌, inl, inr,
  Bool-cases, Option-cases, List-cases, Dict, string_eq, get,
}
use managed_python_runner_en.Errors.{ok, Result-cases}
use managed_python_runner_en.Authoring.Texts.{sorted_set, insert_text}
use managed_python_runner_en.Authoring.Model.{
  ParameterInfo, CallableInfo, ProjectCatalog, callable_by_id, class_by_target, ArgumentBinding,
  VirtualOperatorContract, CallableKind, function_kind, instance_method, static_method,
  class_method,
}
use managed_python_runner_en.Authoring.Plans.{
  Rendering, CompiledParameter, BindingPayload, ExecutionPlan, keys, has_key, parameter_map,
  unknown_names, missing_names, is_empty, target_payload, or_empty,
}
use managed_python_runner_en.Authoring.Compiler.{
  callable_support_reasons, validate_bindings, compile_binding, compile_each, compile_bindings,
  constructor_of, plan_of, compile_callable, compile_virtual_contract,
}

-- Every binding is a parameter's, and every parameter that is required is bound.
pub record Bound {V : Type 0} (parameters : List ParameterInfo) (bindings : Dict String V)
    : Type 0 where
  pub known : unknown_names (parameter_map parameters) bindings ≡ []
  pub complete :
      (p : ParameterInfo) → Memᴰ p parameters → p.required ≡ true → has_key p.name bindings ≡ true

is_empty-nil : (values : List String) → is_empty values ≡ true → values ≡ []
is_empty-nil [] h = refl
is_empty-nil (value ∷ values) h = absurd (ground arith)

sorted_set-empty : (values : List String) → is_empty (sorted_set values) ≡ true → values ≡ []
unfolding sorted_set insert_text
sorted_set-empty [] h = refl
sorted_set-empty (value ∷ values) h = elim (List-cases (sorted_set values)) [
  | inl e ↦ absurd (ground arith)
  | inr (other, rest, e) ↦ absurd (ground arith)
]

missing_names-none :
    {V : Type 0} (p : ParameterInfo) (parameters : List ParameterInfo) (bindings : Dict String V)
    → missing_names parameters bindings ≡ []
    → Memᴰ p parameters
    → p.required ≡ true
    → has_key p.name bindings ≡ true
unfolding missing_names
missing_names-none p [] bindings h m r = elim m [ ]
missing_names-none p (item ∷ parameters) bindings h (Memᴰ.head e) r = ground arith
missing_names-none p (item ∷ parameters) bindings h (Memᴰ.tail m) r =
    missing_names-none p parameters bindings (ground arith) m r

pub has_key-get :
    {V : Type 0} (name : String) (d : Dict String V)
    → has_key name d ≡ true
    → (v : V) × (get name d ≡ some v)
unfolding has_key get
has_key-get name [] h = absurd (ground arith)
has_key-get name ((other, v) ∷ d) h = elim (Bool-cases (other == name)) [
  | inl hit ↦ (v, rw hit)
  | inr miss ↦ rw miss (has_key-get name d (ground arith))
]

-- Names alone decide.
has_key-keys :
    {V W : Type 0} (name : String) (d : Dict String V) (d' : Dict String W)
    → keys d ≡ keys d'
    → has_key name d ≡ has_key name d'
unfolding keys has_key
has_key-keys name [] [] h = refl
has_key-keys name [] ((k, v) ∷ d') h = absurd (ground arith)
has_key-keys name ((k, v) ∷ d) [] h = absurd (ground arith)
has_key-keys name ((k, v) ∷ d) ((k', v') ∷ d') h = ground (arith, has_key-keys name d d')

unknown_names-keys :
    {V W : Type 0} (known : Dict String ParameterInfo) (d : Dict String V) (d' : Dict String W)
    → keys d ≡ keys d'
    → unknown_names known d ≡ unknown_names known d'
unfolding keys unknown_names
unknown_names-keys known [] [] h = refl
unknown_names-keys known [] ((k, v) ∷ d') h = absurd (ground arith)
unknown_names-keys known ((k, v) ∷ d) [] h = absurd (ground arith)
unknown_names-keys known ((k, v) ∷ d) ((k', v') ∷ d') h =
    ground (arith, unknown_names-keys known d d')

Bound-keys :
    {V W : Type 0} (parameters : List ParameterInfo) (d : Dict String V) (d' : Dict String W)
    → keys d ≡ keys d'
    → Bound parameters d
    → Bound parameters d'
Bound-keys parameters d d' h b = record {
  known = sym (unknown_names-keys (parameter_map parameters) d d' h) ∙ b.known;
  complete = λ p m r. sym (has_key-keys p.name d d' h) ∙ b.complete p m r;
}

module _ (t : Rendering) where
  pub validate_bindings-Bound :
      (parameters : List ParameterInfo) (bindings : Dict String ArgumentBinding) (label : String)
      → validate_bindings t parameters bindings label ≡ ok tt
      → Bound parameters bindings
  unfolding validate_bindings
  validate_bindings-Bound parameters bindings label h = record {
    known = sorted_set-empty (unknown_names (parameter_map parameters) bindings) (ground arith);
    complete = λ p m r.
        missing_names-none p parameters bindings
          (is_empty-nil (missing_names parameters bindings) (ground arith)) m r;
  }

  compile_each-keys :
      (by_name : Dict String ParameterInfo) (bindings : Dict String ArgumentBinding)
      (parameters after : Dict String CompiledParameter) (result : Dict String BindingPayload)
      → compile_each t by_name bindings parameters ≡ ok (result, after)
      → keys bindings ≡ keys result
  unfolding compile_each keys
  compile_each-keys by_name [] parameters after result h = ground arith
  compile_each-keys by_name ((name, binding) ∷ bindings) parameters after result h =
      elim (Option-cases (get name by_name)) [
        | inl e ↦ absurd (ground arith)
        | inr (parameter, e) ↦
            elim (Result-cases (compile_binding t parameter binding parameters)) [
              | inr (raised, k) ↦ absurd (ground arith)
              | inl ((payload, mid), k) ↦
                  elim (Result-cases (compile_each t by_name bindings mid)) [
                    | inr (raised, k') ↦ absurd (ground arith)
                    | inl ((rest, last), k') ↦
                        ground (arith, compile_each-keys by_name bindings mid last rest k')
                  ]
            ]
      ]

  pub kind_cases :
      (k : CallableKind)
      → (k ≡ instance_method) ⊎ ((k ≡ function_kind) ⊎ ((k ≡ static_method) ⊎ (k ≡ class_method)))
  kind_cases function_kind = inr (inl refl)
  kind_cases instance_method = inl refl
  kind_cases static_method = inr (inr (inl refl))
  kind_cases class_method = inr (inr (inr refl))

  none-Bound : Bound {V = ArgumentBinding} [] []
  unfolding unknown_names
  none-Bound = record { known = refl; complete = λ p m r. elim m [ ] }

  pub constructor_of-Bound :
      (contract : VirtualOperatorContract) (info : CallableInfo) (catalog : ProjectCatalog)
      (defs : List ParameterInfo)
      → constructor_of t contract info catalog ≡ ok defs
      → Bound defs contract.constructor_arguments
  unfolding constructor_of
  constructor_of-Bound contract info catalog defs h =
      let plain : (contract.constructor_arguments ≡ []) × (defs ≡ [])
          → Bound defs contract.constructor_arguments =
        λ e. rw (e.0, e.1) none-Bound in
      elim (kind_cases info.kind) [
        | inl k ↦ elim (Option-cases (class_by_target catalog (or_empty info.class_target))) [
          | inl e ↦ absurd (ground arith)
          | inr (c, e) ↦
              elim (Result-cases (
                validate_bindings t c.constructor_parameters contract.constructor_arguments
                  "constructor arguments")) [
                    | inr (raised, v) ↦ absurd (ground arith)
                    | inl (done, v) ↦
                        (let same : c.constructor_parameters ≡ defs = ground arith in
                          subst (λ x. Bound x contract.constructor_arguments) same
                            (validate_bindings-Bound c.constructor_parameters
                              contract.constructor_arguments "constructor arguments" v))
                  ]
        ]
        | inr (inl k) ↦ plain (ground arith)
        | inr (inr (inl k)) ↦ plain (ground arith)
        | inr (inr (inr k)) ↦ plain (ground arith)
      ]

  -- What the plan of a callable binds.
  abbrev pub PlanBound :
      VirtualOperatorContract → CallableInfo → ProjectCatalog → ExecutionPlan → Type 0
  PlanBound contract info catalog plan =
      Bound info.parameters plan.arguments
      × ((defs : List ParameterInfo) × (constructor_of t contract info catalog ≡ ok defs)
          × Bound defs plan.constructor_arguments)

  compile_callable-PlanBound :
      (contract : VirtualOperatorContract) (info : CallableInfo) (catalog : ProjectCatalog)
      (plan : ExecutionPlan)
      → compile_callable t contract info catalog ≡ ok plan
      → PlanBound contract info catalog plan
  unfolding compile_callable compile_bindings plan_of
  compile_callable-PlanBound contract info catalog plan h =
      elim (Result-cases (constructor_of t contract info catalog)) [
        | inr (e, c) ↦ absurd (ground arith)
        | inl (defs, c) ↦
            elim (Result-cases
              (validate_bindings t info.parameters contract.arguments "invoke arguments")) [
                | inr (e, v) ↦ absurd (ground arith)
                | inl (done, v) ↦
                    elim (Result-cases
                      (compile_each t (parameter_map defs) contract.constructor_arguments [])) [
                        | inr (e, k) ↦ absurd (ground arith)
                        | inl ((first, mid), k) ↦
                            elim (Result-cases (
                              compile_each t (parameter_map info.parameters) contract.arguments
                                mid)) [
                                  | inr (e, k') ↦ absurd (ground arith)
                                  | inl ((second, last), k') ↦
                                      elim (Result-cases (target_payload info)) [
                                        | inr (e, p) ↦ absurd (ground arith)
                                        | inl (target, p) ↦
                                            let same : plan_of t contract target first second last
                                                ≡ plan =
                                              ground arith in
                                            subst (PlanBound contract info catalog) same (
                                              Bound-keys info.parameters contract.arguments second
                                                  (compile_each-keys (parameter_map info.parameters)
                                                    contract.arguments mid last second k')
                                                  (validate_bindings-Bound info.parameters
                                                    contract.arguments "invoke arguments" v),
                                              (
                                                defs,
                                                c,
                                                Bound-keys defs contract.constructor_arguments first
                                                    (compile_each-keys (parameter_map defs)
                                                      contract.constructor_arguments [] mid first k)
                                                    (constructor_of-Bound contract info catalog defs
                                                      c),
                                              ),
                                            )
                                      ]
                                ]
                      ]
              ]
      ]

  -- A virtual contract that compiles is of the catalog's source revision and of a callable in the
  -- catalog that is supported; the plan's arguments are all parameters of the callable and bind
  -- all that are required, and the constructor's arguments likewise for the constructor's
  -- parameters.
  pub compile_virtual_contract-Bound :
      (contract : VirtualOperatorContract) (catalog : ProjectCatalog) (plan : ExecutionPlan)
      → compile_virtual_contract t contract catalog ≡ ok plan
      → (contract.source.source_revision ≡ catalog.source_revision)
        × ((info : CallableInfo) × (callable_by_id catalog contract.callable_id ≡ some info)
            × (callable_support_reasons t info catalog ≡ [])
            × PlanBound contract info catalog plan)
  unfolding compile_virtual_contract
  compile_virtual_contract-Bound contract catalog plan h =
      elim (Option-cases (callable_by_id catalog contract.callable_id)) [
        | inl e ↦ absurd (ground arith)
        | inr (info, e) ↦ (
          ground (arith, eq_iff contract.source.source_revision catalog.source_revision),
          (
            info,
            e,
            is_empty-nil (callable_support_reasons t info catalog) (ground arith),
            compile_callable-PlanBound contract info catalog plan (ground arith),
          ),
        )
      ]
