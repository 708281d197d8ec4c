-- ===== src/Tests/Publishes.antt =====
-- Examples of a publish service: what the theorems of Authoring and of Publish say of it.
use Prim.Native.String.{◌++◌}
use managed_python_runner_en.Prelude.{
  String, ◌≡◌, refl, true, false, none, some, List, [], select, ◌==◌,
}
use managed_python_runner_en.Errors.{ok, raised_error, contract_compilation_error}
use managed_python_runner_en.Http.{is_value_error}
use managed_python_runner_en.Build.Lock.{chars}
use managed_python_runner_en.Build.Rows.{env_ready}
use managed_python_runner_en.Build.App.{EnvironmentBody}
use managed_python_runner_en.Authoring.Texts.{texts, split_chars}
use managed_python_runner_en.Authoring.Model.{CallableInfo, callable_by_id, all_callables}
use managed_python_runner_en.Authoring.Compiler.{callable_support_reasons, compile_virtual_contract}
use managed_python_runner_en.Authoring.Compiler.Bindings.{PlanBound, compile_virtual_contract-Bound}
use managed_python_runner_en.Publish.Rows.{VariantRow, PublishDb, empty_publish_db, variant_row}
use managed_python_runner_en.Publish.Store.{renamed, save_virtual_contract, create_publish_job}
use managed_python_runner_en.Publish.Store.Saves.{save_virtual_contract_twice}
use managed_python_runner_en.Publish.Store.Versions.{IsNumbered, empty_publish_db-IsNumbered}
use managed_python_runner_en.Publish.Store.Steps.{
  start, next, saves, IsPublished, PublishReach-IsNumbered, PublishReach-IsPublished,
}
use managed_python_runner_en.Publish.Backends.{identifier_chars}
use managed_python_runner_en.Publish.Backends.Names.{IsIdentifier, identifier_chars-IsIdentifier}
use managed_python_runner_en.Publish.Selection.{selection_to_virtual_contract}
use managed_python_runner_en.Publish.Selection.Valid.{compile_selection-failure}
use managed_python_runner_en.Publish.Service.{publish_backend, compile_backend, publish_runner}
use managed_python_runner_en.Publish.Service.Jobs.{
  JobEnded, publish_backend-JobEnded, publish_backend-Reach, publish_runner_ready,
}
use managed_python_runner_en.Tests.PublishData.{
  plain_catalog, plain_rendering, unbound_selection, plain_service, plain_draws, demo_contract,
  demo_plan, demo_operator, demo_version, demo_saved, saved_db, published_variant, published_db,
  demo_parent, demo_child, demo_ref,
}

save_demo :
    save_virtual_contract plain_rendering.contract_sha256 1 "o1" "c1" "demo" demo_contract
      empty_publish_db
    ≡ ok (demo_saved, saved_db)
unfolding save_virtual_contract select
save_demo = refl

compile_virtual_contract-Bound_example :
    (demo_contract.source.source_revision ≡ plain_catalog.source_revision)
    × ((info : CallableInfo) × (callable_by_id plain_catalog "main:process" ≡ some info)
        × (callable_support_reasons plain_rendering info plain_catalog ≡ [])
        × PlanBound plain_rendering demo_contract info plain_catalog demo_plan)
unfolding compile_virtual_contract all_callables
compile_virtual_contract-Bound_example =
    compile_virtual_contract-Bound plain_rendering demo_contract plain_catalog demo_plan refl

compile_selection-failure_example :
    is_value_error (
      raised_error contract_compilation_error
        "invoke arguments is missing required parameter bindings: [content]")
    ≡ true
unfolding selection_to_virtual_contract compile_virtual_contract texts split_chars all_callables
compile_selection-failure_example =
    compile_selection-failure plain_rendering unbound_selection none plain_catalog
      (raised_error contract_compilation_error
        "invoke arguments is missing required parameter bindings: [content]")
      refl

save_virtual_contract_twice_example :
    (again : PublishDb) × (save_virtual_contract plain_rendering.contract_sha256 2 "o2" "c2" "demo"
        demo_contract saved_db
      ≡ ok (((renamed 2 demo_contract demo_operator, demo_version), false), again))
    × (again.contracts ≡ saved_db.contracts)
save_virtual_contract_twice_example =
    save_virtual_contract_twice plain_rendering.contract_sha256 1 2 "o1" "c1" "o2" "c2" "demo"
      demo_contract demo_saved empty_publish_db saved_db save_demo empty_publish_db-IsNumbered

PublishReach-IsNumbered_example : IsNumbered saved_db
PublishReach-IsNumbered_example =
    PublishReach-IsNumbered {contract_sha256 = plain_rendering.contract_sha256}
      (next start (saves 1 "o1" "c1" "demo" demo_contract demo_saved save_demo))
      empty_publish_db-IsNumbered

PublishReach-IsPublished_example :
    (written : VariantRow) × (variant_row
        (publish_backend plain_service plain_draws "o1" "runner" [] published_db).1
        "v0"
      ≡ some written)
    × IsPublished written
unfolding select
PublishReach-IsPublished_example =
    PublishReach-IsPublished "v0" published_variant
      (publish_backend-Reach plain_service plain_draws "runner" "o1" [] published_db) refl
      (refl, ("runner-release:rel-0", refl))

publish_backend-JobEnded_example :
    JobEnded
      (publish_backend plain_service plain_draws "o1" "runner" [] saved_db).0
      "j1"
      "v1"
      (publish_backend plain_service plain_draws "o1" "runner" [] saved_db).1
unfolding compile_backend create_publish_job select all_callables
publish_backend-JobEnded_example =
    publish_backend-JobEnded plain_service plain_draws "runner" "o1" [] _ _ _ _ saved_db _ _ refl
      refl

publish_runner_ready_example :
    (requirements : List String) × (runtime : EnvironmentBody) × (image release_id : String)
    × (plain_service.read_requirements "sources/r1" ≡ ok requirements)
    × (plain_service.resolve_runtime requirements ≡ ok (some runtime))
    × (runtime.status ≡ env_ready)
    × (runtime.image ≡ some image)
    × ((image == "") ≡ false)
    × (plain_service.publish_release "sources/r1" demo_child demo_plan image ≡ ok release_id)
    × (demo_ref ≡ "runner-release:" ++ release_id)
unfolding publish_runner
publish_runner_ready_example =
    publish_runner_ready plain_service demo_child demo_parent _ demo_ref refl

identifier_chars-IsIdentifier_example : IsIdentifier (identifier_chars (chars "9 my-op"))
identifier_chars-IsIdentifier_example = identifier_chars-IsIdentifier (chars "9 my-op")
