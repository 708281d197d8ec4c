-- ===== src/Publish/App.antt =====
-- The routes of publish_service/app.py that create, compile and publish.
use managed_python_runner_en.Prelude.{ℕ, String, ◌||◌, Dict, if◌then◌else◌}
use managed_python_runner_en.Errors.{ok, err, Error}
use managed_python_runner_en.Http.{
  HttpReply, body, http_exception, let_through, is_value_error, is_publish_error, error_text,
}
use managed_python_runner_en.Publish.Rows.{VariantRow, PublishDb}
use managed_python_runner_en.Publish.Store.{Saved}
use managed_python_runner_en.Publish.Selection.{CreateVirtualContractRequest}
use managed_python_runner_en.Publish.Service.{
  PublishService, PublishDraws, PublishReply, Child, Parent, create_virtual_contract,
  compile_backend, publish_backend,
}

-- `except (ValueError, PublishError)`, and what else is raised.
unfoldable pub refused : {A : Type 0} → ℕ → Error → HttpReply A
unfolding is_value_error is_publish_error
refused status e =
    if is_value_error e || is_publish_error e
    then http_exception status (error_text e)
    else let_through e

module _ (s : PublishService) (x : PublishDraws) where
  unfoldable pub create_operator_route :
      CreateVirtualContractRequest → PublishDb → HttpReply Saved × PublishDb
  unfolding create_virtual_contract refused
  create_operator_route payload db = elim (create_virtual_contract s x payload db) [
    | ok (saved, after) ↦ (body saved, after)
    | err e ↦ (refused 400 e, db)
  ]

  unfoldable pub compile_backend_route :
      String
      → String
      → Dict String String
      → PublishDb
      → HttpReply (VariantRow × Child × Parent) × PublishDb
  unfolding compile_backend refused
  compile_backend_route operator_id backend options db =
      elim (compile_backend s x operator_id backend options db) [
        | ok (compiled, after) ↦ (body compiled, after)
        | err e ↦ (refused 400 e, db)
      ]

  unfoldable pub publish_backend_route :
      String → String → Dict String String → PublishDb → HttpReply PublishReply × PublishDb
  unfolding publish_backend refused
  publish_backend_route operator_id backend options db =
      let (outcome, after) = publish_backend s x operator_id backend options db in
      elim outcome [ ok reply ↦ (body reply, after) | err e ↦ (refused 409 e, after) ]
