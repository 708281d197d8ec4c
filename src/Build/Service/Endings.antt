-- ===== src/Build/Service/Endings.antt =====
-- How a build ends: READY, or FAILED and why.
use Prim.Native.String.{◌++◌}
use mathlib.Core.List.{Memᴰ}
use managed_python_runner_en.Prelude.{
  String, Bool, ◌≡◌, refl, subst, true, false, none, some, arith, ◌⊎◌, inl, inr, Option-cases,
  eq_iff, update, select-holds, rowcount-Mem, rowcount-select_pos, Mem-update, Mem-update_other,
  sym, eq_self,
}
use managed_python_runner_en.Errors.{ok, err, Error}
use managed_python_runner_en.State.Rows.{unique_violation}
use managed_python_runner_en.Build.Lock.{Packages}
use managed_python_runner_en.Build.Model.{RuntimeBuildSpec}
use managed_python_runner_en.Build.Rows.{
  EnvRow, env_verifying, BuildDb, has_env_id, env_row, is_ready, is_failed,
}
use managed_python_runner_en.Build.Store.{mark_verifying, mark_ready, has_image, last_chars}
use managed_python_runner_en.Build.Builder.{build_runtime_image, verify_runtime_image}
use managed_python_runner_en.Build.Service.{BuildService, Draws, described}

pub has_image-image :
    (image_ref env_id : String) (row : EnvRow)
    → has_image image_ref env_id row ≡ true
    → row.image_ref ≡ some image_ref
has_image-image image_ref env_id row h = elim (Option-cases row.image_ref) [
  | inl e ↦ absurd (ground arith)
  | inr (other, e) ↦ ground (arith, eq_iff other image_ref)
]

module _ (s : BuildService) (env : EnvRow) (spec : RuntimeBuildSpec) (packages : Packages) where
  abbrev pub Pushed : String → Type 0
  Pushed image_ref =
      build_runtime_image s.tools spec s.settings.registry_repo ("env-" ++ env.id) ≡ ok image_ref

  -- Another environment has the image.
  abbrev pub IsTaken : String → BuildDb → Type 0
  IsTaken image_ref db =
      (other : EnvRow) × Memᴰ other db.environments
      × (has_env_id env.id other ≡ false)
      × (other.image_ref ≡ some image_ref)

  -- Why a build on the tables fails: the push raises, or the verification, or the image passes and
  -- another environment has it.
  abbrev pub Fails : BuildDb → Error → Type 0
  Fails db e =
      (build_runtime_image s.tools spec s.settings.registry_repo ("env-" ++ env.id) ≡ err e)
      ⊎ ((image_ref : String) × Pushed image_ref
          × ((verify_runtime_image s.tools image_ref packages ≡ err e)
              ⊎ ((verify_runtime_image s.tools image_ref packages ≡ ok tt)
                  × IsTaken image_ref db
                  × (unique_violation {A = Unit {0}} ≡ err e))))

  -- READY with an image that passed, or FAILED with the text of an exception.
  abbrev pub Settled : BuildDb → EnvRow → Type 0
  Settled db row =
      ((image_ref : String) × Pushed image_ref
        × (verify_runtime_image s.tools image_ref packages ≡ ok tt)
        × (¬ IsTaken image_ref db)
        × (is_ready row ≡ true)
        × (row.image_ref ≡ some image_ref)
        × (row.last_error ≡ none))
      ⊎ ((e : Error) × Fails db e
          × (is_failed row ≡ true)
          × (row.last_error ≡ some (last_chars 8192 (described e))))

  -- What an UPDATE that keeps the environment's identifier leaves of the other rows was there.
  pub IsTaken-update :
      (q : EnvRow → Bool) (f : EnvRow → EnvRow) (image_ref : String) (db after : BuildDb)
      → ((r : EnvRow) → q r ≡ true → has_env_id env.id (f r) ≡ true)
      → after.environments ≡ update q f db.environments
      → IsTaken image_ref after
      → IsTaken image_ref db
  IsTaken-update q f image_ref db after keeps e (other, m, differs, taken) = (
    other,
    Mem-update (has_env_id env.id) q f keeps db.environments other
        (subst (λ rows. Memᴰ other rows) e m) differs,
    differs,
    taken,
  )

  pub IsTaken-update_other :
      (q : EnvRow → Bool) (f : EnvRow → EnvRow) (image_ref : String) (db after : BuildDb)
      → ((r : EnvRow) → has_env_id env.id r ≡ false → q r ≡ false)
      → after.environments ≡ update q f db.environments
      → IsTaken image_ref db
      → IsTaken image_ref after
  IsTaken-update_other q f image_ref db after leaves e (other, m, differs, taken) = (
    other,
    subst (λ rows. Memᴰ other rows) (sym e)
        (Mem-update_other q f db.environments other m (leaves other differs)),
    differs,
    taken,
  )

  pub Settled-update :
      (q : EnvRow → Bool) (f : EnvRow → EnvRow) (row : EnvRow) (db after : BuildDb)
      → ((r : EnvRow) → q r ≡ true → has_env_id env.id (f r) ≡ true)
      → ((r : EnvRow) → has_env_id env.id r ≡ false → q r ≡ false)
      → after.environments ≡ update q f db.environments
      → Settled after row
      → Settled db row
  Settled-update q f row db after keeps leaves e
        (inl (i, pushed, verified, free, ready, image, clean)) =
      inl (
        i,
        pushed,
        verified,
        λ taken. free (IsTaken-update_other q f i db after leaves e taken),
        ready,
        image,
        clean,
      )
  Settled-update q f row db after keeps leaves e (inr (x, inl built, failed, text)) =
      inr (x, inl built, failed, text)
  Settled-update q f row db after keeps leaves e
        (inr (x, inr (i, pushed, inl verified), failed, text)) =
      inr (x, inr (i, pushed, inl verified), failed, text)
  Settled-update q f row db after keeps leaves e
        (inr (x, inr (i, pushed, inr (verified, taken, raised)), failed, text)) =
      inr (
        x,
        inr (i, pushed, inr (verified, IsTaken-update q f i db after keeps e taken, raised)),
        failed,
        text,
      )

  pub verifying-IsTaken :
      (x : Draws) (job_id image_ref : String) (db : BuildDb)
      → IsTaken image_ref (mark_verifying x.verifying env.id job_id db)
      → IsTaken image_ref db
  unfolding mark_verifying
  verifying-IsTaken x job_id image_ref db =
      IsTaken-update (has_env_id env.id)
        (λ r. record r { status = env_verifying; updated_at = x.verifying }) image_ref db
        (mark_verifying x.verifying env.id job_id db) (λ r h. h) refl

  pub verifying-IsTaken_other :
      (x : Draws) (job_id image_ref : String) (db : BuildDb)
      → IsTaken image_ref db
      → IsTaken image_ref (mark_verifying x.verifying env.id job_id db)
  unfolding mark_verifying
  verifying-IsTaken_other x job_id image_ref db =
      IsTaken-update_other (has_env_id env.id)
        (λ r. record r { status = env_verifying; updated_at = x.verifying }) image_ref db
        (mark_verifying x.verifying env.id job_id db) (λ r h. h) refl

  pub mark_ready-free :
      (x : Draws) (job_id image_ref : String) (row : EnvRow) (db ready : BuildDb)
      → env_row db env.id ≡ some row
      → mark_ready x.ended env.id job_id image_ref db ≡ ok ready
      → ¬ IsTaken image_ref db
  unfolding mark_ready
  mark_ready-free x job_id image_ref row db ready at h (other, m, differs, taken) =
      let passes : has_image image_ref env.id other ≡ true =
        rw taken (ground (arith, eq_self image_ref)) in
      let counted = rowcount-Mem (has_image image_ref env.id) db.environments other m passes in
      let there =
        rowcount-select_pos (has_env_id env.id) (has_env_id env.id) db.environments row at
          (select-holds (has_env_id env.id) db.environments row at) in
      absurd (ground (arith, counted, there))
