-- ===== src/Build/Store/Sharing.antt =====
-- A request is bound to an environment that has all its packages, over the same base.
use managed_python_runner_en.Prelude.{
  ℕ, String, ◌≡◌, refl, sym, ◌∙◌, ap, subst, Bool, true, ◌&&◌, none, some, [], ◌∷◌, arith, ◌==◌,
  eq_iff, eq_self, inl, inr, Bool-cases, Option-cases, string_eq, get, select, update, rewritten,
  select-update,
}
use managed_python_runner_en.Errors.{ok}
use managed_python_runner_en.Build.Lock.{Packages}
use managed_python_runner_en.Build.Lock.Packages.{IsDict, parse_locked_packages-IsDict}
use managed_python_runner_en.Build.Model.{RuntimeBuildSpec, Digests, env_key, packages_of}
use managed_python_runner_en.Build.Rows.{
  EnvRow, env_verifying, ResolutionKind, exact, superset, BuildDb, empty_build_db, has_env_id,
  has_env_key, env_row, alias_row, is_pending, is_failed, AliasRow,
}
use managed_python_runner_en.Build.Store.{
  contains_all, is_candidate, insert_env, new_env_row, bind_request, claim_build, claimed_row,
  reset_failed, reset_row, mark_verifying, mark_ready, ready_row, mark_failed, failed_row,
  last_chars,
}
use managed_python_runner_en.Build.Store.Steps.{
  BuildStep, creates, binds_exact, binds_superset, resets, claims, verifies, readies, fails,
  BuildReach, start, next, get_or_create_exact-ok,
}

contains_all-cons :
    (name version : String) (packages wanted : Packages)
    → get name wanted ≡ none
    → contains_all packages wanted ≡ true
    → contains_all ((name, version) ∷ packages) wanted ≡ true
unfolding contains_all get
contains_all-cons name version packages [] absent h = refl
contains_all-cons name version packages ((other, w) ∷ wanted) absent h =
    ground
      (arith, contains_all-cons name version packages wanted, eq_iff name other, eq_iff other name)

contains_all_self : (packages : Packages) → IsDict packages → contains_all packages packages ≡ true
unfolding contains_all get
contains_all_self [] v = refl
contains_all_self ((name, version) ∷ packages) v = ground (
  arith,
  eq_self name,
  eq_self version,
  contains_all-cons name version packages packages v.0 (contains_all_self packages v.1),
)

-- The environment has the packages, over the base, the Python, the platform and the policy of the
-- spec.
pub record Serves (spec : RuntimeBuildSpec) (wanted : Packages) (row : EnvRow) : Type 0 where
  pub base_image : row.base_image ≡ spec.base_image
  pub python_version : row.python_version ≡ spec.python_version
  pub platform : row.platform ≡ spec.platform
  pub build_policy_version : row.build_policy_version ≡ spec.build_policy_version
  pub packages : contains_all row.packages wanted ≡ true

-- It serves a spec of the key.
abbrev pub Answers : Digests → String → EnvRow → Type 0
Answers d key row =
    (spec : RuntimeBuildSpec) × (wanted : Packages) × (env_key d spec ≡ ok key)
    × (packages_of d spec ≡ ok wanted)
    × Serves spec wanted row

pub record IsShared (d : Digests) (db : BuildDb) : Type 0 where
  pub keyed :
      (env_id : String) (row : EnvRow) → env_row db env_id ≡ some row → Answers d row.env_key row
  pub aliased :
      (key : String) (alias : AliasRow)
      → alias_row db key ≡ some alias
      → (row : EnvRow) × (env_row db alias.env_id ≡ some row) × Answers d key row

-- The columns that no UPDATE writes.
abbrev pub SameEnv : EnvRow → EnvRow → Type 0
SameEnv a b =
    (a.env_key ≡ b.env_key)
    × (a.base_image ≡ b.base_image)
    × (a.python_version ≡ b.python_version)
    × (a.platform ≡ b.platform)
    × (a.build_policy_version ≡ b.build_policy_version)
    × (a.packages ≡ b.packages)

SameEnv-Answers :
    (d : Digests) (key : String) (a b : EnvRow) → SameEnv a b → Answers d key a → Answers d key b
SameEnv-Answers d key a b (_, base, python, platform, policy, packages) (spec, wanted, k, p, s) = (
  spec,
  wanted,
  k,
  p,
  record {
    base_image = sym base ∙ s.base_image;
    python_version = sym python ∙ s.python_version;
    platform = sym platform ∙ s.platform;
    build_policy_version = sym policy ∙ s.build_policy_version;
    packages = rw (← packages) s.packages;
  },
)

is_candidate-Serves :
    (spec : RuntimeBuildSpec) (wanted : Packages) (row : EnvRow)
    → is_candidate spec wanted row ≡ true
    → Serves spec wanted row
unfolding is_candidate
is_candidate-Serves spec wanted row h = record {
  base_image = ground (arith, eq_iff row.base_image spec.base_image);
  python_version = ground (arith, eq_iff row.python_version spec.python_version);
  platform = ground (arith, eq_iff row.platform spec.platform);
  build_policy_version = ground (arith, eq_iff row.build_policy_version spec.build_policy_version);
  packages = ground arith;
}

-- An UPDATE of the environments that leaves those columns and the aliases alone.
module _ (d : Digests) (db after : BuildDb) (q : EnvRow → Bool) (f : EnvRow → EnvRow)
    (same_id : (row : EnvRow) → (f row).id ≡ row.id) (same : (row : EnvRow) → SameEnv row (f row))
    (envs : after.environments ≡ update q f db.environments) where
  env_row-updated : (i : String) → env_row after i ≡ rewritten q f (env_row db i)
  env_row-updated i =
      rw envs (select-update (has_env_id i) q f (λ r. rw (same_id r)) db.environments)

  -- A row is still there.
  updated-some :
      (i : String) (row : EnvRow)
      → env_row db i ≡ some row
      → (written : EnvRow) × (env_row after i ≡ some written) × SameEnv row written
  updated-some i row at = elim (Bool-cases (q row)) [
    | inl e ↦ (f row, env_row-updated i ∙ (rw at (ground arith)), same row)
    | inr e ↦
        (row, env_row-updated i ∙ (rw at (ground arith)), (refl, refl, refl, refl, refl, refl))
  ]

  -- A row was there.
  updated-from :
      (i : String) (row : EnvRow)
      → env_row after i ≡ some row
      → (old : EnvRow) × (env_row db i ≡ some old) × SameEnv old row
  updated-from i row at = elim (Option-cases (env_row db i)) [
    | inl e ↦ absurd (ground (arith, env_row-updated i))
    | inr (old, e) ↦
        let (written, found, kept) = updated-some i old e in
        let it : written ≡ row = ground arith in (old, e, subst (SameEnv old) it kept)
  ]

  update-IsShared : after.aliases ≡ db.aliases → IsShared d db → IsShared d after
  update-IsShared aliases v = record {
    keyed = λ i row at.
        let (old, found, kept) = updated-from i row at in
        subst (λ k. Answers d k row) kept.0
          (SameEnv-Answers d old.env_key old row kept (v.keyed i old found));
    aliased = λ key alias at.
        let (row, found, answers) = v.aliased key alias (rw (← aliases) at) in
        let (written, found', kept) = updated-some alias.env_id row found in
        (written, found', SameEnv-Answers d key row written kept answers);
  }

-- Only the aliases differ, and the one that is new answers its key.
alias-IsShared :
    (d : Digests) (now : ℕ) (key : String) (kind : ResolutionKind) (row : EnvRow)
    (db after : BuildDb)
    → env_row db row.id ≡ some row
    → Answers d key row
    → bind_request now key row.id kind db ≡ ok after
    → IsShared d db
    → IsShared d after
unfolding bind_request select
alias-IsShared d now key kind row db after at answers h v = record {
  keyed = λ i other found. v.keyed i other (ground arith);
  aliased = λ k alias found. elim (Option-cases (alias_row db key)) [
    | inr (old, bound) ↦
        (let same : after ≡ db = ground arith in rw same (v.aliased k alias (ground arith)))
    | inl absent ↦ elim (Bool-cases (key == k)) [
      | inr e ↦ (let (r, there, it) = v.aliased k alias (ground arith) in (r, ground arith, it))
      | inl e ↦
          let new : alias.env_id ≡ row.id = ground arith in
          (row, ground arith, subst (λ x. Answers d x row) ((eq_iff key k).0 e) answers)
    ]
  ];
}

insert_env-IsShared :
    (d : Digests) (new row : EnvRow) (db after : BuildDb)
    → Answers d new.env_key new
    → insert_env new db ≡ ok (row, after)
    → IsShared d db
    → IsShared d after
unfolding insert_env select
insert_env-IsShared d new row db after answers h v =
    elim (Option-cases (select (has_env_key new.env_key) db.environments)) [
      | inr (old, e) ↦ (let same : after ≡ db = ground arith in rw same v)
      | inl absent ↦
          let written : after ≡ record db { environments = new ∷ db.environments } = ground arith in
          let free : env_row db new.id ≡ none = ground arith in
          rw written (record {
            keyed = λ i r found. elim (Bool-cases (new.id == i)) [
              | inl e ↦
                  (let it : new ≡ r = ground arith in subst (λ x. Answers d x.env_key x) it answers)
              | inr e ↦ v.keyed i r (ground arith)
            ];
            aliased = λ k alias found.
                let (r, there, it) = v.aliased k alias found in
                (r, ground (arith, eq_iff new.id alias.env_id), it);
          })
    ]

module _ {d : Digests} where
  BuildStep-IsShared :
      {db after : BuildDb} → BuildStep d db after → IsShared d db → IsShared d after
  unfolding reset_failed
  BuildStep-IsShared {db} {after} (creates spec now env_id row h) v =
      let (key, packages, k, p, e) = get_or_create_exact-ok d spec now env_id row db after h in
      insert_env-IsShared d (new_env_row d spec now env_id key packages) row db after
        (
          spec,
          packages,
          k,
          p,
          record {
            base_image = refl;
            python_version = refl;
            platform = refl;
            build_policy_version = refl;
            packages = contains_all_self packages (
                parse_locked_packages-IsDict d.canonicalize_name d.repr spec.requirements_lock
                  packages p);
          },
        )
        e v
  BuildStep-IsShared {db} {after} (binds_exact now row at h) v =
      alias-IsShared d now row.env_key exact row db after at (v.keyed row.id row at) h v
  BuildStep-IsShared {db} {after} (binds_superset now spec wanted key row at k p c h) v =
      alias-IsShared d now key superset row db after at
        (spec, wanted, k, p, is_candidate-Serves spec wanted row c) h v
  BuildStep-IsShared {db} {after} (resets now env_id e) v =
      elim (Option-cases (select (λ r. has_env_id env_id r && is_failed r) db.environments)) [
        | inl none_found ↦ rw (e, none_found, reset_failed) v
        | inr (r, found) ↦
            let written : after ≡ record db {
              environments =
                  update (λ r. has_env_id env_id r && is_failed r) (reset_row now) db.environments;
            } =
              rw (e, found, reset_failed) in
            update-IsShared d db after (λ r. has_env_id env_id r && is_failed r) (reset_row now)
              (λ x. refl) (λ x. (refl, refl, refl, refl, refl, refl)) (ground arith) (ground arith)
              v
      ]
  BuildStep-IsShared {db} {after} (claims now job_id env_id claim h) v =
      elim (Option-cases (select (λ r. has_env_id env_id r && is_pending r) db.environments)) [
        | inl none_found ↦ (let same : after ≡ db = unfold claim_build in ground arith in rw same v)
        | inr (r, found) ↦
            update-IsShared d db after (λ r. has_env_id env_id r && is_pending r) (claimed_row now)
              (λ x. refl) (λ x. (refl, refl, refl, refl, refl, refl))
              (unfold claim_build in ground arith) (unfold claim_build in ground arith) v
      ]
  BuildStep-IsShared {db} {after} (verifies now env_id job_id works e) v =
      update-IsShared d db after (has_env_id env_id)
        (λ r. record r { status = env_verifying; updated_at = now }) (λ x. refl)
        (λ x. (refl, refl, refl, refl, refl, refl))
        (unfold mark_verifying in ap (λ x. x.environments) e)
        (unfold mark_verifying in ap (λ x. x.aliases) e) v
  BuildStep-IsShared {db} {after} (readies now env_id job_id image_ref works h) v =
      update-IsShared d db after (has_env_id env_id) (ready_row now image_ref) (λ x. refl)
        (λ x. (refl, refl, refl, refl, refl, refl)) (unfold mark_ready in ground arith)
        (unfold mark_ready in ground arith) v
  BuildStep-IsShared {db} {after} (fails now env_id job_id error_message works e) v =
      update-IsShared d db after (has_env_id env_id)
        (failed_row now (last_chars 8192 error_message)) (λ x. refl)
        (λ x. (refl, refl, refl, refl, refl, refl))
        (unfold mark_failed in ap (λ x. x.environments) e)
        (unfold mark_failed in ap (λ x. x.aliases) e) v

  pub BuildReach-IsShared :
      {db after : BuildDb} → BuildReach d db after → IsShared d db → IsShared d after
  BuildReach-IsShared start v = v
  BuildReach-IsShared (next r s) v = BuildStep-IsShared s (BuildReach-IsShared r v)

  pub empty_build_db-IsShared : IsShared d empty_build_db
  unfolding select
  empty_build_db-IsShared = record {
    keyed = λ i row found. absurd (ground arith);
    aliased = λ k alias found. absurd (ground arith);
  }
