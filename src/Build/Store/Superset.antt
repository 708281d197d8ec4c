-- ===== src/Build/Store/Superset.antt =====
-- The environment that a request shares.
use mathlib.Core.List.{Memᴰ}
use managed_python_runner_en.Prelude.{
  ◌≡◌, ◌<◌, ◌≤◌, refl, sym, subst, Bool, true, false, Option, none, some, List, [], ◌∷◌, arith, ◌⊎◌,
  inl, inr, Bool-cases, All, All-map, string_eq, get,
}
use managed_python_runner_en.Errors.{ok}
use managed_python_runner_en.Build.Lock.{Packages}
use managed_python_runner_en.Build.Model.{RuntimeBuildSpec, Digests, packages_of}
use managed_python_runner_en.Build.Rows.{EnvRow, env_ready, BuildDb}
use managed_python_runner_en.Build.Store.{
  is_candidate, comes_first, better, first_of_order, find_smallest_superset,
}

comes_first_refl : (a : EnvRow) → comes_first a a ≡ true
unfolding comes_first
comes_first_refl a = ground arith

comes_first_trans :
    (a b c : EnvRow) → comes_first a b ≡ true → comes_first b c ≡ true → comes_first a c ≡ true
unfolding comes_first
comes_first_trans a b c h k = ground arith

comes_first_total : (a b : EnvRow) → comes_first a b ≡ false → comes_first b a ≡ true
unfolding comes_first
comes_first_total a b h = ground arith

-- No row passes, or this row does and comes first of all that do.
abbrev pub Chosen : (EnvRow → Bool) → List EnvRow → Option EnvRow → Type 0
Chosen passes rows none = All (λ row. passes row ≡ false) rows
Chosen passes rows (some row) =
    Memᴰ row rows
    × (passes row ≡ true)
    × All (λ other. (passes other ≡ false) ⊎ (comes_first row other ≡ true)) rows

module _ (passes : EnvRow → Bool) where
  later_rows :
      (row first : EnvRow) (rows : List EnvRow)
      → comes_first row first ≡ true
      → All (λ other. (passes other ≡ false) ⊎ (comes_first first other ≡ true)) rows
      → All (λ other. (passes other ≡ false) ⊎ (comes_first row other ≡ true)) rows
  later_rows row first rows h v =
      All-map (λ other. (passes other ≡ false) ⊎ (comes_first first other ≡ true))
        (λ other. (passes other ≡ false) ⊎ (comes_first row other ≡ true))
        (λ other c. elim c [
          | inl miss ↦ inl miss
          | inr k ↦ inr (comes_first_trans row first other h k)
        ])
        rows v

  none_first :
      (row : EnvRow) (rows : List EnvRow)
      → All (λ other. passes other ≡ false) rows
      → All (λ other. (passes other ≡ false) ⊎ (comes_first row other ≡ true)) rows
  none_first row rows v =
      All-map (λ other. passes other ≡ false)
        (λ other. (passes other ≡ false) ⊎ (comes_first row other ≡ true)) (λ other miss. inl miss)
        rows v

  better-Chosen :
      (row : EnvRow) (rows : List EnvRow) (rest : Option EnvRow)
      → passes row ≡ true
      → Chosen passes rows rest
      → Chosen passes (row ∷ rows) (some (better row rest))
  better-Chosen row rows none hit v =
      (Memᴰ.head refl, hit, (inr (comes_first_refl row), none_first row rows v))
  better-Chosen row rows (some other) hit (m, passed, least) =
      elim (Bool-cases (comes_first row other)) [
        | inl e ↦
            let best : better row (some other) ≡ row = rw e in
            subst (λ r. Chosen passes (row ∷ rows) (some r)) (sym best)
              (Memᴰ.head refl, hit, (inr (comes_first_refl row), later_rows row other rows e least))
        | inr e ↦
            let best : better row (some other) ≡ other = rw e in
            subst (λ r. Chosen passes (row ∷ rows) (some r)) (sym best)
              (Memᴰ.tail m, passed, (inr (comes_first_total row other e), least))
      ]

  skip-Chosen :
      (row : EnvRow) (rows : List EnvRow) (rest : Option EnvRow)
      → passes row ≡ false
      → Chosen passes rows rest
      → Chosen passes (row ∷ rows) rest
  skip-Chosen row rows none miss v = (miss, v)
  skip-Chosen row rows (some other) miss (m, passed, least) =
      (Memᴰ.tail m, passed, (inl miss, least))

  first_of_order-Chosen : (rows : List EnvRow) → Chosen passes rows (first_of_order passes rows)
  unfolding first_of_order
  first_of_order-Chosen [] = tt
  first_of_order-Chosen (row ∷ rows) = elim (Bool-cases (passes row)) [
    | inl hit ↦
        rw (hit, first_of_order)
          (better-Chosen row rows (first_of_order passes rows) hit (first_of_order-Chosen rows))
    | inr miss ↦
        rw (miss, first_of_order)
          (skip-Chosen row rows (first_of_order passes rows) miss (first_of_order-Chosen rows))
  ]

-- It is a row that passes the WHERE clause for the lock's packages and
-- comes first by package count and age among all rows that do; where none is found, no row passes.
pub find_smallest_superset-Chosen :
    (d : Digests) (spec : RuntimeBuildSpec) (wanted : Packages) (db : BuildDb)
    (found : Option EnvRow)
    → packages_of d spec ≡ ok wanted
    → find_smallest_superset d spec db ≡ ok found
    → Chosen (is_candidate spec wanted) db.environments found
unfolding find_smallest_superset
find_smallest_superset-Chosen d spec wanted db found p h =
    let same : first_of_order (is_candidate spec wanted) db.environments ≡ found = ground arith in
    rw (← same) (first_of_order-Chosen (is_candidate spec wanted) db.environments)

-- A READY row over the spec's base image, Python, platform and policy that has every wanted package
-- in its version.
abbrev pub CanShare : RuntimeBuildSpec → Packages → EnvRow → Type 0
CanShare spec wanted row =
    (row.status ≡ env_ready)
    × (row.base_image ≡ spec.base_image)
    × (row.python_version ≡ spec.python_version)
    × (row.platform ≡ spec.platform)
    × (row.build_policy_version ≡ spec.build_policy_version)
    × All (λ item. get item.0 row.packages ≡ some item.1) wanted

-- Fewer packages, or as many and not made later.
abbrev pub NotAfter : EnvRow → EnvRow → Type 0
NotAfter a b =
    (a.package_count < b.package_count)
    ⊎ ((a.package_count ≡ b.package_count) × (a.created_at ≤ b.created_at))

abbrev pub Smallest : RuntimeBuildSpec → Packages → List EnvRow → Option EnvRow → Type 0
Smallest spec wanted rows none = All (λ row. ¬ CanShare spec wanted row) rows
Smallest spec wanted rows (some row) =
    Memᴰ row rows
    × CanShare spec wanted row
    × All (λ other. (¬ CanShare spec wanted other) ⊎ NotAfter row other) rows
