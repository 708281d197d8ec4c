-- ===== src/Prelude/Tables.antt =====
-- What an SQL statement does to a table, a list of rows: SELECT of one row, UPDATE and DELETE with
-- a WHERE clause, and the number of rows that the clause matches (psycopg's `rowcount`).
use Prim.Native.Nat.{ℕ, ◌+◌, ◌≤◌}
use mathlib.Core.Path.{◌≡◌, refl}
use mathlib.Core.Bool.{Bool, true, false, ◌&&◌}
use mathlib.Core.Logic.{inl, inr}
use mathlib.Core.Option.{Option, none, some}
use mathlib.Core.List.{List, [], ◌∷◌, Memᴰ}
use native.Mathlib.Omega.{arith}
use managed_python_runner_en.Prelude.Tests.{if◌then◌else◌, Bool-cases}

module _ {ℓ} {A : Type ℓ} where
  unfoldable pub select : (A → Bool) → List A → Option A
  select p [] = none
  select p (r ∷ rows) = if p r then some r else select p rows

  unfoldable pub update : (A → Bool) → (A → A) → List A → List A
  update p f [] = []
  update p f (r ∷ rows) = (if p r then f r else r) ∷ update p f rows

  unfoldable pub delete : (A → Bool) → List A → List A
  delete p [] = []
  delete p (r ∷ rows) = let rest = delete p rows in if p r then rest else r ∷ rest

  unfoldable pub rowcount : (A → Bool) → List A → ℕ
  rowcount p [] = 0
  rowcount p (r ∷ rows) = (if p r then 1 else 0) + rowcount p rows

  abbrev pub rewritten : (A → Bool) → (A → A) → Option A → Option A
  rewritten q f none = none
  rewritten q f (some r) = some (if q r then f r else r)

  abbrev pub kept : (A → Bool) → Option A → Option A
  kept q none = none
  kept q (some r) = if q r then none else some r

  abbrev pub holds : (A → Bool) → Option A → ℕ
  holds s none = 0
  holds s (some r) = if s r then 1 else 0

  -- An update that leaves the searched columns alone rewrites the row that is found.
  pub select-update :
      (p q : A → Bool) (f : A → A)
      → ((r : A) → p (f r) ≡ p r)
      → (rows : List A) → select p (update q f rows) ≡ rewritten q f (select p rows)
  unfolding select update
  select-update p q f same [] = refl
  select-update p q f same (r ∷ rows) = ground (arith, same r, select-update p q f same rows)

  pub rowcount-update :
      (p q : A → Bool) (f : A → A)
      → ((r : A) → p (f r) ≡ p r)
      → (rows : List A) → rowcount p (update q f rows) ≡ rowcount p rows
  unfolding rowcount update
  rowcount-update p q f same [] = refl
  rowcount-update p q f same (r ∷ rows) = ground (arith, same r, rowcount-update p q f same rows)

  pub rowcount-select-none :
      (p : A → Bool) (rows : List A) → select p rows ≡ none → rowcount p rows ≡ 0
  unfolding rowcount select
  rowcount-select-none p [] h = refl
  rowcount-select-none p (r ∷ rows) h = ground (arith, rowcount-select-none p rows)

  pub select-rowcount_zero :
      (p : A → Bool) (rows : List A) → rowcount p rows ≡ 0 → select p rows ≡ none
  unfolding rowcount select
  select-rowcount_zero p [] h = refl
  select-rowcount_zero p (r ∷ rows) h = ground (arith, select-rowcount_zero p rows)

  pub rowcount-delete-le :
      (p q : A → Bool) (rows : List A) → rowcount p (delete q rows) ≤ rowcount p rows
  unfolding rowcount delete
  rowcount-delete-le p q [] = omega arith
  rowcount-delete-le p q (r ∷ rows) = ground (arith, rowcount-delete-le p q rows)

  -- Where at most one row matches, DELETE removes it or leaves the search as it was.
  pub select-delete :
      (p q : A → Bool) (rows : List A)
      → rowcount p rows ≤ 1
      → select p (delete q rows) ≡ kept q (select p rows)
  unfolding rowcount delete select
  select-delete p q [] h = refl
  select-delete p q (r ∷ rows) h = elim (Bool-cases (p r)) [
    | inl hit ↦ ground (arith, select-rowcount_zero p (delete q rows), rowcount-delete-le p q rows)
    | inr miss ↦ ground (arith, select-delete p q rows)
  ]

  -- Where at most one row has the key, a WHERE clause that adds a test matches that row or none.
  pub rowcount-and :
      (p s : A → Bool) (rows : List A)
      → rowcount p rows ≤ 1
      → rowcount (λ r. p r && s r) rows ≡ holds s (select p rows)
  unfolding rowcount select
  rowcount-and p s [] h = refl
  rowcount-and p s (r ∷ rows) h = elim (Bool-cases (p r)) [
    | inl hit ↦ ground (arith, rowcount-and-le rows)
    | inr miss ↦ ground (arith, rowcount-and p s rows)
  ]
    where
      rowcount-and-le : (rest : List A) → rowcount (λ x. p x && s x) rest ≤ rowcount p rest
      rowcount-and-le [] = omega arith
      rowcount-and-le (x ∷ rest) = ground (arith, rowcount-and-le rest)

  -- The row that a search returns passes the test.
  pub select-holds : (p : A → Bool) (rows : List A) (r : A) → select p rows ≡ some r → p r ≡ true
  unfolding select
  select-holds p [] r h = ground arith
  select-holds p (x ∷ rows) r h = ground (arith, select-holds p rows r)

  -- A row that is there is found by any test that it passes.
  pub select-found :
      (p q : A → Bool) (rows : List A) (r : A)
      → select p rows ≡ some r
      → q r ≡ true
      → (x : A) × (select q rows ≡ some x)
  unfolding select
  select-found p q [] r h e = absurd (ground arith)
  select-found p q (x ∷ rows) r h e = elim (Bool-cases (q x)) [
    | inl hit ↦ (x, rw hit)
    | inr miss ↦ rw miss (select-found p q rows r (ground arith) e)
  ]

  -- An UPDATE whose clause matches no row changes nothing.
  pub update-none :
      (q : A → Bool) (f : A → A) (rows : List A) → rowcount q rows ≡ 0 → update q f rows ≡ rows
  unfolding rowcount update
  update-none q f [] h = refl
  update-none q f (r ∷ rows) h = ground (arith, update-none q f rows)

  -- An UPDATE of one row changes a count by what it changes of that row.
  pub rowcount-update_one :
      (p q : A → Bool) (f : A → A) (rows : List A) (r : A)
      → rowcount q rows ≤ 1
      → select q rows ≡ some r
      → rowcount p (update q f rows) + (if p r then 1 else 0)
        ≡ rowcount p rows + (if p (f r) then 1 else 0)
  unfolding rowcount update select
  rowcount-update_one p q f [] r one h = absurd (ground arith)
  rowcount-update_one p q f (x ∷ rows) r one h = elim (Bool-cases (q x)) [
    | inl hit ↦
        let same : x ≡ r = ground arith in
        let rest : update q f rows ≡ rows = update-none q f rows (ground arith) in
        rw (hit, rest) (rw same (omega arith))
    | inr miss ↦
        rw miss (omega (arith, rowcount-update_one p q f rows r (ground arith) (ground arith)))
  ]

  -- A row that is found is counted by every test that it passes.
  pub rowcount-select_pos :
      (p q : A → Bool) (rows : List A) (r : A)
      → select p rows ≡ some r
      → q r ≡ true
      → 1 ≤ rowcount q rows
  unfolding rowcount select
  rowcount-select_pos p q [] r h e = absurd (ground arith)
  rowcount-select_pos p q (x ∷ rows) r h e = ground (arith, rowcount-select_pos p q rows r)

  -- Where at most one row has the key, a row found by the key and a test is the row of the key.
  pub select-and :
      (p s : A → Bool) (rows : List A) (r : A)
      → rowcount p rows ≤ 1
      → select (λ x. p x && s x) rows ≡ some r
      → select p rows ≡ some r
  unfolding rowcount select
  select-and p s [] r one h = absurd (ground arith)
  select-and p s (x ∷ rows) r one h = elim (Bool-cases (p x)) [
    | inr miss ↦ rw miss (select-and p s rows r (ground arith) (ground arith))
    | inl hit ↦ elim (Bool-cases (s x)) [
      | inl both ↦ ground arith
      | inr other ↦
          let found : select (λ y. p y && s y) rows ≡ some r = ground arith in
          let passes = select-holds (λ y. p y && s y) rows r found in
          absurd (ground (arith, rowcount-select_pos (λ y. p y && s y) p rows r found))
    ]
  ]

  -- The rows of a table, by whether they are in it.
  pub select-Mem : (p : A → Bool) (rows : List A) (r : A) → select p rows ≡ some r → Memᴰ r rows
  unfolding select
  select-Mem p [] r h = absurd (ground arith)
  select-Mem p (x ∷ rows) r h = elim (Bool-cases (p x)) [
    | inl hit ↦ (let same : r ≡ x = ground arith in Memᴰ.head same)
    | inr miss ↦ Memᴰ.tail (select-Mem p rows r (ground arith))
  ]

  pub rowcount-Mem :
      (p : A → Bool) (rows : List A) (r : A) → Memᴰ r rows → p r ≡ true → 1 ≤ rowcount p rows
  unfolding rowcount
  rowcount-Mem p [] r m h = elim m [ ]
  rowcount-Mem p (x ∷ rows) r (Memᴰ.head e) h = ground arith
  rowcount-Mem p (x ∷ rows) r (Memᴰ.tail m) h = ground (arith, rowcount-Mem p rows r m h)

  -- A row that passes is found by a test that one row passes at most.
  pub select-only :
      (p : A → Bool) (rows : List A) (r : A)
      → Memᴰ r rows
      → p r ≡ true
      → rowcount p rows ≤ 1
      → select p rows ≡ some r
  unfolding select rowcount
  select-only p [] r m h one = elim m [ ]
  select-only p (x ∷ rows) r (Memᴰ.head e) h one = ground arith
  select-only p (x ∷ rows) r (Memᴰ.tail m) h one =
      ground (arith, rowcount-Mem p rows r m h, select-only p rows r m h)

  -- A row that is found is found by a narrower test that it passes.
  pub select-narrow :
      (p s : A → Bool) (rows : List A) (r : A)
      → select p rows ≡ some r
      → s r ≡ true
      → select (λ x. p x && s x) rows ≡ some r
  unfolding select
  select-narrow p s [] r h e = absurd (ground arith)
  select-narrow p s (x ∷ rows) r h e = ground (arith, select-narrow p s rows r)

  -- A test that is counted is passed by a row of the table.
  pub rowcount-found :
      (p : A → Bool) (rows : List A) → 1 ≤ rowcount p rows → (r : A) × Memᴰ r rows × (p r ≡ true)
  unfolding rowcount
  rowcount-found p [] h = absurd (ground arith)
  rowcount-found p (x ∷ rows) h = elim (Bool-cases (p x)) [
    | inl hit ↦ (x, Memᴰ.head refl, hit)
    | inr miss ↦
        let (r, m, passes) = rowcount-found p rows (ground arith) in (r, Memᴰ.tail m, passes)
  ]

  -- A row that an UPDATE leaves, and that none of the rewritten rows can be, was in the table.
  pub Mem-update :
      (p q : A → Bool) (f : A → A)
      → ((x : A) → q x ≡ true → p (f x) ≡ true)
      → (rows : List A) (r : A) → Memᴰ r (update q f rows)
      → p r ≡ false
      → Memᴰ r rows
  unfolding update
  Mem-update p q f written [] r m h = elim m [ ]
  Mem-update p q f written (x ∷ rows) r (Memᴰ.head e) h = elim (Bool-cases (q x)) [
    | inl hit ↦ (let same : r ≡ f x = ground arith in absurd (ground (arith, written x hit)))
    | inr miss ↦ Memᴰ.head (ground arith)
  ]
  Mem-update p q f written (x ∷ rows) r (Memᴰ.tail m) h =
      Memᴰ.tail (Mem-update p q f written rows r m h)

  -- A row that the clause of an UPDATE does not match stays in the table.
  pub Mem-update_other :
      (q : A → Bool) (f : A → A) (rows : List A) (r : A)
      → Memᴰ r rows
      → q r ≡ false
      → Memᴰ r (update q f rows)
  unfolding update
  Mem-update_other q f [] r m h = elim m [ ]
  Mem-update_other q f (x ∷ rows) r (Memᴰ.head e) h = Memᴰ.head (ground arith)
  Mem-update_other q f (x ∷ rows) r (Memᴰ.tail m) h = Memᴰ.tail (Mem-update_other q f rows r m h)
