-- ===== src/Build/Lock/Packages.antt =====
-- The packages of a lock: each name is there once.
use managed_python_runner_en.Prelude.{
  String, ◌≡◌, refl, ◌∙◌, none, some, List, [], ◌∷◌, arith, ◌==◌, eq_iff, inl, inr, Option-cases,
  if◌then◌else◌, string_eq, get, put, get-put,
}
use managed_python_runner_en.Errors.{ok, Result-cases}
use managed_python_runner_en.Build.Lock.{
  Packages, add_package, parse_line, parse_lines, insert_package, sorted_packages,
  parse_locked_packages, splitlines, chars, match_pin,
}
use Prim.Native.Char.{Char}

-- Each name is there once.
abbrev pub IsDict : Packages → Type 0
IsDict [] = Unit {0}
IsDict ((name, version) ∷ packages) = (get name packages ≡ none) × IsDict packages

put-IsDict : (name version : String) (d : Packages) → IsDict d → IsDict (put name version d)
unfolding get put
put-IsDict name version [] v = (refl, tt)
put-IsDict name version ((other, w) ∷ d) v = ground (
  arith,
  put-IsDict name version d v.1,
  eq_iff other name,
  eq_iff name other,
  get-put name other version d,
)

get-insert_package :
    (name version k : String) (d : Packages)
    → get name d ≡ none
    → get k (insert_package name version d) ≡ (if name == k then some version else get k d)
unfolding get insert_package
get-insert_package name version k [] h = refl
get-insert_package name version k ((other, w) ∷ d) h =
    ground
      (arith, get-insert_package name version k d, eq_iff other k, eq_iff name k, eq_iff other name)

insert_package-IsDict :
    (name version : String) (d : Packages)
    → get name d ≡ none
    → IsDict d
    → IsDict (insert_package name version d)
unfolding get insert_package
insert_package-IsDict name version [] h v = (refl, tt)
insert_package-IsDict name version ((other, w) ∷ d) h v = ground (
  arith,
  insert_package-IsDict name version d,
  get-insert_package name version other d,
  eq_iff other name,
  eq_iff name other,
)

sorted_packages-IsDict :
    (d : Packages)
    → IsDict d
    → IsDict (sorted_packages d) × ((k : String) → get k (sorted_packages d) ≡ get k d)
unfolding sorted_packages get
sorted_packages-IsDict [] v = (tt, λ k. refl)
sorted_packages-IsDict ((name, version) ∷ d) v =
    let (sorted, same) = sorted_packages-IsDict d v.1 in
    let absent : get name (sorted_packages d) ≡ none = same name ∙ v.0 in
    (
      insert_package-IsDict name version (sorted_packages d) absent sorted,
      λ k. get-insert_package name version k (sorted_packages d) absent ∙ (rw (same k)),
    )

module _ (canonicalize_name repr : String → String) where
  parse_line-IsDict :
      (line : List Char) (d after : Packages)
      → IsDict d
      → parse_line canonicalize_name repr line d ≡ ok after
      → IsDict after
  unfolding parse_line add_package
  parse_line-IsDict line d after v h = elim (Option-cases (match_pin line)) [
    | inl e ↦ let same : d ≡ after = ground arith in rw (← same) v
    | inr ((name, version), e) ↦ ground (arith, put-IsDict (canonicalize_name name) version d v)
  ]

  parse_lines-IsDict :
      (lines : List (List Char)) (d after : Packages)
      → IsDict d
      → parse_lines canonicalize_name repr lines d ≡ ok after
      → IsDict after
  unfolding parse_lines
  parse_lines-IsDict [] d after v h = let same : d ≡ after = ground arith in rw (← same) v
  parse_lines-IsDict (line ∷ lines) d after v h =
      elim (Result-cases (parse_line canonicalize_name repr line d)) [
        | inr (e, k) ↦ absurd (ground arith)
        | inl (mid, k) ↦
            parse_lines-IsDict lines mid after (parse_line-IsDict line d mid v k) (ground arith)
      ]

  pub parse_locked_packages-IsDict :
      (lock_text : String) (packages : Packages)
      → parse_locked_packages canonicalize_name repr lock_text ≡ ok packages
      → IsDict packages
  unfolding parse_locked_packages
  parse_locked_packages-IsDict lock_text packages h =
      elim (Result-cases (parse_lines canonicalize_name repr (splitlines (chars lock_text)) [])) [
        | inr (e, k) ↦ absurd (ground arith)
        | inl (d, k) ↦
            let same : sorted_packages d ≡ packages = ground arith in
            rw (← same)
              (sorted_packages-IsDict d
                (parse_lines-IsDict (splitlines (chars lock_text)) [] d tt k)).0
      ]
