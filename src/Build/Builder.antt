-- ===== src/Build/Builder.antt =====
-- build_service/builder.py. `Tools` are the programs that it runs and the libraries that it calls.
use Prim.Native.Char.{Char}
use Prim.Native.String.{compare, find, len, ◌++◌}
use text.Mathlib.Text.{is_lt}
use text.Mathlib.TextBridge.{of_list}
use managed_python_runner_en.Prelude.{
  String, Bool, ◌&&◌, ◌||◌, Option, none, some, List, [], ◌∷◌, ltb, eqb, ◌==◌, if◌then◌else◌,
  string_eq,
}
use managed_python_runner_en.Errors.{Result, ok, raise_error, value_error, runtime_error, ◌>>=◌}
use managed_python_runner_en.Build.Lock.{chars, lstrip, Packages}
use managed_python_runner_en.Build.Model.{RuntimeBuildSpec}

-- A `Requirement` of the library `packaging`, and its `str`.
pub record Requirement : Type 0 where
  pub url : Option String
  pub text : String

-- What `uv pip compile` is given: the text of requirements.in, and the options.
pub record CompileCall : Type 0 where
  pub source : String
  pub python_version : String
  pub python_platform : String
  pub uv_default_index : Option String

-- What `docker buildx build` is given; the Dockerfile is always the same.
pub record BuildxCall : Type 0 where
  pub requirements_lock : String
  pub platform : String
  pub base_image : String
  pub tag : String

-- A command that fails raises; `buildx` gives metadata["containerimage.digest"] where it is a text.
pub record Tools : Type 0 where
  pub parse_requirement : String → Option Requirement
  pub lower : String → String
  pub repr : String → String
  pub set_order : List String → List String
  pub compile : CompileCall → Result String
  pub buildx : BuildxCall → Result (Option String)
  pub verify_image : String → Packages → Result (Unit {0})

abbrev reversed_onto : List Char → List Char → List Char
reversed_onto [] done = done
reversed_onto (c ∷ cs) done = reversed_onto cs (c ∷ done)

-- str.strip
unfoldable pub strip : String → String
unfolding lstrip chars
strip text = of_list (reversed_onto (lstrip (reversed_onto (lstrip (chars text)) [])) [])

-- part in text
abbrev pub contains : String → String → Bool
contains text part = ltb (find text part) (len text)

-- text.startswith(prefix), of a prefix that is not empty
abbrev pub starts_with : String → String → Bool
starts_with text prefix = contains text prefix && eqb (find text prefix) 0

-- set.add
unfoldable pub add_text : String → List String → List String
add_text value [] = value ∷ []
add_text value (other ∷ values) =
    let rest = add_text value values in if other == value then other ∷ values else other ∷ rest

-- What the command's environment sets: nothing for None and for the empty text.
unfoldable pub unless_empty : Option String → Option String
unless_empty none = none
unless_empty (some value) = if value == "" then none else some value

module _ (t : Tools) where
  unfoldable pub add_requirement : String → Option Requirement → List String → Result (List String)
  unfolding add_text
  add_requirement raw none result = raise_error value_error ("invalid requirement: " ++ t.repr raw)
  add_requirement raw (some requirement) result = elim requirement.url [
    | some _ ↦ raise_error value_error "URL/VCS/path dependencies are not allowed"
    | none ↦ ok (add_text requirement.text result)
  ]

  -- One turn of the loop.
  unfoldable pub normalize_one : String → List String → Result (List String)
  unfolding strip add_requirement
  normalize_one raw result =
      let value = strip raw in
      if value == ""
      then ok result
      else if contains value "\n" || contains value "\r" || starts_with value "-"
      then raise_error value_error ("unsupported requirement: " ++ t.repr raw)
      else add_requirement raw (t.parse_requirement value) result

  unfoldable pub normalize_all : List String → List String → Result (List String)
  unfolding normalize_one
  normalize_all [] result = ok result
  normalize_all (raw ∷ values) result = normalize_one raw result >>= normalize_all values

  -- Before the values that are not less, which come later in the set's order.
  unfoldable pub insert_by_lower : String → List String → List String
  insert_by_lower value [] = value ∷ []
  insert_by_lower value (other ∷ values) =
      let rest = insert_by_lower value values in
      if is_lt (compare (t.lower other) (t.lower value))
      then other ∷ rest
      else value ∷ other ∷ values

  -- sorted(values, key=str.lower), which is stable
  unfoldable pub sort_by_lower : List String → List String
  unfolding insert_by_lower
  sort_by_lower [] = []
  sort_by_lower (value ∷ values) = insert_by_lower value (sort_by_lower values)

  unfoldable pub normalize_requirements : List String → Result (List String)
  unfolding normalize_all sort_by_lower
  normalize_requirements values =
      normalize_all values [] >>= λ result. ok (sort_by_lower (t.set_order result))

  -- "\n".join(lines) + ("\n" if lines else "")
  unfoldable pub write_lines : List String → String
  write_lines [] = ""
  write_lines (line ∷ lines) = line ++ ("\n" ++ write_lines lines)

  unfoldable pub lock_requirements : List String → String → String → Option String → Result String
  unfolding normalize_requirements write_lines unless_empty
  lock_requirements requirements python_version python_platform uv_default_index = do
    normalized ← normalize_requirements requirements
    t.compile (record {
      source = write_lines normalized;
      python_version = python_version;
      python_platform = python_platform;
      uv_default_index = unless_empty uv_default_index;
    })

  abbrev pub image_of : String → Option String → Result String
  image_of registry_repo none =
      raise_error runtime_error "buildx did not return containerimage.digest"
  image_of registry_repo (some digest) =
      if starts_with digest "sha256:"
      then ok (registry_repo ++ ("@" ++ digest))
      else raise_error runtime_error "buildx did not return containerimage.digest"

  unfoldable pub build_runtime_image : RuntimeBuildSpec → String → String → Result String
  build_runtime_image spec registry_repo build_tag =
      t.buildx (record {
        requirements_lock = spec.requirements_lock;
        platform = spec.platform;
        base_image = spec.base_image;
        tag = registry_repo ++ (":" ++ build_tag);
      })
      >>= image_of registry_repo

  abbrev pub verify_runtime_image : String → Packages → Result (Unit {0})
  verify_runtime_image = t.verify_image
