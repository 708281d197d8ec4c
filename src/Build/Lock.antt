-- ===== src/Build/Lock.antt =====
-- `parse_locked_packages` of build_service/model.py, and what it uses of Python's `str` and `re`.
-- `canonicalize_name` belongs to the library `packaging`: it and `repr` are arguments.
pub mod Packages
use Prim.Native.Char.{Char, code}
use Prim.Native.String.{compare, ◌++◌}
use text.Mathlib.Text.{is_lt}
use text.Mathlib.TextBridge.{of_list}
use managed_python_runner_en.Prelude.{
  ℕ, String, Bool, true, false, not, ◌&&◌, ◌||◌, Option, none, some, List, [], ◌∷◌, leb, eqb, ◌==◌,
  if◌then◌else◌, Dict, string_eq, get, put,
}
use managed_python_runner_en.Errors.{Result, ok, err, raise_error, value_error, ◌>>=◌}

unfoldable pub chars : String → List Char
chars String.[] = []
chars (String.◌∷◌ c s) = c ∷ chars s

abbrev between : ℕ → ℕ → ℕ → Bool
between low high n = leb low n && leb n high

-- str.isspace of one character, and `\s`
is_space : Char → Bool
is_space c =
    between 9 13 (code c)
    || between 28 32 (code c)
    || eqb (code c) 133
    || eqb (code c) 160
    || eqb (code c) 5760
    || between 8192 8202 (code c)
    || between 8232 8233 (code c)
    || eqb (code c) 8239
    || eqb (code c) 8287
    || eqb (code c) 12288

-- What ends a line for str.splitlines.
is_break : Char → Bool
is_break c =
    between 10 13 (code c)
    || between 28 30 (code c)
    || eqb (code c) 133
    || between 8232 8233 (code c)

abbrev starts_with_lf : List Char → Bool
starts_with_lf [] = false
starts_with_lf (c ∷ cs) = eqb (code c) 10

abbrev onto_first : Char → List (List Char) → List (List Char)
onto_first c [] = (c ∷ []) ∷ []
onto_first c (line ∷ lines) = (c ∷ line) ∷ lines

-- str.splitlines; "\r\n" is one end of a line.
unfoldable pub splitlines : List Char → List (List Char)
unfolding is_break
splitlines [] = []
splitlines (c ∷ cs) =
    let rest = splitlines cs in
    if eqb (code c) 13 && starts_with_lf cs
    then rest
    else if is_break c
    then [] ∷ rest
    else onto_first c rest

unfoldable pub is_blank : List Char → Bool
unfolding is_space
is_blank [] = true
is_blank (c ∷ cs) = is_space c && is_blank cs

unfoldable pub lstrip : List Char → List Char
unfolding is_space
lstrip [] = []
lstrip (c ∷ cs) = let rest = lstrip cs in if is_space c then rest else c ∷ cs

-- .startswith(("#", "--"))
abbrev is_comment : List Char → Bool
is_comment [] = false
is_comment (c ∷ []) = eqb (code c) 35
is_comment (c ∷ d ∷ cs) = eqb (code c) 35 || (eqb (code c) 45 && eqb (code d) 45)

-- line[:1].isspace()
abbrev is_indented : List Char → Bool
unfolding is_space
is_indented [] = false
is_indented (c ∷ cs) = is_space c

-- [A-Za-z0-9_.-]
unfoldable pub is_name_char : Char → Bool
is_name_char c =
    between 65 90 (code c)
    || between 97 122 (code c)
    || between 48 57 (code c)
    || eqb (code c) 95
    || between 45 46 (code c)

-- [^\s;\\]
unfoldable pub is_version_char : Char → Bool
unfolding is_space
is_version_char c = not (is_space c || eqb (code c) 59 || eqb (code c) 92)

-- The longest beginning of characters that pass, and what is behind it.
unfoldable pub span : (Char → Bool) → List Char → List Char × List Char
span p [] = ([], [])
span p (c ∷ cs) = let rest = span p cs in if p c then (c ∷ rest.0, rest.1) else ([], c ∷ cs)

-- The text behind "==".
abbrev after_equals : List Char → Option (List Char)
after_equals [] = none
after_equals (c ∷ []) = none
after_equals (c ∷ d ∷ cs) = if eqb (code c) 61 && eqb (code d) 61 then some cs else none

abbrev both_found : List Char → List Char → Option (String × String)
both_found [] version = none
both_found (c ∷ name) [] = none
both_found (c ∷ name) (d ∷ version) = some (of_list (c ∷ name), of_list (d ∷ version))

-- _PIN.match, whose leading `\s*` is empty here: `=` is in no name, so the longest name is the only
-- one that can be followed by "==".
unfoldable pub match_pin : List Char → Option (String × String)
unfolding span is_name_char is_version_char
match_pin line =
    let (name, rest) = span is_name_char line in
    elim (after_equals rest) [
      | none ↦ none
      | some text ↦ both_found name (span is_version_char text).0
    ]

abbrev pub Packages : Type 0
Packages = Dict String String

abbrev is_other : String → Option String → Bool
is_other version none = false
is_other version (some previous) = not (previous == version)

-- sorted(packages.items()), whose keys differ
unfoldable pub insert_package : String → String → Packages → Packages
insert_package name version [] = (name, version) ∷ []
insert_package name version ((other, v) ∷ packages) =
    let rest = insert_package name version packages in
    if is_lt (compare name other)
    then (name, version) ∷ (other, v) ∷ packages
    else (other, v) ∷ rest

unfoldable pub sorted_packages : Packages → Packages
unfolding insert_package
sorted_packages [] = []
sorted_packages ((name, version) ∷ packages) =
    insert_package name version (sorted_packages packages)

module _ (canonicalize_name repr : String → String) where
  unfoldable pub add_package : String → String → Packages → Result Packages
  add_package name version packages =
      if is_other version (get name packages)
      then raise_error value_error (name ++ " has conflicting versions")
      else ok (put name version packages)

  -- One turn of the loop.
  unfoldable pub parse_line : List Char → Packages → Result Packages
  unfolding is_blank lstrip match_pin add_package
  parse_line line packages =
      if is_blank line || is_comment (lstrip line) || is_indented line
      then ok packages
      else elim (match_pin line) [
        | none ↦ raise_error value_error ("lock line is not an exact pin: " ++ repr (of_list line))
        | some (name, version) ↦ add_package (canonicalize_name name) version packages
      ]

  unfoldable pub parse_lines : List (List Char) → Packages → Result Packages
  unfolding parse_line
  parse_lines [] packages = ok packages
  parse_lines (line ∷ lines) packages = parse_line line packages >>= parse_lines lines

  unfoldable pub parse_locked_packages : String → Result Packages
  unfolding splitlines parse_lines sorted_packages chars
  parse_locked_packages lock_text =
      parse_lines (splitlines (chars lock_text)) [] >>= λ packages. ok (sorted_packages packages)
