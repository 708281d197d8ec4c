-- ===== src/Authoring/Texts.antt =====
-- What operator_authoring uses of Python's `str`, `set` and `sorted`.
use Prim.Native.Char.{Char, code}
use Prim.Native.String.{compare, ◌++◌}
use text.Mathlib.Text.{is_lt}
use text.Mathlib.TextBridge.{of_list}
use managed_python_runner_en.Prelude.{
  ℕ, String, Bool, false, Option, none, some, List, [], ◌∷◌, eqb, ◌==◌, if◌then◌else◌, ◌||◌,
}
use managed_python_runner_en.Build.Lock.{chars}

-- value in values
unfoldable pub member : String → List String → Bool
member value [] = false
member value (other ∷ values) = other == value || member value values

-- sorted(set(…)), one value more
unfoldable pub insert_text : String → List String → List String
insert_text value [] = value ∷ []
insert_text value (other ∷ values) =
    let rest = insert_text value values in
    if other == value
    then other ∷ values
    else if is_lt (compare value other)
    then value ∷ other ∷ values
    else other ∷ rest

unfoldable pub sorted_set : List String → List String
unfolding insert_text
sorted_set [] = []
sorted_set (value ∷ values) = insert_text value (sorted_set values)

-- separator.join(values)
unfoldable pub join : String → List String → String
join separator [] = ""
join separator (value ∷ []) = value
join separator (value ∷ other ∷ values) = value ++ (separator ++ join separator (other ∷ values))

abbrev pub onto_first : Char → List (List Char) → List (List Char)
onto_first c [] = (c ∷ []) ∷ []
onto_first c (part ∷ parts) = (c ∷ part) ∷ parts

-- text.split(separator), of one character
unfoldable pub split_chars : ℕ → List Char → List (List Char)
split_chars separator [] = [] ∷ []
split_chars separator (c ∷ cs) =
    let rest = split_chars separator cs in
    if eqb (code c) separator then [] ∷ rest else onto_first c rest

unfoldable pub texts : List (List Char) → List String
texts [] = []
texts (part ∷ parts) = of_list part ∷ texts parts

abbrev pub split : ℕ → String → List String
split separator text = texts (split_chars separator (chars text))

-- The parts of text.split(":", 1), where there are two.
unfoldable pub cut : ℕ → List Char → Option (List Char × List Char)
cut separator [] = none
cut separator (c ∷ cs) =
    let rest = cut separator cs in
    if eqb (code c) separator
    then some ([], cs)
    else elim rest [ none ↦ none | some (before, behind) ↦ some (c ∷ before, behind) ]
