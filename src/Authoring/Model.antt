-- ===== src/Authoring/Model.antt =====
-- operator_authoring/model.py. A value of type `Any` is its canonical JSON. A validator's ValueError
-- has its own text, without what pydantic adds to it.
use Prim.Native.Char.{Char}
use Prim.Native.String.{compare}
use text.Mathlib.Text.{is_lt}
use managed_python_runner_en.Prelude.{
  ℕ, String, Bool, true, false, not, ◌&&◌, ◌||◌, Option, none, some, List, [], ◌∷◌, ltb, ◌==◌,
  if◌then◌else◌, Dict, string_eq,
}
use managed_python_runner_en.Errors.{Result, ok, raise_error, value_error}
use managed_python_runner_en.Build.Lock.{chars, is_name_char}
use managed_python_runner_en.Build.Builder.{strip, contains, starts_with}
use managed_python_runner_en.Authoring.Texts.{member, join, split}

pub data CallableKind : Type 0 where
  function_kind instance_method static_method class_method : CallableKind

pub data BindingSource : Type 0 where
  input_payload input_metadata operator_parameter constant_source : BindingSource

pub data Codec : Type 0 where
  bytes_codec text_codec json_codec : Codec

pub data NonePolicy : Type 0 where
  keep_original empty_output : NonePolicy

pub data OutputValueSource : Type 0 where
  returned return_path constant_output : OutputValueSource

-- An `int` of Python.
pub data ℤ : Type 0 where
  pos : ℕ → ℤ
  negsuc : ℕ → ℤ

abbrev pub int_lt : ℤ → ℤ → Bool
int_lt (pos a) (pos b) = ltb a b
int_lt (pos a) (negsuc b) = false
int_lt (negsuc a) (pos b) = true
int_lt (negsuc a) (negsuc b) = ltb b a

-- The canonical JSON of a value.
abbrev pub Json : Type 0
Json = String

pub record CatalogWarning : Type 0 where
  pub is_error : Bool
  pub file : String
  pub line : Option ℕ
  pub message : String

pub record ParameterInfo : Type 0 where
  pub name : String
  pub kind : String
  pub annotation : Option String
  pub required : Bool
  pub has_default : Bool
  pub default_value : Option Json
  pub default_repr : Option String

pub record CallableInfo : Type 0 where
  pub id : String
  pub module_name : String
  pub qualname : String
  pub kind : CallableKind
  pub class_target : Option String
  pub method_name : Option String
  pub file : String
  pub line : ℕ
  pub is_async : Bool
  pub decorators : List String
  pub score : ℤ
  pub parameters : List ParameterInfo
  pub return_annotation : Option String

pub record ClassInfo : Type 0 where
  pub id : String
  pub module_name : String
  pub qualname : String
  pub target : String
  pub file : String
  pub line : ℕ
  pub constructor_parameters : List ParameterInfo
  pub methods : List CallableInfo

pub record ProjectCatalog : Type 0 where
  pub source_revision : String
  pub python_path : String
  pub functions : List CallableInfo
  pub classes : List ClassInfo
  pub warnings : List CatalogWarning

abbrev pub appended : List CallableInfo → List CallableInfo → List CallableInfo
appended [] more = more
appended (item ∷ items) more = item ∷ appended items more

unfoldable pub with_methods : List CallableInfo → List ClassInfo → List CallableInfo
with_methods result [] = result
with_methods result (item ∷ classes) = with_methods (appended result item.methods) classes

-- (-a.score, a.id) < (-b.score, b.id)
unfoldable pub ranks_before : CallableInfo → CallableInfo → Bool
ranks_before a b =
    int_lt b.score a.score || (not (int_lt a.score b.score) && is_lt (compare a.id b.id))

-- `sorted` is stable: an item stays before an equal one that came later.
unfoldable pub insert_callable : CallableInfo → List CallableInfo → List CallableInfo
unfolding ranks_before
insert_callable item [] = item ∷ []
insert_callable item (other ∷ items) =
    let rest = insert_callable item items in
    if ranks_before other item then other ∷ rest else item ∷ other ∷ items

unfoldable pub sorted_callables : List CallableInfo → List CallableInfo
unfolding insert_callable
sorted_callables [] = []
sorted_callables (item ∷ items) = insert_callable item (sorted_callables items)

unfoldable pub all_callables : ProjectCatalog → List CallableInfo
unfolding with_methods sorted_callables
all_callables catalog = sorted_callables (with_methods catalog.functions catalog.classes)

unfoldable pub first_by_id : String → List CallableInfo → Option CallableInfo
first_by_id callable_id [] = none
first_by_id callable_id (item ∷ items) =
    let rest = first_by_id callable_id items in if item.id == callable_id then some item else rest

abbrev pub callable_by_id : ProjectCatalog → String → Option CallableInfo
callable_by_id catalog callable_id = first_by_id callable_id (all_callables catalog)

unfoldable pub first_by_target : String → List ClassInfo → Option ClassInfo
first_by_target target [] = none
first_by_target target (item ∷ items) =
    let rest = first_by_target target items in if item.target == target then some item else rest

abbrev pub class_by_target : ProjectCatalog → String → Option ClassInfo
class_by_target catalog target = first_by_target target catalog.classes

pub record OperatorParameterSpec : Type 0 where
  pub key : String
  pub display_name : String
  pub description : String
  pub required : Bool
  pub has_default : Bool
  pub default_value : Option Json

unfoldable pub validate_key : String → Result String
unfolding strip
validate_key raw =
    let value = strip raw in
    if value == ""
    then raise_error value_error "operator parameter key cannot be empty"
    else ok value

pub record ArgumentBinding : Type 0 where
  pub source : BindingSource
  pub codec : Codec
  pub metadata_key : Option String
  pub parameter : Option OperatorParameterSpec
  pub constant : Option Json

-- not text
abbrev pub is_missing : Option String → Bool
is_missing none = true
is_missing (some text) = text == ""

unfoldable pub validate_binding : ArgumentBinding → Result ArgumentBinding
validate_binding binding = elim binding.source [
  | input_metadata ↦
      if is_missing binding.metadata_key
      then raise_error value_error "input.metadata requires metadata_key"
      else ok binding
  | operator_parameter ↦ elim binding.parameter [
    | none ↦ raise_error value_error "operator.parameter requires parameter"
    | some _ ↦ ok binding
  ]
  | _ ↦ ok binding
]

pub record OperatorMetadata : Type 0 where
  pub name : String
  pub display_name : String
  pub description : String

-- The allowed characters are those of a requirement's name.
unfoldable pub all_allowed : List Char → Bool
unfolding is_name_char
all_allowed [] = true
all_allowed (c ∷ cs) = is_name_char c && all_allowed cs

unfoldable pub validate_name : String → Result String
unfolding strip all_allowed chars
validate_name raw =
    let value = strip raw in
    if value == ""
    then raise_error value_error "operator name cannot be empty"
    else if all_allowed (chars value)
    then ok value
    else raise_error value_error "operator name may contain only letters, digits, '.', '_' and '-'"

pub data PathPart : Type 0 where
  key_part : String → PathPart
  index_part : ℤ → PathPart

pub record OutputValueSpec : Type 0 where
  pub source : OutputValueSource
  pub path : List PathPart
  pub codec : Codec
  pub value : Option Json

unfoldable pub validate_value : OutputValueSpec → Result OutputValueSpec
validate_value spec = elim spec.source [
  | return_path ↦ elim spec.path [
    | [] ↦ raise_error value_error "return.path output requires a non-empty path"
    | part ∷ path ↦ ok spec
  ]
  | _ ↦ ok spec
]

pub record OutputSpec : Type 0 where
  pub payload : OutputValueSpec
  pub metadata : Dict String OutputValueSpec
  pub none_policy : NonePolicy

pub record SourceSpec : Type 0 where
  pub source_revision : String
  pub python_path : String
  pub source_ref : Option String

-- part not in ("", ".")
unfoldable pub path_parts : List String → List String
path_parts [] = []
path_parts (part ∷ parts) =
    let rest = path_parts parts in if part == "" || part == "." then rest else part ∷ rest

abbrev pub or_dot : String → String
or_dot value = if value == "" then "." else value

abbrev pub joined_path : List String → String
joined_path [] = "."
joined_path (part ∷ parts) = join "/" (part ∷ parts)

unfoldable pub validate_python_path : String → Result String
unfolding strip path_parts member join
validate_python_path raw =
    let value = or_dot (strip raw) in
    if starts_with value "/" || contains value "\\"
    then raise_error value_error "python_path must be a relative POSIX path"
    else (let parts = path_parts (split 47 value) in
        if member ".." parts
        then raise_error value_error "python_path must stay inside the source snapshot"
        else ok (joined_path parts))

pub record VirtualOperatorContract : Type 0 where
  pub metadata : OperatorMetadata
  pub source : SourceSpec
  pub callable_id : String
  pub constructor_arguments : Dict String ArgumentBinding
  pub arguments : Dict String ArgumentBinding
  pub output : OutputSpec
