-- ===== src/Service/Attributes.antt =====
-- `_filter_attributes`, `_validate_attributes` and `_request_fingerprint` of
-- runner_engine/service.py.
use Prim.Native.String.{len, compare, ◌++◌}
use text.Mathlib.Text.{is_lt}
use managed_python_runner_en.Prelude.{
  ℕ, ◌+◌, String, false, List, [], ◌∷◌, ltb, length, if◌then◌else◌,
}
use managed_python_runner_en.Errors.{Result, ok, runner, raise, raise_if, ◌>>=◌, ◌>>◌}
use managed_python_runner_en.Model.{Value, string, not_string, Attributes, Bytes, RunRequest}
use managed_python_runner_en.Pool.Acquire.{contains}

-- A text after a fixed one, of an f-string.
abbrev pub after : String → String → String
after fixed value = fixed ++ value

abbrev pub max_inline_bytes : ℕ
max_inline_bytes = 8388608

abbrev pub max_attributes : ℕ
max_attributes = 128

abbrev pub max_attribute_bytes : ℕ
max_attribute_bytes = 65536

-- {key: value for key, value in values.items() if key in allow}
unfoldable pub filter_allowed : List String → Attributes → Attributes
filter_allowed allowed [] = []
filter_allowed allowed ((key, value) ∷ values) =
    let rest = filter_allowed allowed values in
    if contains key allowed then (key, value) ∷ rest else rest

unfoldable pub filter_attributes : Attributes → List String → Attributes
unfolding filter_allowed
filter_attributes values [] = []
filter_attributes values (name ∷ allowed) = filter_allowed (name ∷ allowed) values

-- The loop over the items: `total`, or the first value that is no text.
unfoldable pub attribute_bytes : Attributes → Result ℕ
attribute_bytes [] = ok 0
attribute_bytes ((key, string value) ∷ values) =
    attribute_bytes values >>= λ rest. ok (len key + len value + rest)
attribute_bytes ((key, not_string) ∷ values) =
    raise runner "INVALID_ATTRIBUTES" "attributes must be dict[str, str]" false

unfoldable pub validate_attributes : Attributes → Result (Unit {0})
validate_attributes values = do
  raise_if (ltb max_attributes (length values)) runner "TOO_MANY_ATTRIBUTES"
      "attribute count exceeds limit" false
  total ← attribute_bytes values
  raise_if (ltb max_attribute_bytes total) runner "ATTRIBUTES_TOO_LARGE"
      "attributes exceed byte limit" false

-- sorted(values.items()), whose keys differ
unfoldable pub insert_item : String → Value → Attributes → Attributes
insert_item key value [] = (key, value) ∷ []
insert_item key value ((other_key, other_value) ∷ values) =
    let rest = insert_item key value values in
    if is_lt (compare key other_key)
    then (key, value) ∷ (other_key, other_value) ∷ values
    else (other_key, other_value) ∷ rest

unfoldable pub sorted_items : Attributes → Attributes
unfolding insert_item
sorted_items [] = []
sorted_items ((key, value) ∷ values) = insert_item key value (sorted_items values)

-- The dict `identity`; its "schema" is always 1.
pub record Identity : Type 0 where
  pub release_id : String
  pub content_sha256 : String
  pub attributes : Attributes
  pub parameters : Attributes
  pub timeout_ms : ℕ

-- What `hashlib` and `json` compute: the SHA-256 of bytes, and that of an identity's canonical
-- JSON, each in hexadecimal.
pub record Hashing : Type 0 where
  pub content_sha256 : Bytes → String
  pub identity_sha256 : Identity → String

unfoldable pub request_fingerprint : Hashing → RunRequest → String
unfolding sorted_items
request_fingerprint hashing request = hashing.identity_sha256 (record {
  release_id = request.release_id;
  content_sha256 = hashing.content_sha256 request.content;
  attributes = sorted_items request.attributes;
  parameters = sorted_items request.parameters;
  timeout_ms = request.timeout_ms;
})
