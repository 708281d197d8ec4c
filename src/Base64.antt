-- ===== src/Base64.antt =====
-- Python's `base64.b64encode` and `b64decode` (not validating), as runner_engine/state.py uses
-- them. Text is the list of its codes; decoding is the loop of CPython's `a2b_base64`.
pub mod RoundTrip
use managed_python_runner_en.Prelude.{
  ℕ, zero, suc, ◌+◌, ◌-◌, ◌*◌, ◌/◌, ◌%◌, ◌<◌, ◌≡◌, refl, Bool, true, ◌&&◌, Option, none, some, List,
  [], ◌∷◌, arith, ltb, leb, if◌then◌else◌, Option-cases,
}
use managed_python_runner_en.Errors.{Result, ok, err, Error, exception}

-- The character of a value below 64.
alphabet : ℕ → ℕ
alphabet v =
    if ltb v 26
    then v + 65
    else if ltb v 52
    then v + 71
    else if ltb v 62
    then v - 4
    else if leb v 62
    then 43
    else 47

value : ℕ → Option ℕ
value c =
    if leb 65 c && leb c 90
    then some (c - 65)
    else if leb 97 c && leb c 122
    then some (c - 71)
    else if leb 48 c && leb c 57
    then some (c + 4)
    else if leb 43 c && leb c 43
    then some 62
    else if leb 47 c && leb c 47
    then some 63
    else none

abbrev pad : ℕ
pad = 61

unfoldable pub b64encode : List ℕ → List ℕ
unfolding alphabet
b64encode [] = []
b64encode (a ∷ []) = alphabet (a / 4) ∷ alphabet (a % 4 * 16) ∷ pad ∷ pad ∷ []
b64encode (a ∷ b ∷ []) =
    alphabet (a / 4) ∷ alphabet (a % 4 * 16 + b / 16) ∷ alphabet (b % 16 * 4) ∷ pad ∷ []
b64encode (a ∷ b ∷ c ∷ rest) =
    alphabet (a / 4)
    ∷ alphabet (a % 4 * 16 + b / 16)
    ∷ alphabet (b % 16 * 4 + c / 64)
    ∷ alphabet (c % 64)
    ∷ b64encode rest

-- The loop's state: the place in the group of four, the bits left over, the padding seen.
pub data Place : Type 0 where
  first second third fourth : Place

position : Place → ℕ
position first = 0
position second = 1
position third = 2
position fourth = 3

prepend : ℕ → Result (List ℕ) → Result (List ℕ)
prepend b (ok bs) = ok (b ∷ bs)
prepend b (err e) = err e

at_end : Place → Result (List ℕ)
at_end first = ok []
at_end second = err (exception "Invalid base64-encoded string")
at_end _ = err (exception "Incorrect padding")

-- One character of the alphabet: what it completes, and how the loop goes on.
digit_at : Place → ℕ → ℕ → (Place → ℕ → Result (List ℕ)) → Result (List ℕ)
unfolding prepend
digit_at first left v next = next second v
digit_at second left v next = prepend (left * 4 + v / 16) (next third (v % 16))
digit_at third left v next = prepend (left * 16 + v / 4) (next fourth (v % 4))
digit_at fourth left v next = prepend (left * 64 + v) (next first 0)

decode_from : Place → ℕ → ℕ → List ℕ → Result (List ℕ)
unfolding position at_end digit_at value
decode_from place left pads [] = at_end place
decode_from place left pads (c ∷ rest) =
    let skip = decode_from place left pads rest in
    let padded = decode_from place left (pads + 1) rest in
    let digit : ℕ → Result (List ℕ) =
      λ v. digit_at place left v (λ place' left'. decode_from place' left' 0 rest) in
    if leb c pad && leb pad c
    then (if leb 2 (position place) && leb 4 (position place + pads + 1) then ok [] else padded)
    else elim (value c) [ none ↦ skip | some v ↦ digit v ]

unfoldable pub b64decode : List ℕ → Result (List ℕ)
unfolding decode_from
b64decode = decode_from first 0 0
