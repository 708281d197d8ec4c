-- ===== src/Base64/RoundTrip.antt =====
-- Decoding undoes encoding.
use managed_python_runner_en.Prelude.{
  ℕ, ◌+◌, ◌*◌, ◌/◌, ◌%◌, ◌<◌, ◌≡◌, refl, some, List, [], ◌∷◌, arith,
}
use managed_python_runner_en.Errors.{ok}
use managed_python_runner_en.Base64.{
  alphabet, value, pad, Place, first, second, third, fourth, digit_at, decode_from, b64encode,
  b64decode,
}

-- Every number of the list is a byte.
abbrev pub IsBytes : List ℕ → Type 0
IsBytes [] = Unit {0}
IsBytes (b ∷ bs) = (b < 256) × IsBytes bs

value-alphabet : (v : ℕ) → v < 64 → value (alphabet v) ≡ some v
unfolding value alphabet
value-alphabet v h = ground arith

alphabet-ne-pad : (v : ℕ) → v < 64 → ¬ (alphabet v ≡ pad)
unfolding alphabet
alphabet-ne-pad v h e = ground arith

-- The decoder reads a character of the alphabet as its value.
decode_digit :
    (place : Place) (left pads v : ℕ) (rest : List ℕ)
    → v < 64
    → decode_from place left pads (alphabet v ∷ rest)
      ≡ digit_at place left v (λ place' left'. decode_from place' left' 0 rest)
unfolding decode_from
decode_digit place left pads v rest h = ground (arith, value-alphabet v h, alphabet-ne-pad v h)

round_trip :
    (bs : List ℕ) (left pads : ℕ) → IsBytes bs → decode_from first left pads (b64encode bs) ≡ ok bs
unfolding b64encode digit_at
round_trip [] left pads h = unfold decode_from in refl
round_trip (a ∷ []) left pads h = rw (decode_digit first left pads (a / 4) _ (omega arith)) (
    rw (decode_digit second (a / 4) 0 (a % 4 * 16) _ (omega arith))
      (unfold decode_from in ground arith))
round_trip (a ∷ b ∷ []) left pads h = rw (decode_digit first left pads (a / 4) _ (omega arith)) (
    rw (decode_digit second (a / 4) 0 (a % 4 * 16 + b / 16) _ (omega arith)) (
      rw (decode_digit third ((a % 4 * 16 + b / 16) % 16) 0 (b % 16 * 4) _ (omega arith))
        (unfold decode_from in ground arith)))
round_trip (a ∷ b ∷ c ∷ rest) left pads h =
    rw (decode_digit first left pads (a / 4) _ (omega arith)) (
      rw (decode_digit second (a / 4) 0 (a % 4 * 16 + b / 16) _ (omega arith)) (
        rw (decode_digit third ((a % 4 * 16 + b / 16) % 16) 0 (b % 16 * 4 + c / 64) _ (omega arith))
          (rw (decode_digit fourth ((b % 16 * 4 + c / 64) % 4) 0 (c % 64) _ (omega arith))
            (rw (round_trip rest 0 0 h.1.1.1) (ground arith)))))

-- What a byte string is encoded to decodes to the same byte string.
pub b64decode-b64encode : (bs : List ℕ) → IsBytes bs → b64decode (b64encode bs) ≡ ok bs
unfolding b64decode
b64decode-b64encode bs h = round_trip bs 0 0 h
