-- ===== src/Publish/Backends/Names.antt =====
-- The package's name that `_identifier` makes is a Python identifier.
use Prim.Native.Char.{Char, code}
use managed_python_runner_en.Prelude.{
  ◌≡◌, refl, subst, Bool, true, false, ◌||◌, List, [], ◌∷◌, eqb, Bool-cases, List-cases, inl, inr,
  All,
}
use managed_python_runner_en.Build.Lock.{chars}
use managed_python_runner_en.Publish.Backends.{
  is_alnum, is_digit, substituted, lstrip_underscores, rstrip_underscores, generated,
  not_digit_first, identifier_chars,
}

-- A letter, a digit or "_"
abbrev pub is_word : Char → Bool
is_word c = is_alnum c || eqb (code c) 95

abbrev pub Words : List Char → Type 0
Words cs = All (λ c. is_word c ≡ true) cs

-- [A-Za-z_][A-Za-z0-9_]*
abbrev pub IsIdentifier : List Char → Type 0
IsIdentifier [] = true ≡ false
IsIdentifier (c ∷ cs) = (is_digit c ≡ false) × Words (c ∷ cs)

substituted-Words : (replaced : Bool) (cs : List Char) → Words (substituted replaced cs)
unfolding substituted
substituted-Words replaced [] = tt
substituted-Words replaced (c ∷ cs) = elim (Bool-cases (is_word c)) [
  | inl e ↦ rw (substituted, e) (e, substituted-Words false cs)
  | inr e ↦ elim (Bool-cases replaced) [
    | inl r ↦ rw (substituted, e, r) (substituted-Words true cs)
    | inr r ↦ rw (substituted, e, r) (refl, substituted-Words true cs)
  ]
]

lstrip_underscores-Words : (cs : List Char) → Words cs → Words (lstrip_underscores cs)
unfolding lstrip_underscores
lstrip_underscores-Words [] w = tt
lstrip_underscores-Words (c ∷ cs) w = elim (Bool-cases (eqb (code c) 95)) [
  | inl e ↦ rw (lstrip_underscores, e) (lstrip_underscores-Words cs w.1)
  | inr e ↦ rw (lstrip_underscores, e) w
]

rstrip_underscores-Words : (cs : List Char) → Words cs → Words (rstrip_underscores cs)
unfolding rstrip_underscores
rstrip_underscores-Words [] w = tt
rstrip_underscores-Words (c ∷ cs) w =
    let rest = rstrip_underscores-Words cs w.1 in
    elim (List-cases (rstrip_underscores cs)) [
      | inr (d, ds, e) ↦ rw (rstrip_underscores, e) (w.0, subst Words e rest)
      | inl e ↦ elim (Bool-cases (eqb (code c) 95)) [
        | inl u ↦ rw (rstrip_underscores, e, u) tt
        | inr u ↦ rw (rstrip_underscores, e, u) (w.0, tt)
      ]
    ]

finished-IsIdentifier : (cs : List Char) → Words cs → IsIdentifier (not_digit_first (generated cs))
unfolding is_alnum is_digit chars
finished-IsIdentifier [] w = (
  refl,
  (
    refl,
    (
      refl,
      (
        refl,
        (
          refl,
          (
            refl,
            (
              refl,
              (
                refl,
                (refl, (refl, (refl, (refl, (refl, (refl, (refl, (refl, (refl, (refl, tt)))))))))),
              ),
            ),
          ),
        ),
      ),
    ),
  ),
)
finished-IsIdentifier (c ∷ cs) w = elim (Bool-cases (is_digit c)) [
  | inl e ↦ rw e (refl, (refl, w))
  | inr e ↦ rw e (e, w)
]

-- The package's name that is made of an operator's name, whatever the name is, is a Python
-- identifier in ASCII: it is not empty, has only letters, digits and underscores, and does not
-- begin with a digit.
pub identifier_chars-IsIdentifier : (value : List Char) → IsIdentifier (identifier_chars value)
unfolding identifier_chars
identifier_chars-IsIdentifier value =
    finished-IsIdentifier (rstrip_underscores (lstrip_underscores (substituted false value))) (
      rstrip_underscores-Words (lstrip_underscores (substituted false value))
        (lstrip_underscores-Words (substituted false value) (substituted-Words false value)))
