-- ===== src/Generator/Names.antt =====
-- The names that `camelCase` makes.
use kratos_transport_rpc.Prelude.{
  ℕ, ◌≤◌, ◌<◌, bit_xor, ◌≡◌, refl, ap, sym, subst, ◌∙◌, inl, inr, Bool, true, false, ◌&&◌, not, [],
  ◌∷◌, Bytes, leb, ◌==◌, ==_false, Bool-cases, arith,
}
use kratos_transport_rpc.Prelude.Range.{passes, passes_at}
use kratos_transport_rpc.Generator.{
  is_ascii_lower, is_ascii_digit, lower_next, capital, camel_loop, camel_case,
}

-- No underscore has a lower case letter behind it.
abbrev pub SnakeFree : Bytes → Type 0
SnakeFree [] = Unit
SnakeFree (c ∷ s) = ((c == b'_' && lower_next s) ≡ false) × SnakeFree s

capital_test : ℕ → Bool
unfolding is_ascii_lower
capital_test c = not (is_ascii_lower (bit_xor c b' ')) && not (bit_xor c b' ' == b'_')

capital_table : passes capital_test b'a' 26 ≡ true
unfolding passes capital_test
capital_table = refl

lower_range : (c : ℕ) → is_ascii_lower c ≡ true → (b'a' ≤ c) × (c < 123)
unfolding is_ascii_lower
lower_range c h = ground arith

capital_lower :
    (c : ℕ)
    → is_ascii_lower c ≡ true
    → (is_ascii_lower (capital c) ≡ false) × ((capital c == b'_') ≡ false)
unfolding capital capital_test
capital_lower c h =
    let (from, below) = lower_range c h in
    let t = passes_at capital_test 26 b'a' c capital_table from (omega arith) in rw h (ground arith)

capital_other : (c : ℕ) → is_ascii_lower c ≡ false → capital c ≡ c
unfolding capital
capital_other c h = rw h

capital-lower : (c : ℕ) → is_ascii_lower (capital c) ≡ false
capital-lower c = elim (Bool-cases (is_ascii_lower c)) [
  | inl low ↦ (capital_lower c low).0
  | inr other ↦ ap is_ascii_lower (capital_other c other) ∙ other
]

-- What the loop gives: names without snakes, that begin in a lower case letter only inside a word
-- that goes on so.
abbrev Loops : Bool → Bytes → Bytes → Type 0
Loops inside s t =
    SnakeFree t
    × (inside ≡ false → lower_next t ≡ false)
    × (lower_next s ≡ false → lower_next t ≡ false)

word_part :
    (inside : Bool) (c : ℕ) (s t : Bytes)
    → Loops true s t
    → is_ascii_lower c ≡ true
    → inside ≡ true
    → Loops inside (c ∷ s) (c ∷ t)
unfolding lower_next
word_part inside c s t (free, first, later) low e = (
  (rw (==_false c b'_' (let (from, below) = lower_range c low in omega arith)) refl, free),
  λ out. cc,
  λ h. h,
)

digit_part :
    (inside : Bool) (c : ℕ) (s t : Bytes)
    → Loops false s t
    → is_ascii_digit c ≡ true
    → Loops inside (c ∷ s) (c ∷ t)
unfolding lower_next is_ascii_digit is_ascii_lower
digit_part inside c s t (free, first, later) digit =
    let no_lower : (leb b'a' c && leb c b'z') ≡ false = ground arith in
    ((rw (first refl) (ground arith), free), (λ out. no_lower), (λ h. no_lower))

letter_part :
    (inside : Bool) (c : ℕ) (s t : Bytes)
    → Loops true s t
    → (c == b'_' && lower_next s) ≡ false
    → Loops inside (c ∷ s) (capital c ∷ t)
unfolding lower_next is_ascii_lower
letter_part inside c s t (free, first, later) no_skip = (
  (
    elim (Bool-cases (is_ascii_lower c)) [
      | inl low ↦ rw (capital_lower c low).1 refl
      | inr other ↦ rw (capital_other c other) (elim (Bool-cases (c == b'_')) [
        | inr no_bar ↦ rw no_bar refl
        | inl bar ↦ rw bar (later (rw bar at no_skip))
      ])
    ],
    free,
  ),
  (λ out. capital-lower c),
  (λ h. capital-lower c),
)

camel_loop-Loops : (inside : Bool) (s : Bytes) → Loops inside s (camel_loop inside s)
unfolding camel_loop lower_next
camel_loop-Loops inside [] = (tt, (λ e. refl), (λ e. refl))
camel_loop-Loops inside (c ∷ s) = elim (Bool-cases (inside && is_ascii_lower c)) [
  | inl word ↦ rw word (
      word_part inside c s (camel_loop true s) (camel_loop-Loops true s) (ground arith)
        (ground arith))
  | inr out ↦ elim (Bool-cases (c == b'_' && lower_next s)) [
    | inl skip ↦
        let (free, first, later) = camel_loop-Loops false s in
        rw (out, skip) (free, (λ e. first refl), (λ e. first refl))
    | inr stays ↦ elim (Bool-cases (is_ascii_digit c)) [
      | inl digit ↦
          rw (out, stays, digit)
            (digit_part inside c s (camel_loop false s) (camel_loop-Loops false s) digit)
      | inr letter ↦
          rw (out, stays, letter)
            (letter_part inside c s (camel_loop true s) (camel_loop-Loops true s) stays)
    ]
  ]
]

plain_start :
    (c : ℕ) (s : Bytes) → (c == b'_') ≡ false → camel_case (c ∷ s) ≡ camel_loop false (c ∷ s)
unfolding camel_case
plain_start c s h = rw h

-- The name that `camelCase` makes of any text does not begin with a lower case letter, so that it
-- is exported in Go, and has no underscore with a lower case letter behind it.
pub camel_case_lem : (s : Bytes) → SnakeFree (camel_case s) × (lower_next (camel_case s) ≡ false)
unfolding camel_case lower_next
camel_case_lem [] = (tt, refl)
camel_case_lem (c ∷ s) = elim (Bool-cases (c == b'_')) [
  | inl bar ↦ let (free, first, later) = camel_loop-Loops false s in rw bar ((refl, free), refl)
  | inr other ↦
      let (free, first, later) = camel_loop-Loops false (c ∷ s) in
      subst (λ t. SnakeFree t × (lower_next t ≡ false)) (sym (plain_start c s other))
        (free, first refl)
]
