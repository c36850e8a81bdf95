-- ===== src/Request/Words.antt =====
-- Texts without spaces, which header values are.
use kratos_transport_rpc.Prelude.{
  ℕ, zero, suc, ◌+◌, ◌/◌, ◌%◌, ◌≤◌, ◌<◌, ◌≡◌, ◌≢◌, subst, inl, inr, [], ◌∷◌, ◌++◌, Bytes, length,
  Lacks, ltb, ◌==◌, ==_false, Bool-cases, Bool, true, false, not, ◌&&◌, arith,
}
use kratos_transport_rpc.Request.{is_blank}
use kratos_transport_rpc.Request.Trim.{FirstSolid, LastSolid}
use kratos_transport_rpc.Wire.{digits, decimal}

-- A text of one word: no space, no tab, no newline.
abbrev pub IsWord : Bytes → Type 0
IsWord [] = Unit
IsWord (x ∷ s) = (is_blank x ≡ false) × (x ≢ b' ') × (x ≢ b'\n') × IsWord s

pub IsWord-FirstSolid : (s : Bytes) → IsWord s → FirstSolid s
IsWord-FirstSolid [] h = tt
IsWord-FirstSolid (x ∷ s) h = h.0

pub IsWord-LastSolid : (s : Bytes) → IsWord s → LastSolid s
IsWord-LastSolid [] h = tt
IsWord-LastSolid (x ∷ []) h = h.0
IsWord-LastSolid (x ∷ y ∷ s) h = IsWord-LastSolid (y ∷ s) h.3

pub IsWord-newline : (s : Bytes) → IsWord s → Lacks b'\n' s
IsWord-newline [] h = tt
IsWord-newline (x ∷ s) h = (h.2, IsWord-newline s h.3)

pub IsWord-space : (s : Bytes) → IsWord s → Lacks b' ' s
IsWord-space [] h = tt
IsWord-space (x ∷ s) h = (h.1, IsWord-space s h.3)

pub IsWord-append : (s t : Bytes) → IsWord s → IsWord t → IsWord (s ++ t)
IsWord-append [] t h k = k
IsWord-append (x ∷ s) t h k = (h.0, h.1, h.2, IsWord-append s t h.3 k)

unfoldable pub word_test : Bytes → Bool
word_test [] = true
word_test (x ∷ s) = not (is_blank x) && not (x == b'\n') && word_test s

pub word_test_sound : (s : Bytes) → word_test s ≡ true → IsWord s
unfolding word_test
word_test_sound [] h = tt
word_test_sound (x ∷ s) h =
    (ground arith, (λ e. ground arith), (λ e. ground arith), word_test_sound s (ground arith))

blank_digit : (x : ℕ) → b'0' ≤ x → is_blank x ≡ false
blank_digit x h = rw (==_false x b' ' (omega arith), ==_false x b'\t' (omega arith))

pub IsWord-digits : (f n : ℕ) (acc : Bytes) → IsWord acc → IsWord (digits f n acc)
unfolding digits
IsWord-digits zero n acc h = h
IsWord-digits (suc f) n acc h =
    let d = b'0' + n % 10 in
    let more : IsWord (d ∷ acc) =
      (blank_digit d (omega arith), (λ e. omega arith), (λ e. omega arith), h) in
    elim (Bool-cases (ltb n 10)) [
      | inl last ↦ rw last more
      | inr next ↦ rw next (IsWord-digits f (n / 10) (d ∷ acc) more)
    ]

digits_some : (f n : ℕ) (acc : Bytes) → length acc ≤ length (digits f n acc)
unfolding digits
digits_some zero n acc = omega arith
digits_some (suc f) n acc =
    let ih = digits_some f (n / 10) ((b'0' + n % 10) ∷ acc) in
    elim (Bool-cases (ltb n 10)) [
      | inl last ↦ rw last (omega arith)
      | inr next ↦ rw next (omega (arith, ih))
    ]

digits_longer : (f n : ℕ) (acc : Bytes) → length acc < length (digits (suc f) n acc)
unfolding digits
digits_longer f n acc =
    let ih = digits_some f (n / 10) ((b'0' + n % 10) ∷ acc) in
    elim (Bool-cases (ltb n 10)) [
      | inl last ↦ rw last (omega arith)
      | inr next ↦ rw next (omega (arith, ih))
    ]

pub decimal-IsWord : (n : ℕ) → IsWord (decimal n) × (0 < length (decimal n))
unfolding decimal
decimal-IsWord n = (
  IsWord-digits (n + 1) n [] tt,
  subst (λ m. 0 < length (digits m n [])) {x = suc n} {y = n + 1} (omega arith)
      (digits_longer n n []),
)
