-- ===== src/Stubs/Braces.antt =====
-- Braces in the text that cmd/protoc-gen-go-mqt/mqt.go generates: a scan that counts the open
-- ones, and the names that it goes through without a change.
pub mod Methods
pub mod Handlers
pub mod Members
pub mod Services
pub mod Files
use kratos_transport_rpc.Prelude.{
  ℕ, zero, suc, ◌+◌, ◌/◌, ◌%◌, ◌<◌, ◌≡◌, refl, ap, sym, ◌∙◌, Bool, true, false, ◌&&◌, ◌||◌, not,
  Option, none, some, List, [], ◌∷◌, ◌++◌, append_assoc, append-nil, Bytes, leb, ltb, ◌==◌,
  if◌then◌else◌, Bool-cases, inl, inr, arith,
}
use kratos_transport_rpc.Prelude.Text.{codes}
use kratos_transport_rpc.Wire.{digits, decimal}
use kratos_transport_rpc.Stubs.{unexport}

abbrev close : ℕ → Option ℕ
close zero = none
close (suc d) = some d

-- the number of open braces after a byte; `none` where one is closed that is not open
abbrev step : ℕ → ℕ → Option ℕ
step d x = if x == b'{' then some (suc d) else if x == b'}' then close d else some d

abbrev pub and_then : Option ℕ → (ℕ → Option ℕ) → Option ℕ
and_then none f = none
and_then (some d) f = f d

unfoldable pub scan : ℕ → Bytes → Option ℕ
scan d [] = some d
scan d (x ∷ s) = and_then (step d x) (λ e. scan e s)

unfoldable pub scan_lines : ℕ → List Bytes → Option ℕ
unfolding scan
scan_lines d [] = some d
scan_lines d (l ∷ ls) = and_then (scan d l) (λ e. scan_lines e ls)

-- no braces
unfoldable pub plain : Bytes → Bool
plain [] = true
plain (x ∷ s) = not (x == b'{') && not (x == b'}') && plain s

and_then_assoc :
    (o : Option ℕ) (f g : ℕ → Option ℕ)
    → and_then (and_then o f) g ≡ and_then o (λ d. and_then (f d) g)
and_then_assoc none f g = refl
and_then_assoc (some d) f g = refl

pub scan_lines-append :
    (d : ℕ) (ls ms : List Bytes)
    → scan_lines d (ls ++ ms) ≡ and_then (scan_lines d ls) (λ e. scan_lines e ms)
unfolding scan_lines
scan_lines-append d [] ms = refl
scan_lines-append d (l ∷ ls) ms =
    elim (scan d l)
      as (λ o.
        and_then o (λ e. scan_lines e (ls ++ ms))
        ≡ and_then (and_then o (λ e. scan_lines e ls)) (λ e. scan_lines e ms)) [
          | none ↦ refl
          | some e ↦ scan_lines-append e ls ms
        ]

pub scan-plain :
    (s : Bytes) → plain s ≡ true → (d : ℕ) (rest : Bytes) → scan d (s ++ rest) ≡ scan d rest
unfolding plain scan
scan-plain [] h d rest = refl
scan-plain (x ∷ s) h d rest = elim (Bool-cases (x == b'{')) [
  | inl opening ↦ absurd (let e : false ≡ true = rw opening at h in cc)
  | inr e ↦ elim (Bool-cases (x == b'}')) [
    | inl closing ↦ absurd (let e2 : false ≡ true = rw (e, closing) at h in cc)
    | inr e2 ↦ rw (e, e2) (scan-plain s (rw (e, e2) at h) d rest)
  ]
]

-- a name at the end of a line
pub scan-plain_end : (s : Bytes) → plain s ≡ true → (d : ℕ) → scan d s ≡ some d
unfolding scan
scan-plain_end s h d = ap (scan d) (sym (append-nil s)) ∙ scan-plain s h d []

pub scan-if :
    (b : Bool) (s t rest : Bytes) (d : ℕ)
    → scan d ((if b then s else t) ++ rest) ≡ (if b then scan d (s ++ rest) else scan d (t ++ rest))
scan-if true s t rest d = refl
scan-if false s t rest d = refl

-- a whole line that a test chooses
pub scan-if_line :
    (b : Bool) (s t : Bytes) (d : ℕ)
    → scan d (if b then s else t) ≡ (if b then scan d s else scan d t)
scan-if_line true s t d = refl
scan-if_line false s t d = refl

pub scan_lines-if :
    (b : Bool) (s t : List Bytes) (d : ℕ)
    → scan_lines d (if b then s else t) ≡ (if b then scan_lines d s else scan_lines d t)
scan_lines-if true s t d = refl
scan_lines-if false s t d = refl

pub if_same : {A : Type 0} (b : Bool) (a : A) → (if b then a else a) ≡ a
if_same true a = refl
if_same false a = refl

pub plain-append : (s t : Bytes) → plain s ≡ true → plain t ≡ true → plain (s ++ t) ≡ true
unfolding plain
plain-append [] t h k = k
plain-append (x ∷ s) t h k = elim (Bool-cases (x == b'{')) [
  | inl opening ↦ absurd (let e : false ≡ true = rw opening at h in cc)
  | inr e ↦ elim (Bool-cases (x == b'}')) [
    | inl closing ↦ absurd (let e2 : false ≡ true = rw (e, closing) at h in cc)
    | inr e2 ↦ rw (e, e2) (plain-append s t (rw (e, e2) at h) k)
  ]
]

pub unexport-plain : (s : Bytes) → plain s ≡ true → plain (unexport s) ≡ true
unfolding plain unexport
unexport-plain [] h = refl
unexport-plain (x ∷ s) h = ground arith

-- the digits of an index
digit-plain : (n : ℕ) (acc : Bytes) → plain acc ≡ true → plain ((b'0' + n % 10) ∷ acc) ≡ true
unfolding plain
digit-plain n acc h = ground arith

digits-plain : (f n : ℕ) (acc : Bytes) → plain acc ≡ true → plain (digits f n acc) ≡ true
unfolding digits
digits-plain zero n acc h = h
digits-plain (suc f) n acc h =
    let next = digit-plain n acc h in
    elim (Bool-cases (ltb n 10)) [
      | inl last ↦ rw last next
      | inr more ↦ rw more (digits-plain f (n / 10) ((b'0' + n % 10) ∷ acc) next)
    ]

pub decimal-plain : (n : ℕ) → plain (decimal n) ≡ true
unfolding decimal plain
decimal-plain n = digits-plain (n + 1) n [] refl
