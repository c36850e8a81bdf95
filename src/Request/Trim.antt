-- ===== src/Request/Trim.antt =====
-- `trim` of server/mqtt/request.go.
use kratos_transport_rpc.Prelude.{
  ℕ, suc, ◌<◌, ◌≡◌, refl, ap, subst, ◌∙◌, inl, inr, [], ◌∷◌, ◌++◌, Bytes, length, length-eq-nil,
  ◌==◌, ==_iff, ==_false, Bool-cases, Bool, true, false, ◌&&◌, if◌then◌else◌, arith,
}
use kratos_transport_rpc.Request.{is_blank, trim_left, trim_right, trim}

abbrev pub NoBlank : Bytes → Type 0
NoBlank [] = Unit
NoBlank (x ∷ s) = (is_blank x ≡ false) × NoBlank s

-- Spaces and tabs alone.
abbrev pub AllBlank : Bytes → Type 0
AllBlank [] = Unit
AllBlank (x ∷ s) = (is_blank x ≡ true) × AllBlank s

-- A text that neither begins nor ends in a space or a tab.
abbrev pub FirstSolid : Bytes → Type 0
FirstSolid [] = Unit
FirstSolid (x ∷ s) = is_blank x ≡ false

abbrev pub LastSolid : Bytes → Type 0
LastSolid [] = Unit
LastSolid (x ∷ []) = is_blank x ≡ false
LastSolid (x ∷ y ∷ s) = LastSolid (y ∷ s)

trim_left-split :
    (s : Bytes)
    → (before : Bytes) × (s ≡ before ++ trim_left s) × AllBlank before × FirstSolid (trim_left s)
unfolding trim_left
trim_left-split [] = ([], refl, tt, tt)
trim_left-split (x ∷ s) = elim (Bool-cases (is_blank x)) [
  | inr solid ↦ ([], rw solid refl, tt, rw solid solid)
  | inl blank ↦
      let (before, eq, all, first) = trim_left-split s in
      (x ∷ before, rw blank (ap (◌∷◌ x) eq), (blank, all), rw blank first)
]

first_true : (a b : Bool) → (a && b) ≡ true → a ≡ true
first_true true b h = refl
first_true false b h = h

second_true : (a b : Bool) → (a && b) ≡ true → b ≡ true
second_true true b h = h
second_true false b h = cc

LastSolid-cons :
    (x : ℕ) (l : Bytes) → LastSolid l → (is_blank x && length l == 0) ≡ false → LastSolid (x ∷ l)
LastSolid-cons x [] h k = elim (Bool-cases (is_blank x)) [
  | inl blank ↦ absurd (let e : true ≡ false = rw blank at k in cc)
  | inr solid ↦ solid
]
LastSolid-cons x (y ∷ l) h k = h

trim_right-split :
    (s : Bytes)
    → (after : Bytes) × (s ≡ trim_right s ++ after) × AllBlank after × LastSolid (trim_right s)
unfolding trim_right
trim_right-split [] = ([], refl, tt, tt)
trim_right-split (x ∷ s) =
    let (after, eq, all, last) = trim_right-split s in
    elim (Bool-cases (is_blank x && length (trim_right s) == 0)) [
      | inl gone ↦ (
        x ∷ after,
        rw gone (
            ap (◌∷◌ x) (
              eq
              ∙ ap (λ l. l ++ after)
                  (length-eq-nil (trim_right s)
                    ((==_iff (length (trim_right s)) 0).0 (second_true _ _ gone))))),
        (first_true _ _ gone, all),
        rw gone tt,
      )
      | inr kept ↦
          (after, rw kept (ap (◌∷◌ x) eq), all, rw kept (LastSolid-cons x (trim_right s) last kept))
    ]

FirstSolid-prefix : (l r x : Bytes) → l ≡ r ++ x → FirstSolid l → FirstSolid r
FirstSolid-prefix l [] x e h = tt
FirstSolid-prefix l (y ∷ r) x e h = subst FirstSolid e h

-- `trim` takes spaces and tabs alone from both ends of the text, and leaves no more there.
pub trim_lem :
    (s : Bytes)
    → (before : Bytes) × (after : Bytes) × (s ≡ before ++ (trim s ++ after))
      × AllBlank before
      × AllBlank after
      × FirstSolid (trim s)
      × LastSolid (trim s)
unfolding trim
trim_lem s =
    let (before, eq, all, first) = trim_left-split s in
    let (after, eq2, all2, last) = trim_right-split (trim_left s) in
    (
      before,
      after,
      eq ∙ ap (λ l. before ++ l) eq2,
      all,
      all2,
      FirstSolid-prefix (trim_left s) (trim_right (trim_left s)) after eq2 first,
      last,
    )

pub trim_left-solid : (s : Bytes) → FirstSolid s → trim_left s ≡ s
unfolding trim_left
trim_left-solid [] h = refl
trim_left-solid (x ∷ s) h = rw h

kept : (b : Bool) (l : Bytes) → (if b && false then [] else l) ≡ l
kept true l = refl
kept false l = refl

trim_right-solid : (s : Bytes) → LastSolid s → trim_right s ≡ s
unfolding trim_right
trim_right-solid [] h = refl
trim_right-solid (x ∷ []) h = rw h
trim_right-solid (x ∷ y ∷ s) h =
    let ih = trim_right-solid (y ∷ s) h in
    rw (ih, ==_false (suc (length s)) 0 (omega arith)) (kept (is_blank x) (x ∷ y ∷ s))

pub trim-solid : (s : Bytes) → FirstSolid s → LastSolid s → trim s ≡ s
unfolding trim
trim-solid s first last = ap trim_right (trim_left-solid s first) ∙ trim_right-solid s last

pub LastSolid-append : (u v : Bytes) → 0 < length v → LastSolid v → LastSolid (u ++ v)
LastSolid-append [] v some_v h = h
LastSolid-append (x ∷ []) [] some_v h = absurd (omega arith)
LastSolid-append (x ∷ []) (y ∷ v) some_v h = h
LastSolid-append (x ∷ z ∷ u) v some_v h = LastSolid-append (z ∷ u) v some_v h
