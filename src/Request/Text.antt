-- ===== src/Request/Text.antt =====
-- `parseRequestLine` of server/mqtt/request.go.
use kratos_transport_rpc.Prelude.{
  ℕ, zero, suc, ◌+◌, ◌-◌, ◌≡◌, ◌≢◌, refl, ap, sym, ◌∙◌, ◌⊎◌, inl, inr, Option, Option-cases, none,
  some, [], ◌∷◌, ◌++◌, append_assoc, Bytes, length, take, drop, take-append, take-append-drop,
  drop-drop, slice, index_byte, Found, Lacks, index_byte-Found, index_byte-append, arith,
}
use kratos_transport_rpc.Request.{Parts, split_first, split_second, parse_request_line}

pub drop_one : (l m : Bytes) (x : ℕ) (n : ℕ) → n ≡ length l + 1 → drop n (l ++ x ∷ m) ≡ m
drop_one [] m x zero e = absurd (omega arith)
drop_one [] m x (suc n) e = ap (λ (k : ℕ). drop k m) {x = n} {y = 0} (omega arith)
drop_one (y ∷ l) m x zero e = absurd (omega arith)
drop_one (y ∷ l) m x (suc n) e = drop_one l m x n (omega arith)

-- The line of three parts with a space between them, of which the first two have none.
abbrev pub three_parts : Bytes → Bytes → Bytes → Bytes
three_parts m u p = m ++ b' ' ∷ (u ++ b' ' ∷ p)

some_parts :
    {m m' u u' p p' : Bytes}
    → m ≡ m'
    → u ≡ u'
    → p ≡ p'
    → Path (Option Parts) (some (m, u, p)) (some (m', u', p'))
some_parts e f g = λ i. some (e i, f i, g i)

parts_ne : (x : Parts) → Path (Option Parts) (some x) none → ⊥
parts_ne x e = cc

pub parse-three_parts :
    (m u p : Bytes)
    → Lacks b' ' m
    → Lacks b' ' u
    → parse_request_line (three_parts m u p) ≡ some (m, u, p)
unfolding parse_request_line split_first split_second
parse-three_parts m u p hm hu =
    let line = three_parts m u p in
    let behind : drop (length m + 1) line ≡ u ++ b' ' ∷ p =
      drop_one m (u ++ b' ' ∷ p) b' ' (length m + 1) refl in
    let third : drop (length u + (length m + 1) + 1) line ≡ p =
      sym
        (drop-drop (length m + 1) (length u + 1) (length u + (length m + 1) + 1) line (omega arith))
      ∙ ap (drop (length u + 1)) behind
      ∙ drop_one u p b' ' (length u + 1) refl in
    let second : slice line (length m + 1) (length u + (length m + 1)) ≡ u =
      ap (λ (k : ℕ). take k (drop (length m + 1) line))
        {x = length u + (length m + 1) - (length m + 1)} {y = length u} (omega arith)
      ∙ ap (take (length u)) behind
      ∙ take-append u (b' ' ∷ p) in
    ap (split_first line) (index_byte-append m (u ++ b' ' ∷ p) b' ' hm)
    ∙ ap (split_second line (length m))
        (ap (λ l. index_byte l b' ') behind ∙ index_byte-append u p b' ' hu)
    ∙ some_parts (take-append m (b' ' ∷ (u ++ b' ' ∷ p))) second third

split_at : (c i : ℕ) (line : Bytes) → Found c line i → line ≡ take i line ++ c ∷ drop (suc i) line
split_at c i line f =
    sym (take-append-drop (suc i) line)
    ∙ ap (λ l. l ++ drop (suc i) line) f.through
    ∙ append_assoc (take i line) (c ∷ []) (drop (suc i) line)

never_both :
    (line m u p : Bytes)
    → parse_request_line line ≡ none
    → Lacks b' ' m
    → Lacks b' ' u
    → line ≡ three_parts m u p
    → ⊥
never_both line m u p none_e hm hu q =
    parts_ne (m, u, p)
      (sym (parse-three_parts m u p hm hu) ∙ ap parse_request_line (sym q) ∙ none_e)

no_first : (line : Bytes) → index_byte line b' ' ≡ none → parse_request_line line ≡ none
unfolding parse_request_line split_first
no_first line e = ap (split_first line) e

no_second :
    (line : Bytes) (i : ℕ)
    → index_byte line b' ' ≡ some i
    → index_byte (drop (suc i) line) b' ' ≡ none
    → parse_request_line line ≡ none
unfolding parse_request_line split_first split_second
no_second line i e e2 =
    ap (split_first line) e
    ∙ ap (split_second line i)
        (ap (λ (k : ℕ). index_byte (drop k line) b' ') {x = i + 1} {y = suc i} (omega arith) ∙ e2)

-- `parseRequestLine` is right about every line: its three parts are the text before the first
-- space, the text between the first two, and the rest; and it reports a failure exactly if the
-- line has no two spaces.
pub parse_request_line_lem :
    (line : Bytes)
    → ((m : Bytes) × (u : Bytes) × (p : Bytes) × (parse_request_line line ≡ some (m, u, p))
        × (line ≡ three_parts m u p)
        × Lacks b' ' m
        × Lacks b' ' u)
      ⊎ (parse_request_line line ≡ none)
        × ((m u p : Bytes) → Lacks b' ' m → Lacks b' ' u → line ≢ three_parts m u p)
parse_request_line_lem line = elim (Option-cases (index_byte line b' ')) [
  | inl e ↦ inr (no_first line e, λ m u p hm hu q. never_both line m u p (no_first line e) hm hu q)
  | inr (i, e) ↦
      let f = index_byte-Found line b' ' i e in
      let tail = drop (suc i) line in
      elim (Option-cases (index_byte tail b' ')) [
        | inl e2 ↦ inr (
          no_second line i e e2,
          λ m u p hm hu q. never_both line m u p (no_second line i e e2) hm hu q,
        )
        | inr (j, e2) ↦
            let f2 = index_byte-Found tail b' ' j e2 in
            let eq : line ≡ three_parts (take i line) (take j tail) (drop (suc j) tail) =
              split_at b' ' i line f
              ∙ ap (λ l. take i line ++ b' ' ∷ l) (split_at b' ' j tail f2) in
            inl (
              take i line,
              take j tail,
              drop (suc j) tail,
              ap parse_request_line eq
                  ∙ parse-three_parts (take i line) (take j tail) (drop (suc j) tail) f.before
                      f2.before,
              eq,
              f.before,
              f2.before,
            )
      ]
]
