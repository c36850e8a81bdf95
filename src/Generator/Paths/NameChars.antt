-- ===== src/Generator/Paths/NameChars.antt =====
-- The names that buildPathVars of cmd/protoc-gen-go-mqtt/mqtt.go gives to replacePath, and the bytes
-- of which they are made.
use kratos_transport_rpc.Prelude.{
  ℕ, zero, suc, ◌-◌, ◌≡◌, refl, Bool, true, Option, none, some, List, [], ◌∷◌, ◌++◌, Bytes, length,
  ◌==◌, Bool-cases, inl, inr,
}
use kratos_transport_rpc.Prelude.Maps.{store, equal_bytes}
use kratos_transport_rpc.Generator.Regexp.{
  Item, once, many, perhaps, Match, or_else, captured, match_once, match_many, match_here, found,
  find_all,
}
use kratos_transport_rpc.Generator.Regexp.Greedy.{AllIn}
use kratos_transport_rpc.Generator.Paths.{
  is_space, name_char, no_brace, vars_pattern, trim_left, trim_right, trim_space, before_kept, Vars,
  var_value, add_var, add_vars, build_path_vars, all_name,
}

module _ (p : ℕ → Bool) where
  AllIn-snoc : (u : Bytes) (c : ℕ) → AllIn p u → p c ≡ true → AllIn p (u ++ (c ∷ []))
  AllIn-snoc [] c all h = (h, tt)
  AllIn-snoc (d ∷ u) c (e, all) h = (e, AllIn-snoc u c all h)

  -- The first item has taken bytes of the class; and so has the second.
  FirstIn : Match → Type 0
  FirstIn none = Unit
  FirstIn (some ([], rest)) = Unit
  FirstIn (some (u ∷ pieces, rest)) = AllIn p u

  abbrev PiecesIn : List Bytes → Type 0
  PiecesIn [] = Unit
  PiecesIn (u ∷ []) = Unit
  PiecesIn (u ∷ v ∷ pieces) = AllIn p v

  abbrev SecondIn : Match → Type 0
  SecondIn none = Unit
  SecondIn (some (pieces, rest)) = PiecesIn pieces

  captured-FirstIn : (taken : Bytes) (m : Match) → AllIn p taken → FirstIn (captured taken m)
  unfolding FirstIn
  captured-FirstIn taken none all = tt
  captured-FirstIn taken (some (pieces, rest)) all = all

  or_else-FirstIn : (m n : Match) → FirstIn m → FirstIn n → FirstIn (or_else m n)
  or_else-FirstIn none n h k = k
  or_else-FirstIn (some m) n h k = h

  match_many-FirstIn :
      (behind : Bytes → Match) (taken t : Bytes)
      → AllIn p taken
      → FirstIn (match_many p behind taken t)
  unfolding match_many
  match_many-FirstIn behind taken [] all = captured-FirstIn taken (behind []) all
  match_many-FirstIn behind taken (c ∷ t) all =
      let stop = captured-FirstIn taken (behind (c ∷ t)) all in
      elim (Bool-cases (p c)) [
        | inl more ↦ rw more (
            or_else-FirstIn (match_many p behind (taken ++ (c ∷ [])) t)
              (captured taken (behind (c ∷ t)))
              (match_many-FirstIn behind (taken ++ (c ∷ [])) t (AllIn-snoc taken c all more)) stop)
        | inr other ↦ rw other stop
      ]

  captured-SecondIn : (taken : Bytes) (m : Match) → FirstIn m → SecondIn (captured taken m)
  unfolding FirstIn
  captured-SecondIn taken none h = tt
  captured-SecondIn taken (some ([], rest)) h = tt
  captured-SecondIn taken (some (u ∷ pieces, rest)) h = h

  match_here-SecondIn :
      (q : ℕ → Bool) (items : List Item) (t : Bytes)
      → SecondIn (match_here (once q ∷ many p ∷ items) t)
  unfolding match_here match_once
  match_here-SecondIn q items [] = tt
  match_here-SecondIn q items (c ∷ t) = elim (Bool-cases (q c)) [
    | inl begins ↦ rw begins (
        captured-SecondIn (c ∷ []) (match_many p (match_here items) [] t)
          (match_many-FirstIn (match_here items) [] t tt))
    | inr other ↦ rw other tt
  ]

  abbrev AllPiecesIn : List (List Bytes) → Type 0
  AllPiecesIn [] = Unit
  AllPiecesIn (m ∷ matches) = PiecesIn m × AllPiecesIn matches

  found-AllPiecesIn :
      (next : List (List Bytes)) (behind : ℕ → List (List Bytes)) (t : Bytes) (m : Match)
      → AllPiecesIn next
      → ((k : ℕ) → AllPiecesIn (behind k))
      → SecondIn m
      → AllPiecesIn (found next behind t m)
  found-AllPiecesIn next behind t none all each h = all
  found-AllPiecesIn next behind t (some (pieces, rest)) all each h =
      (h, each (length t - length rest))

  find_all-AllPiecesIn :
      (q : ℕ → Bool) (items : List Item) (t : Bytes) (skip : ℕ)
      → AllPiecesIn (find_all (once q ∷ many p ∷ items) skip t)
  unfolding find_all
  find_all-AllPiecesIn q items [] skip = tt
  find_all-AllPiecesIn q items (c ∷ t) (suc skip) = find_all-AllPiecesIn q items t skip
  find_all-AllPiecesIn q items (c ∷ t) zero =
      let pattern_of = once q ∷ many p ∷ items in
      found-AllPiecesIn (find_all pattern_of 0 t) (λ k. find_all pattern_of k t) t
        (match_here pattern_of (c ∷ t)) (find_all-AllPiecesIn q items t 0)
        (λ k. find_all-AllPiecesIn q items t k) (match_here-SecondIn q items (c ∷ t))

  trim_left-AllIn : (s : Bytes) → AllIn p s → AllIn p (trim_left s)
  unfolding trim_left
  trim_left-AllIn [] all = tt
  trim_left-AllIn (c ∷ s) (h, all) = elim (Bool-cases (is_space c)) [
    | inl space ↦ rw space (trim_left-AllIn s all)
    | inr other ↦ rw other (h, all)
  ]

  before_kept-AllIn : (c : ℕ) (s : Bytes) → p c ≡ true → AllIn p s → AllIn p (before_kept c s)
  unfolding before_kept
  before_kept-AllIn c [] h all = elim (Bool-cases (is_space c)) [
    | inl space ↦ rw space tt
    | inr other ↦ rw other (h, tt)
  ]
  before_kept-AllIn c (d ∷ s) h all = (h, all)

  trim_right-AllIn : (s : Bytes) → AllIn p s → AllIn p (trim_right s)
  unfolding trim_right
  trim_right-AllIn [] all = tt
  trim_right-AllIn (c ∷ s) (h, all) = before_kept-AllIn c (trim_right s) h (trim_right-AllIn s all)

all_name_of : (s : Bytes) → AllIn name_char s → all_name s ≡ true
unfolding all_name
all_name_of [] all = refl
all_name_of (c ∷ s) (h, all) = rw h (all_name_of s all)

abbrev pub AllNamed : Vars → Type 0
AllNamed [] = Unit
AllNamed ((name, value) ∷ vars) = (all_name name ≡ true) × AllNamed vars

store-AllNamed :
    (name : Bytes) (value : Option Bytes) (vars : Vars)
    → all_name name ≡ true
    → AllNamed vars
    → AllNamed (store name value vars)
unfolding store
store-AllNamed name value [] h all = (h, tt)
store-AllNamed name value ((key, v) ∷ vars) h (e, all) = elim (Bool-cases (equal_bytes key name)) [
  | inl same ↦ rw same (e, all)
  | inr other ↦ rw other (e, store-AllNamed name value vars h all)
]

add_var-AllNamed :
    (m : List Bytes) (vars : Vars)
    → PiecesIn name_char m
    → AllNamed vars
    → AllNamed (add_var m vars)
unfolding add_var trim_space
add_var-AllNamed [] vars h all = all
add_var-AllNamed (a ∷ []) vars h all = all
add_var-AllNamed (a ∷ b ∷ []) vars h all = all
add_var-AllNamed (a ∷ b ∷ c ∷ []) vars h all = all
add_var-AllNamed (a ∷ name ∷ c ∷ value ∷ m) vars h all =
    let named = trim_right-AllIn name_char (trim_left name) (trim_left-AllIn name_char name h) in
    store-AllNamed (trim_space name) (var_value (trim_space name) value) vars
      (all_name_of (trim_space name) named) all

add_vars-AllNamed :
    (matches : List (List Bytes)) (vars : Vars)
    → AllPiecesIn name_char matches
    → AllNamed vars
    → AllNamed (add_vars matches vars)
unfolding add_vars
add_vars-AllNamed [] vars h all = all
add_vars-AllNamed (m ∷ matches) vars (h, hs) all =
    add_vars-AllNamed matches (add_var m vars) hs (add_var-AllNamed m vars h all)

-- Every name that buildPathVars finds in a path has the characters of names, whatever the path is.
pub build_path_vars-AllNamed : (path : Bytes) → AllNamed (build_path_vars path)
unfolding build_path_vars vars_pattern
build_path_vars-AllNamed path =
    add_vars-AllNamed (find_all vars_pattern 0 path) []
      (find_all-AllPiecesIn name_char (◌==◌ b'{')
        (perhaps (◌==◌ b'=') ∷ many no_brace ∷ once (◌==◌ b'}') ∷ []) path 0)
      tt
