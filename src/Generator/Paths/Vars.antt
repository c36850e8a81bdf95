-- ===== src/Generator/Paths/Vars.antt =====
-- buildPathVars of cmd/protoc-gen-go-mqtt/mqtt.go, on paths that are given by their segments.
use kratos_transport_rpc.Prelude.{
  ℕ, ◌-◌, ◌≡◌, refl, ap, sym, subst, ◌∙◌, Bool, true, false, not, Option, none, some, List, [], ◌∷◌,
  ◌++◌, append_assoc, Bytes, length, length-append, ◌==◌, arith,
}
use kratos_transport_rpc.Prelude.Maps.{store}
use kratos_transport_rpc.Generator.Regexp.{
  Item, once, many, perhaps, match_here, match_once, match_perhaps, match_many, found, find_all,
}
use kratos_transport_rpc.Generator.Regexp.Greedy.{AllIn, StopsAt, match_many-all}
use kratos_transport_rpc.Generator.Paths.{
  name_char, no_brace, is_lower, is_upper, is_digit, is_white, vars_pattern, trim_space, Vars,
  var_value, add_var, add_vars, build_path_vars,
}

-- A literal, or a variable with the value behind its "="
pub data Segment : Type 0 where
  literal : Bytes → Segment
  variable : Bytes → Option Bytes → Segment

-- what is behind the name in the braces
abbrev pub value_text : Option Bytes → Bytes
value_text none = []
value_text (some v) = b'=' ∷ v

abbrev pub render : List Segment → Bytes
render [] = []
render (literal t ∷ segments) = t ++ render segments
render (variable name v ∷ segments) = b'{' ∷ name ++ (value_text v ++ (b'}' ∷ render segments))

abbrev pub not_open : ℕ → Bool
not_open c = not (c == b'{')

abbrev pub ValueFits : Option Bytes → Type 0
ValueFits none = Unit
ValueFits (some v) = AllIn no_brace v

-- A literal opens no brace, a name has the characters of names, and a value has no braces.
abbrev pub Fits : List Segment → Type 0
Fits [] = Unit
Fits (literal t ∷ segments) = AllIn not_open t × Fits segments
Fits (variable name v ∷ segments) = AllIn name_char name × (ValueFits v × Fits segments)

abbrev pub or_empty : Option Bytes → Bytes
or_empty none = []
or_empty (some v) = v

-- The variables of the segments, each under its trimmed name, a later one in place of one before
abbrev pub vars_of : List Segment → Vars → Vars
vars_of [] res = res
vars_of (literal t ∷ segments) res = vars_of segments res
vars_of (variable name v ∷ segments) res =
    let key = trim_space name in vars_of segments (store key (var_value key (or_empty v)) res)

-- what the items take of a variable
abbrev equals_of : Option Bytes → Bytes
equals_of none = []
equals_of (some v) = b'=' ∷ []

abbrev taken_of : Bytes → Option Bytes → List Bytes
taken_of name v = (b'{' ∷ []) ∷ name ∷ equals_of v ∷ or_empty v ∷ (b'}' ∷ []) ∷ []

abbrev value_items : List Item
value_items = perhaps (◌==◌ b'=') ∷ many no_brace ∷ once (◌==◌ b'}') ∷ []

match-value :
    (v : Option Bytes) (t : Bytes)
    → ValueFits v
    → match_here value_items (value_text v ++ (b'}' ∷ t))
      ≡ some (equals_of v ∷ or_empty v ∷ (b'}' ∷ []) ∷ [], t)
unfolding match_here match_perhaps match_many match_once no_brace
match-value none t fits = refl
match-value (some v) t fits =
    let taken =
      match_many-all no_brace (match_here (once (◌==◌ b'}') ∷ [])) [] v (b'}' ∷ t)
        ((b'}' ∷ []) ∷ [], t) fits refl refl in
    simp taken refl

value_text-stops : (v : Option Bytes) (t : Bytes) → StopsAt name_char (value_text v ++ (b'}' ∷ t))
unfolding name_char is_lower is_upper is_digit is_white
value_text-stops none t = refl
value_text-stops (some v) t = refl

match-variable :
    (name : Bytes) (v : Option Bytes) (t : Bytes)
    → AllIn name_char name
    → ValueFits v
    → match_here vars_pattern (b'{' ∷ name ++ (value_text v ++ (b'}' ∷ t)))
      ≡ some (taken_of name v, t)
unfolding match_here match_once vars_pattern
match-variable name v t named fits =
    let taken =
      match_many-all name_char (match_here value_items) [] name (value_text v ++ (b'}' ∷ t))
        (equals_of v ∷ or_empty v ∷ (b'}' ∷ []) ∷ [], t) named (value_text-stops v t)
        (match-value v t fits) in
    simp taken refl

find_all-skip :
    (items : List Item) (u t : Bytes) → find_all items (length u) (u ++ t) ≡ find_all items 0 t
unfolding find_all
find_all-skip items [] t = refl
find_all-skip items (c ∷ u) t = find_all-skip items u t

find_all-match :
    (items : List Item) (c : ℕ) (u t : Bytes) (pieces : List Bytes)
    → match_here items (c ∷ (u ++ t)) ≡ some (pieces, t)
    → find_all items 0 (c ∷ (u ++ t)) ≡ pieces ∷ find_all items 0 t
unfolding find_all
find_all-match items c u t pieces e =
    let behind : length (u ++ t) - length t ≡ length u = omega (arith, length-append u t) in
    ap (found (find_all items 0 (u ++ t)) (λ k. find_all items k (u ++ t)) (u ++ t)) e
    ∙ ap (λ k. pieces ∷ find_all items k (u ++ t)) behind
    ∙ ap (◌∷◌ pieces) (find_all-skip items u t)

match-closed : (c : ℕ) (t : Bytes) → not_open c ≡ true → match_here vars_pattern (c ∷ t) ≡ none
unfolding match_here match_once vars_pattern
match-closed c t h = let closed : (b'{' == c) ≡ false = ground arith in simp closed refl

find_all-literal :
    (u t : Bytes) → AllIn not_open u → find_all vars_pattern 0 (u ++ t) ≡ find_all vars_pattern 0 t
unfolding find_all
find_all-literal [] t all = refl
find_all-literal (c ∷ u) t (h, all) =
    ap (found (find_all vars_pattern 0 (u ++ t)) (λ k. find_all vars_pattern k (u ++ t)) (u ++ t))
      (match-closed c (u ++ t) h)
    ∙ find_all-literal u t all

-- what the matches of a path take
abbrev matches_of : List Segment → List (List Bytes)
matches_of [] = []
matches_of (literal t ∷ segments) = matches_of segments
matches_of (variable name v ∷ segments) = taken_of name v ∷ matches_of segments

find_all-render :
    (segments : List Segment)
    → Fits segments
    → find_all vars_pattern 0 (render segments) ≡ matches_of segments
unfolding find_all
find_all-render [] fits = refl
find_all-render (literal t ∷ segments) (all, fits) =
    find_all-literal t (render segments) all ∙ find_all-render segments fits
find_all-render (variable name v ∷ segments) (named, (valued, fits)) =
    let inside = name ++ (value_text v ++ (b'}' ∷ [])) in
    let parts : inside ++ render segments ≡ name ++ (value_text v ++ (b'}' ∷ render segments)) =
      append_assoc name (value_text v ++ (b'}' ∷ [])) (render segments)
      ∙ ap (λ x. name ++ x) (append_assoc (value_text v) (b'}' ∷ []) (render segments)) in
    subst (λ x. find_all vars_pattern 0 (b'{' ∷ x) ≡ taken_of name v ∷ matches_of segments) parts
      (find_all-match vars_pattern b'{' inside (render segments) (taken_of name v) (
          subst (λ x. match_here vars_pattern (b'{' ∷ x) ≡ some (taken_of name v, render segments))
            (sym parts) (match-variable name v (render segments) named valued))
        ∙ ap (◌∷◌ (taken_of name v)) (find_all-render segments fits))

add_vars-matches_of :
    (segments : List Segment) (res : Vars)
    → add_vars (matches_of segments) res ≡ vars_of segments res
unfolding add_vars add_var
add_vars-matches_of [] res = refl
add_vars-matches_of (literal t ∷ segments) res = add_vars-matches_of segments res
add_vars-matches_of (variable name v ∷ segments) res =
    let key = trim_space name in
    add_vars-matches_of segments (store key (var_value key (or_empty v)) res)

-- Of a path that is made of literals and of variables in braces, some with a value behind "=",
-- buildPathVars gives exactly the variables, under their trimmed names, with their values; a later
-- one replaces one before with the same name. A value is kept where it is not empty and the name has
-- two bytes or more. Literals open no brace, names have the characters of names, and values no braces.
pub build_path_vars-render :
    (segments : List Segment)
    → Fits segments
    → build_path_vars (render segments) ≡ vars_of segments []
unfolding build_path_vars
build_path_vars-render segments fits =
    ap (λ matches. add_vars matches []) (find_all-render segments fits)
    ∙ add_vars-matches_of segments []
