-- ===== src/Generator/Paths/Replace.antt =====
-- replacePath of cmd/protoc-gen-go-mqtt/mqtt.go: which variable of a path it replaces.
use kratos_transport_rpc.Prelude.{
  ℕ, ◌≡◌, refl, ap, sym, ◌∙◌, Bool-cases, inl, inr, true, false, none, some, List, [], ◌∷◌, ◌++◌,
  map, append-nil, append_assoc, Bytes, ◌==◌, arith,
}
use kratos_transport_rpc.Generator.Regexp.{
  Item, once, many, perhaps, captured, match_here, match_once, match_many, found_at, find,
}
use kratos_transport_rpc.Generator.Regexp.Greedy.{
  AllIn, match_many-all, match_many-stop, match_once-true, match_perhaps-stop, match_perhaps-true,
}
use kratos_transport_rpc.Generator.Paths.{
  no_brace, is_white, is_lower, is_upper, name_item, name_pattern, all_name, braced, replaced,
  replace_path,
}
use kratos_transport_rpc.Generator.Paths.Vars.{not_open}

-- The items match the text up to the rest.
abbrev Matches : List Item → Bytes → Bytes → Type 0
Matches items t rest = (pieces : List Bytes) × (match_here items t ≡ some (pieces, rest))

abbrev close_items : List Item
close_items = many no_brace ∷ once (◌==◌ b'}') ∷ []

abbrev equals_items : List Item
equals_items = perhaps (◌==◌ b'=') ∷ close_items

close-Matches : (w post : Bytes) → AllIn no_brace w → Matches close_items (w ++ (b'}' ∷ post)) post
unfolding match_here match_once no_brace
close-Matches w post all = (
  w ∷ (b'}' ∷ []) ∷ [],
  match_many-all no_brace (match_here (once (◌==◌ b'}') ∷ [])) [] w (b'}' ∷ post)
      ((b'}' ∷ []) ∷ [], post) all refl refl,
)

equals-Matches :
    (w post : Bytes) → AllIn no_brace w → Matches equals_items (w ++ (b'}' ∷ post)) post
unfolding match_here
equals-Matches [] post all =
    let (pieces, e) = close-Matches [] post all in
    (
      [] ∷ pieces,
      match_perhaps-stop (◌==◌ b'=') (match_here close_items) (b'}' ∷ post) refl
          ∙ ap (captured []) e,
    )
equals-Matches (c ∷ w) post (h, all) = elim (Bool-cases (b'=' == c)) [
  | inl same ↦
      let (pieces, e) = close-Matches w post all in
      (
        (c ∷ []) ∷ pieces,
        match_perhaps-true (◌==◌ b'=') (match_here close_items) c (w ++ (b'}' ∷ post))
            (pieces, post) same e,
      )
  | inr other ↦
      let (pieces, e) = close-Matches (c ∷ w) post (h, all) in
      (
        [] ∷ pieces,
        match_perhaps-stop (◌==◌ b'=') (match_here close_items) (c ∷ (w ++ (b'}' ∷ post))) other
            ∙ ap (captured []) e,
      )
]

white-many :
    (taken w post : Bytes)
    → AllIn no_brace w
    → (pieces : List Bytes) × (match_many is_white
          (match_here equals_items)
          taken
          (w ++ (b'}' ∷ post))
        ≡ some (pieces, post))
unfolding match_many is_white
white-many taken [] post all =
    let (pieces, e) = equals-Matches [] post all in (taken ∷ pieces, ap (captured taken) e)
white-many taken (c ∷ w) post (h, all) = elim (Bool-cases (is_white c)) [
  | inl white ↦
      let (pieces, e) = white-many (taken ++ (c ∷ [])) w post all in (pieces, rw (white, e))
  | inr other ↦
      let (pieces, e) = equals-Matches (c ∷ w) post (h, all) in
      (taken ∷ pieces, rw other (ap (captured taken) e))
]

abbrev tail_items : List Item
tail_items = many is_white ∷ equals_items

name_item_refl : (n : ℕ) → name_item n n ≡ true
unfolding name_item is_lower is_upper
name_item_refl n = ground arith

name-Matches :
    (name w post : Bytes)
    → AllIn no_brace w
    → Matches (map (λ n. once (name_item n)) name ++ tail_items) (name ++ (w ++ (b'}' ∷ post))) post
unfolding match_here
name-Matches [] w post all = white-many [] w post all
name-Matches (n ∷ ns) w post all =
    let (pieces, e) = name-Matches ns w post all in
    (
      (n ∷ []) ∷ pieces,
      match_once-true (name_item n) (match_here (map (λ k. once (name_item k)) ns ++ tail_items)) n
            (ns ++ (w ++ (b'}' ∷ post))) (name_item_refl n)
          ∙ ap (captured (n ∷ [])) e,
    )

pattern-Matches :
    (n : ℕ) (ns w post : Bytes)
    → is_white n ≡ false
    → AllIn no_brace w
    → Matches (name_pattern (n ∷ ns)) (b'{' ∷ n ∷ ns ++ (w ++ (b'}' ∷ post))) post
unfolding match_here name_pattern match_once
pattern-Matches n ns w post h all =
    let items = map (λ k. once (name_item k)) (n ∷ ns) ++ tail_items in
    let text = n ∷ ns ++ (w ++ (b'}' ∷ post)) in
    let (pieces, e) = name-Matches (n ∷ ns) w post all in
    (
      (b'{' ∷ []) ∷ [] ∷ pieces,
      ap (captured (b'{' ∷ []))
          (match_many-stop is_white (match_here items) [] text h ∙ ap (captured []) e),
    )

closed :
    (c : ℕ) (name t : Bytes) → not_open c ≡ true → match_here (name_pattern name) (c ∷ t) ≡ none
unfolding match_here match_once name_pattern
closed c name t h = let apart : (b'{' == c) ≡ false = ground arith in simp apart refl

find-first :
    (name before pre t post : Bytes)
    → AllIn not_open pre
    → Matches (name_pattern name) (b'{' ∷ t) post
    → find (name_pattern name) before (pre ++ (b'{' ∷ t)) ≡ some (before ++ pre, post)
unfolding find
find-first name before [] t post all (pieces, e) =
    ap (found_at (find (name_pattern name) (before ++ (b'{' ∷ [])) t) before) e
    ∙ ap (λ x. some (x, post)) (sym (append-nil before))
find-first name before (c ∷ pre) t post (h, all) m =
    let text = pre ++ (b'{' ∷ t) in
    ap (found_at (find (name_pattern name) (before ++ (c ∷ [])) text) before) (closed c name text h)
    ∙ find-first name (before ++ (c ∷ [])) pre t post all m
    ∙ ap (λ x. some (x, post)) (append_assoc before (c ∷ []) pre)

-- replacePath replaces the first variable whose text begins with the name, whatever is behind the
-- name in its braces: a value, nothing, or the rest of a longer name of another variable; and
-- what stands before and behind the variable stays. The text before it opens no brace, and the name
-- has the characters of names and does not begin with white space.
pub replace_path-first :
    (n : ℕ) (ns value pre w post : Bytes)
    → all_name (n ∷ ns) ≡ true
    → is_white n ≡ false
    → AllIn not_open pre
    → AllIn no_brace w
    → replace_path (n ∷ ns) value (pre ++ (b'{' ∷ n ∷ ns ++ (w ++ (b'}' ∷ post))))
      ≡ some (pre ++ (braced (n ∷ ns) value ++ post))
unfolding replace_path
replace_path-first n ns value pre w post named h before all = rw named (
    ap
      (λ m.
        some (replaced (pre ++ (b'{' ∷ n ∷ ns ++ (w ++ (b'}' ∷ post)))) (braced (n ∷ ns) value) m))
      (find-first (n ∷ ns) [] pre (n ∷ ns ++ (w ++ (b'}' ∷ post))) post before
        (pattern-Matches n ns w post h all)))
