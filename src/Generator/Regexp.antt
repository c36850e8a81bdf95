-- ===== src/Generator/Regexp.antt =====
-- Matching as package regexp does it, for the two patterns of cmd/protoc-gen-go-mqtt/mqtt.go: a
-- sequence of items, each of which takes bytes of a class, as many as it can at first and fewer
-- where the items behind it do not match. The texts are ASCII.
pub mod Greedy
use kratos_transport_rpc.Prelude.{
  ℕ, zero, suc, ◌-◌, Bool, true, false, Option, none, some, List, [], ◌∷◌, ◌++◌, Bytes, length,
  if◌then◌else◌,
}

-- A byte of the class, any number of them (`*`), or at most one (`?`)
pub data Item : Type 0 where
  once many perhaps : (ℕ → Bool) → Item

-- What each item has taken, and the text behind the match
abbrev pub Match : Type 0
Match = Option (List Bytes × Bytes)

abbrev pub or_else : Match → Match → Match
or_else (some m) other = some m
or_else none other = other

abbrev pub captured : Bytes → Match → Match
captured taken none = none
captured taken (some (pieces, rest)) = some (taken ∷ pieces, rest)

-- `behind` matches the items that follow.
unfoldable pub match_once : (ℕ → Bool) → (Bytes → Match) → Bytes → Match
match_once p behind [] = none
match_once p behind (c ∷ t) = if p c then captured (c ∷ []) (behind t) else none

unfoldable pub match_perhaps : (ℕ → Bool) → (Bytes → Match) → Bytes → Match
match_perhaps p behind [] = captured [] (behind [])
match_perhaps p behind (c ∷ t) =
    let without = captured [] (behind (c ∷ t)) in
    if p c then or_else (captured (c ∷ []) (behind t)) without else without

unfoldable pub match_many : (ℕ → Bool) → (Bytes → Match) → Bytes → Bytes → Match
match_many p behind taken [] = captured taken (behind [])
match_many p behind taken (c ∷ t) =
    let more = match_many p behind (taken ++ (c ∷ [])) t in
    let stop = captured taken (behind (c ∷ t)) in if p c then or_else more stop else stop

-- the match that begins where the text begins
unfoldable pub match_here : List Item → Bytes → Match
unfolding match_once match_perhaps match_many
match_here [] t = some ([], t)
match_here (once p ∷ items) t = match_once p (match_here items) t
match_here (perhaps p ∷ items) t = match_perhaps p (match_here items) t
match_here (many p ∷ items) t = match_many p (match_here items) [] t

-- One step of the search for all matches, by what matches here: `next` is the search from the next
-- byte on, and `behind` that behind a number of the bytes of t.
abbrev pub found : List (List Bytes) → (ℕ → List (List Bytes)) → Bytes → Match → List (List Bytes)
found next behind t none = next
found next behind t (some (pieces, rest)) = pieces ∷ behind (length t - length rest)

-- `FindAllStringSubmatch` of a pattern that takes at least a byte: what the items of each match have
-- taken; the first `skip` bytes belong to the match before
unfoldable pub find_all : List Item → ℕ → Bytes → List (List Bytes)
find_all items skip [] = []
find_all items (suc skip) (c ∷ t) = find_all items skip t
find_all items zero (c ∷ t) =
    found (find_all items zero t) (λ k. find_all items k t) t (match_here items (c ∷ t))

abbrev pub found_at : Option (Bytes × Bytes) → Bytes → Match → Option (Bytes × Bytes)
found_at next before none = next
found_at next before (some (pieces, rest)) = some (before, rest)

-- `FindStringIndex`: the texts before and behind the first match
unfoldable pub find : List Item → Bytes → Bytes → Option (Bytes × Bytes)
find items before [] = found_at none before (match_here items [])
find items before (c ∷ t) =
    found_at (find items (before ++ (c ∷ [])) t) before (match_here items (c ∷ t))
