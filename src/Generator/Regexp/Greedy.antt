-- ===== src/Generator/Regexp/Greedy.antt =====
-- Items that take as much as they can, where what is behind them matches.
use kratos_transport_rpc.Prelude.{
  ℕ, ◌≡◌, refl, ◌∙◌, Bool, true, false, some, List, [], ◌∷◌, ◌++◌, append-nil, append_assoc, Bytes,
}
use kratos_transport_rpc.Generator.Regexp.{Match, captured, match_once, match_perhaps, match_many}

-- Each byte of the text is in the class.
abbrev pub AllIn : (ℕ → Bool) → Bytes → Type 0
AllIn p [] = Unit
AllIn p (c ∷ u) = (p c ≡ true) × AllIn p u

-- The text does not begin with a byte of the class.
abbrev pub StopsAt : (ℕ → Bool) → Bytes → Type 0
StopsAt p [] = Unit
StopsAt p (c ∷ t) = p c ≡ false

pub match_many-stop :
    (p : ℕ → Bool) (behind : Bytes → Match) (taken t : Bytes)
    → StopsAt p t
    → match_many p behind taken t ≡ captured taken (behind t)
unfolding match_many
match_many-stop p behind taken [] h = refl
match_many-stop p behind taken (c ∷ t) h = rw h

-- `*` takes all bytes of its class, if what is behind it matches then.
pub match_many-all :
    (p : ℕ → Bool) (behind : Bytes → Match) (taken u t : Bytes) (m : List Bytes × Bytes)
    → AllIn p u
    → StopsAt p t
    → behind t ≡ some m
    → match_many p behind taken (u ++ t) ≡ captured (taken ++ u) (some m)
unfolding match_many
match_many-all p behind taken [] t m all stops e =
    match_many-stop p behind taken t stops ∙ rw (e, append-nil taken)
match_many-all p behind taken (c ∷ u) t m (h, all) stops e =
    let more = match_many-all p behind (taken ++ (c ∷ [])) u t m all stops e in
    rw (h, more, append_assoc taken (c ∷ []) u)

pub match_once-true :
    (p : ℕ → Bool) (behind : Bytes → Match) (c : ℕ) (t : Bytes)
    → p c ≡ true
    → match_once p behind (c ∷ t) ≡ captured (c ∷ []) (behind t)
unfolding match_once
match_once-true p behind c t h = rw h

pub match_perhaps-stop :
    (p : ℕ → Bool) (behind : Bytes → Match) (t : Bytes)
    → StopsAt p t
    → match_perhaps p behind t ≡ captured [] (behind t)
unfolding match_perhaps
match_perhaps-stop p behind [] h = refl
match_perhaps-stop p behind (c ∷ t) h = rw h

pub match_perhaps-true :
    (p : ℕ → Bool) (behind : Bytes → Match) (c : ℕ) (t : Bytes) (m : List Bytes × Bytes)
    → p c ≡ true
    → behind t ≡ some m
    → match_perhaps p behind (c ∷ t) ≡ captured (c ∷ []) (some m)
unfolding match_perhaps
match_perhaps-true p behind c t m h e = rw (h, e)
