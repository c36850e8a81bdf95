-- ===== src/Stubs/Indices.antt =====
-- The indices that genService of cmd/protoc-gen-go-mqt/mqt.go hands to the client stubs, and the
-- tables of genServiceDesc.
use kratos_transport_rpc.Prelude.{
  ℕ, zero, suc, ◌+◌, ◌≡◌, refl, ap, subst, inl, inr, ◌⊎◌, Bool, true, false, ◌&&◌, ◌||◌, not,
  Option, none, some, List, [], ◌∷◌, ◌++◌, append_assoc, length, if◌then◌else◌, arith,
}
use kratos_transport_rpc.Stubs.{
  Method, is_unary, client_method, client_methods, desc_methods, desc_streams,
}

-- entry i of a table, if it has one
unfoldable pub entry : ℕ → List Method → Option Method
entry i [] = none
entry zero (m ∷ ms) = some m
entry (suc i) (m ∷ ms) = entry i ms

-- Each method stands at its index in its table, unary ones in the first and the others in the
-- second.
unfoldable pub Indexed : List Method → List Method → List (Method × ℕ) → Type 0
Indexed methods streams [] = Unit
Indexed methods streams ((m, i) ∷ l) =
    (entry i (if is_unary m then methods else streams) ≡ some m) × Indexed methods streams l

entry-append :
    (i : ℕ) (before : List Method) (m : Method) (after : List Method)
    → i ≡ length before
    → entry i (before ++ (m ∷ after)) ≡ some m
unfolding entry
entry-append zero [] m after h = refl
entry-append (suc i) [] m after h = absurd (omega (arith, h))
entry-append zero (b ∷ before) m after h = absurd (omega (arith, h))
entry-append (suc i) (b ∷ before) m after h = entry-append i before m after (omega (arith, h))

push :
    (before : List Method) (m : Method) (after : List Method)
    → (before ++ (m ∷ [])) ++ after ≡ before ++ (m ∷ after)
push before m after = append_assoc before (m ∷ []) after

length-push : (before : List Method) (m : Method) → length (before ++ (m ∷ [])) ≡ length before + 1
length-push [] m = refl
length-push (b ∷ before) m = let e = length-push before m in omega (arith, e)

module _ (i : ℕ) (before : List Method) (m : Method) (after : List Method) (l : List (Method × ℕ))
    (here : i ≡ length before) where
  unary_step :
      (streams : List Method)
      → is_unary m ≡ true
      → Indexed ((before ++ (m ∷ [])) ++ after) streams l
      → Indexed (before ++ (m ∷ after)) streams ((m, i) ∷ l)
  unfolding Indexed
  unary_step streams e next = (
    rw e (entry-append i before m after here),
    subst (λ t. Indexed t streams l) (push before m after) next,
  )

  stream_step :
      (methods : List Method)
      → is_unary m ≡ false
      → Indexed methods ((before ++ (m ∷ [])) ++ after) l
      → Indexed methods (before ++ (m ∷ after)) ((m, i) ∷ l)
  unfolding Indexed
  stream_step methods e next = (
    rw e (entry-append i before m after here),
    subst (λ t. Indexed methods t l) (push before m after) next,
  )

module _ (i j : ℕ) (m : Method) (ms : List Method) where
  unary_eqs :
      is_unary m ≡ true
      → (m.streaming_client || m.streaming_server) ≡ false
      → (not m.streaming_client && not m.streaming_server) ≡ true
      → (client_methods i j (m ∷ ms) ≡ ((m, i) ∷ client_methods (i + 1) j ms))
        × (desc_methods (m ∷ ms) ≡ (m ∷ desc_methods ms))
        × (desc_streams (m ∷ ms) ≡ desc_streams ms)
  unfolding client_methods client_method desc_methods desc_streams
  unary_eqs e c v = (
    ap (λ b. client_method b m i j (λ k l. client_methods k l ms)) e,
    ap (λ b. if b then desc_methods ms else m ∷ desc_methods ms) c,
    ap (λ b. if b then desc_streams ms else m ∷ desc_streams ms) v,
  )

  stream_eqs :
      is_unary m ≡ false
      → (m.streaming_client || m.streaming_server) ≡ true
      → (not m.streaming_client && not m.streaming_server) ≡ false
      → (client_methods i j (m ∷ ms) ≡ ((m, j) ∷ client_methods i (j + 1) ms))
        × (desc_methods (m ∷ ms) ≡ desc_methods ms)
        × (desc_streams (m ∷ ms) ≡ (m ∷ desc_streams ms))
  unfolding client_methods client_method desc_methods desc_streams
  stream_eqs e c v = (
    ap (λ b. client_method b m i j (λ k l. client_methods k l ms)) e,
    ap (λ b. if b then desc_methods ms else m ∷ desc_methods ms) c,
    ap (λ b. if b then desc_streams ms else m ∷ desc_streams ms) v,
  )

-- the three tests of the loops on the flags of a method
flags :
    (c v : Bool)
    → (((not v && not c) ≡ true) × ((c || v) ≡ false) × ((not c && not v) ≡ true))
      ⊎ (((not v && not c) ≡ false) × ((c || v) ≡ true) × ((not c && not v) ≡ false))
flags true true = inr (refl, refl, refl)
flags true false = inr (refl, refl, refl)
flags false true = inr (refl, refl, refl)
flags false false = inl (refl, refl, refl)

nil-Indexed :
    (i j : ℕ) (us ss : List Method)
    → Indexed (us ++ desc_methods []) (ss ++ desc_streams []) (client_methods i j [])
unfolding Indexed client_methods
nil-Indexed i j us ss = tt

-- with the entries that the loop has already passed
loop-Indexed :
    (i j : ℕ) (us ss ms : List Method)
    → i ≡ length us
    → j ≡ length ss
    → Indexed (us ++ desc_methods ms) (ss ++ desc_streams ms) (client_methods i j ms)
loop-Indexed i j us ss [] p q = nil-Indexed i j us ss
loop-Indexed i j us ss (m ∷ ms) p q = elim (flags m.streaming_client m.streaming_server) [
  | inl (e, c, v) ↦
      let (client_eq, methods_eq, streams_eq) = unary_eqs i j m ms e c v in
      let longer = length-push us m in
      rw (client_eq, methods_eq, streams_eq)
        (unary_step i us m (desc_methods ms) _ p (ss ++ desc_streams ms) e
          (loop-Indexed (i + 1) j (us ++ (m ∷ [])) ss ms (omega (arith, p, longer)) q))
  | inr (e, c, v) ↦
      let (client_eq, methods_eq, streams_eq) = stream_eqs i j m ms e c v in
      let longer = length-push ss m in
      rw (client_eq, methods_eq, streams_eq)
        (stream_step j ss m (desc_streams ms) _ q (us ++ desc_methods ms) e
          (loop-Indexed i (j + 1) us (ss ++ (m ∷ [])) ms p (omega (arith, q, longer))))
]

-- The index that a client stub is generated with is the place of its method in the service's
-- descriptor: among the streams for a method that streams on either side, else among the methods.
pub client_methods-Indexed :
    (ms : List Method) → Indexed (desc_methods ms) (desc_streams ms) (client_methods 0 0 ms)
client_methods-Indexed ms = loop-Indexed 0 0 [] [] ms refl refl
