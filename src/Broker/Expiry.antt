-- ===== src/Broker/Expiry.antt =====
-- The cache against the clock.
use kratos_transport_rpc.Prelude.{
  ℕ, ◌+◌, ◌-◌, ◌≤◌, ◌<◌, ◌≡◌, ◌≢◌, refl, ap, ap₂, sym, subst, ◌∙◌, Option, none, some, Bytes,
  lt→ltb, le→ltb, true, false, arith,
}
use kratos_transport_rpc.Prelude.Maps.{
  lookup, lookup-store, lookup-store_other, lookup-remove, lookup-remove_other,
}
use kratos_transport_rpc.Broker.{Cache, Empty, set, expire, get_entry, get, log_found, log_error}

-- The keys but one have the values and timestamps that they had.
abbrev pub SameOthers : {V : Type 0} → Bytes → Cache V → Cache V → Type 0
SameOthers key c c1 =
    (other : Bytes)
    → key ≢ other
    → (lookup other c1.entries ≡ lookup other c.entries)
      × (lookup other c1.timestamp ≡ lookup other c.timestamp)

module _ {V : Type 0} where
  -- `Get` on an entry whose value and time are known.
  get-entry :
      (now t : ℕ) (key : Bytes) (v : V) (c : Cache V)
      → lookup key c.entries ≡ some v
      → lookup key c.timestamp ≡ some t
      → get now key c ≡ get_entry now key (some v) (some t) c
  unfolding get
  get-entry now t key v c e f = ap₂ (λ a b. get_entry now key a b c) e f

  kept :
      (now t : ℕ) (key : Bytes) (v : V) (c : Cache V)
      → now ≤ t + c.timeout
      → get_entry now key (some v) (some t) c ≡ (some v, c)
  unfolding get_entry
  kept now t key v c h = rw (le→ltb c.timeout (now - t) (omega arith))

  dropped :
      (now t : ℕ) (key : Bytes) (v : V) (c : Cache V)
      → t + c.timeout < now
      → get_entry now key (some v) (some t) c ≡ (none, expire key c)
  unfolding get_entry
  dropped now t key v c h = rw (lt→ltb c.timeout (now - t) (omega arith))

  expired_others : (key : Bytes) (c : Cache V) → SameOthers key c (expire key c)
  unfolding expire
  expired_others key c other h =
      (lookup-remove_other key other c.entries h, lookup-remove_other key other c.timestamp h)

  abbrev pub Forgotten : Bytes → Cache V → Option V × Cache V → Type 0
  Forgotten key c (o, c1) =
      (o ≡ none)
      × (lookup key c1.entries ≡ none)
      × (lookup key c1.timestamp ≡ none)
      × SameOthers key c c1

  expire-Forgotten :
      (key : Bytes) (c c1 : Cache V) → SameOthers key c c1 → Forgotten key c (none, expire key c1)
  unfolding expire
  expire-Forgotten key c c1 same = (
    refl,
    lookup-remove key c1.entries,
    lookup-remove key c1.timestamp,
    λ other h.
        let (e, f) = same other h in
        (
          lookup-remove_other key other c1.entries h ∙ e,
          lookup-remove_other key other c1.timestamp h ∙ f,
        ),
  )

  -- What `Set` stores at the time t, `Get` returns up to `timeout` later, and leaves the cache as
  -- it is; later it returns nothing, and the key is gone from both maps. The other keys keep what
  -- they have, in `Set` and in `Get`.
  pub get-set :
      (t now : ℕ) (key : Bytes) (v : V) (c : Cache V)
      → SameOthers key c (set t key v c)
        × (now ≤ t + c.timeout → get now key (set t key v c) ≡ (some v, set t key v c))
        × (t + c.timeout < now → Forgotten key c (get now key (set t key v c)))
  unfolding set
  get-set t now key v c =
      let c1 = set t key v c in
      let step =
        get-entry now t key v c1 (lookup-store key v c.entries) (lookup-store key t c.timestamp) in
      let same : SameOthers key c c1 = λ other h. (
        lookup-store_other key other v c.entries h,
        lookup-store_other key other t c.timestamp h,
      ) in
      (
        same,
        λ early. step ∙ kept now t key v c1 early,
        λ late.
            subst (Forgotten key c) (sym (step ∙ dropped now t key v c1 late))
              (expire-Forgotten key c c1 same),
      )

log_again :
    (now : ℕ) (key : Bytes) (r : Option Empty × Cache Empty)
    → r.0 ≡ none
    → (log_found now key r).0 ≡ true
unfolding log_found
log_again now key (none, c) h = refl
log_again now key (some x, c) h = cc

log_silent :
    (now : ℕ) (key : Bytes) (r : Option Empty × Cache Empty)
    → r.0 ≡ some tt
    → log_found now key r ≡ (false, r.1)
unfolding log_found
log_silent now key (none, c) h = cc
log_silent now key (some x, c) h = refl

-- An error that the filter has logged at the time t it holds back for `timeout` and logs again
-- after it. With the timeout 0 that newBroker gives it, nothing is held back once the clock has
-- moved.
pub log_error-set :
    (t now : ℕ) (key : Bytes) (c : Cache Empty)
    → (now ≤ t + c.timeout → log_error now key (set t key tt c) ≡ (false, set t key tt c))
      × (t + c.timeout < now → (log_error now key (set t key tt c)).0 ≡ true)
unfolding log_error
log_error-set t now key c =
    let (same, early, late) = get-set t now key tt c in
    (
      λ h.
          log_silent now key (get now key (set t key tt c)) (ap (λ x. x.0) (early h))
          ∙ ap (λ x. (false, x.1)) (early h),
      λ h. log_again now key (get now key (set t key tt c)) (late h).0,
    )
