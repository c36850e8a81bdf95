-- ===== src/Transport/Tokens.antt =====
-- The tokens of broker/mqtt/utils.go, and ConnectRetry, loopConnect and onConnectionLost of
-- broker/mqtt/mqtt.go. A loop sleeps between its rounds; it has a round for each unit of its fuel.
use kratos_transport_rpc.Prelude.{
  ℕ, zero, suc, ◌≡◌, refl, ◌∙◌, Bool, true, false, ◌&&◌, not, Option, none, List, [], ◌∷◌, Bytes,
  if◌then◌else◌, ◌⊎◌, inl, inr,
}
use kratos_transport_rpc.Io.{is_none, Outcome, done, panics, hangs, index_bounds}
use kratos_transport_rpc.Transport.{BrokerError}

-- `checkClientToken`, on what `Wait` and `Error` of the token return, and
-- `checkClientTokenTimeout`, on what `WaitTimeout` returns, which is false at a timeout
unfoldable pub check_client_token : Bool → Option BrokerError → Bool × Option BrokerError
check_client_token waited err = if waited && not (is_none err) then (false, err) else (true, none)

unfoldable pub check_client_token_timeout : Bool → Option BrokerError → Bool × Option BrokerError
check_client_token_timeout in_time err =
    if in_time && not (is_none err) then (false, err) else (true, none)

module _ {C : Type 0} (connect_wait : C → Bool × Option BrokerError × C) where
  -- One `Connect` and `WaitTimeout` of 5 seconds, which is `connect_wait`: whether it counts as
  -- connected, and the client.
  unfoldable pub attempt : C → Bool × C
  unfolding check_client_token_timeout
  attempt c =
      let (in_time, e, c1) = connect_wait c in ((check_client_token_timeout in_time e).0, c1)

  -- the loop of the goroutine
  unfoldable pub retry_loop : ℕ → C → Outcome C
  unfolding attempt
  retry_loop zero c = hangs
  retry_loop (suc f) c =
      let (ok, c1) = attempt c in let rest = retry_loop f c1 in if not ok then rest else done c1

  -- `ConnectRetry`, which returns no error: the client, and whether a goroutine goes on with it
  unfoldable pub connect_retry : (C → Bool) → C → Bool × C
  unfolding attempt
  connect_retry is_connected c =
      if is_connected c
      then (false, c)
      else (let (ok, c1) = attempt c in if ok then (false, c1) else (true, c1))

-- `loopConnect`, which waits for each token; `waits` is what `Wait` returns
unfoldable pub loop_connect : {C : Type 0} → (C → Bool × Option BrokerError × C) → ℕ → C → Outcome C
unfolding check_client_token
loop_connect waits zero c = hangs
loop_connect waits (suc f) c =
    let (waited, e, c1) = waits c in
    let rest = loop_connect waits f c1 in
    if not (check_client_token waited e).0 then rest else done c1

-- `onConnectionLost`, which logs the first address
unfoldable pub on_connection_lost : List Bytes → Outcome Bytes
on_connection_lost [] = panics index_bounds
on_connection_lost (addr ∷ addrs) = done addr

and_false : (a : Bool) → (a && false) ≡ false
and_false true = refl
and_false false = refl

module _ {C : Type 0} (connect_wait : C → Bool × Option BrokerError × C) where
  -- the client after n attempts
  abbrev pub after : ℕ → C → C
  after zero c = c
  after (suc n) c = after n (connect_wait c).2

  -- An attempt of the client fails: it has ended in time with an error.
  abbrev pub Fails : C → Type 0
  Fails c = ((connect_wait c).0 ≡ true) × (is_none (connect_wait c).1 ≡ false)

  abbrev pub Ends : C → Type 0
  Ends c = ((connect_wait c).0 ≡ false) ⊎ (is_none (connect_wait c).1 ≡ true)

  -- each of the next n attempts fails
  abbrev pub AllFail : ℕ → C → Type 0
  AllFail zero c = Unit
  AllFail (suc n) c = Fails c × AllFail n (connect_wait c).2

  retry-next :
      (f : ℕ) (c : C)
      → Fails c
      → retry_loop connect_wait (suc f) c ≡ retry_loop connect_wait f (connect_wait c).2
  unfolding retry_loop attempt check_client_token_timeout
  retry-next f c (in_time, failed) = rw (in_time, failed)

  loop-next :
      (f : ℕ) (c : C)
      → Fails c
      → loop_connect connect_wait (suc f) c ≡ loop_connect connect_wait f (connect_wait c).2
  unfolding loop_connect check_client_token
  loop-next f c (waited, failed) = rw (waited, failed)

  retry-last :
      (f : ℕ) (c : C) → Ends c → retry_loop connect_wait (suc f) c ≡ done (connect_wait c).2
  unfolding retry_loop attempt check_client_token_timeout
  retry-last f c (inl late) = rw late
  retry-last f c (inr fine) = simp (fine, and_false (connect_wait c).0) refl

  loop-last :
      (f : ℕ) (c : C) → Ends c → loop_connect connect_wait (suc f) c ≡ done (connect_wait c).2
  unfolding loop_connect check_client_token
  loop-last f c (inl late) = rw late
  loop-last f c (inr fine) = simp (fine, and_false (connect_wait c).0) refl

  retry_loop-Ends :
      (n : ℕ) (c : C)
      → AllFail n c
      → Ends (after n c)
      → retry_loop connect_wait (suc n) c ≡ done (after (suc n) c)
  retry_loop-Ends zero c all ends = retry-last zero c ends
  retry_loop-Ends (suc n) c (fails, all) ends =
      retry-next (suc n) c fails ∙ retry_loop-Ends n (connect_wait c).2 all ends

  -- loopConnect connects once more after each attempt that fails, and no more after the first that
  -- does not.
  loop_connect-Ends :
      (n : ℕ) (c : C)
      → AllFail n c
      → Ends (after n c)
      → loop_connect connect_wait (suc n) c ≡ done (after (suc n) c)
  loop_connect-Ends zero c all ends = loop-last zero c ends
  loop_connect-Ends (suc n) c (fails, all) ends =
      loop-next (suc n) c fails ∙ loop_connect-Ends n (connect_wait c).2 all ends

  connect_retry-last :
      (is_connected : C → Bool) (c : C)
      → is_connected c ≡ false
      → Ends c
      → connect_retry connect_wait is_connected c ≡ (false, (connect_wait c).2)
  unfolding connect_retry attempt check_client_token_timeout
  connect_retry-last is_connected c offline (inl late) = rw (offline, late)
  connect_retry-last is_connected c offline (inr fine) =
      simp (offline, fine, and_false (connect_wait c).0) refl

  connect_retry-next :
      (is_connected : C → Bool) (c : C)
      → is_connected c ≡ false
      → Fails c
      → connect_retry connect_wait is_connected c ≡ (true, (connect_wait c).2)
  unfolding connect_retry attempt check_client_token_timeout
  connect_retry-next is_connected c offline (in_time, failed) = rw (offline, in_time, failed)

  -- ConnectRetry and then its goroutine, if it has started one
  unfoldable pub connect_retry_all : (C → Bool) → ℕ → C → Outcome C
  unfolding connect_retry retry_loop
  connect_retry_all is_connected f c =
      let (more, c1) = connect_retry connect_wait is_connected c in
      let rest = retry_loop connect_wait f c1 in if more then rest else done c1

  -- If the client is not connected and its first n attempts end with an error, and the next one
  -- succeeds or is not over within its time, ConnectRetry and its goroutine attempt n + 1 times and
  -- end. An attempt that is not over counts as a success, so that no more are made then.
  pub connect_retry-Ends :
      (is_connected : C → Bool) (n : ℕ) (c : C)
      → is_connected c ≡ false
      → AllFail n c
      → Ends (after n c)
      → connect_retry_all is_connected n c ≡ done (after (suc n) c)
  unfolding connect_retry_all
  connect_retry-Ends is_connected zero c offline all ends =
      simp (connect_retry-last is_connected c offline ends) refl
  connect_retry-Ends is_connected (suc n) c offline (fails, all) ends =
      simp (connect_retry-next is_connected c offline fails)
        (retry_loop-Ends n (connect_wait c).2 all ends)
