-- ===== src/Client/Server/Errors.antt =====
-- How consecutive errors make a server faulty (src/flashptp/client/server.cpp).
use flashptpd.Prelude.{
  ℕ, zero, suc, ◌+◌, ◌≡◌, ◌≢◌, ◌≤◌, ◌<◌, refl, inl, inr, [], arith, Bool-cases, ltb, ltb→lt, ltb→ge,
  sym, ◌∙◌, ap,
}
use flashptpd.Prelude.Doubles.{Doubles}
use flashptpd.Calculation.{Calculation, reset}
use flashptpd.Client.Server.{Server, ServerState, error_limit, on_sequence_error}

module _ (D : Doubles) where
  open D use {Double}

  -- `n` errors in a row.
  abbrev pub fail_times : ℕ → Server Double → Server Double
  fail_times zero srv = srv
  fail_times (suc n) srv = fail_times n (on_sequence_error D srv)

  error-counts :
      (srv : Server Double)
      → srv.state ≢ ServerState.faulty
      → srv.error_count < error_limit
      → ((on_sequence_error D srv).state ≡ srv.state)
        × ((on_sequence_error D srv).error_count ≡ srv.error_count + 1)
  unfolding on_sequence_error
  error-counts srv h l = ground arith

  error-faulty :
      (srv : Server Double)
      → srv.state ≢ ServerState.faulty
      → error_limit ≤ srv.error_count
      → ((on_sequence_error D srv).state ≡ ServerState.faulty)
        × ((on_sequence_error D srv).calculation.sequences ≡ [])
  unfolding on_sequence_error reset
  error-faulty srv h l = ground arith

  error-stays :
      (srv : Server Double)
      → srv.state ≡ ServerState.faulty
      → ((on_sequence_error D srv).state ≡ ServerState.faulty)
        × ((on_sequence_error D srv).calculation ≡ srv.calculation)
  unfolding on_sequence_error
  error-stays srv h = ground arith

  fail_times-stays :
      (n : ℕ) (srv : Server Double)
      → srv.state ≡ ServerState.faulty
      → ((fail_times n srv).state ≡ ServerState.faulty)
        × ((fail_times n srv).calculation ≡ srv.calculation)
  fail_times-stays zero srv h = (h, refl)
  fail_times-stays (suc n) srv h =
      let one = error-stays srv h in
      let rest = fail_times-stays n (on_sequence_error D srv) one.0 in (rest.0, rest.1 ∙ one.1)

  -- Up to three errors in a row only count: a server without errors keeps its state.
  fail_times-counts :
      (n : ℕ) (srv : Server Double)
      → srv.state ≢ ServerState.faulty
      → n + srv.error_count ≤ error_limit
      → ((fail_times n srv).state ≡ srv.state)
        × ((fail_times n srv).error_count ≡ n + srv.error_count)
  fail_times-counts zero srv h l = (refl, omega arith)
  fail_times-counts (suc n) srv h l =
      let one = error-counts srv h (omega arith) in
      let rest =
        fail_times-counts n (on_sequence_error D srv) (λ e. h (sym one.0 ∙ e))
          (omega (arith, one.1)) in
      (rest.0 ∙ one.0, omega (arith, rest.1, one.1))

  -- Once more errors have come in a row than `ERROR_LIMIT`, those already counted included, the server
  -- is faulty and its calculation is empty.
  fail_times-faulty :
      (n : ℕ) (srv : Server Double)
      → srv.state ≢ ServerState.faulty
      → srv.error_count ≤ error_limit
      → error_limit < n + srv.error_count
      → ((fail_times n srv).state ≡ ServerState.faulty)
        × ((fail_times n srv).calculation.sequences ≡ [])
  fail_times-faulty zero srv h b l = absurd (omega arith)
  fail_times-faulty (suc n) srv h b l = elim (Bool-cases (ltb srv.error_count error_limit)) [
    | inl e ↦
        let one = error-counts srv h (ltb→lt _ _ e) in
        fail_times-faulty n (on_sequence_error D srv) (λ p. h (sym one.0 ∙ p))
          (omega (arith, one.1, ltb→lt _ _ e)) (omega (arith, one.1))
    | inr e ↦
        let one = error-faulty srv h (ltb→ge _ _ e) in
        let rest = fail_times-stays n (on_sequence_error D srv) one.0 in
        (rest.0, ap (λ (c : Calculation Double). c.sequences) rest.1 ∙ one.1)
  ]
