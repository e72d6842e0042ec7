-- ===== src/Tunnel/Retries.antt =====
-- The attempts of `send_request`, and the connections that it makes.
use custom_vpn_implementatio.Common.{
  ℕ, zero, suc, ◌+◌, ◌-◌, ◌*◌, ◌≤◌, ◌≡◌, ◌⊎◌, inl, inr, refl, ap, Bool, true, false, not, Option,
  none, some, Bytes, ◌||◌, ltb, if◌then◌else◌, arith,
}
use custom_vpn_implementatio.Common.Exec.{
  ◌>>=◌, ◌>>◌, Exec, Result, ok, err, connection_error, pure, caught, Keeps, Leads, Keeps-bind,
  Leads-bind, Leads-match, bind_ok,
}
use custom_vpn_implementatio.Crypto.{Primitives}
use custom_vpn_implementatio.Json.{Codec}
use custom_vpn_implementatio.Tunnel.{
  TunnelClient, or_type_error, close_socket, dial, this, sleep, do_connect, ensure_connected,
  do_request, send_attempts, send_request,
}

abbrev Dialled : ℕ → TunnelClient → Type 0
Dialled n s = s.dialled ≤ n

or_type_error-Dialled : (n : ℕ) (o : Option Bytes) → Keeps (Dialled n) (or_type_error o)
or_type_error-Dialled n none = λ s i. i
or_type_error-Dialled n (some sid) = λ s i. i

dial-Dialled : (n : ℕ) → Leads (Dialled n) (Dialled (1 + n)) dial
unfolding dial
dial-Dialled n s i = omega (arith, i)

close_socket-Dialled : (n : ℕ) → Keeps (Dialled n) close_socket
unfolding close_socket
close_socket-Dialled n s i = i

more : (m n : ℕ) → m ≤ n → (s : TunnelClient) → Dialled m s → Dialled n s
more m n l s i = omega (arith, l, i)

module _ (second : ℕ) (p : Primitives) (c : Codec) (priv_c pub_s : Bytes) where
  do_connect-Dialled :
      (n : ℕ) → Leads (Dialled n) (Dialled (1 + n)) (do_connect second p c priv_c pub_s)
  unfolding do_connect
  do_connect-Dialled n =
      Leads-bind (Dialled n) (Dialled n) (Dialled (1 + n)) _ _ (close_socket-Dialled n)
        (more n (1 + n) (omega arith))
        (λ a.
          Leads-bind (Dialled n) (Dialled (1 + n)) (Dialled (1 + n)) _ _ (dial-Dialled n) (λ s i. i)
            (λ b. Keeps-bind (Dialled (1 + n)) _ _ (λ s i. i) (λ keys s i. i)))

  Leads-either :
      (n : ℕ) (b : Bool)
      → Leads (Dialled n) (Dialled (1 + n)) (elim b as (λ _. Exec TunnelClient (Unit {0})) [
        | true ↦ do_connect second p c priv_c pub_s
        | false ↦ pure tt
      ])
  Leads-either n true = do_connect-Dialled n
  Leads-either n false = more n (1 + n) (omega arith)

  ensure_connected-Dialled :
      (n : ℕ) → Leads (Dialled n) (Dialled (1 + n)) (ensure_connected second p c priv_c pub_s)
  unfolding ensure_connected
  ensure_connected-Dialled n s i = Leads-either n (not s.connected || not s.has_sock) s i

  do_request-Dialled :
      (n : ℕ) (request : Bytes)
      → Leads (Dialled n) (Dialled (1 + n)) (do_request second p c priv_c pub_s request)
  unfolding do_request
  do_request-Dialled n request =
      let m = 1 + n in
      Leads-bind (Dialled n) (Dialled m) (Dialled m) _ _ (ensure_connected-Dialled n) (λ s i. i)
        (λ a.
          Keeps-bind (Dialled m) _ _ (λ s i. i)
            (λ enc_key.
              Keeps-bind (Dialled m) _ _ (λ s i. i)
                (λ mac_key.
                  Keeps-bind (Dialled m) _ _ (λ s i. i)
                    (λ sid.
                      Keeps-bind (Dialled m) _ _ (or_type_error-Dialled m sid) (λ sid s i. i)))))

  send_attempts-Dialled :
      (left n : ℕ) (request : Bytes)
      → Leads
          (Dialled n)
          (Dialled (2 * left + n))
          (send_attempts second p c priv_c pub_s left request)
  unfolding send_attempts
  send_attempts-Dialled zero n request = more n (2 * 0 + n) (omega arith)
  send_attempts-Dialled (suc left) n request =
      let k = 2 * suc left + n in
      Leads-bind (Dialled n) (Dialled (1 + n)) (Dialled k) _ _ (do_request-Dialled n request)
        (more (1 + n) k (omega arith))
        (Leads-match (Dialled (1 + n)) (Dialled k) _ _ (λ response. more (1 + n) k (omega arith))
          (λ e.
            Leads-bind (Dialled (1 + n)) (Dialled (1 + (1 + n))) (Dialled k) _ _
              (do_connect-Dialled (1 + n)) (more (1 + (1 + n)) k (omega arith))
              (λ a.
                Leads-bind (Dialled (1 + (1 + n))) (Dialled (1 + (1 + n))) (Dialled k) _ _
                  (λ s i. i) (more (1 + (1 + n)) k (omega arith))
                  (λ b.
                    Leads-bind (Dialled (1 + (1 + n))) (Dialled (1 + (1 + n))) (Dialled k) _ _
                      (λ s i. i) (more (1 + (1 + n)) k (omega arith))
                      (λ d.
                        Leads-bind (Dialled (1 + (1 + n))) (Dialled (1 + (1 + n))) (Dialled k) _ _
                          (λ s i. i) (more (1 + (1 + n)) k (omega arith))
                          (λ u s i.
                            omega
                              (arith, send_attempts-Dialled left (1 + (1 + n)) request s i)))))))

  abbrev Settled : {S : Type 0} → Result Bytes × S → Type 0
  Settled x = ((response : Bytes) × (x.0 ≡ ok response)) ⊎ (x.0 ≡ err connection_error)

  abbrev retry : ℕ → Bytes → Result Bytes → Exec TunnelClient Bytes
  retry left request result = elim result [
    | ok response ↦ pure response
    | err e ↦ do
      reconnected ← caught (do_connect second p c priv_c pub_s)
      max_retries ← this (λ s. s.max_retries)
      backoff ← this (λ s. s.retry_backoff)
      sleep (if ltb (max_retries - left) max_retries then backoff * (max_retries - left) else 0)
      send_attempts second p c priv_c pub_s left request
  ]

  retry-Settled :
      (left : ℕ) (request : Bytes)
      → ((s : TunnelClient) → Settled (send_attempts second p c priv_c pub_s left request s))
      → (r : Result Bytes) (s : TunnelClient) → Settled (retry left request r s)
  unfolding ◌>>=◌
  retry-Settled left request rest (ok response) s = inl (response, refl)
  retry-Settled left request rest (err e) s = rest _

  send_attempts-Settled :
      (left : ℕ) (request : Bytes) (s : TunnelClient)
      → Settled (send_attempts second p c priv_c pub_s left request s)
  unfolding send_attempts ◌>>=◌
  send_attempts-Settled zero request s = inr refl
  send_attempts-Settled (suc left) request s =
      let (r, t) = do_request second p c priv_c pub_s request s in
      retry-Settled left request (send_attempts-Settled left request) r t

  -- Whatever the network does, `send_request` returns a response or raises `ConnectionError`, after
  -- at most two connections for each of `max_retries` attempts.
  pub send_request-Settled :
      (request : Bytes) (s : TunnelClient)
      → let (r, t) = send_request second p c priv_c pub_s request s in
        (((response : Bytes) × (r ≡ ok response)) ⊎ (r ≡ err connection_error))
        × (t.dialled ≤ 2 * s.max_retries + s.dialled)
  unfolding send_request
  send_request-Settled request s = (
    send_attempts-Settled s.max_retries request s,
    send_attempts-Dialled s.max_retries s.dialled request s (omega arith),
  )

  first :
      (n k : ℕ) (request response : Bytes) (s t : TunnelClient)
      → k ≡ suc n
      → do_request second p c priv_c pub_s request s ≡ (ok response, t)
      → send_attempts second p c priv_c pub_s k request s ≡ (ok response, t)
  unfolding send_attempts
  first n k request response s t some_left done =
      rw some_left (bind_ok _ _ (ap (λ (x : Result Bytes × TunnelClient). (ok x.0, x.1)) done))

  -- A response to the first attempt is returned as it is, without a new connection.
  pub send_request-first :
      (request response : Bytes) (n : ℕ) (s t : TunnelClient)
      → s.max_retries ≡ suc n
      → do_request second p c priv_c pub_s request s ≡ (ok response, t)
      → send_request second p c priv_c pub_s request s ≡ (ok response, t)
  unfolding send_request
  send_request-first request response n s t some_left done =
      first n s.max_retries request response s t some_left done
