-- ===== src/Browser/Connect.antt =====
-- `_handle_connect`: the bytes between a browser and the target of its CONNECT.
pub mod Loop
use custom_vpn_implementatio.Common.{
  ℕ, zero, suc, ◌+◌, ◌≤◌, ◌≡◌, refl, ap, sym, ◌∙◌, Bool, true, false, not, Option, none, some, List,
  [], ◌∷◌, ◌++◌, Bytes, Text, codes, length, take, take_all, leb, leb→le, leb_false→lt, Bool-cases,
  inl, inr, arith,
}
use custom_vpn_implementatio.Common.Exec.{
  ◌>>=◌, ◌>>◌, pure, lift, Exec, Exn, Result, ok, err, Result-cases, bind_ok, bind_err,
}
use custom_vpn_implementatio.World.{World, Event, sendall}
use custom_vpn_implementatio.Json.{Json, null, Codec, get_or, truthy, bytes_fromhex}
use custom_vpn_implementatio.Proxy.{then_result, or_bad_json}
use custom_vpn_implementatio.Browser.{
  Texts, Proxy, sendall_if, sendall_now, unless_closed, send_body, relay_request, relay_answer,
  relay_chunk, on_tunnel, on_browser,
}

-- The bytes of the answer to a RELAY, if it has some.
abbrev pub or_none : Result Bytes → Option Bytes
or_none (ok bytes) = some bytes
or_none (err e) = none

abbrev pub if_truthy : Json → Bool → Option Bytes
if_truthy body true = or_none (bytes_fromhex body)
if_truthy body false = none

abbrev pub body_bytes : Result Json → Option Bytes
body_bytes (err e) = none
body_bytes (ok body) = if_truthy body (truthy body)

abbrev pub answer_bytes : Codec → Result Bytes → Option Bytes
answer_bytes c r = body_bytes (
    then_result r
      (λ resp. then_result (or_bad_json (c.loads resp)) (λ rr. get_or rr (codes "body") null)))

module _ {T : Type 0} where
  -- The browser's socket has been handed what it can take of these bytes at once.
  abbrev pub deliver : Option Bytes → Proxy T → Proxy T
  deliver none s = s
  deliver (some bytes) s = record s {
    browser = record s.browser {
      outgoing = s.browser.outgoing ++ take (s.room s.browser.sends) bytes;
      sends = suc s.browser.sends;
    };
  }

  sendall_if_lem :
      (bytes : Bytes) (s : Proxy T) (fits : Bool)
      → leb (length bytes) (s.room s.browser.sends) ≡ fits
      → s.browser.writable s.browser.sends ≡ true
      → (sendall_if fits bytes s).1 ≡ deliver (some bytes) s
  unfolding sendall ◌>>=◌
  sendall_if_lem bytes s true e h =
      rw (h, take_all (s.room s.browser.sends) bytes (leb→le _ _ e)) refl
  sendall_if_lem bytes s false e h = rw h refl

  sendall_now_lem :
      (bytes : Bytes) (s : Proxy T)
      → s.browser.writable s.browser.sends ≡ true
      → (sendall_now bytes s).1 ≡ deliver (some bytes) s
  unfolding sendall_now
  sendall_now_lem bytes s h =
      sendall_if_lem bytes s (leb (length bytes) (s.room s.browser.sends)) refl h

  -- The steps after this one leave the state.
  bind_stays :
      {A B : Type 0} (m : Exec (Proxy T) A) (f : A → Exec (Proxy T) B) (s : Proxy T)
      → ((a : A) (t : Proxy T) → (f a t).1 ≡ t)
      → ((m >>= f) s).1 ≡ (m s).1
  unfolding ◌>>=◌
  bind_stays m f s stays = elim (Result-cases (m s).0) [
    | inl (a, e) ↦ rw e (stays a (m s).1)
    | inr (x, e) ↦ rw e refl
  ]

  module _ (second : ℕ) (c : Codec) (x : Texts) (send_request : Bytes → Exec T Bytes) where
    send_body_lem :
        (body : Json) (yes_ : Bool) (s : Proxy T)
        → s.browser.writable s.browser.sends ≡ true
        → (send_body body yes_ s).1 ≡ deliver (if_truthy body yes_) s
    unfolding ◌>>=◌
    send_body_lem body false s h = refl
    send_body_lem body true s h = elim (Result-cases (bytes_fromhex body)) [
      | inl (bytes, e) ↦ rw (e, ◌>>=◌) (sendall_now_lem bytes s h)
      | inr (x, e) ↦ rw e refl
    ]

    relay_answer_lem :
        (rr : Json) (s : Proxy T)
        → s.browser.writable s.browser.sends ≡ true
        → (relay_answer rr s).1 ≡ deliver (body_bytes (get_or rr (codes "body") null)) s
    unfolding relay_answer ◌>>=◌
    relay_answer_lem rr s h = elim (Result-cases (get_or rr (codes "body") null)) [
      | inl (body, e) ↦ rw e (
          bind_stays (send_body body (truthy body)) (λ u. unless_closed rr) s
            (λ a t.
              bind_stays (lift (get_or rr (codes "closed") null))
                (λ closed. pure (not (truthy closed))) t (λ b u. refl))
          ∙ send_body_lem body (truthy body) s h)
      | inr (x, e) ↦ rw e refl
    ]

    -- What becomes of the proxy when the browser has sent a chunk: it travels as one RELAY, and the
    -- bytes of the answer go to the browser.
    abbrev pub chunk_relayed : Text → Bytes → Proxy T → Proxy T
    chunk_relayed target chunk s =
        let (r, t) = send_request (relay_request c target chunk) s.tunnel in
        deliver (answer_bytes c r) (record s { tunnel = t })

    pub relay_chunk_lem :
        (target : Text) (b : ℕ) (bs : Bytes) (s : Proxy T)
        → s.browser.writable s.browser.sends ≡ true
        → (relay_chunk second c x send_request target (b ∷ bs) s).1
          ≡ chunk_relayed target (b ∷ bs) s
    unfolding relay_chunk ◌>>=◌
    relay_chunk_lem target b bs s h =
        let asked = send_request (relay_request c target (b ∷ bs)) s.tunnel in
        elim (Result-cases asked.0) [
          | inr (e, p) ↦ rw p refl
          | inl (resp, p) ↦ elim (Result-cases (or_bad_json (c.loads resp))) [
            | inr (e, q) ↦ rw (p, q) refl
            | inl (rr, q) ↦ rw (p, q) (relay_answer_lem rr (record s { tunnel = asked.1 }) h)
          ]
        ]
