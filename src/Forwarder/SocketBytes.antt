-- ===== src/Forwarder/SocketBytes.antt =====
-- server/forwarder.py: the bytes that the calls of CONNECT and RELAY read from the sessions' sockets.
use custom_vpn_implementatio.Common.{
  suc, ◌≡◌, refl, sym, ◌∙◌, subst, Bool, some, [], ◌∷◌, ◌++◌, Bytes, Text, length, IsBytes,
  bytes_eq, arith, Bool-cases, inl, inr,
}
use custom_vpn_implementatio.Common.Exec.{◌>>=◌, Result, ok, Result-cases}
use custom_vpn_implementatio.Common.Dict
use custom_vpn_implementatio.Common.Dict.{get-put, get-pop}
use custom_vpn_implementatio.World.{World, sendall}
use custom_vpn_implementatio.Forwarder.{Forwarder, to_come, send_some, relay_on, relay_loop}
use custom_vpn_implementatio.Forwarder.RelayLoop.{relay_loop_lem}

-- What is to come on the sessions' sockets are bytes.
abbrev pub HasBytes : Forwarder → Type 0
HasBytes f = (t : Text) (w : World) → Dict.get f.sessions t ≡ some w → IsBytes (to_come w.incoming)

IsBytes-parts : (xs ys : Bytes) → IsBytes (xs ++ ys) → IsBytes xs × IsBytes ys
IsBytes-parts [] ys h = (tt, h)
IsBytes-parts (x ∷ xs) ys h = let (a, b) = IsBytes-parts xs ys h.1 in ((h.0, a), b)

some-injective : {A : Type 0} {a b : A} → some a ≡ some b → a ≡ b
some-injective e = cc e

pub put-HasBytes :
    (f : Forwarder) (target : Text) (w : World)
    → HasBytes f
    → IsBytes (to_come w.incoming)
    → HasBytes (record f { sessions = Dict.put f.sessions target w })
put-HasBytes f target w h b t v e = elim (Bool-cases (bytes_eq target t)) [
  | inl same ↦
      subst (λ (u : World). IsBytes (to_come u.incoming))
        (some-injective (rw same at (sym (get-put f.sessions target t w) ∙ e))) b
  | inr other ↦ h t v (rw other at (sym (get-put f.sessions target t w) ∙ e))
]

pub pop-HasBytes :
    (f : Forwarder) (target : Text)
    → HasBytes f
    → HasBytes (record f { sessions = Dict.pop f.sessions target })
pop-HasBytes f target h t v e = elim (Bool-cases (bytes_eq target t)) [
  | inl same ↦ absurd (cc (rw same at (sym (get-pop f.sessions target t) ∙ e)))
  | inr other ↦ h t v (rw other at (sym (get-pop f.sessions target t) ∙ e))
]

-- What a RELAY has read, and what is still to come.
abbrev pub ReadsBytes : Result (Bytes × Bool) × World → Type 0
ReadsBytes x =
    ((data_in : Bytes) (closed : Bool) → x.0 ≡ ok (data_in, closed) → IsBytes data_in)
    × IsBytes (to_come x.1.incoming)

loops :
    (w : World)
    → IsBytes (to_come w.incoming)
    → ReadsBytes (relay_loop 65536 (suc (length (to_come w.incoming))) [] w)
loops w b =
    let (data_in, closed, later, e, kept) =
      relay_loop_lem 65535 (suc (length (to_come w.incoming))) [] w.incoming w (omega arith) in
    let (read, left) = IsBytes-parts data_in (to_come later) (subst IsBytes (sym kept) b) in
    subst ReadsBytes (sym e) ((λ d z same. subst IsBytes (cc same) read), left)

sends : (data_out : Bytes) (w : World) → (send_some data_out w).1.incoming ≡ w.incoming
unfolding sendall
sends [] w = refl
sends (b ∷ bs) w = ground arith

pub relays_on :
    (data_out : Bytes) (w : World) → IsBytes (to_come w.incoming) → ReadsBytes (relay_on data_out w)
unfolding relay_on ◌>>=◌
relays_on data_out w b =
    let b' : IsBytes (to_come (send_some data_out w).1.incoming) =
      subst (λ es. IsBytes (to_come es)) (sym (sends data_out w)) b in
    elim (Result-cases (send_some data_out w).0) [
      | inl (u, e) ↦ rw e (loops (send_some data_out w).1 b')
      | inr (x, e) ↦ rw e ((λ d z same. absurd (cc same)), b')
    ]
