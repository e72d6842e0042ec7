-- ===== src/Forwarder/Threads/Reading.antt =====
-- server/forwarder.py, `_handle_relay`: the reading of a thread that no other one interrupts, beside
-- the loop of Forwarder.antt.
use custom_vpn_implementatio.Common.{
  ℕ, zero, suc, ◌≡◌, refl, sym, ap, ◌∙◌, subst, Bool, true, false, [], ◌∷◌, ◌++◌, Bytes, Text,
  length, ltb, if◌then◌else◌,
}
use custom_vpn_implementatio.Common.Exec.{◌>>=◌, pure, Result, ok, err}
use custom_vpn_implementatio.World.{World, Action, recv}
use custom_vpn_implementatio.Json.{Codec}
use custom_vpn_implementatio.Forwarder.{Platform, relay_loop, send_some, relay_response}
use custom_vpn_implementatio.Forwarder.Threads.{
  Socket, Shared, Task, reading, closing, answered, send_on, on_socket, put_world, recv_task, go,
  goes_alone,
}
use custom_vpn_implementatio.Forwarder.Threads.Represents.{change-change, change_here}

ok-injective : {A : Type 0} {a b : A} → ok a ≡ ok b → a ≡ b
ok-injective e = cc e

module _ (c : Codec) (os : Platform) where
  abbrev pub Goes : Task → Shared → Task × Shared → Type 0
  Goes t s x = (n : ℕ) × (goes_alone c os n t s ≡ x)

  pub done : (t : Task) (s : Shared) → Goes t s (t, s)
  unfolding goes_alone
  done t s = (0, refl)

  pub first :
      (t t' : Task) (s s' : Shared) (x : Task × Shared)
      → go c os t s ≡ (t', s')
      → Goes t' s' x
      → Goes t s x
  unfolding goes_alone
  first t t' s s' x e (n, h) = (suc n, ap (λ (y : Task × Shared). goes_alone c os n y.0 y.1) e ∙ h)

  -- How the reading ends.
  abbrev pub ending : Text → ℕ → Bytes × Bool → Task
  ending target i (response_data, true) = closing target i response_data
  ending target i (response_data, false) = answered (relay_response c os response_data false)

  module _ (s : Shared) (target : Text) (i : ℕ) (open_ : (s.sockets i).shut ≡ false) where
    abbrev at : World → Shared
    at w = put_world w i s

    put_twice : (w v : World) → put_world v i (at w) ≡ at v
    put_twice w v = change-change (λ k. record k { world = v }) (λ k. record k { world = w }) i s

    here : (w : World) → (at w).sockets i ≡ record (s.sockets i) { world = w }
    here w = change_here (λ k. record k { world = w }) i s

    abbrev read_with : Bytes → Socket → Shared → Task × Shared
    read_with buf k s1 =
        let (r, w) = on_socket k.shut (recv 65536) k.world in
        (recv_task c os target i buf r, put_world w i s1)

    go-reading :
        (buf : Bytes) (w : World)
        → go c os (reading target i buf) (at w)
          ≡ (recv_task c os target i buf (recv 65536 w).0, at (recv 65536 w).1)
    unfolding go
    go-reading buf w =
        ap (λ k. read_with buf k (at w)) (here w)
        ∙ ap (λ b. read_with buf (record { peer = (s.sockets i).peer; world = w; shut = b }) (at w))
            open_
        ∙ ap (λ t. (recv_task c os target i buf (recv 65536 w).0, t)) (put_twice w (recv 65536 w).1)

    -- A run of the loop that returns, as stretches of the thread.
    abbrev Follows : Task → World → Result (Bytes × Bool) × World → Type 0
    Follows t w x =
        (end_ : Bytes × Bool) → x.0 ≡ ok end_ → Goes t (at w) (ending target i end_, at x.1)

    returns : (end0 : Bytes × Bool) (w : World) → Follows (ending target i end0) w (ok end0, w)
    unfolding goes_alone
    returns end0 w end_ e = (0, ap (λ x. (ending target i x, at w)) (ok-injective e))

    after_chunk :
        (rounds : ℕ) (buf : Bytes) (w : World)
        → Follows (reading target i buf) w (relay_loop 65536 rounds buf w)
        → (short : Bool)
        → Follows
            (if short then answered (relay_response c os buf false) else reading target i buf)
            w
            ((elim short as (λ _. Action (Bytes × Bool)) [
              | true ↦ pure (buf, false)
              | false ↦ relay_loop 65536 rounds buf
            ])
              w)
    after_chunk rounds buf w rest true = returns (buf, false) w
    after_chunk rounds buf w rest false = rest

    after_read :
        (rounds : ℕ) (buf : Bytes)
        → ((buf : Bytes) (w : World)
            → Follows (reading target i buf) w (relay_loop 65536 rounds buf w))
        → (r : Result Bytes) (w : World)
        → Follows (recv_task c os target i buf r) w (
            (elim r as (λ _. Action (Bytes × Bool)) [
              | err e ↦ pure (buf, false)
              | ok data_in ↦ elim data_in as (λ _. Action (Bytes × Bool)) [
                | [] ↦ pure (buf, true)
                | b ∷ bs ↦ elim (ltb (length (b ∷ bs)) 65536) as (λ _. Action (Bytes × Bool)) [
                  | true ↦ pure (buf ++ b ∷ bs, false)
                  | false ↦ relay_loop 65536 rounds (buf ++ b ∷ bs)
                ]
              ]
            ])
              w)
    after_read rounds buf ih (err e) w = returns (buf, false) w
    after_read rounds buf ih (ok []) w = returns (buf, true) w
    after_read rounds buf ih (ok (b ∷ bs)) w =
        after_chunk rounds (buf ++ b ∷ bs) w (ih (buf ++ b ∷ bs) w) (ltb (length (b ∷ bs)) 65536)

    pub follows :
        (rounds : ℕ) (buf : Bytes) (w : World)
        → Follows (reading target i buf) w (relay_loop 65536 rounds buf w)
    unfolding relay_loop ◌>>=◌
    follows zero buf w = λ end_ e. absurd (cc e)
    follows (suc rounds) buf w = λ end_ e.
        first (reading target i buf) _ (at w) _ _ (go-reading buf w)
          (after_read rounds buf (follows rounds) (recv 65536 w).0 (recv 65536 w).1 end_ e)

    pub send_on-live :
        (data_out : Bytes) (w : World)
        → send_on (s.sockets i).shut data_out w ≡ send_some data_out w
    send_on-live [] w = refl
    send_on-live (b ∷ bs) w = rw open_ refl

  pub after :
      (n : ℕ) (t t' : Task) (s s' : Shared) (x : Task × Shared)
      → goes_alone c os n t s ≡ (t', s')
      → Goes t' s' x
      → Goes t s x
  unfolding goes_alone
  after zero t t' s s' x e h = subst (λ (y : Task × Shared). Goes y.0 y.1 x) (sym e) h
  after (suc n) t t' s s' x e h =
      let (t1, s1) = go c os t s in first t t1 s s1 x refl (after n t1 t' s1 s' x e h)
