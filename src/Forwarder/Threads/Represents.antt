-- ===== src/Forwarder/Threads/Represents.antt =====
-- When what the threads share is a state of Forwarder.antt, and what a call does to both.
use mathlib.Core.Path.{fun_ext}
use custom_vpn_implementatio.Common.{
  ℕ, ◌<◌, ◌≡◌, ◌≢◌, refl, sym, ap, ◌∙◌, subst, Bool, true, false, Option, none, some, Text, ◌==◌,
  bytes_eq, bytes_eq_iff, if◌then◌else◌, arith, Bool-cases, inl, inr,
}
use custom_vpn_implementatio.Common.Dict
use custom_vpn_implementatio.Common.Dict.{get-put, get-pop}
use custom_vpn_implementatio.World.{World}
use custom_vpn_implementatio.Forwarder.{Forwarder}
use custom_vpn_implementatio.Forwarder.Threads.{Socket, Shared, change, put_world}

abbrev pub world_of : (ℕ → Socket) → Option ℕ → Option World
world_of sockets none = none
world_of sockets (some i) = some (sockets i).world

-- The sessions with what goes over their sockets, which are open and of one session each.
pub record Represents (f : Forwarder) (s : Shared) : Type 0 where
  pub dials : f.dialled ≡ s.dialled
  pub worlds : (t : Text) → Dict.get f.sessions t ≡ world_of s.sockets (Dict.get s.sessions t)
  pub live :
      (t : Text) (i : ℕ)
      → Dict.get s.sessions t ≡ some i
      → (i < s.dialled) × ((s.sockets i).shut ≡ false)
  pub apart :
      (t u : Text) (i : ℕ) → Dict.get s.sessions t ≡ some i → Dict.get s.sessions u ≡ some i → t ≡ u

shared_eq :
    (s : Shared) {f g : ℕ → Socket}
    → ((j : ℕ) → f j ≡ g j)
    → (let t : Shared = record s { sockets = f } in t) ≡ record s { sockets = g }
shared_eq s e = ap (λ (f : ℕ → Socket). record s { sockets = f }) (fun_ext e)

pub change-change :
    (f g : Socket → Socket) (i : ℕ) (s : Shared)
    → change f i (change g i s) ≡ change (λ k. f (g k)) i s
change-change f g i s =
    shared_eq s (λ j. elim (Bool-cases (i == j)) [ inl e ↦ rw e | inr e ↦ rw e ])

pub change_here :
    (f : Socket → Socket) (i : ℕ) (s : Shared) → (change f i s).sockets i ≡ f (s.sockets i)
change_here f i s = ground arith

change_other :
    (f : Socket → Socket) (i j : ℕ) (s : Shared) → i ≢ j → (change f i s).sockets j ≡ s.sockets j
change_other f i j s n = ground arith

module _ (f : Forwarder) (s : Shared) (target : Text) (i : ℕ) (h : Represents f s)
    (here : Dict.get s.sessions target ≡ some i) where
  -- The sockets of the other sessions are other ones.
  others : (t : Text) → bytes_eq target t ≡ false → (j : ℕ) → Dict.get s.sessions t ≡ some j → i ≢ j
  others t n j e same =
      let twice : target ≡ t = h.apart target t j (here ∙ ap some same) e in
      absurd (cc (n, (bytes_eq_iff target t).1 twice))

  elsewhere_at :
      (g : Socket → Socket) (t : Text) (o : Option ℕ)
      → Dict.get s.sessions t ≡ o
      → bytes_eq target t ≡ false
      → world_of s.sockets o ≡ world_of (change g i s).sockets o
  elsewhere_at g t none e n = refl
  elsewhere_at g t (some j) e n =
      ap (λ k. some k.world) (sym (change_other g i j s (others t n j e)))

  elsewhere :
      (g : Socket → Socket) (t : Text)
      → bytes_eq target t ≡ false
      → Dict.get f.sessions t ≡ world_of (change g i s).sockets (Dict.get s.sessions t)
  elsewhere g t n = h.worlds t ∙ elsewhere_at g t (Dict.get s.sessions t) refl n

  put_at :
      (w : World) (t : Text) (b : Bool)
      → bytes_eq target t ≡ b
      → (if b then some w else Dict.get f.sessions t)
        ≡ world_of (put_world w i s).sockets (Dict.get s.sessions t)
  put_at w t true e =
      ap (λ k. some k.world) (sym (change_here (λ k. record k { world = w }) i s))
      ∙ ap (world_of (put_world w i s).sockets)
          (sym (subst (λ u. Dict.get s.sessions u ≡ some i) ((bytes_eq_iff target t).0 e) here))
  put_at w t false e = elsewhere (λ k. record k { world = w }) t e

  live_at :
      (w : World) (t : Text) (j : ℕ)
      → Dict.get s.sessions t ≡ some j
      → (j < s.dialled) × (((put_world w i s).sockets j).shut ≡ false)
  live_at w t j e = ground (arith, h.live t j e)

  -- What a RELAY leaves of a session that goes on.
  pub Represents-put :
      (w : World)
      → Represents (record f { sessions = Dict.put f.sessions target w }) (put_world w i s)
  Represents-put w = record {
    dials = h.dials;
    worlds = λ t. get-put f.sessions target t w ∙ put_at w t (bytes_eq target t) refl;
    live = live_at w;
    apart = h.apart;
  }

  pop_found :
      (t : Text) (j : ℕ)
      → Dict.get (Dict.pop s.sessions target) t ≡ some j
      → (Dict.get s.sessions t ≡ some j) × (bytes_eq target t ≡ false)
  pop_found t j e = ground (arith, get-pop s.sessions target t)

  pop_at :
      (g : Socket → Socket) (t : Text) (b : Bool)
      → bytes_eq target t ≡ b
      → (if b then none else Dict.get f.sessions t)
        ≡ world_of (change g i s).sockets (if b then none else Dict.get s.sessions t)
  pop_at g t true e = refl
  pop_at g t false e = elsewhere g t e

  -- What is left when a session ends, whatever was done to its socket.
  pub Represents-pop :
      (g : Socket → Socket)
      → Represents
          (record f { sessions = Dict.pop f.sessions target })
          (record (change g i s) { sessions = Dict.pop s.sessions target })
  Represents-pop g = record {
    dials = h.dials;
    worlds = λ t.
        get-pop f.sessions target t
        ∙ pop_at g t (bytes_eq target t) refl
        ∙ ap (world_of (change g i s).sockets) (sym (get-pop s.sessions target t));
    live = λ t j e.
        let (e', n) = pop_found t j e in
        let (there, open_) = h.live t j e' in
        (there, ap (λ (k : Socket). k.shut) (change_other g i j s (others t n j e')) ∙ open_);
    apart = λ t u j e k. h.apart t u j (pop_found t j e).0 (pop_found u j k).0;
  }
