-- ===== src/Common/Exec.antt =====
-- Calls that change a state and may raise. What was done before a raise stays done, so the state
-- comes back beside the exception too.
use mathlib.Core.Path.{◌≡◌, refl, ap}
use mathlib.Core.Bool.{Bool, true, false}
use mathlib.Core.Logic.{◌≢◌, ◌⊎◌, inl, inr}

-- The reasons for which the program itself raises `ValueError`, and those of `fromhex` and `loads`.
pub data Reason : Type 0 where
  bad_session_id frame_too_large frame_too_small hmac_failed bad_msg_type : Reason
  bad_key_size bad_nonce_size : Reason
  bad_hex bad_json bad_number not_encodable : Reason
  unexpected_message stale_timestamp bad_signature bad_challenge rejected decryption_failed : Reason

-- Python's exceptions, by class. `other` is any other subclass of `Exception`.
pub data Exn : Type 0 where
  value_error : Reason → Exn
  connection_error timeout would_block os_error : Exn
  key_error type_error attribute_error invalid_tag runtime_error overflow_error other : Exn
  -- The bound on the rounds of a loop was too small. No run of the program ends so.
  out_of_fuel : Exn

pub data Result {ℓ} (A : Type ℓ) : Type ℓ where
  ok : A → Result A
  err : Exn → Result A

abbrev pub Exec {ℓ κ} : Type ℓ → Type κ → Type (ℓ ⊔ κ)
Exec S A = S → Result A × S

module _ {ℓ κ} {S : Type ℓ} {A : Type κ} where
  abbrev pub pure : A → Exec S A
  pure a s = (ok a, s)

  abbrev pub raise : Exn → Exec S A
  raise e s = (err e, s)

  abbrev pub lift : Result A → Exec S A
  lift r s = (r, s)

  -- `try` around a call: the exception as a value.
  abbrev pub caught : Exec S A → Exec S (Result A)
  caught m s = let (r, s') = m s in (ok r, s')

abbrev pub raise_if {ℓ} : {S : Type ℓ} → Bool → Exn → Exec S (Unit {0})
raise_if true e s = (err e, s)
raise_if false e s = (ok tt, s)

module _ {ℓ κ μ} {S : Type ℓ} {A : Type κ} {B : Type μ} where
  abbrev continue : Result A → (A → Exec S B) → Exec S B
  continue (ok a) f s = f a s
  continue (err e) f s = (err e, s)

  infixl 5 ◌>>=◌ ◌>>◌
  unfoldable pub ◌>>=◌ : Exec S A → (A → Exec S B) → Exec S B
  ◌>>=◌ m f s = let (r, s') = m s in continue r f s'

  abbrev pub ◌>>◌ : Exec S A → Exec S B → Exec S B
  m >> k = m >>= λ _. k

  -- One step of a block that returns, and one that raises.
  pub bind_ok :
      (m : Exec S A) (f : A → Exec S B) {s t : S} {a : A} → m s ≡ (ok a, t) → (m >>= f) s ≡ f a t
  unfolding ◌>>=◌
  bind_ok m f e = rw (e, ◌>>=◌)

  pub bind_err :
      (m : Exec S A) (f : A → Exec S B) {s t : S} {e : Exn}
      → m s ≡ (err e, t)
      → (m >>= f) s ≡ (err e, t)
  unfolding ◌>>=◌
  bind_err m f p = rw (p, ◌>>=◌)

module _ {ℓ κ μ} {S : Type ℓ} {A : Type κ} {B : Type μ} where
  pub bind_lift :
      (r : Result A) (f : A → Exec S B) {s : S} {a : A} → r ≡ ok a → (lift r >>= f) s ≡ f a s
  unfolding ◌>>=◌
  bind_lift r f p = rw (p, ◌>>=◌)

module _ {ℓ κ} {S : Type ℓ} {B : Type κ} where
  pub bind_pass :
      (c : Bool) (e : Exn) (f : Unit {0} → Exec S B) {s : S}
      → c ≡ false
      → (raise_if c e >>= f) s ≡ f tt s
  unfolding ◌>>=◌
  bind_pass c e f p = rw (p, ◌>>=◌)

  pub bind_stop :
      (c : Bool) (e : Exn) (f : Unit {0} → Exec S B) {s : S}
      → c ≡ true
      → (raise_if c e >>= f) s ≡ (err e, s)
  unfolding ◌>>=◌
  bind_stop c e f p = rw (p, ◌>>=◌)

-- What a block that returned has done.
module _ {ℓ κ μ} {S : Type ℓ} {A : Type κ} {B : Type μ} where
  continue_inv :
      (r : Result A) (f : A → Exec S B) {s t : S} {b : B}
      → continue r f s ≡ (ok b, t)
      → (a : A) × (r ≡ ok a) × (f a s ≡ (ok b, t))
  continue_inv (ok a) f h = (a, refl, h)
  continue_inv (err e) f h = absurd (cc (ap (λ (x : Result B × S). x.0) h))

  pub bind_inv :
      (m : Exec S A) (f : A → Exec S B) {s t : S} {b : B}
      → (m >>= f) s ≡ (ok b, t)
      → (a : A) × (m s ≡ (ok a, (m s).1)) × (f a (m s).1 ≡ (ok b, t))
  unfolding ◌>>=◌
  bind_inv m f {s} h = let (a, e, k) = continue_inv (m s).0 f h in (a, ap (λ r. (r, (m s).1)) e, k)

module _ {ℓ κ} {S : Type ℓ} {B : Type κ} where
  pub guard_inv :
      (c : Bool) (e : Exn) (f : Unit {0} → Exec S B) {s t : S} {b : B}
      → (raise_if c e >>= f) s ≡ (ok b, t)
      → (c ≡ false) × (f tt s ≡ (ok b, t))
  unfolding ◌>>=◌
  guard_inv true e f h = absurd (cc (ap (λ (x : Result B × S). x.0) h))
  guard_inv false e f h = (refl, h)

-- What every run of a block keeps, and that no run of it needs more rounds than it was given.
module _ {S : Type 0} {A : Type 0} where
  abbrev pub Keeps : (S → Type 0) → Exec S A → Type 0
  Keeps I m = (s : S) → I s → I (m s).1

  -- Every run from a state with I leaves one with J.
  abbrev pub Leads : (I J : S → Type 0) → Exec S A → Type 0
  Leads I J m = (s : S) → I s → J (m s).1

  abbrev pub Ends : Exec S A → Type 0
  Ends m = (s : S) → (m s).0 ≢ err out_of_fuel

module _ {S A B : Type 0} where
  leads_continue :
      (J K : S → Type 0) (r : Result A) (f : A → Exec S B) (s : S)
      → ((s : S) → J s → K s)
      → ((a : A) → Leads J K (f a))
      → J s
      → K (continue r f s).1
  leads_continue J K (ok a) f s w k j = k a s j
  leads_continue J K (err e) f s w k j = w s j

  pub Leads-bind :
      (I J K : S → Type 0) (m : Exec S A) (f : A → Exec S B)
      → Leads I J m
      → ((s : S) → J s → K s)
      → ((a : A) → Leads J K (f a))
      → Leads I K (m >>= f)
  unfolding ◌>>=◌
  Leads-bind I J K m f km w kf s i = leads_continue J K (m s).0 f (m s).1 w kf (km s i)

  pub Keeps-bind :
      (I : S → Type 0) (m : Exec S A) (f : A → Exec S B)
      → Keeps I m
      → ((a : A) → Keeps I (f a))
      → Keeps I (m >>= f)
  Keeps-bind I m f km kf = Leads-bind I I I m f km (λ s i. i) kf

  ends_continue :
      (r : Result A) (f : A → Exec S B) (s : S)
      → r ≢ err out_of_fuel
      → ((a : A) → r ≡ ok a → (f a s).0 ≢ err out_of_fuel)
      → (continue r f s).0 ≢ err out_of_fuel
  ends_continue (ok a) f s n k = k a refl
  ends_continue (err e) f s n k = λ h. n (cc h)

  -- One run of a block ends if its first step does and the rest does after it.
  pub ends_bind :
      (m : Exec S A) (f : A → Exec S B) (s : S)
      → (m s).0 ≢ err out_of_fuel
      → ((a : A) → (m s).0 ≡ ok a → (f a (m s).1).0 ≢ err out_of_fuel)
      → ((m >>= f) s).0 ≢ err out_of_fuel
  unfolding ◌>>=◌
  ends_bind m f s n k = ends_continue (m s).0 f (m s).1 n k

module _ {S B : Type 0} where
  -- The same, of a test.
  pub Keeps-if :
      (I : S → Type 0) (x y : Exec S B)
      → Keeps I x
      → Keeps I y
      → (b : Bool) → Keeps I (elim b [ true ↦ x | false ↦ y ])
  Keeps-if I x y kx ky true = kx
  Keeps-if I x y kx ky false = ky

  pub ends_if :
      (x y : Exec S B) (s : S) (b : Bool)
      → (b ≡ true → (x s).0 ≢ err out_of_fuel)
      → (b ≡ false → (y s).0 ≢ err out_of_fuel)
      → ((elim b as (λ _. Exec S B) [ true ↦ x | false ↦ y ]) s).0 ≢ err out_of_fuel
  ends_if x y s true kx ky = kx refl
  ends_if x y s false kx ky = ky refl

pub Result-cases {ℓ} :
    {A : Type ℓ} (r : Result A) → ((a : A) × (r ≡ ok a)) ⊎ ((e : Exn) × (r ≡ err e))
Result-cases (ok a) = inl (a, refl)
Result-cases (err e) = inr (e, refl)

module _ {S A B : Type 0} where
  -- The same, of a match on what a call gave.
  pub Leads-match :
      (I J : S → Type 0) (x : A → Exec S B) (y : Exn → Exec S B)
      → ((a : A) → Leads I J (x a))
      → ((e : Exn) → Leads I J (y e))
      → (r : Result A) → Leads I J (elim r [ ok a ↦ x a | err e ↦ y e ])
  Leads-match I J x y lx ly (ok a) = lx a
  Leads-match I J x y lx ly (err e) = ly e
