-- ===== src/Server/Config/Overrides.antt =====
-- server/server_main.py, `main`: which setting the server is started with.
use custom_vpn_implementatio.Common.{
  ℕ, zero, suc, ◌≡◌, refl, ap, subst, ◌∙◌, true, Option, none, some, List, [], ◌∷◌, Text, codes,
  bytes_eq, bytes_eq_iff, Bool-cases, inl, inr, if◌then◌else◌, arith,
}
use custom_vpn_implementatio.Json.{
  Json, Number, int, minus_int, float, minus_float, nan, infinity, minus_infinity, num, str,
  Members, find, find-assign, truthy,
}
use custom_vpn_implementatio.Server.Config.Options.{
  Arguments, given_text, given_number, settings, assign_given, override, configured,
}
use custom_vpn_implementatio.Server.Config.{
  default_config, load_config, or_else, IsDict, load_config_lem,
}

-- What the command line says of a key.
abbrev pub on_command_line : Text → List (Text × Option Json) → Option Json
on_command_line k [] = none
on_command_line k ((j, o) ∷ rest) =
    or_else (on_command_line k rest) (if bytes_eq j k then o else none)

find-assign_given :
    (k j : Text) (o : Option Json) (cfg : Members)
    → find k (assign_given j o cfg) ≡ or_else (if bytes_eq j k then o else none) (find k cfg)
find-assign_given k j none cfg = ground arith
find-assign_given k j (some v) cfg = ground (arith, find-assign k j v cfg)

or_else_assoc : (a b d : Option Json) → or_else a (or_else b d) ≡ or_else (or_else a b) d
or_else_assoc none b d = refl
or_else_assoc (some v) b d = refl

find-override :
    (k : Text) (l : List (Text × Option Json)) (cfg : Members)
    → find k (override l cfg) ≡ or_else (on_command_line k l) (find k cfg)
unfolding override
find-override k [] cfg = refl
find-override k ((j, o) ∷ rest) cfg =
    find-override k rest (assign_given j o cfg)
    ∙ ap (or_else (on_command_line k rest)) (find-assign_given k j o cfg)
    ∙ or_else_assoc (on_command_line k rest) (if bytes_eq j k then o else none) (find k cfg)

override_rest :
    (k : Text) (args : Arguments) (user : Members)
    → IsDict user
    → find k (configured args (some user))
      ≡ or_else (on_command_line k (settings args)) (or_else (find k user) (find k default_config))
unfolding configured
override_rest k args user d =
    find-override k (settings args) (load_config (some user))
    ∙ ap (or_else (on_command_line k (settings args))) (load_config_lem k user d).0

-- A text on the command line that is not empty, and a number that is not 0, go before what the
-- file or the defaults say.
abbrev pub text_or : Option Text → Option Json → Option Json
text_or none rest = rest
text_or (some []) rest = rest
text_or (some (c ∷ cs)) rest = some (str (c ∷ cs))

abbrev pub number_or : Option Number → Option Json → Option Json
number_or none rest = rest
number_or (some (int zero)) rest = rest
number_or (some (int (suc n))) rest = some (num (int (suc n)))
number_or (some (minus_int zero)) rest = rest
number_or (some (minus_int (suc n))) rest = some (num (minus_int (suc n)))
number_or (some (float zero)) rest = rest
number_or (some (float (suc n))) rest = some (num (float (suc n)))
number_or (some (minus_float zero)) rest = rest
number_or (some (minus_float (suc n))) rest = some (num (minus_float (suc n)))
number_or (some n) rest = some (num n)

given_text-text_or :
    (o : Option Text) (rest : Option Json) → or_else (given_text o) rest ≡ text_or o rest
unfolding truthy
given_text-text_or none rest = refl
given_text-text_or (some []) rest = refl
given_text-text_or (some (c ∷ cs)) rest = refl

given_number-number_or :
    (o : Option Number) (rest : Option Json) → or_else (given_number o) rest ≡ number_or o rest
unfolding truthy
given_number-number_or none rest = refl
given_number-number_or (some (int zero)) rest = refl
given_number-number_or (some (int (suc n))) rest = ground arith
given_number-number_or (some (minus_int zero)) rest = refl
given_number-number_or (some (minus_int (suc n))) rest = ground arith
given_number-number_or (some (float zero)) rest = refl
given_number-number_or (some (float (suc n))) rest = ground arith
given_number-number_or (some (minus_float zero)) rest = refl
given_number-number_or (some (minus_float (suc n))) rest = ground arith
given_number-number_or (some nan) rest = refl
given_number-number_or (some infinity) rest = refl
given_number-number_or (some minus_infinity) rest = refl

or_else-none : (o : Option Json) → or_else o none ≡ o
or_else-none none = refl
or_else-none (some v) = refl

-- The options that stand before the one that sets the key say nothing of it.
abbrev before : ℕ → Option Json → Option Json
before zero o = o
before (suc n) o = or_else (before n o) none

before-same : (n : ℕ) (o : Option Json) → before n o ≡ o
before-same zero o = refl
before-same (suc n) o = or_else-none (before n o) ∙ before-same n o

set_by :
    (n : ℕ) (o rest : Option Json) {final : Option Json}
    → or_else o rest ≡ final
    → or_else (before n o) rest ≡ final
set_by n o rest e = ap (λ v. or_else v rest) (before-same n o) ∙ e

-- The value of a key, where `rest` is that of the file or the defaults.
abbrev pub by_option : Text → Arguments → Option Json → Option Json
by_option k args rest =
    if bytes_eq (codes "listen_ip") k
    then text_or args.listen_ip rest
    else if bytes_eq (codes "listen_port") k
    then number_or args.listen_port rest
    else if bytes_eq (codes "server_private_key") k
    then text_or args.server_key rest
    else if bytes_eq (codes "client_public_key") k
    then text_or args.client_pubkey rest
    else if bytes_eq (codes "whitelist_file") k
    then text_or args.whitelist rest
    else rest

module _ (args : Arguments) (rest : Option Json) where
  abbrev Agrees : Text → Type 0
  Agrees k = or_else (on_command_line k (settings args)) rest ≡ by_option k args rest

  at_equal_key : (j k : Text) → Agrees j → bytes_eq j k ≡ true → Agrees k
  at_equal_key j k at_j e = subst Agrees ((bytes_eq_iff j k).0 e) at_j

  settings-by_option : (k : Text) → Agrees k
  unfolding bytes_eq
  settings-by_option k = elim (Bool-cases (bytes_eq (codes "listen_ip") k)) [
    | inl e ↦
        at_equal_key (codes "listen_ip") k
          (set_by 0 (given_text args.listen_ip) rest (given_text-text_or args.listen_ip rest)) e
    | inr a ↦ elim (Bool-cases (bytes_eq (codes "listen_port") k)) [
      | inl e ↦
          at_equal_key (codes "listen_port") k
            (set_by 1 (given_number args.listen_port) rest
              (given_number-number_or args.listen_port rest))
            e
      | inr b ↦ elim (Bool-cases (bytes_eq (codes "server_private_key") k)) [
        | inl e ↦
            at_equal_key (codes "server_private_key") k
              (set_by 2 (given_text args.server_key) rest (given_text-text_or args.server_key rest))
              e
        | inr d ↦ elim (Bool-cases (bytes_eq (codes "client_public_key") k)) [
          | inl e ↦
              at_equal_key (codes "client_public_key") k
                (set_by 3 (given_text args.client_pubkey) rest
                  (given_text-text_or args.client_pubkey rest))
                e
          | inr f ↦ elim (Bool-cases (bytes_eq (codes "whitelist_file") k)) [
            | inl e ↦
                at_equal_key (codes "whitelist_file") k
                  (set_by 4 (given_text args.whitelist) rest
                    (given_text-text_or args.whitelist rest))
                  e
            | inr g ↦ rw (a, b, d, f, g) refl
          ]
        ]
      ]
    ]
  ]

-- With a file that holds an object in which no key stands twice, the server is started with:
-- under listen_ip, listen_port, server_private_key, client_public_key and whitelist_file, what the
-- options --listen-ip, --listen-port, --server-key, --client-pubkey and --whitelist give, if that is
-- neither empty nor 0, or else the value of the file, or else the literal default; under every
-- other key, the value of the file or else the default.
pub configured_lem :
    (args : Arguments) (user : Members)
    → IsDict user
    → let cfg = configured args (some user) in
      (find (codes "listen_ip") cfg
        ≡ text_or args.listen_ip
            (or_else (find (codes "listen_ip") user) (some (str (codes "0.0.0.0")))))
      × (find (codes "listen_port") cfg
          ≡ number_or args.listen_port
              (or_else (find (codes "listen_port") user) (some (num (int 4433)))))
      × (find (codes "server_private_key") cfg
          ≡ text_or args.server_key (
              or_else
                (find (codes "server_private_key") user)
                (some (str (codes "keys/server_private.pem")))))
      × (find (codes "client_public_key") cfg
          ≡ text_or args.client_pubkey (
              or_else
                (find (codes "client_public_key") user)
                (some (str (codes "keys/client_public.pem")))))
      × (find (codes "whitelist_file") cfg
          ≡ text_or args.whitelist (
              or_else
                (find (codes "whitelist_file") user)
                (some (str (codes "config/whitelist.txt")))))
      × ((k : Text) → find k cfg ≡ by_option k args (or_else (find k user) (find k default_config)))
unfolding bytes_eq find
configured_lem args user d =
    let at : (k : Text)
        → find k (configured args (some user))
          ≡ by_option k args (or_else (find k user) (find k default_config)) =
      λ k. override_rest k args user d ∙ settings-by_option args _ k in
    (
      at (codes "listen_ip"),
      at (codes "listen_port"),
      at (codes "server_private_key"),
      at (codes "client_public_key"),
      at (codes "whitelist_file"),
      at,
    )
