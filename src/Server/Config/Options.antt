-- ===== src/Server/Config/Options.antt =====
-- server/server_main.py, `main`: the command line over the configuration.
use custom_vpn_implementatio.Common.{Option, none, some, List, [], ◌∷◌, Text, codes, if◌then◌else◌}
use custom_vpn_implementatio.Json.{Json, Number, num, str, Members, assign, truthy}
use custom_vpn_implementatio.Server.Config.{load_config}

-- What `parse_args` gives for the settings.
pub record Arguments : Type 0 where
  pub listen_ip : Option Text
  pub listen_port : Option Number
  pub server_key : Option Text
  pub client_pubkey : Option Text
  pub whitelist : Option Text

-- `if args.…`: neither None, nor empty, nor 0.
abbrev pub if_given : Json → Option Json
if_given v = if truthy v then some v else none

abbrev pub given_text : Option Text → Option Json
given_text none = none
given_text (some t) = if_given (str t)

abbrev pub given_number : Option Number → Option Json
given_number none = none
given_number (some n) = if_given (num n)

abbrev pub settings : Arguments → List (Text × Option Json)
settings args =
    (codes "listen_ip", given_text args.listen_ip)
    ∷ (codes "listen_port", given_number args.listen_port)
    ∷ (codes "server_private_key", given_text args.server_key)
    ∷ (codes "client_public_key", given_text args.client_pubkey)
    ∷ (codes "whitelist_file", given_text args.whitelist)
    ∷ []

abbrev pub assign_given : Text → Option Json → Members → Members
assign_given k none cfg = cfg
assign_given k (some v) cfg = assign k v cfg

unfoldable pub override : List (Text × Option Json) → Members → Members
override [] cfg = cfg
override ((k, o) ∷ rest) cfg = override rest (assign_given k o cfg)

-- The configuration that `main` passes to `start_server`.
unfoldable pub configured : Arguments → Option Members → Members
configured args user = override (settings args) (load_config user)
