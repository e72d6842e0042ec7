-- ===== src/Server/Config.antt =====
-- server/server_main.py, `load_config`: the user's file over the defaults.
pub mod Options
pub mod Overrides
mod Tests
use custom_vpn_implementatio.Common.{
  ℕ, ◌≡◌, refl, ap, ◌∙◌, true, false, Bool, Option, none, some, [], Text, codes, bytes_eq,
  bytes_eq_iff, bytes_eq_refl, if◌then◌else◌, arith, Option-cases, Bool-cases, inl, inr,
}
use custom_vpn_implementatio.Json.{
  Json, num, str, int, Members, end, member, find, assign, find-assign,
}

abbrev pub default_config : Members
default_config = member (codes "listen_ip") (str (codes "0.0.0.0")) (
    member (codes "listen_port") (num (int 4433)) (
      member (codes "server_private_key") (str (codes "keys/server_private.pem")) (
        member (codes "client_public_key") (str (codes "keys/client_public.pem")) (
          member (codes "whitelist_file") (str (codes "config/whitelist.txt")) (
            member (codes "rate_limit_requests_per_second") (num (int 10)) (
              member (codes "rate_limit_burst") (num (int 20)) (
                member (codes "max_connections_per_ip") (num (int 5)) (
                  member (codes "max_total_connections") (num (int 50)) (
                    member (codes "idle_timeout_seconds") (num (int 300))
                      (member (codes "log_level") (str (codes "INFO")) end))))))))))

-- `cfg.update(user_cfg)`, for an object.
unfoldable pub update : Members → Members → Members
update cfg end = cfg
update cfg (member k v m) = update (assign k v cfg) m

-- The object that the file holds, or `none` if no path is given or no file is there. A file that
-- holds something else than an object is not modelled.
unfoldable pub load_config : Option Members → Members
load_config none = default_config
load_config (some user_cfg) = update default_config user_cfg

-- The value for a key: the user's, or else that of `cfg`.
abbrev pub or_else : Option Json → Option Json → Option Json
or_else none d = d
or_else (some v) d = some v

-- No key stands twice in the user's object.
abbrev pub IsDict : Members → Type 0
IsDict end = Unit
IsDict (member k v m) = (find k m ≡ none) × IsDict m

find-update :
    (k : Text) (cfg user : Members)
    → IsDict user
    → find k (update cfg user) ≡ or_else (find k user) (find k cfg)
unfolding find update
find-update k cfg end d = refl
find-update k cfg (member j v m) d =
    ground
      (arith, find-update k (assign j v cfg) m d.1, find-assign k j v cfg, bytes_eq_iff j k, d.0)

-- With a file that holds an object in which no key stands twice, every key has the value of the
-- file, and a key that is not in the file has its default; without a file all are the defaults.
pub load_config_lem :
    (k : Text) (user : Members)
    → IsDict user
    → (find k (load_config (some user)) ≡ or_else (find k user) (find k default_config))
      × (load_config none ≡ default_config)
unfolding load_config
load_config_lem k user d = (find-update k default_config user d, refl)
