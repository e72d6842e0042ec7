-- ===== src/Server/Config/Tests.antt =====
-- A configuration file with one key.
use custom_vpn_implementatio.Common.{◌≡◌, refl, none, some, [], Text, codes}
use custom_vpn_implementatio.Json.{str, num, int, Members, end, member, find}
use custom_vpn_implementatio.Server.Config.{default_config, or_else}
use custom_vpn_implementatio.Server.Config.Options.{Arguments, configured}
use custom_vpn_implementatio.Server.Config.Overrides.{text_or, number_or, by_option, configured_lem}

abbrev user : Members
user = member (codes "listen_port") (num (int 9)) end

abbrev arguments : Arguments
arguments = record {
  listen_ip = some (codes "::");
  listen_port = none;
  server_key = none;
  client_pubkey = some [];
  whitelist = none;
}

configured_lem_example :
    let cfg = configured arguments (some user) in
    (find (codes "listen_ip") cfg
      ≡ text_or arguments.listen_ip
          (or_else (find (codes "listen_ip") user) (some (str (codes "0.0.0.0")))))
    × (find (codes "listen_port") cfg
        ≡ number_or arguments.listen_port
            (or_else (find (codes "listen_port") user) (some (num (int 4433)))))
    × (find (codes "server_private_key") cfg
        ≡ text_or arguments.server_key (
            or_else
              (find (codes "server_private_key") user)
              (some (str (codes "keys/server_private.pem")))))
    × (find (codes "client_public_key") cfg
        ≡ text_or arguments.client_pubkey (
            or_else
              (find (codes "client_public_key") user)
              (some (str (codes "keys/client_public.pem")))))
    × (find (codes "whitelist_file") cfg
        ≡ text_or arguments.whitelist (
            or_else
              (find (codes "whitelist_file") user)
              (some (str (codes "config/whitelist.txt")))))
    × ((k : Text)
        → find k cfg ≡ by_option k arguments (or_else (find k user) (find k default_config)))
unfolding find
configured_lem_example = configured_lem arguments user (refl, tt)
