-- ===== src/Server/Threads/Tests.antt =====
-- One client that is accepted and admitted.
use custom_vpn_implementatio.Common.{
  ℕ, some, bytes_eq, ◌≤◌, ◌≡◌, refl, [], ◌∷◌, Text, codes, length,
}
use custom_vpn_implementatio.Common.Dict
use custom_vpn_implementatio.Rate.{new_limiter, connections_for, try_add_connection}
use custom_vpn_implementatio.Rate.Caps.{count}
use custom_vpn_implementatio.Server.Threads.{
  arrived, serving, System, Step, accepts, is_admitted, none_more, one_more, served, started,
}
use custom_vpn_implementatio.Server.Threads.Started.{
  limit, rate_limiter_of, served_within_configured,
}
use custom_vpn_implementatio.Server.Config.{default_config}
use custom_vpn_implementatio.Json.{find}

abbrev home : Text
home = codes "10.0.0.1"

abbrev first : System
first = started (new_limiter 10 20 5 50 300)

abbrev second_state : System
second_state = record { limiter = first.limiter; threads = (home, arrived) ∷ [] }

abbrev third : System
third = record {
  limiter = (try_add_connection 0 home first.limiter).1;
  threads = (home, serving) ∷ [];
}

admission : Step 1 second_state third
unfolding try_add_connection connections_for Dict.get
admission = is_admitted home 0 ([], [], refl, refl) refl refl

served_within_configured_example :
    (max_total : ℕ) × (max_per_ip : ℕ) × (limit default_config (codes "max_total_connections") 50
      ≡ some max_total)
    × (limit default_config (codes "max_connections_per_ip") 5 ≡ some max_per_ip)
    × (third.limiter.total ≡ length (served third.threads))
    × (length (served third.threads) ≤ max_total)
    × ((ip : Text)
        → (connections_for ip third.limiter ≡ count ip (served third.threads))
          × (count ip (served third.threads) ≤ max_per_ip))
unfolding rate_limiter_of limit find bytes_eq
served_within_configured_example =
    served_within_configured 1 default_config (new_limiter 10 20 5 50 300) third refl
      (one_more (accepts home refl refl) (one_more admission none_more))
