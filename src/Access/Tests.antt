-- ===== src/Access/Tests.antt =====
-- Whitelists.
use custom_vpn_implementatio.Common.{◌≡◌, ◌↔◌, ◌⊎◌, true, Option, none, some, [], ◌∷◌, Text, codes}
use custom_vpn_implementatio.Access.{
  Address, net4, V6, AccessController, in_network, is_allowed, ip_address,
}
use custom_vpn_implementatio.Access.Policy.{Any, is_allowed_iff}

abbrev no_v6 : V6
no_v6 = record { address = λ t. none; network = λ t. none }

abbrev local_only : AccessController
local_only = record { networks = net4 167772161 8 ∷ []; path = some (codes "w.txt") }

abbrev open_to_all : AccessController
open_to_all = record { networks = []; path = some (codes "w.txt") }

is_allowed_iff_example : (is_allowed no_v6 (codes "10.1.2.3") local_only ≡ true) ↔ (
    (local_only.networks ≡ [])
    ⊎ ((addr : Address) × (ip_address no_v6 (codes "10.1.2.3") ≡ some addr)
        × Any (λ n. in_network addr n ≡ true) local_only.networks))
is_allowed_iff_example = is_allowed_iff no_v6 (codes "10.1.2.3") local_only

abbrev comments : Text → Option Text
comments file = some (codes "# nobody")
