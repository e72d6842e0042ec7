-- ===== src/Prototype/Server.antt =====
-- server/server.py: `handle_client`.
use custom_vpn_implementatio.Common.{
  ℕ, zero, suc, Bool, true, false, Option, none, some, [], ◌∷◌, ◌++◌, Bytes, Text, codes,
}
use custom_vpn_implementatio.Common.Exec.{◌>>=◌, pure, raise, caught, out_of_fuel, Result, ok, err}
use custom_vpn_implementatio.World.{World, Action, recv, sendall, close}
use custom_vpn_implementatio.Forwarder.{join_chunks}
use custom_vpn_implementatio.Browser.{swallowed}
use custom_vpn_implementatio.Prototype.{
  Packages, Fetched, content, request_exception, other_exception, encrypted,
}

abbrev pub server_buffer_size : ℕ
server_buffer_size = 4096

module _ (x : Packages) where
  -- The content of the page, or the text of the failure.
  abbrev pub response_content : Fetched → Bytes
  response_content (content chunks) = join_chunks chunks
  response_content (request_exception e) = x.utf8 (codes "Error fetching URL: " ++ e)
  response_content (other_exception e) = x.utf8 (codes "Unexpected server error: " ++ e)

  -- What is requested, if the data decrypts to UTF-8.
  abbrev pub decoded : Option Bytes → Option Text
  decoded none = none
  decoded (some decrypted_request) = x.decode decrypted_request

  -- A round from the request on: whether the loop goes on.
  abbrev pub respond_to : Option Text → Action Bool
  respond_to none = pure false
  respond_to (some target_url) = do
    encrypted_response ← encrypted x (response_content (x.get target_url))
    sent ← caught (sendall encrypted_response)
    pure (elim sent [ ok u ↦ true | err e ↦ false ])

  abbrev pub handle_data : Bytes → Action Bool
  handle_data [] = pure false
  handle_data (b ∷ bs) = respond_to (decoded (x.decrypt (b ∷ bs)))

  unfoldable pub handle_round : Action Bool
  handle_round = recv server_buffer_size >>= handle_data

  unfoldable pub handle_rounds : ℕ → Action (Unit {0})
  handle_rounds zero = raise out_of_fuel
  handle_rounds (suc rounds) = do
    again ← handle_round
    elim again [ true ↦ handle_rounds rounds | false ↦ pure tt ]

  unfoldable pub handle_prototype_client : ℕ → World → Result (Unit {0}) × World
  handle_prototype_client rounds w = let (r, w') = handle_rounds rounds w in (swallowed r, close w')
