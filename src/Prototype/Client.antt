-- ===== src/Prototype/Client.antt =====
-- client/client.py: `forward_to_server` and `handle_browser_request`.
use custom_vpn_implementatio.Common.{
  ℕ, zero, suc, Option, none, some, List, [], ◌∷◌, ◌++◌, Bytes, Text, codes,
}
use custom_vpn_implementatio.Common.Exec.{
  ◌>>=◌, ◌>>◌, pure, raise, caught, Exec, timeout, out_of_fuel, Result, ok, err,
}
use custom_vpn_implementatio.Common.Strings.{split, split_crlf}
use custom_vpn_implementatio.World.{World, Action, recv, sendall, close}
use custom_vpn_implementatio.Browser.{crlf, first_line, swallowed}
use custom_vpn_implementatio.Prototype.{Packages, encrypted}

-- The browser's socket, what the attempt to connect to the server gives, and the socket to it.
pub record Visit : Type 0 where
  pub browser : World
  pub connection : Result World
  pub server : Option World

abbrev pub client_buffer_size : ℕ
client_buffer_size = 8192

-- The receiving loop of `forward_to_server`: none where the function returns None. A read takes up
-- to `size` bytes.
unfoldable pub receive_response : (size rounds : ℕ) → Bytes → Action (Option Bytes)
receive_response size zero chunks = raise out_of_fuel
receive_response size (suc rounds) chunks = do
  r ← caught (recv size)
  elim r [
    | err timeout ↦ pure (some chunks)
    | err e ↦ pure none
    | ok data_in ↦ elim data_in [
      | [] ↦ pure (some chunks)
      | b ∷ bs ↦ receive_response size rounds (chunks ++ b ∷ bs)
    ]
  ]

-- `if not encrypted_response_chunks`
abbrev pub unless_empty : Option Bytes → Option Bytes
unless_empty (some (b ∷ bs)) = some (b ∷ bs)
unless_empty _ = none

-- Every exception makes the function return None. The bound on rounds is none.
abbrev pub or_no_response : Result (Option Bytes) → Result (Option Bytes)
or_no_response (ok response) = ok (unless_empty response)
or_no_response (err out_of_fuel) = err out_of_fuel
or_no_response (err e) = ok none

abbrev pub send_browser : Bytes → Exec Visit (Unit {0})
send_browser bytes v =
    let (r, w) = sendall bytes v.browser in (swallowed r, record v { browser = w })

abbrev pub bad_gateway : Bytes
bad_gateway =
    codes "HTTP/1.1 502 Bad Gateway"
    ++ (crlf
        ++ (codes "Content-Type: text/html"
            ++ (crlf
                ++ (crlf
                    ++ codes
                        "<html><body><h1>502 Bad Gateway</h1><p>Proxy server could not reach the upstream server.</p></body></html>"))))

abbrev pub undecryptable : Bytes
undecryptable =
    codes "HTTP/1.1 500 Internal Server Error"
    ++ (crlf
        ++ (codes "Content-Type: text/html"
            ++ (crlf
                ++ (crlf
                    ++ codes
                        "<html><body><h1>500 Internal Server Error</h1><p>Proxy failed to decrypt server response.</p></body></html>"))))

-- The second word of the first line.
abbrev pub second_word : List Text → Option Text
second_word (method ∷ target ∷ more) = some target
second_word _ = none

abbrev pub read_browser : Exec Visit Bytes
read_browser v = let (r, w) = recv client_buffer_size v.browser in (r, record v { browser = w })

abbrev pub close_browser_socket : Visit → Visit
close_browser_socket v = record v { browser = close v.browser }

-- What the browser is sent for what `forward_to_server` returned.
abbrev pub page_of_decrypted : Option Bytes → Bytes
page_of_decrypted none = undecryptable
page_of_decrypted (some decrypted_response) = decrypted_response

module _ (x : Packages) where
  abbrev pub page_of : Option Bytes → Bytes
  page_of none = bad_gateway
  page_of (some encrypted_response) = page_of_decrypted (x.decrypt encrypted_response)

  unfoldable pub request_target : Bytes → Option Text
  request_target browser_request =
      second_word (split 32 (first_line (split_crlf (x.decode_ignoring browser_request))))

module _ (x : Packages) (rounds : ℕ) where
  -- `forward_to_server` on its connected socket.
  unfoldable pub ask_server : Bytes → Action (Option Bytes)
  ask_server target_url_bytes = do
    encrypted_request ← encrypted x target_url_bytes
    sendall encrypted_request
    receive_response client_buffer_size rounds []

  abbrev pub forward_over : Result World → Bytes → Exec Visit (Option Bytes)
  forward_over (err e) target_url_bytes v = (ok none, v)
  forward_over (ok w) target_url_bytes v =
      let (r, w') = ask_server target_url_bytes w in
      (or_no_response r, record v { server = some (close w') })

  unfoldable pub forward_to_server : Bytes → Exec Visit (Option Bytes)
  forward_to_server target_url_bytes v = forward_over v.connection target_url_bytes v

  abbrev pub ask_for : Option Text → Exec Visit (Unit {0})
  ask_for none = pure tt
  ask_for (some target) = do
    encrypted_response ← forward_to_server (x.utf8 target)
    send_browser (page_of x encrypted_response)

  abbrev pub answer_browser : Bytes → Exec Visit (Unit {0})
  answer_browser [] = pure tt
  answer_browser (b ∷ bs) = ask_for (request_target x (b ∷ bs))

  unfoldable pub handle_browser_request : Visit → Result (Unit {0}) × Visit
  handle_browser_request v =
      let (r, v') = (read_browser >>= answer_browser) v in (swallowed r, close_browser_socket v')
