-- ===== src/Browser.antt =====
-- client/client_proxy.py, `handle_browser` and its helpers: one connection of a browser to the local
-- proxy. The tunnel is a parameter: its state, and `send_request`.
mod Pages
mod Parts
pub mod Lines
pub mod Request
pub mod Response
pub mod PageHead
pub mod Handler
pub mod EndToEnd
pub mod Reads
pub mod Connect
pub mod Ends
mod Tests
pub use Parts.{crlf, split_colon, add_header, first_line, but_first, method_target, head_and_body}
unfoldable pub use Parts.{add_headers, parse_headers, request_line, header_body}
pub use Pages.{
  Texts, with_body, raw_response, with_port, connect_target, as_members, is_200, connect_request,
  relay_request,
}
unfoldable pub use Pages.{is_hop_by_hop, header_lines, error_page}
use custom_vpn_implementatio.Common.{
  ℕ, zero, suc, ◌+◌, Bool, true, false, not, Option, none, some, [], ◌∷◌, ◌++◌, Bytes, Text, codes,
  length, take, leb, bytes_eq,
}
use custom_vpn_implementatio.Common.Exec.{
  ◌>>=◌, ◌>>◌, pure, raise, lift, caught, Exec, would_block, connection_error, timeout, os_error,
  out_of_fuel, Result, ok, err,
}
use custom_vpn_implementatio.Common.Strings.{rsplit_colon}
use custom_vpn_implementatio.World.{World, Action, recv, sendall, close}
use custom_vpn_implementatio.Json.{Json, null, num, int, Codec, get_or, truthy, bytes_fromhex}
use custom_vpn_implementatio.Proxy.{encode_request, decode_response, or_bad_json}

-- The browser's socket, with how many bytes each `sendall` of a socket that does not block can
-- hand over at once, and the tunnel.
pub record Proxy (T : Type 0) : Type 0 where
  pub browser : World
  pub room : ℕ → ℕ
  pub tunnel : T

abbrev pub buffer_size : ℕ
buffer_size = 65536

-- Nothing is there yet, where a timeout would expire.
abbrev pub as_would_block : Result Bytes → Result Bytes
as_would_block (err timeout) = err would_block
as_would_block r = r

-- `try … except Exception: pass`. The bound on rounds is no exception.
abbrev pub swallowed : Result (Unit {0}) → Result (Unit {0})
swallowed (err out_of_fuel) = err out_of_fuel
swallowed r = ok tt

module _ {T : Type 0} where
  abbrev pub on_browser : {A : Type 0} → Action A → Exec (Proxy T) A
  on_browser m s = let (r, w) = m s.browser in (r, record s { browser = w })

  abbrev pub on_tunnel : {A : Type 0} → Exec T A → Exec (Proxy T) A
  on_tunnel m s = let (r, t) = m s.tunnel in (r, record s { tunnel = t })

  -- `recv` of a socket that does not block.
  unfoldable pub recv_now : ℕ → Exec (Proxy T) Bytes
  recv_now n s = let (r, w) = recv n s.browser in (as_would_block r, record s { browser = w })

  abbrev pub sendall_if : (fits : Bool) → Bytes → Exec (Proxy T) (Unit {0})
  sendall_if true bytes s = on_browser (sendall bytes) s
  sendall_if false bytes s =
      (on_browser (sendall (take (s.room s.browser.sends) bytes)) >> raise would_block) s

  -- `sendall` of a socket that does not block: what does not fit at once is not sent.
  unfoldable pub sendall_now : Bytes → Exec (Proxy T) (Unit {0})
  sendall_now bytes s = sendall_if (leb (length bytes) (s.room s.browser.sends)) bytes s

  abbrev pub ignored : Exec (Proxy T) (Unit {0}) → Exec (Proxy T) (Unit {0})
  ignored m s = let (r, s') = m s in (swallowed r, s')

  abbrev pub close_browser : Proxy T → Proxy T
  close_browser s = record s { browser = close s.browser }

-- `except socket.error`: `OSError` with its subclasses.
abbrev pub unless_os_error : Result (Unit {0}) → Result (Unit {0})
unless_os_error (err connection_error) = ok tt
unless_os_error (err timeout) = ok tt
unless_os_error (err would_block) = ok tt
unless_os_error (err os_error) = ok tt
unless_os_error r = r

module _ {T : Type 0} where
  abbrev pub send_body : Json → Bool → Exec (Proxy T) (Unit {0})
  send_body body true = do bytes ← lift (bytes_fromhex body); sendall_now bytes
  send_body body false = pure tt

  abbrev pub unless_closed : Json → Exec (Proxy T) Bool
  unless_closed rr = do closed ← lift (get_or rr (codes "closed") null); pure (not (truthy closed))

  -- The answer to a RELAY, for the browser: whether the loop goes on.
  unfoldable pub relay_answer : Json → Exec (Proxy T) Bool
  relay_answer rr = do
    body ← lift (get_or rr (codes "body") null)
    send_body body (truthy body)
    unless_closed rr

-- `except BlockingIOError: pass` goes on, `except Exception` breaks.
abbrev pub goes_on : Result Bool → Bool
goes_on (ok again) = again
goes_on (err would_block) = true
goes_on (err e) = false

module _ (second : ℕ) (c : Codec) (x : Texts) {T : Type 0}
    (send_request : Bytes → Exec T Bytes) where
  -- The `try` of `_handle_http_request`.
  unfoldable pub fetch : Bytes → Exec (Proxy T) (Json × Json × Bytes)
  fetch request_bytes = do
    response_bytes ← on_tunnel (send_request request_bytes)
    lift (decode_response c response_bytes)

  unfoldable pub answer : Result (Json × Json × Bytes) → Exec (Proxy T) (Unit {0})
  answer (err e) = ignored (on_browser (sendall (error_page x e)))
  answer (ok (status_code, resp_headers, resp_body)) = do
    headers ← lift (as_members resp_headers)
    raw_bytes ← lift (raw_response x status_code headers resp_body)
    sent ← caught (on_browser (sendall raw_bytes))
    lift (unless_os_error sent)

  unfoldable pub handle_http_request :
      (method url headers_str : Text) → Bytes → Exec (Proxy T) (Unit {0})
  handle_http_request method url headers_str body = do
    r ← caught (fetch (encode_request c method url (parse_headers headers_str) body))
    answer r

  -- The `try` of the relay loop.
  unfoldable pub relay_chunk : Text → Bytes → Exec (Proxy T) Bool
  relay_chunk target [] = pure false
  relay_chunk target (b ∷ bs) = do
    relay_resp ← on_tunnel (send_request (relay_request c target (b ∷ bs)))
    rr ← lift (or_bad_json (c.loads relay_resp))
    relay_answer rr

  unfoldable pub relay_try : Text → Exec (Proxy T) Bool
  relay_try target = do data_in ← recv_now buffer_size; relay_chunk target data_in

  unfoldable pub relay_rounds : ℕ → Text → Exec (Proxy T) (Unit {0})
  relay_rounds zero target = raise out_of_fuel
  relay_rounds (suc rounds) target = do
    r ← caught (relay_try target)
    elim (goes_on r) [ true ↦ relay_rounds rounds target | false ↦ pure tt ]

  abbrev pub relay_if : ℕ → Text → Bool → Exec (Proxy T) (Unit {0})
  relay_if rounds target true = relay_rounds rounds target
  relay_if rounds target false = pure tt

  -- The `try` of `_handle_connect`.
  unfoldable pub connect_try : ℕ → Text → Exec (Proxy T) (Unit {0})
  connect_try rounds target = do
    resp_bytes ← on_tunnel (send_request (connect_request c target))
    resp ← lift (or_bad_json (c.loads resp_bytes))
    status ← lift (get_or resp (codes "status_code") (num (int 0)))
    relay_if rounds target (is_200 second status)

  unfoldable pub handle_connect : ℕ → Text → Exec (Proxy T) (Unit {0})
  handle_connect rounds target = do
    on_browser (sendall (codes "HTTP/1.1 200 Connection Established" ++ (crlf ++ crlf)))
    ignored (connect_try rounds target)

  -- For CONNECT, or for another method.
  abbrev pub by_method : ℕ → (method target request_text : Text) → Bool → Exec (Proxy T) (Unit {0})
  by_method rounds method target request_text true = do
    address ← lift (connect_target x target (rsplit_colon target))
    handle_connect rounds address
  by_method rounds method target request_text false =
      let (headers_str, body) = header_body request_text in
      handle_http_request method target headers_str (x.utf8 body)

  abbrev pub by_line : ℕ → Text → Option (Text × Text) → Exec (Proxy T) (Unit {0})
  by_line rounds request_text none = pure tt
  by_line rounds request_text (some (method, target)) =
      by_method rounds (x.upper method) target request_text
        (bytes_eq (x.upper method) (codes "CONNECT"))

  unfoldable pub handle_text : ℕ → Text → Exec (Proxy T) (Unit {0})
  handle_text rounds request_text = by_line rounds request_text (request_line request_text)

  unfoldable pub handle_raw : ℕ → Bytes → Exec (Proxy T) (Unit {0})
  handle_raw rounds [] = pure tt
  handle_raw rounds (b ∷ bs) = handle_text rounds (x.decode (b ∷ bs))

  unfoldable pub serve_browser : ℕ → Exec (Proxy T) (Unit {0})
  serve_browser rounds = do raw ← on_browser (recv buffer_size); handle_raw rounds raw

  -- `except Exception` logs, and `finally` closes the browser's socket.
  unfoldable pub handle_browser : ℕ → Proxy T → Result (Unit {0}) × Proxy T
  handle_browser rounds s = let (r, s') = serve_browser rounds s in (swallowed r, close_browser s')
