-- ===== src/Forwarder.antt =====
-- server/forwarder.py: requests of the tunnel, as HTTP requests or as CONNECT tunnels. One
-- thread's calls are modelled: a socket is reachable only through `_connect_sessions`, and is held
-- there with what goes over it.
mod Parts
pub mod RelayLoop
pub mod Relay
pub mod SocketBytes
pub mod Headers
pub mod Connects
pub mod Threads
mod Tests
pub use Parts.{user_agent, set_last, or_user_agent, join_chunks, as_text, body_or_none, send_some}
unfoldable pub use Parts.{
  occurs, with_scheme, without, outgoing_headers, relay_loop, to_come, relay_on,
}
use custom_vpn_implementatio.Common.{
  ℕ, suc, ◌+◌, Bool, true, false, Option, none, some, List, [], ◌++◌, Bytes, Text, codes, bytes_eq,
  if◌then◌else◌,
}
use custom_vpn_implementatio.Common.Exec.{
  ◌>>=◌, ◌>>◌, pure, raise, lift, Exec, Exn, value_error, bad_json, type_error, Result, ok, err,
}
use custom_vpn_implementatio.Common.Strings.{rsplit_colon}
use custom_vpn_implementatio.Common.Dict
use custom_vpn_implementatio.Common.Dict.{Dict}
use custom_vpn_implementatio.World.{World}
use custom_vpn_implementatio.Json.{
  Json, bool, num, str, arr, obj, Members, end, member, int, Codec, get_or, truthy, bytes_fromhex,
}
use custom_vpn_implementatio.Json.Hex.{hex}

-- How a call of `requests.request`, with the reading of its body, ends: the status, the headers
-- and the chunks of a response, or an exception with its text.
pub data Reply : Type 0 where
  replied : ℕ → Members → List Bytes → Reply
  timeout_error connection_failed request_failed unexpected : Text → Reply

-- What comes with the platform: the package `requests` (method, URL, headers and body), the name
-- lookup and TCP connection of the i-th CONNECT to a host and a port (443 if none is written), with
-- `int(port_str)`, the texts of exceptions and of JSON
-- values, and Unicode's upper case and UTF-8.
pub record Platform : Type 0 where
  pub request : Text → Text → Members → Option Bytes → Reply
  pub connect : ℕ → Text → Option Text → Result World
  pub describe : Exn → Text
  pub text_of : Json → Text
  pub upper : Text → Text
  pub utf8 : Text → Bytes

-- `_connect_sessions`, and the number of calls of `connect`.
pub record Forwarder : Type 0 where
  pub sessions : Dict World
  pub dialled : ℕ

module _ (c : Codec) (os : Platform) where
  unfoldable pub build_response : ℕ → Members → Bytes → Bytes
  build_response status_code headers body = c.dumps (
      obj (
        member (codes "status_code") (num (int status_code))
          (member (codes "headers") (obj headers) (member (codes "body") (str (hex body)) end))))

  -- `digits` is the text of the status code.
  unfoldable pub error_response : ℕ → (digits message : Text) → Bytes
  error_response status_code digits message =
      build_response status_code (member (codes "Content-Type") (str (codes "text/html")) end) (
        os.utf8 (
          codes "<html><body><h1>"
          ++ digits
          ++ codes "</h1><p>"
          ++ message
          ++ codes "</p></body></html>"))

  abbrev pub respond : Text → Reply → Bytes
  respond url (replied status headers chunks) = build_response status headers (join_chunks chunks)
  respond url (timeout_error e) =
      error_response 504 (codes "504") (codes "Timeout connecting to " ++ url)
  respond url (connection_failed e) =
      error_response 502 (codes "502") (codes "Connection error: " ++ e)
  respond url (request_failed e) = error_response 502 (codes "502") (codes "Request error: " ++ e)
  respond url (unexpected e) = error_response 500 (codes "500") (codes "Server error: " ++ e)

  -- `_handle_http`. What the tests of its first lines raise leaves the function.
  unfoldable pub handle_http : (method : Text) → Json → Json → Bytes → Exec Forwarder Bytes
  handle_http method url headers body = do
    url ← lift (as_text url)
    let url = with_scheme url
    headers ← lift (outgoing_headers headers)
    pure (respond url (os.request method url headers (body_or_none body)))

  abbrev pub port_of : Text → Option (Text × Text) → Text × Option Text
  port_of target (some (host, port)) = (host, some port)
  port_of target none = (target, none)

  abbrev pub opened : Text → Result World → Forwarder → Bytes × Forwarder
  opened target (ok w) f =
      (build_response 200 end [], record f { sessions = Dict.put f.sessions target w })
  opened target (err e) f =
      (error_response 502 (codes "502") (codes "CONNECT failed: " ++ os.describe e), f)

  -- `_handle_connect`
  unfoldable pub handle_connect : Text → Exec Forwarder Bytes
  handle_connect target f =
      let (host, port) = port_of target (rsplit_colon target) in
      let (r, f') =
        opened target (os.connect f.dialled host port) (record f { dialled = suc f.dialled }) in
      (ok r, f')

  abbrev pub relay_response : Bytes → Bool → Bytes
  relay_response response_data closed = c.dumps (
      obj (
        member (codes "status_code") (num (int 200)) (
          member (codes "headers") (obj end) (
            member (codes "body") (str (hex response_data))
              (member (codes "closed") (bool closed) end)))))

  -- The session goes when the target has closed or the socket has failed.
  abbrev pub relayed : Text → Result (Bytes × Bool) → World → Forwarder → Bytes × Forwarder
  relayed target (ok (response_data, true)) w f =
      (relay_response response_data true, record f { sessions = Dict.pop f.sessions target })
  relayed target (ok (response_data, false)) w f =
      (relay_response response_data false, record f { sessions = Dict.put f.sessions target w })
  relayed target (err e) w f = (
    error_response 502 (codes "502") (codes "Relay error: " ++ os.describe e),
    record f { sessions = Dict.pop f.sessions target },
  )

  abbrev pub relay_to : Option World → Text → Bytes → Exec Forwarder Bytes
  relay_to none target data_out f =
      (ok (error_response 502 (codes "502") (codes "No CONNECT session for " ++ target)), f)
  relay_to (some w) target data_out f =
      let (r, w') = relay_on data_out w in
      let (answer, f') = relayed target r w' f in (ok answer, f')

  -- `_handle_relay`
  unfoldable pub handle_relay : Text → Bytes → Exec Forwarder Bytes
  handle_relay target data_out f = relay_to (Dict.get f.sessions target) target data_out f

  -- A target that is no text fails inside the `try` of `_handle_connect`; in `_handle_relay` it is
  -- no key of the sessions, or cannot be a key.
  abbrev pub connect_json : Json → Exec Forwarder Bytes
  connect_json (str target) = handle_connect target
  connect_json url =
      pure (error_response 502 (codes "502") (codes "CONNECT failed: " ++ os.describe type_error))

  abbrev pub relay_json : Json → Bytes → Exec Forwarder Bytes
  relay_json (str target) body = handle_relay target body
  relay_json (arr xs) body = raise type_error
  relay_json (obj m) body = raise type_error
  relay_json url body =
      pure (error_response 502 (codes "502") (codes "No CONNECT session for " ++ os.text_of url))

  abbrev pub by_method :
      (is_connect is_relay : Bool) (method : Text) → Json → Json → Bytes → Exec Forwarder Bytes
  by_method true is_relay method url headers body = connect_json url
  by_method false true method url headers body = relay_json url body
  by_method false false method url headers body = handle_http method url headers body

  abbrev pub dispatch : (method : Text) → Json → Json → Bytes → Exec Forwarder Bytes
  dispatch method url headers body =
      by_method (bytes_eq method (codes "CONNECT")) (bytes_eq method (codes "RELAY")) method url
        headers body

  abbrev pub hex_body : Json → Result Bytes
  hex_body j = if truthy j then bytes_fromhex j else ok []

  abbrev pub parsed_request : Json → Exec Forwarder Bytes
  parsed_request req = do
    method ← lift (get_or req (codes "method") (str (codes "GET")))
    method ← lift (as_text method)
    let method = os.upper method
    url ← lift (get_or req (codes "url") (str []))
    headers ← lift (get_or req (codes "headers") (obj end))
    body_hex ← lift (get_or req (codes "body") (str []))
    body ← lift (hex_body body_hex)
    dispatch method url headers body

  abbrev pub or_bad_request : Option Json → Exec Forwarder Bytes
  or_bad_request none f = (
    ok (
        error_response 400 (codes "400")
          (codes "Bad request format: " ++ os.describe (value_error bad_json))),
    f,
  )
  or_bad_request (some req) f = parsed_request req f

  unfoldable pub forward_request : Bytes → Exec Forwarder Bytes
  forward_request request_data = or_bad_request (c.loads request_data)
