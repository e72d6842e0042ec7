-- ===== src/Forwarder/Parts.antt =====
-- server/forwarder.py: what `_handle_http` and `_handle_relay` do to headers, bodies and a socket.
use custom_vpn_implementatio.Common.{
  ℕ, zero, suc, Bool, true, false, not, Option, none, some, List, [], ◌∷◌, ◌++◌, Bytes, Text, codes,
  length, ltb, ◌||◌, ◌&&◌, bytes_eq, if◌then◌else◌,
}
use custom_vpn_implementatio.Common.Exec.{
  ◌>>=◌, ◌>>◌, pure, raise, caught, attribute_error, type_error, out_of_fuel, Result, ok, err,
}
use custom_vpn_implementatio.Common.Strings.{is_prefix}
use custom_vpn_implementatio.World.{Action, Event, chunk, timed_out, reset, recv, sendall}
use custom_vpn_implementatio.Json.{Json, str, obj, Members, end, member, find}

abbrev pub user_agent : Text
user_agent =
    codes
      "Mozilla/5.0 (Windows NT 10.0; Win64; x64) AppleWebKit/537.36 (KHTML, like Gecko) Chrome/120.0.0.0 Safari/537.36"

-- `xs in ys`, for texts.
unfoldable pub occurs : Text → Text → Bool
occurs xs [] = is_prefix xs []
occurs xs (y ∷ ys) = is_prefix xs (y ∷ ys) || occurs xs ys

unfoldable pub with_scheme : Text → Text
with_scheme url =
    if not (is_prefix (codes "http://") url) && not (is_prefix (codes "https://") url)
    then codes "http://" ++ url
    else url

-- `headers[k] = v` for a key that is not there, and `headers.pop(k, None)`.
abbrev pub set_last : Text → Json → Members → Members
set_last k v end = member k v end
set_last k v (member j u m) = member j u (set_last k v m)

unfoldable pub without : Text → Members → Members
without k end = end
without k (member j v m) = if bytes_eq j k then m else member j v (without k m)

abbrev pub or_user_agent : Option Json → Members → Members
or_user_agent none m = set_last (codes "User-Agent") (str user_agent) m
or_user_agent (some v) m = m

-- The headers that go out.
unfoldable pub outgoing_headers : Json → Result Members
outgoing_headers (obj m) = ok (
    without (codes "Proxy-Authorization")
      (without (codes "Proxy-Connection") (or_user_agent (find (codes "User-Agent") m) m)))
outgoing_headers (str s) =
    err (if occurs (codes "User-Agent") s then attribute_error else type_error)
outgoing_headers _ = err type_error

abbrev pub join_chunks : List Bytes → Bytes
join_chunks [] = []
join_chunks (b ∷ bs) = b ++ join_chunks bs

-- A text, where a method of `str` is called.
abbrev pub as_text : Json → Result Text
as_text (str s) = ok s
as_text _ = err attribute_error

abbrev pub body_or_none : Bytes → Option Bytes
body_or_none [] = none
body_or_none (b ∷ bs) = some (b ∷ bs)

-- The reading loop of `_handle_relay`: what was read, and whether the target has closed.
-- A read takes up to `size` bytes.
unfoldable pub relay_loop : (size rounds : ℕ) → Bytes → Action (Bytes × Bool)
relay_loop size zero response_data = raise out_of_fuel
relay_loop size (suc rounds) response_data = do
  r ← caught (recv size)
  elim r [
    | err e ↦ pure (response_data, false)
    | ok data_in ↦ elim data_in [
      | [] ↦ pure (response_data, true)
      | b ∷ bs ↦ elim (ltb (length (b ∷ bs)) size) [
        | true ↦ pure (response_data ++ b ∷ bs, false)
        | false ↦ relay_loop size rounds (response_data ++ b ∷ bs)
      ]
    ]
  ]

-- The bytes that are still to come on a socket, those after a failure too.
unfoldable pub to_come : List Event → Bytes
to_come [] = []
to_come (chunk b bs ∷ es) = (b ∷ bs) ++ to_come es
to_come (timed_out ∷ es) = to_come es
to_come (reset ∷ es) = to_come es

abbrev pub send_some : Bytes → Action (Unit {0})
send_some [] = pure tt
send_some (b ∷ bs) = sendall (b ∷ bs)

-- The part of `_handle_relay` that uses the socket. Each round reads a byte or is the last.
unfoldable pub relay_on : Bytes → Action (Bytes × Bool)
relay_on data_out = do
  send_some data_out
  (λ w. relay_loop 65536 (suc (length (to_come w.incoming))) [] w)
