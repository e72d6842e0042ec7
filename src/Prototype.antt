-- ===== src/Prototype.antt =====
-- The earlier prototype, client/client.py and server/server.py: a browser's request becomes one
-- encrypted target on a connection of its own, and the server answers with the page's content.
-- The packages `cryptography.fernet` and `requests`, UTF-8 and the texts of exceptions are
-- parameters.
pub mod Client
pub mod Server
pub mod Receive
pub mod Exchange
pub mod Probe
pub mod Listen
mod Tests
use custom_vpn_implementatio.Common.{ℕ, ◌<◌, ◌≡◌, length, Option, some, List, Bytes, Text}
use custom_vpn_implementatio.Common.Exec.{◌>>=◌, pure}
use custom_vpn_implementatio.World.{Action, urandom, time}

-- How `requests.get`, with `raise_for_status` and the reading of the body, ends.
pub data Fetched : Type 0 where
  content : List Bytes → Fetched
  request_exception other_exception : Text → Fetched

-- `encrypt` of `Fernet` draws 16 bytes and reads the clock; `decrypt` gives `none` where it raises.
pub record Packages : Type 0 where
  pub encrypt : (iv : Bytes) (now : ℕ) (plaintext : Bytes) → Bytes
  pub decrypt : (token : Bytes) → Option Bytes
  pub get : (url : Text) → Fetched
  pub decode_ignoring : Bytes → Text
  pub decode : Bytes → Option Text
  pub utf8 : Text → Bytes

-- The documented behaviour of the packages.
pub record PackageLaws (x : Packages) : Type 0 where
  pub decrypt-encrypt :
      (iv : Bytes) (now : ℕ) (plaintext : Bytes)
      → x.decrypt (x.encrypt iv now plaintext) ≡ some plaintext
  pub encrypt_filled :
      (iv : Bytes) (now : ℕ) (plaintext : Bytes) → 0 < length (x.encrypt iv now plaintext)
  pub decode-utf8 : (text : Text) → x.decode (x.utf8 text) ≡ some text

-- `cipher_suite.encrypt(data)`
unfoldable pub encrypted : Packages → Bytes → Action Bytes
encrypted x plaintext = do iv ← urandom 16; now ← time; pure (x.encrypt iv now plaintext)
