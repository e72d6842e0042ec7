-- ===== src/DemoRun.antt =====
-- scripts/demo_run.py: the keys, the two processes, the sample requests and the cleaning up. What the
-- processes and `urllib` do is given; Startup has the two programs.
pub mod Report
use custom_vpn_implementatio.Common.{
  ℕ, zero, suc, ◌+◌, Bool, true, false, Option, none, some, List, [], ◌∷◌, Text, codes, length,
  ◌==◌, ◌&&◌,
}
use custom_vpn_implementatio.Common.Exec.{Exec, ok}
use custom_vpn_implementatio.KeyFiles.Files.{FilePath, Disk, Node}

-- Which of the two processes are running.
pub record Processes : Type 0 where
  pub server : Bool
  pub client : Bool

-- How a part of the script is left: it returns, or an exception goes up.
pub data Leave {ℓ} (A : Type ℓ) : Type ℓ where
  returned : A → Leave A
  exited keyboard_interrupt failed : Leave A

-- A process that is started: it is still there when it is looked at, it has ended, or Ctrl-C comes
-- while the script sleeps. A terminal sends Ctrl-C to both processes too: `left` says which of them
-- run on.
pub data Start : Type 0 where
  stays ends : Start
  interrupted : (left : Processes) → Start

-- How a request of `urllib` ends: the status and the length of the body, or the exception's text.
pub data Sample : Type 0 where
  fetched : ℕ → ℕ → Sample
  failed_with : Text → Sample

-- A line of `results`: whether it is a PASS.
pub record TestResult : Type 0 where
  pub passes : Bool
  pub url : Text
  pub size : ℕ

abbrev pub test_urls : List Text
test_urls =
    codes "http://httpbin.org/get" ∷ codes "http://example.com" ∷ codes "http://httpbin.org/ip" ∷ []

abbrev pub result_of : Text → Sample → TestResult
result_of url (fetched status size) = record { passes = true; url = url; size = size }
result_of url (failed_with e) = record { passes = false; url = url; size = 0 }

-- `test_requests`
unfoldable pub test_requests : (Text → Sample) → List Text → List TestResult
test_requests attempt [] = []
test_requests attempt (url ∷ urls) = result_of url (attempt url) ∷ test_requests attempt urls

abbrev pub as_count : Bool → ℕ → ℕ
as_count true n = suc n
as_count false n = n

unfoldable pub passed_count : List TestResult → ℕ
passed_count [] = 0
passed_count (r ∷ rs) = as_count r.passes (passed_count rs)

-- `print_report`: the number of passes, and whether it says that all passed.
unfoldable pub print_report : List TestResult → ℕ × Bool
print_report results = (passed_count results, passed_count results == length results)

-- `ensure_keys`: generate_keys.py is run if there is no private key of the server.
unfoldable pub ensure_keys :
    (generate : Exec Disk (Unit {0})) → (server_private : FilePath) → Exec Disk (Unit {0})
ensure_keys generate server_private d =
    elim (d.node server_private) as (λ _. Exec Disk (Unit {0})) [
      | none ↦ generate
      | some n ↦ λ d'. (ok tt, d')
    ]
      d

-- `start_server`
unfoldable pub start_server : Start → Processes → Leave (Unit {0}) × Processes
start_server stays ps = (returned tt, record ps { server = true })
start_server ends ps = (exited, ps)
start_server (interrupted left) ps =
    (keyboard_interrupt, record { server = left.server; client = ps.client && left.client })

-- `start_client`
unfoldable pub start_client : Start → Processes → Leave (Unit {0}) × Processes
start_client stays ps = (returned tt, record ps { client = true })
start_client ends ps = (exited, ps)
start_client (interrupted left) ps =
    (keyboard_interrupt, record { server = ps.server && left.server; client = left.client })

-- The `finally` of `main`: `client_proc` is None if `start_client` did not return. A process that does
-- not end within five seconds after `terminate` lets `wait` raise.
abbrev pub stop_server :
    (server_ends : Bool) → {A : Type 0} → Leave A → Processes → Leave A × Processes
stop_server true l ps = (l, record ps { server = false })
stop_server false l ps = (failed, ps)

abbrev pub stop :
    (has_client client_ends server_ends : Bool)
    → {A : Type 0} → Leave A
    → Processes
    → Leave A × Processes
stop true true server_ends l ps = stop_server server_ends l (record ps { client = false })
stop true false server_ends l ps = (failed, ps)
stop false client_ends server_ends l ps = stop_server server_ends l ps

-- The body of the `try`, with its `except KeyboardInterrupt`: what is printed, if the requests were made,
-- and whether `client_proc` is set.
abbrev pub report_of : Option (List TestResult) → Leave (Option (ℕ × Bool))
report_of none = returned none
report_of (some results) = returned (some (print_report results))

-- Requests that Ctrl-C interrupts give none.
abbrev pub after_client :
    Option (List TestResult) → Leave (Unit {0}) → Leave (Option (ℕ × Bool)) × Bool
after_client results (returned u) = (report_of results, true)
after_client results exited = (exited, false)
after_client results keyboard_interrupt = (returned none, false)
after_client results failed = (failed, false)

abbrev pub requested : (is_interrupted : Bool) → (Text → Sample) → Option (List TestResult)
requested true attempt = none
requested false attempt = some (test_requests attempt test_urls)

module _ (client : Start) (is_interrupted : Bool) (attempt : Text → Sample)
    (client_ends server_ends : Bool) where
  abbrev pub with_client : Processes → Leave (Option (ℕ × Bool)) × Processes
  with_client ps =
      let (l, ps') = start_client client ps in
      let (l', has_client) = after_client (requested is_interrupted attempt) l in
      stop has_client client_ends server_ends l' ps'

  abbrev pub after_server : Leave (Unit {0}) → Processes → Leave (Option (ℕ × Bool)) × Processes
  after_server (returned u) ps = with_client ps
  after_server exited ps = (exited, ps)
  after_server keyboard_interrupt ps = (keyboard_interrupt, ps)
  after_server failed ps = (failed, ps)

  -- `main` after `ensure_keys`: `start_server` stands before the `try`.
  unfoldable pub demo_main : (server : Start) → Processes → Leave (Option (ℕ × Bool)) × Processes
  demo_main server ps = let (l, ps') = start_server server ps in after_server l ps'
