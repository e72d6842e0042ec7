-- ===== src/DemoRun/Report.antt =====
-- scripts/demo_run.py: what the report says of the requests.
use custom_vpn_implementatio.Common.{
  ℕ, suc, ◌≡◌, ◌≤◌, refl, Bool, true, false, List, [], ◌∷◌, Text, arith, length, ◌==◌, ◌&&◌,
}
use custom_vpn_implementatio.DemoRun.{
  Sample, TestResult, result_of, test_requests, passed_count, print_report, as_count, fetched,
  failed_with,
}

-- Whether a request was answered.
abbrev pub answered : Sample → Bool
answered (fetched status size) = true
answered (failed_with e) = false

abbrev pub all_answered : (Text → Sample) → List Text → Bool
all_answered attempt [] = true
all_answered attempt (url ∷ urls) = answered (attempt url) && all_answered attempt urls

as_count-le : (b : Bool) (n m : ℕ) → n ≤ m → as_count b n ≤ suc m
as_count-le true n m h = omega (arith, h)
as_count-le false n m h = omega (arith, h)

passed-le : (rs : List TestResult) → passed_count rs ≤ length rs
unfolding passed_count
passed-le [] = omega arith
passed-le (r ∷ rs) = as_count-le r.passes (passed_count rs) (length rs) (passed-le rs)

one_result :
    (a : Sample) (url : Text) (n m : ℕ) (rest : Bool)
    → n ≤ m
    → (n == m) ≡ rest
    → (as_count (result_of url a).passes n == suc m) ≡ (answered a && rest)
one_result (fetched status size) url n m rest h e = ground arith
one_result (failed_with x) url n m rest h e = ground arith

-- The report says that all passed exactly if every request was answered.
pub print_report_lem :
    (attempt : Text → Sample) (urls : List Text)
    → (print_report (test_requests attempt urls)).1 ≡ all_answered attempt urls
unfolding print_report test_requests passed_count
print_report_lem attempt [] = refl
print_report_lem attempt (url ∷ urls) =
    let rs = test_requests attempt urls in
    one_result (attempt url) url (passed_count rs) (length rs) (all_answered attempt urls)
      (passed-le rs) (print_report_lem attempt urls)
