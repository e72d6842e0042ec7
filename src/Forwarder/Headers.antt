-- ===== src/Forwarder/Headers.antt =====
-- `_handle_http`: the headers of the request that leaves the server.
use custom_vpn_implementatio.Common.{
  ◌≡◌, refl, ap, subst, ◌∙◌, true, false, Bool, Option, none, some, Text, codes, bytes_eq,
  bytes_eq_iff, if◌then◌else◌, Bool-cases, inl, inr, arith, ◌||◌,
}
use custom_vpn_implementatio.Common.Exec.{ok}
use custom_vpn_implementatio.Json.{
  Json, obj, str, Members, end, member, find, Distinct, DistinctMembers,
}
use custom_vpn_implementatio.Forwarder.{
  user_agent, set_last, without, or_user_agent, outgoing_headers,
}

find-without :
    (k j : Text) (m : Members)
    → DistinctMembers m
    → find k (without j m) ≡ (if bytes_eq j k then none else find k m)
unfolding find without
find-without k j end h = ground arith
find-without k j (member i v m) (fresh, hv, hm) =
    ground
      (arith, find-without k j m hm, bytes_eq_iff i k, bytes_eq_iff i j, bytes_eq_iff j k, fresh)

if_same : (b : Bool) → if◌then◌else◌ {A = Option Json} b none none ≡ none
if_same true = refl
if_same false = refl

Distinct-without : (j : Text) (m : Members) → DistinctMembers m → DistinctMembers (without j m)
unfolding find without
Distinct-without j end h = tt
Distinct-without j (member i v m) (fresh, hv, hm) = elim (Bool-cases (bytes_eq i j)) [
  | inl same ↦ rw same hm
  | inr other ↦ rw other (
    find-without i j m hm
        ∙ ap (if◌then◌else◌ {A = Option Json} (bytes_eq j i) none) fresh
        ∙ if_same (bytes_eq j i),
    hv,
    Distinct-without j m hm,
  )
]

find-set_last :
    (k j : Text) (v : Json) (m : Members)
    → find j m ≡ none
    → find k (set_last j v m) ≡ (if bytes_eq j k then some v else find k m)
unfolding find
find-set_last k j v end h = ground arith
find-set_last k j v (member i u m) h =
    ground (arith, find-set_last k j v m, bytes_eq_iff i k, bytes_eq_iff i j, bytes_eq_iff j k, h)

not_first :
    (j i : Text) (u : Json) (m : Members)
    → find j (member i u m) ≡ none
    → (bytes_eq j i ≡ false) × (find j m ≡ none)
unfolding find
not_first j i u m h = ground (arith, h, bytes_eq_iff i j, bytes_eq_iff j i)

Distinct-set_last :
    (j : Text) (v : Json) (m : Members)
    → Distinct v
    → find j m ≡ none
    → DistinctMembers m
    → DistinctMembers (set_last j v m)
unfolding find
Distinct-set_last j v end hv h hm = (refl, hv, tt)
Distinct-set_last j v (member i u m) hv h (fresh, hu, hm) =
    let (other, later) = not_first j i u m h in
    (find-set_last i j v m later ∙ rw (other, fresh) refl, hu, Distinct-set_last j v m hv later hm)

-- The value of the User-Agent that goes out.
abbrev pub agent_or_default : Option Json → Option Json
agent_or_default none = some (str user_agent)
agent_or_default (some v) = some v

with_agent :
    (o : Option Json) (k : Text) (m : Members)
    → find (codes "User-Agent") m ≡ o
    → DistinctMembers m
    → DistinctMembers (or_user_agent o m)
      × (find k (or_user_agent o m)
          ≡ (if bytes_eq (codes "User-Agent") k then agent_or_default o else find k m))
with_agent none k m e h = (Distinct-set_last _ _ m tt e h, find-set_last k _ _ m e)
with_agent (some v) k m e h = (
  h,
  elim (Bool-cases (bytes_eq (codes "User-Agent") k)) [
    | inl same ↦
        rw same (subst (λ j. find j m ≡ some v) ((bytes_eq_iff (codes "User-Agent") k).0 same) e)
    | inr other ↦ rw other refl
  ],
)

-- Of headers without a repeated name, those that go out are, under each name: none under the two
-- names that speak to a proxy, under User-Agent the one given or else the default, and under any
-- other name the one given.
pub outgoing_headers_lem :
    (m : Members)
    → Distinct (obj m)
    → (out : Members) × (outgoing_headers (obj m) ≡ ok out)
      × ((k : Text)
          → find k out ≡ (
              if bytes_eq (codes "Proxy-Authorization") k || bytes_eq (codes "Proxy-Connection") k
              then none
              else if bytes_eq (codes "User-Agent") k
              then agent_or_default (find (codes "User-Agent") m)
              else find k m))
unfolding outgoing_headers
outgoing_headers_lem m h = (
  _,
  refl,
  λ k.
      let agent = with_agent (find (codes "User-Agent") m) k m refl h in
      let inner = find-without k (codes "Proxy-Connection") _ agent.0 in
      let outer =
        find-without k (codes "Proxy-Authorization") _
          (Distinct-without (codes "Proxy-Connection") _ agent.0) in
      ground (arith, outer, inner, agent.1),
)
