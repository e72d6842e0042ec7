-- ===== src/Access/Policy.antt =====
-- Who is allowed: the decision of `is_allowed` after a `reload`, and the whitelists that are open.
use custom_vpn_implementatio.Common.{
  ◌≡◌, ◌↔◌, ◌⊎◌, inl, inr, refl, true, Option, none, some, List, [], ◌∷◌, ◌++◌, Text, arith,
  Option-cases, if◌then◌else◌,
}
use custom_vpn_implementatio.Common.Strings.{strip, splitlines}
use custom_vpn_implementatio.Access.{
  Address, Network, V6, AccessController, ip_address, ip_network, in_network, is_entry, load_lines,
  reload, any_network, is_allowed,
}

-- Some element has the property.
abbrev pub Any : {A : Type 0} → (A → Type 0) → List A → Type 0
Any P [] = ⊥
Any P (x ∷ xs) = P x ⊎ Any P xs

any_network_iff :
    (v : V6) (addr : Address) (ns : List Network)
    → (any_network v addr ns ≡ true) ↔ Any (λ n. in_network addr n ≡ true) ns
unfolding any_network
any_network_iff v addr [] = ((λ e. cc), (λ e. absurd e))
any_network_iff v addr (n ∷ ns) = ground (arith, any_network_iff v addr ns)

module _ (v : V6) where
  by_entries :
      (ip : Text) (path : Option Text) (ns : List Network)
      → (is_allowed v ip (record { networks = ns; path = path }) ≡ true) ↔ (
          (ns ≡ [])
          ⊎ ((addr : Address) × (ip_address v ip ≡ some addr)
              × Any (λ n. in_network addr n ≡ true) ns))
  unfolding is_allowed
  by_entries ip path [] = ((λ e. inl refl), (λ e. refl))
  by_entries ip path (n ∷ ns) = (forth, back)
    where
      forth :
          is_allowed v ip (record { networks = n ∷ ns; path = path }) ≡ true
          → (n ∷ ns ≡ [])
            ⊎ ((addr : Address) × (ip_address v ip ≡ some addr)
                × Any (λ m. in_network addr m ≡ true) (n ∷ ns))
      forth e = elim (Option-cases (ip_address v ip)) [
        | inl missing ↦ ground arith
        | inr (addr, there) ↦ inr (addr, there, (any_network_iff v addr (n ∷ ns)).0 (rw there at e))
      ]

      back :
          (n ∷ ns ≡ [])
            ⊎ ((addr : Address) × (ip_address v ip ≡ some addr)
                × Any (λ m. in_network addr m ≡ true) (n ∷ ns))
          → is_allowed v ip (record { networks = n ∷ ns; path = path }) ≡ true
      back (inl e) = cc
      back (inr (addr, there, found)) = rw there ((any_network_iff v addr (n ∷ ns)).1 found)

  -- An address is allowed exactly when there is no entry at all, or its text is an address that
  -- one of the entries contains.
  pub is_allowed_iff :
      (ip : Text) (a : AccessController)
      → (is_allowed v ip a ≡ true) ↔ (
          (a.networks ≡ [])
          ⊎ ((addr : Address) × (ip_address v ip ≡ some addr)
              × Any (λ n. in_network addr n ≡ true) a.networks))
  unfolding is_allowed
  is_allowed_iff ip a = by_entries ip a.path a.networks

  -- A line that adds an entry: not blank, not a comment, and a network.
  abbrev pub line_entry : Text → Option Network
  line_entry raw = if is_entry (strip raw) then ip_network v (strip raw) else none

  -- What is loaded depends on the valid lines alone, in their order.
  pub load_lines-append :
      (xs ys : List Text) → load_lines v (xs ++ ys) ≡ load_lines v xs ++ load_lines v ys
  unfolding load_lines
  load_lines-append [] ys = refl
  load_lines-append (x ∷ xs) ys = ground (arith, load_lines-append xs ys)

  abbrev pub NoEntries : List Text → Type 0
  NoEntries [] = Unit
  NoEntries (raw ∷ rest) = (line_entry raw ≡ none) × NoEntries rest

  load_lines-NoEntries : (lines : List Text) → NoEntries lines → load_lines v lines ≡ []
  unfolding load_lines
  load_lines-NoEntries [] h = refl
  load_lines-NoEntries (raw ∷ rest) h = ground (arith, load_lines-NoEntries rest h.1)

  -- A whitelist file that exists and has lines, but no valid entry among them, admits everybody.
  pub is_allowed-NoEntries :
      (read : Text → Option Text) (file text ip : Text) (a : AccessController)
      → a.path ≡ some file
      → read file ≡ some text
      → NoEntries (splitlines text)
      → is_allowed v ip (reload v read a) ≡ true
  unfolding is_allowed reload
  is_allowed-NoEntries read file text ip a at_path at_file none_valid =
      ground (arith, load_lines-NoEntries (splitlines text) none_valid)

  -- A reload keeps nothing of the entries before it.
  pub reload_forgets :
      (read : Text → Option Text) (a b : AccessController)
      → a.path ≡ b.path
      → reload v read a ≡ reload v read b
  unfolding reload
  reload_forgets read a b same = ground arith
