-- ===== src/Common/Dict.antt =====
-- Python's `dict` with text keys, as an association list in the order of insertion.
use mathlib.Core.Path.{◌≡◌, refl}
use mathlib.Core.Bool.{Bool, true, false}
use mathlib.Core.Option.{Option, none, some}
use mathlib.Core.List.{List, [], ◌∷◌}
use native.Mathlib.Omega.{arith}
use custom_vpn_implementatio.Common.Tests.{Text, bytes_eq, bytes_eq_iff, if◌then◌else◌}

abbrev pub Dict {ℓ} : Type ℓ → Type ℓ
Dict V = List (Text × V)

module _ {ℓ} {V : Type ℓ} where
  -- `d.get(k)`
  unfoldable pub get : Dict V → Text → Option V
  get [] k = none
  get ((j, v) ∷ d) k = if bytes_eq j k then some v else get d k

  -- `d.get(k, v)`
  abbrev pub get_or : Dict V → Text → V → V
  get_or d k v = elim (get d k) [ none ↦ v | some u ↦ u ]

  -- `k in d`
  abbrev pub contains : Dict V → Text → Bool
  contains d k = elim (get d k) [ none ↦ false | some u ↦ true ]

  -- `d[k] = v`: a key that is there keeps its place.
  unfoldable pub put : Dict V → Text → V → Dict V
  put [] k v = (k, v) ∷ []
  put ((j, u) ∷ d) k v = if bytes_eq j k then (j, v) ∷ d else (j, u) ∷ put d k v

  -- `d.pop(k, None)`
  unfoldable pub pop : Dict V → Text → Dict V
  pop [] k = []
  pop ((j, u) ∷ d) k = let rest = pop d k in if bytes_eq j k then rest else (j, u) ∷ rest

  pub get-put :
      (d : Dict V) (k j : Text) (v : V)
      → get (put d k v) j ≡ (if bytes_eq k j then some v else get d j)
  unfolding get put
  get-put [] k j v = refl
  get-put ((i, u) ∷ d) k j v =
      ground (arith, bytes_eq_iff i k, bytes_eq_iff i j, bytes_eq_iff k j, get-put d k j v)

  pub get-pop :
      (d : Dict V) (k j : Text) → get (pop d k) j ≡ (if bytes_eq k j then none else get d j)
  unfolding get pop
  get-pop [] k j = ground arith
  get-pop ((i, u) ∷ d) k j =
      ground (arith, bytes_eq_iff i k, bytes_eq_iff i j, bytes_eq_iff k j, get-pop d k j)
