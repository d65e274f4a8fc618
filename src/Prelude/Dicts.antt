-- ===== src/Prelude/Dicts.antt =====
-- Python's `dict`: an association list in order of insertion.
use mathlib.Core.Path.{◌≡◌, refl, subst}
use mathlib.Core.Logic.{ite}
use mathlib.Core.List.{List, [], ◌∷◌}
use mathlib.Core.Option.{Option, none, some, some-injective}
use native.Mathlib.Omega.{arith}
use tcp_server_simulator.Prelude.Lists.{All}

module _ {ℓ} {K V : Type ℓ} (dec : Discrete K) where
  -- `d.get(k)`
  unfoldable pub lookup : K → List (K × V) → Option V
  lookup k [] = none
  lookup k ((j, v) ∷ d) = ite (dec j k) (some v) (lookup k d)

  -- `d[k] = v`: an old key keeps its place, a new one goes to the end.
  unfoldable pub insert : K → V → List (K × V) → List (K × V)
  insert k v [] = (k, v) ∷ []
  insert k v ((j, w) ∷ d) = ite (dec j k) ((j, v) ∷ d) ((j, w) ∷ insert k v d)

  -- `d.pop(k, None)`
  unfoldable pub remove : K → List (K × V) → List (K × V)
  remove k [] = []
  remove k ((j, w) ∷ d) = let rest = remove k d in ite (dec j k) rest ((j, w) ∷ rest)

  pub lookup-insert :
      (k j : K) (v : V) (d : List (K × V))
      → lookup j (insert k v d) ≡ ite (dec k j) (some v) (lookup j d)
  unfolding lookup insert
  lookup-insert k j v [] = refl
  lookup-insert k j v ((i, w) ∷ d) = ground (arith, lookup-insert k j v d)

  pub lookup-remove :
      (k j : K) (d : List (K × V)) → lookup j (remove k d) ≡ ite (dec k j) none (lookup j d)
  unfolding lookup remove
  lookup-remove k j [] = ground arith
  lookup-remove k j ((i, w) ∷ d) = ground (arith, lookup-remove k j d)

-- A predicate on every entry.
module _ {ℓ} {K V : Type ℓ} (dec : Discrete K) (P : K × V → Type ℓ) where
  pub All-insert :
      (k : K) (v : V) (d : List (K × V))
      → ((j : K) → j ≡ k → P (j, v))
      → All P d
      → All P (insert dec k v d)
  unfolding insert
  All-insert k v [] p h = (p k refl, h)
  All-insert k v ((j, w) ∷ d) p h =
      elim (dec j k) as (λ o. All P (ite o ((j, v) ∷ d) ((j, w) ∷ insert dec k v d))) [
        | yes e ↦ (p j e, h.1)
        | no e ↦ (h.0, All-insert k v d p h.1)
      ]

  pub All-remove : (k : K) (d : List (K × V)) → All P d → All P (remove dec k d)
  unfolding remove
  All-remove k [] h = h
  All-remove k ((j, w) ∷ d) h =
      elim (dec j k) as (λ o. All P (ite o (remove dec k d) ((j, w) ∷ remove dec k d))) [
        | yes e ↦ All-remove k d h.1
        | no e ↦ (h.0, All-remove k d h.1)
      ]

  pub All-lookup : (k : K) (d : List (K × V)) {v : V} → All P d → lookup dec k d ≡ some v → P (k, v)
  unfolding lookup
  All-lookup k [] h e = cc
  All-lookup k ((j, w) ∷ d) {v} h e = found (dec j k) e (All-lookup k d h.1)
    where
      found :
          (o : Dec (j ≡ k))
          → ite o (some w) (lookup dec k d) ≡ some v
          → (lookup dec k d ≡ some v → P (k, v))
          → P (k, v)
      found (yes p) q later =
          subst (λ i. P (i, v)) p (subst (λ x. P (j, x)) (some-injective w v q) h.0)
      found (no p) q later = later q
