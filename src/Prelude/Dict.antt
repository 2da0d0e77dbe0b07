-- ===== src/Prelude/Dict.antt =====
-- Python's `dict` with text keys: an association list in insertion order.
use Prim.Native.String.{String}
use mathlib.Core.Path.{◌≡◌, refl}
use mathlib.Core.Bool.{Bool, true, false}
use mathlib.Core.Option.{Option, none, some}
use mathlib.Core.List.{List, [], ◌∷◌, foldl}
use native.Mathlib.Omega.{arith}
use fgnn_artifacts.Prelude.Tests.{◌=ˢ◌, if◌then◌else◌}

abbrev pub Dict {ℓ} : Type ℓ → Type ℓ
Dict V = List (String × V)

module _ {ℓ} {V : Type ℓ} where
  -- `d.get(k)`
  unfoldable pub lookup : String → Dict V → Option V
  lookup k [] = none
  lookup k ((j, v) ∷ d) = if j =ˢ k then some v else lookup k d

  -- `d[k] = v`: an old key keeps its place, a new one stands last.
  unfoldable pub insert : String → V → Dict V → Dict V
  insert k v [] = (k, v) ∷ []
  insert k v ((j, w) ∷ d) = if j =ˢ k then (j, v) ∷ d else (j, w) ∷ insert k v d

  -- `d.update(other)`
  unfoldable pub update : Dict V → Dict V → Dict V
  update d other = foldl (λ acc (k, v). insert k v acc) d other

  abbrev pub has_key : String → Dict V → Bool
  has_key k d = elim (lookup k d) [ none ↦ false | some _ ↦ true ]

  pub lookup-insert :
      (j k : String) (v : V) (d : Dict V)
      → lookup j (insert k v d) ≡ (if k =ˢ j then some v else lookup j d)
  unfolding lookup insert
  lookup-insert j k v [] = refl
  lookup-insert j k v ((i, w) ∷ d) = ground (arith, lookup-insert j k v d)

  pub insert-insert_self :
      (k : String) (v w : V) (d : Dict V) → insert k v (insert k w d) ≡ insert k v d
  unfolding insert
  insert-insert_self k v w [] = ground arith
  insert-insert_self k v w ((i, u) ∷ d) = ground (arith, insert-insert_self k v w d)

  pub update-nil : (d : Dict V) → update d [] ≡ d
  unfolding update
  update-nil d = refl

  pub update-cons :
      (d other : Dict V) (k : String) (v : V)
      → update d ((k, v) ∷ other) ≡ update (insert k v d) other
  unfolding update
  update-cons d other k v = refl
