-- ===== src/Switcher/Moves.antt =====
-- What one action of a process changes.
use fgnn_artifacts.Prelude.{
  ℕ, ◌+◌, ◌*◌, ◌<◌, ◌≡◌, ◌⊎◌, inl, inr, Bool, true, ◌||◌, some, List, [], ◌∷◌, ◌==◌, if◌then◌else◌,
  arith, ℕ_discrete,
}
use fgnn_artifacts.Switcher.{Action, wait, release, sample, drain, clear, set, await, fail}
use fgnn_artifacts.Switcher.Traces.{pending, drains, staged}
use fgnn_artifacts.Switcher.System.{Shared, perform}

-- The batches of an epoch that have been trained.
unfoldable pub count : ℕ → List ℕ → ℕ
count e [] = 0
count e (k ∷ ks) = (if k == e then 1 else 0) + count e ks

-- The permits stand for batches of the epoch.
abbrev pub is_live : ℕ → ℕ → Bool
is_live n e = (n == 2 + 2 * e) || (n == 3 + 2 * e)

-- The batches of an epoch that are accounted for: trained or with a permit.
unfoldable pub held : ℕ → ℕ → Shared → ℕ
unfolding count
held n e s = count e s.trained + (if is_live n e then s.permits else 0)

module _ (n : ℕ) where
  pub perform-staged :
      (p p' : List Action) (s s' : Shared)
      → perform p s ≡ some (p', s')
      → staged n p ≡ true
      → staged n p' ≡ true
  unfolding perform staged
  perform-staged [] p' s s' h t = absurd (ground arith)
  perform-staged (wait ∷ p) p' s s' h t = absurd (ground arith)
  perform-staged (release k ∷ p) p' s s' h t = ground arith
  perform-staged (sample k ∷ p) p' s s' h t = ground arith
  perform-staged (drain k ∷ p) p' s s' h t = ground arith
  perform-staged (clear i ∷ p) p' s s' h t = ground arith
  perform-staged (set i ∷ p) p' s s' h t = ground arith
  perform-staged (await i ∷ p) p' s s' h t = ground arith
  perform-staged (fail ∷ p) p' s s' h t = absurd (ground arith)

  pub perform-held :
      (e : ℕ) (p p' : List Action) (s s' : Shared)
      → perform p s ≡ some (p', s')
      → staged n p ≡ true
      → held n e s' + pending e p' ≡ held n e s + pending e p
  unfolding perform staged held pending
  perform-held e [] p' s s' h t = absurd (ground arith)
  perform-held e (wait ∷ p) p' s s' h t = absurd (ground arith)
  perform-held e (release k ∷ p) p' s s' h t = ground arith
  perform-held e (sample k ∷ p) p' s s' h t = ground arith
  perform-held e (drain k ∷ p) p' s s' h t = ground arith
  perform-held e (clear i ∷ p) p' s s' h t = ground arith
  perform-held e (set i ∷ p) p' s s' h t = ground arith
  perform-held e (await i ∷ p) p' s s' h t = ground arith
  perform-held e (fail ∷ p) p' s s' h t = absurd (ground arith)

  -- Where no permit can be released, an empty semaphore stays empty.
  pub perform-empty :
      (p p' : List Action) (s s' : Shared)
      → perform p s ≡ some (p', s')
      → staged n p ≡ true
      → (n < 2) ⊎ ((e : ℕ) × (n ≡ 3 + 2 * e))
      → s.permits ≡ 0
      → s'.permits ≡ 0
  unfolding perform staged
  perform-empty [] p' s s' h t w z = absurd (ground arith)
  perform-empty (wait ∷ p) p' s s' h t w z = absurd (ground arith)
  perform-empty (release k ∷ p) p' s s' h t (inl w) z = absurd (ground arith)
  perform-empty (release k ∷ p) p' s s' h t (inr (e, w)) z = absurd (ground arith)
  perform-empty (sample k ∷ p) p' s s' h t w z = ground arith
  perform-empty (drain k ∷ p) p' s s' h t w z = ground arith
  perform-empty (clear i ∷ p) p' s s' h t w z = ground arith
  perform-empty (set i ∷ p) p' s s' h t w z = ground arith
  perform-empty (await i ∷ p) p' s s' h t w z = ground arith
  perform-empty (fail ∷ p) p' s s' h t w z = absurd (ground arith)

  -- A process leaves its loop over an epoch only when there is no permit.
  pub perform-drains :
      (e : ℕ) (p p' : List Action) (s s' : Shared)
      → perform p s ≡ some (p', s')
      → staged n p ≡ true
      → (drains e p' ≡ drains e p) ⊎ ((n ≡ 3 + 2 * e) × (s'.permits ≡ 0))
  unfolding perform staged drains
  perform-drains e [] p' s s' h t = absurd (ground arith)
  perform-drains e (wait ∷ p) p' s s' h t = absurd (ground arith)
  perform-drains e (release k ∷ p) p' s s' h t = inl (ground arith)
  perform-drains e (sample k ∷ p) p' s s' h t = inl (ground arith)
  perform-drains e (drain k ∷ p) p' s s' h t = elim (ℕ_discrete s.permits 0) [
    | yes z ↦ elim (ℕ_discrete k e) [
      | yes same ↦ inr (ground (arith, z, same))
      | no ne ↦ inl (ground (arith, z, ne))
    ]
    | no some_left ↦ inl (ground (arith, some_left))
  ]
  perform-drains e (clear i ∷ p) p' s s' h t = inl (ground arith)
  perform-drains e (set i ∷ p) p' s s' h t = inl (ground arith)
  perform-drains e (await i ∷ p) p' s s' h t = inl (ground arith)
  perform-drains e (fail ∷ p) p' s s' h t = absurd (ground arith)
