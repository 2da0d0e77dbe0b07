-- ===== src/Switcher/Crossings.antt =====
-- What a step of the processes of example/samgraph/balance_switcher/train_pinsage.py keeps of their
-- waits and of the events, and how much work it takes away.
use fgnn_artifacts.Prelude
use fgnn_artifacts.Prelude.{
  ℕ, zero, suc, ◌+◌, ◌-◌, ◌*◌, ◌<◌, ◌≡◌, refl, ◌⊎◌, inl, inr, Bool, true, false, ◌&&◌, ◌||◌, none,
  some, Option-cases, List, [], ◌∷◌, all_of, length, get_elem?, ltb, ◌==◌, arith,
}
use fgnn_artifacts.Switcher.{Action, wait, release, sample, drain, clear, set, await, fail}
use fgnn_artifacts.Switcher.Traces.{waits}
use fgnn_artifacts.Switcher.Calls.{is_training, heeds, sets, signals}
use fgnn_artifacts.Switcher.System.{Shared, perform, System, opened}

-- A bound of the actions that are left: a permit lets a process repeat its `drain`.
unfoldable pub load : List (List Action) → ℕ
load [] = 0
load (p ∷ ps) = 2 * length p + load ps

unfoldable pub remaining : System → ℕ
unfolding load
remaining s = load s.processes + s.shared.permits

unfoldable pub level : ℕ → List (List Action) → Bool
unfolding waits
level w ps = all_of (λ p. waits p == w) ps

pub perform-waits :
    (p p' : List Action) (s s' : Shared) → perform p s ≡ some (p', s') → waits p' ≡ waits p
unfolding perform waits
perform-waits [] p' s s' h = absurd (ground arith)
perform-waits (wait ∷ p) p' s s' h = absurd (ground arith)
perform-waits (release k ∷ p) p' s s' h = ground arith
perform-waits (sample k ∷ p) p' s s' h = ground arith
perform-waits (drain k ∷ p) p' s s' h = ground arith
perform-waits (clear i ∷ p) p' s s' h = ground arith
perform-waits (set i ∷ p) p' s s' h = ground arith
perform-waits (await i ∷ p) p' s s' h = ground arith
perform-waits (fail ∷ p) p' s s' h = absurd (ground arith)

pub perform-length :
    (p p' : List Action) (s s' : Shared)
    → perform p s ≡ some (p', s')
    → 2 * length p' + s'.permits < 2 * length p + s.permits
unfolding perform
perform-length [] p' s s' h = absurd (ground arith)
perform-length (wait ∷ p) p' s s' h = absurd (ground arith)
perform-length (release k ∷ p) p' s s' h = ground arith
perform-length (sample k ∷ p) p' s s' h = ground arith
perform-length (drain k ∷ p) p' s s' h = ground arith
perform-length (clear i ∷ p) p' s s' h = ground arith
perform-length (set i ∷ p) p' s s' h = ground arith
perform-length (await i ∷ p) p' s s' h = ground arith
perform-length (fail ∷ p) p' s s' h = absurd (ground arith)

module _ (m n : ℕ) where
  pub perform-heeds :
      (p p' : List Action) (s s' : Shared)
      → perform p s ≡ some (p', s')
      → heeds m n p ≡ true
      → heeds m n p' ≡ true
  unfolding perform heeds
  perform-heeds [] p' s s' h a = absurd (ground arith)
  perform-heeds (wait ∷ p) p' s s' h a = absurd (ground arith)
  perform-heeds (release k ∷ p) p' s s' h a = ground arith
  perform-heeds (sample k ∷ p) p' s s' h a = ground arith
  perform-heeds (drain k ∷ p) p' s s' h a = ground arith
  perform-heeds (clear i ∷ p) p' s s' h a = ground arith
  perform-heeds (set i ∷ p) p' s s' h a = ground arith
  perform-heeds (await i ∷ p) p' s s' h a = ground arith
  perform-heeds (fail ∷ p) p' s s' h a = absurd (ground arith)

  -- While an epoch is trained, an event that is set stays set.
  pub perform-events :
      (i : ℕ) (p p' : List Action) (s s' : Shared)
      → perform p s ≡ some (p', s')
      → heeds m n p ≡ true
      → is_training n ≡ true
      → s.events i ≡ true
      → s'.events i ≡ true
  unfolding perform heeds
  perform-events i [] p' s s' h a t e = absurd (ground arith)
  perform-events i (wait ∷ p) p' s s' h a t e = absurd (ground arith)
  perform-events i (release k ∷ p) p' s s' h a t e = ground arith
  perform-events i (sample k ∷ p) p' s s' h a t e = ground arith
  perform-events i (drain k ∷ p) p' s s' h a t e = ground arith
  perform-events i (clear j ∷ p) p' s s' h a t e = ground arith
  perform-events i (set j ∷ p) p' s s' h a t e = ground arith
  perform-events i (await j ∷ p) p' s s' h a t e = ground arith
  perform-events i (fail ∷ p) p' s s' h a t e = absurd (ground arith)

module _ (i n : ℕ) where
  pub perform-signals :
      (p p' : List Action) (s s' : Shared)
      → perform p s ≡ some (p', s')
      → signals i n p ≡ true
      → signals i n p' ≡ true
  unfolding perform signals
  perform-signals [] p' s s' h a = absurd (ground arith)
  perform-signals (wait ∷ p) p' s s' h a = absurd (ground arith)
  perform-signals (release k ∷ p) p' s s' h a = ground arith
  perform-signals (sample k ∷ p) p' s s' h a = ground arith
  perform-signals (drain k ∷ p) p' s s' h a = ground arith
  perform-signals (clear j ∷ p) p' s s' h a = ground arith
  perform-signals (set j ∷ p) p' s s' h a = ground arith
  perform-signals (await j ∷ p) p' s s' h a = absurd (ground arith)
  perform-signals (fail ∷ p) p' s s' h a = absurd (ground arith)

  -- A sampler that has to set its event still has to, or has set it.
  pub perform-sets :
      (p p' : List Action) (s s' : Shared)
      → perform p s ≡ some (p', s')
      → sets i p ≡ true
      → (s'.events i ≡ true) ⊎ (sets i p' ≡ true)
  unfolding perform sets
  perform-sets [] p' s s' h a = absurd (ground arith)
  perform-sets (wait ∷ p) p' s s' h a = absurd (ground arith)
  perform-sets (release k ∷ p) p' s s' h a = inr (ground arith)
  perform-sets (sample k ∷ p) p' s s' h a = inr (ground arith)
  perform-sets (drain k ∷ p) p' s s' h a = inr (ground arith)
  perform-sets (clear j ∷ p) p' s s' h a = inr (ground arith)
  perform-sets (set j ∷ p) p' s s' h a = elim (Prelude.ℕ_discrete j i) [
    | yes same ↦ inl (ground (arith, same))
    | no ne ↦ inr (ground (arith, ne))
  ]
  perform-sets (await j ∷ p) p' s s' h a = inr (ground arith)
  perform-sets (fail ∷ p) p' s s' h a = absurd (ground arith)

  -- It does not wait before it has set it.
  pub sets-perform :
      (p : List Action) (s : Shared)
      → sets i p ≡ true
      → signals i n p ≡ true
      → (p' : List Action) × (s' : Shared) × (perform p s ≡ some (p', s'))
  unfolding perform sets signals
  sets-perform [] s h a = absurd (ground arith)
  sets-perform (wait ∷ p) s h a = absurd (ground arith)
  sets-perform (release k ∷ p) s h a = (_, _, refl)
  sets-perform (sample k ∷ p) s h a = (_, _, refl)
  sets-perform (drain k ∷ p) s h a = elim (Option-cases (perform (drain k ∷ p) s)) [
    | inl stuck ↦ absurd (ground (arith, stuck))
    | inr ((p', s'), done) ↦ (p', s', done)
  ]
  sets-perform (clear j ∷ p) s h a = (_, _, refl)
  sets-perform (set j ∷ p) s h a = (_, _, refl)
  sets-perform (await j ∷ p) s h a = absurd (ground arith)
  sets-perform (fail ∷ p) s h a = absurd (ground arith)

pub load-set :
    (ps : List (List Action)) (i : ℕ) (p p' : List Action)
    → get_elem? ps i ≡ some p
    → load (Prelude.set ps i p') + 2 * length p ≡ load ps + 2 * length p'
unfolding load
load-set [] i p p' h = absurd (ground arith)
load-set (q ∷ ps) zero p p' h = ground arith
load-set (q ∷ ps) (suc i) p p' h = omega (arith, load-set ps i p p' h)

pub opened-level :
    (w : ℕ) (ps ps' : List (List Action))
    → opened ps ≡ some ps'
    → level w ps ≡ true
    → level (w - 1) ps' ≡ true
unfolding opened level waits
opened-level w [] ps' o a = ground arith
opened-level w ([] ∷ ps) ps' o a = absurd (ground arith)
opened-level w ((wait ∷ p) ∷ ps) ps' o a = elim (Option-cases (opened ps)) [
  | inl closed ↦ absurd (ground arith)
  | inr (qs, rest) ↦ ground (arith, opened-level w ps qs rest (ground arith))
]
opened-level w ((release e ∷ p) ∷ ps) ps' o a = absurd (ground arith)
opened-level w ((sample e ∷ p) ∷ ps) ps' o a = absurd (ground arith)
opened-level w ((drain e ∷ p) ∷ ps) ps' o a = absurd (ground arith)
opened-level w ((clear i ∷ p) ∷ ps) ps' o a = absurd (ground arith)
opened-level w ((set i ∷ p) ∷ ps) ps' o a = absurd (ground arith)
opened-level w ((await i ∷ p) ∷ ps) ps' o a = absurd (ground arith)
opened-level w ((fail ∷ p) ∷ ps) ps' o a = absurd (ground arith)

pub opened-heeds :
    (m n : ℕ) (ps ps' : List (List Action))
    → opened ps ≡ some ps'
    → all_of (heeds m n) ps ≡ true
    → all_of (heeds m (suc n)) ps' ≡ true
unfolding opened heeds
opened-heeds m n [] ps' o a = ground arith
opened-heeds m n ([] ∷ ps) ps' o a = absurd (ground arith)
opened-heeds m n ((wait ∷ p) ∷ ps) ps' o a = elim (Option-cases (opened ps)) [
  | inl closed ↦ absurd (ground arith)
  | inr (qs, rest) ↦ ground (arith, opened-heeds m n ps qs rest (ground arith))
]
opened-heeds m n ((release e ∷ p) ∷ ps) ps' o a = absurd (ground arith)
opened-heeds m n ((sample e ∷ p) ∷ ps) ps' o a = absurd (ground arith)
opened-heeds m n ((drain e ∷ p) ∷ ps) ps' o a = absurd (ground arith)
opened-heeds m n ((clear i ∷ p) ∷ ps) ps' o a = absurd (ground arith)
opened-heeds m n ((set i ∷ p) ∷ ps) ps' o a = absurd (ground arith)
opened-heeds m n ((await i ∷ p) ∷ ps) ps' o a = absurd (ground arith)
opened-heeds m n ((fail ∷ p) ∷ ps) ps' o a = absurd (ground arith)

pub opened-load :
    (ps ps' : List (List Action)) → opened ps ≡ some ps' → load ps' + 2 * length ps ≡ load ps
unfolding opened load
opened-load [] ps' o = ground arith
opened-load ([] ∷ ps) ps' o = absurd (ground arith)
opened-load ((wait ∷ p) ∷ ps) ps' o = elim (Option-cases (opened ps)) [
  | inl closed ↦ absurd (ground arith)
  | inr (qs, rest) ↦ ground (arith, opened-load ps qs rest)
]
opened-load ((release e ∷ p) ∷ ps) ps' o = absurd (ground arith)
opened-load ((sample e ∷ p) ∷ ps) ps' o = absurd (ground arith)
opened-load ((drain e ∷ p) ∷ ps) ps' o = absurd (ground arith)
opened-load ((clear i ∷ p) ∷ ps) ps' o = absurd (ground arith)
opened-load ((set i ∷ p) ∷ ps) ps' o = absurd (ground arith)
opened-load ((await i ∷ p) ∷ ps) ps' o = absurd (ground arith)
opened-load ((fail ∷ p) ∷ ps) ps' o = absurd (ground arith)
