-- ===== src/Switcher/Crowds.antt =====
-- The programs of all processes, before and after one of them has moved or the barrier has opened.
use fgnn_artifacts.Prelude
use fgnn_artifacts.Prelude.{
  ℕ, zero, suc, ◌+◌, ◌*◌, ◌≡◌, refl, ◌≢◌, Bool, true, false, ◌&&◌, none, some, Option-cases, inl,
  inr, List, [], ◌∷◌, ◌++◌, all_of, get_elem?, arith,
}
use fgnn_artifacts.Switcher.{Action, wait, release, sample, drain, clear, set, await, fail}
use fgnn_artifacts.Switcher.Traces.{pending, staged}
use fgnn_artifacts.Switcher.System.{opened}

-- The permits for an epoch that are still to be released by all.
unfoldable pub pending_all : ℕ → List (List Action) → ℕ
pending_all e [] = 0
pending_all e (p ∷ ps) = pending e p + pending_all e ps

pub pending_all-append :
    (e : ℕ) (ps qs : List (List Action))
    → pending_all e (ps ++ qs) ≡ pending_all e ps + pending_all e qs
unfolding pending_all
pending_all-append e [] qs = omega arith
pending_all-append e (p ∷ ps) qs = omega (arith, pending_all-append e ps qs)

pub pending_all-set :
    (e : ℕ) (ps : List (List Action)) (i : ℕ) (p p' : List Action)
    → get_elem? ps i ≡ some p
    → pending_all e (Prelude.set ps i p') + pending e p ≡ pending_all e ps + pending e p'
unfolding pending_all
pending_all-set e [] i p p' h = absurd (ground arith)
pending_all-set e (q ∷ ps) zero p p' h = ground arith
pending_all-set e (q ∷ ps) (suc i) p p' h = omega (arith, pending_all-set e ps i p p' h)

module _ {ℓ} {A : Type ℓ} (q : A → Bool) where
  pub all_of-get :
      (ps : List A) (i : ℕ) (p : A) → all_of q ps ≡ true → get_elem? ps i ≡ some p → q p ≡ true
  all_of-get [] i p a h = absurd (ground arith)
  all_of-get (x ∷ ps) zero p a h = ground arith
  all_of-get (x ∷ ps) (suc i) p a h = all_of-get ps i p (ground arith) h

  pub all_of-set :
      (ps : List A) (i : ℕ) (p : A)
      → all_of q ps ≡ true
      → q p ≡ true
      → all_of q (Prelude.set ps i p) ≡ true
  all_of-set [] i p a h = refl
  all_of-set (x ∷ ps) zero p a h = ground arith
  all_of-set (x ∷ ps) (suc i) p a h = ground (arith, all_of-set ps i p (ground arith) h)

  pub all_of-append :
      (ps qs : List A) → all_of q ps ≡ true → all_of q qs ≡ true → all_of q (ps ++ qs) ≡ true
  all_of-append [] qs a b = b
  all_of-append (x ∷ ps) qs a b = ground (arith, all_of-append ps qs)

pub opened-staged :
    (n : ℕ) (ps ps' : List (List Action))
    → opened ps ≡ some ps'
    → all_of (staged n) ps ≡ true
    → all_of (staged (suc n)) ps' ≡ true
unfolding opened staged
opened-staged n [] ps' o a = ground arith
opened-staged n ([] ∷ ps) ps' o a = absurd (ground arith)
opened-staged n ((wait ∷ p) ∷ ps) ps' o a = elim (Option-cases (opened ps)) [
  | inl closed ↦ absurd (ground arith)
  | inr (qs, rest) ↦ ground (arith, opened-staged n ps qs rest (ground arith))
]
opened-staged n ((release e ∷ p) ∷ ps) ps' o a = absurd (ground arith)
opened-staged n ((sample e ∷ p) ∷ ps) ps' o a = absurd (ground arith)
opened-staged n ((drain e ∷ p) ∷ ps) ps' o a = absurd (ground arith)
opened-staged n ((clear i ∷ p) ∷ ps) ps' o a = absurd (ground arith)
opened-staged n ((set i ∷ p) ∷ ps) ps' o a = absurd (ground arith)
opened-staged n ((await i ∷ p) ∷ ps) ps' o a = absurd (ground arith)
opened-staged n ((fail ∷ p) ∷ ps) ps' o a = absurd (ground arith)

pub opened-pending :
    (e : ℕ) (ps ps' : List (List Action))
    → opened ps ≡ some ps'
    → pending_all e ps' ≡ pending_all e ps
unfolding opened pending pending_all
opened-pending e [] ps' o = ground arith
opened-pending e ([] ∷ ps) ps' o = absurd (ground arith)
opened-pending e ((wait ∷ p) ∷ ps) ps' o = elim (Option-cases (opened ps)) [
  | inl closed ↦ absurd (ground arith)
  | inr (qs, rest) ↦ ground (arith, opened-pending e ps qs rest)
]
opened-pending e ((release k ∷ p) ∷ ps) ps' o = absurd (ground arith)
opened-pending e ((sample k ∷ p) ∷ ps) ps' o = absurd (ground arith)
opened-pending e ((drain k ∷ p) ∷ ps) ps' o = absurd (ground arith)
opened-pending e ((clear i ∷ p) ∷ ps) ps' o = absurd (ground arith)
opened-pending e ((set i ∷ p) ∷ ps) ps' o = absurd (ground arith)
opened-pending e ((await i ∷ p) ∷ ps) ps' o = absurd (ground arith)
opened-pending e ((fail ∷ p) ∷ ps) ps' o = absurd (ground arith)

-- Each process stood at the barrier.
pub opened-get :
    (ps ps' : List (List Action)) (k : ℕ) (p : List Action)
    → opened ps ≡ some ps'
    → get_elem? ps k ≡ some p
    → (p' : List Action) × (p ≡ wait ∷ p') × (get_elem? ps' k ≡ some p')
unfolding opened
opened-get [] ps' k p o h = absurd (ground arith)
opened-get ([] ∷ ps) ps' k p o h = absurd (ground arith)
opened-get ((wait ∷ r) ∷ ps) ps' zero p o h = elim (Option-cases (opened ps)) [
  | inl closed ↦ absurd (ground arith)
  | inr (qs, rest) ↦ (r, ground arith, ground arith)
]
opened-get ((wait ∷ r) ∷ ps) ps' (suc k) p o h = elim (Option-cases (opened ps)) [
  | inl closed ↦ absurd (ground arith)
  | inr (qs, rest) ↦
      let (p', same, found) = opened-get ps qs k p rest h in (p', same, ground (arith, found))
]
opened-get ((release e ∷ r) ∷ ps) ps' k p o h = absurd (ground arith)
opened-get ((sample e ∷ r) ∷ ps) ps' k p o h = absurd (ground arith)
opened-get ((drain e ∷ r) ∷ ps) ps' k p o h = absurd (ground arith)
opened-get ((clear i ∷ r) ∷ ps) ps' k p o h = absurd (ground arith)
opened-get ((set i ∷ r) ∷ ps) ps' k p o h = absurd (ground arith)
opened-get ((await i ∷ r) ∷ ps) ps' k p o h = absurd (ground arith)
opened-get ((fail ∷ r) ∷ ps) ps' k p o h = absurd (ground arith)
