-- ===== src/Switcher/Accounts.antt =====
-- The accounts of the batches while the processes of example/samgraph/balance_switcher/train_pinsage.py run: no
-- batch is lost, and none is trained twice.
use fgnn_artifacts.Prelude
use fgnn_artifacts.Prelude.{
  ℕ, zero, suc, ◌+◌, ◌-◌, ◌*◌, ◌/◌, ◌%◌, ◌≤◌, ◌<◌, ◌≡◌, refl, ap, sym, ◌∙◌, ◌⊎◌, inl, inr, Bool,
  true, false, none, some, Option-cases, List, [], ◌∷◌, all_of, get_elem?, get_elem?-set_self,
  get_elem?-set_ne, dec_lt, ℕ_discrete, arith,
}
use fgnn_artifacts.Switcher.{Action, wait}
use fgnn_artifacts.Switcher.Traces.{pending, drains, staged, drains-late}
use fgnn_artifacts.Switcher.System.{Shared, perform, System, advance, is_over}
use fgnn_artifacts.Switcher.Moves.{held, perform-empty, perform-drains}
use fgnn_artifacts.Switcher.Crowds.{pending_all}

-- A process has yet to drain the epoch, or the epoch is over, or nothing of it is left to train.
abbrev pub Drained : ℕ → ℕ → ℕ → List Action → Type 0
Drained n permits e p = (1 ≤ drains e p) ⊎ ((3 + 2 * e < n) ⊎ ((n ≡ 3 + 2 * e) × (permits ≡ 0)))

-- After n waits: `amount e` batches of epoch e are trained, have a permit or wait for one. Epochs
-- from num_epoch on have none, and the process number k trains in each epoch before.
pub record Accounts (amount : ℕ → ℕ) (num_epoch k n : ℕ) (s : System) : Type 0 where
  pub in_time : all_of (staged n) s.processes ≡ true
  pub balance : (e : ℕ) → held n e s.shared + pending_all e s.processes ≡ amount e
  pub early : n < 2 → s.shared.permits ≡ 0
  pub program : List Action
  pub at_k : get_elem? s.processes k ≡ some program
  pub helps : (e : ℕ) → e < num_epoch → Drained n s.shared.permits e program

abbrev pub Moved : ℕ → System → System → Type 0
Moved i s t =
    (p : List Action) × (p' : List Action) × (get_elem? s.processes i ≡ some p)
    × (perform p s.shared ≡ some (p', t.shared))
    × (t.processes ≡ Prelude.set s.processes i p')

pub advance-cases : (i : ℕ) (s t : System) → advance i s ≡ some t → Moved i s t
unfolding advance
advance-cases i s t h = elim (Option-cases (get_elem? s.processes i)) [
  | inl out ↦ absurd (ground (arith, out))
  | inr (p, found) ↦ elim (Option-cases (perform p s.shared)) [
    | inl stuck ↦ absurd (ground (arith, found, stuck))
    | inr ((p', shared), done) ↦
        (p, p', found, ground (arith, found, done), ground (arith, found, done))
  ]
]

-- Either no wait of an epoch's start has passed, or the wait before an epoch is sampled, or the one
-- before it is trained.
pub stage-cases : (n : ℕ) → (n < 2) ⊎ (((m : ℕ) × (n ≡ 2 + 2 * m)) ⊎ ((m : ℕ) × (n ≡ 3 + 2 * m)))
stage-cases zero = inl (omega arith)
stage-cases (suc zero) = inl (omega arith)
stage-cases (suc (suc n)) = elim (ℕ_discrete (n % 2) 0) [
  | yes even ↦ inr (inl (n / 2, omega (arith, even)))
  | no odd ↦ inr (inr (n / 2, omega (arith, odd)))
]

pub pending_all-over :
    (e : ℕ) (ps : List (List Action)) → all_of is_over ps ≡ true → pending_all e ps ≡ 0
unfolding is_over pending_all pending
pending_all-over e [] h = refl
pending_all-over e ([] ∷ ps) h = omega (arith, pending_all-over e ps h)
pending_all-over e ((a ∷ p) ∷ ps) h = absurd (ground arith)

-- Nothing of its epoch is left to a process that waits behind it.
pub waiting-drains :
    (n m : ℕ) (p p' : List Action)
    → p ≡ wait ∷ p'
    → staged n p ≡ true
    → n ≡ 3 + 2 * m
    → drains m p ≡ 0
unfolding staged drains
waiting-drains n m p p' same st now =
    ap (drains m) same ∙ drains-late (suc n) m p' (sym (ap (staged n) same) ∙ st) (omega arith)

pub over-drains : (e : ℕ) (p : List Action) → is_over p ≡ true → drains e p ≡ 0
unfolding is_over drains
over-drains e [] h = refl
over-drains e (a ∷ p) h = absurd (ground arith)

-- What one wait changes.
pub Drained-pass :
    (n permits e : ℕ) (p p' : List Action)
    → p ≡ wait ∷ p'
    → Drained n permits e p
    → Drained (suc n) permits e p'
unfolding drains
Drained-pass n permits e p p' same (inl some_left) =
    let left : drains e p ≡ drains e p' = ap (drains e) same in inl (omega (arith, left))
Drained-pass n permits e p p' same (inr (inl over)) = inr (inl (omega arith))
Drained-pass n permits e p p' same (inr (inr (now, z))) = inr (inl (omega arith))

pub held-pass :
    (n e : ℕ) (s : Shared)
    → (s.permits ≡ 0) ⊎ ((m : ℕ) × (n ≡ 2 + 2 * m))
    → held (suc n) e s ≡ held n e s
unfolding held
held-pass n e s (inl z) = ground (arith, z)
held-pass n e s (inr (m, even)) = ground (arith, even)

-- What a process's own action, and one of another process q, leave of the draining.
module _ (e n : ℕ) (p p' : List Action) (s s' : Shared) (h : perform p s ≡ some (p', s'))
    (t : staged n p ≡ true) where
  pub Drained-other : (q : List Action) → Drained n s.permits e q → Drained n s'.permits e q
  Drained-other q (inl some_left) = inl some_left
  Drained-other q (inr (inl over)) = inr (inl over)
  Drained-other q (inr (inr (now, z))) =
      inr (inr (now, perform-empty n p p' s s' h t (inr (e, now)) z))

  pub Drained-own : Drained n s.permits e p → Drained n s'.permits e p'
  Drained-own (inl some_left) = elim (perform-drains n e p p' s s' h t) [
    | inl same ↦ inl (omega (arith, same))
    | inr left ↦ inr (inr left)
  ]
  Drained-own (inr (inl over)) = inr (inl over)
  Drained-own (inr (inr (now, z))) = inr (inr (now, perform-empty n p p' s s' h t (inr (e, now)) z))

-- The process number k of the next state.
abbrev pub Helper : ℕ → ℕ → ℕ → System → Type 0
Helper num_epoch k n s =
    (q : List Action) × (get_elem? s.processes k ≡ some q)
    × ((e : ℕ) → e < num_epoch → Drained n s.shared.permits e q)
