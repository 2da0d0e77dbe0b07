-- ===== src/Switcher/Runs.antt =====
-- The accounts hold in every state that the processes of
-- example/samgraph/balance_switcher/train_pinsage.py reach.
use fgnn_artifacts.Prelude
use fgnn_artifacts.Prelude.{
  ℕ, zero, suc, ◌+◌, ◌-◌, ◌*◌, ◌/◌, ◌%◌, ◌≤◌, ◌<◌, ◌≡◌, refl, ap, sym, ◌∙◌, ◌⊎◌, inl, inr, Bool,
  true, false, none, some, Option-cases, List, [], ◌∷◌, all_of, get_elem?, get_elem?-set_self,
  get_elem?-set_ne, dec_lt, ℕ_discrete, arith,
}
use fgnn_artifacts.Switcher.{Action}
use fgnn_artifacts.Switcher.Traces.{drains, staged}
use fgnn_artifacts.Switcher.System.{
  perform, System, advance, opened, go, pass, Steps, stop, step, is_over, is_finished,
}
use fgnn_artifacts.Switcher.Moves.{count, held, perform-staged, perform-held, perform-empty}
use fgnn_artifacts.Switcher.Crowds.{
  pending_all-set, all_of-get, all_of-set, opened-staged, opened-pending, opened-get,
}
use fgnn_artifacts.Switcher.Accounts.{
  Accounts, advance-cases, stage-cases, pending_all-over, waiting-drains, over-drains, Drained-pass,
  held-pass, Drained-other, Drained-own, Helper,
}

module _ (amount : ℕ → ℕ) (num_epoch k : ℕ) where
  Helper-go :
      (n i : ℕ) (s t : System) (p p' : List Action)
      → Accounts amount num_epoch k n s
      → get_elem? s.processes i ≡ some p
      → perform p s.shared ≡ some (p', t.shared)
      → t.processes ≡ Prelude.set s.processes i p'
      → staged n p ≡ true
      → Helper num_epoch k n t
  Helper-go n i s t p p' a found done moved st = elim (ℕ_discrete i k) [
    | yes same ↦
        let own : p ≡ a.program = ground (arith, found, a.at_k, same) in
        (
          p',
          rw (moved, ← same) (get_elem?-set_self s.processes i p' p found),
          λ e lt. Drained-own e n p p' s.shared t.shared done st (rw own (a.helps e lt)),
        )
    | no ne ↦ (
      a.program,
      rw (moved, get_elem?-set_ne s.processes i k p' ne) a.at_k,
      λ e lt. Drained-other e n p p' s.shared t.shared done st a.program (a.helps e lt),
    )
  ]

  Accounts-go :
      (n i : ℕ) (s t : System)
      → Accounts amount num_epoch k n s
      → advance i s ≡ some t
      → Accounts amount num_epoch k n t
  Accounts-go n i s t a h =
      let (p, p', found, done, moved) = advance-cases i s t h in
      let st = all_of-get (staged n) s.processes i p a.in_time found in
      let (q, at_k, helps) = Helper-go n i s t p p' a found done moved st in
      record {
        in_time = rw moved (
            all_of-set (staged n) s.processes i p' a.in_time
              (perform-staged n p p' s.shared t.shared done st));
        balance = λ e. rw moved (
            omega (
              arith,
              a.balance e,
              perform-held n e p p' s.shared t.shared done st,
              pending_all-set e s.processes i p p' found,
            ));
        early = λ lt. perform-empty n p p' s.shared t.shared done st (inl lt) (a.early lt);
        program = q;
        at_k = at_k;
        helps = helps;
      }

  -- The semaphore is empty whenever the barrier opens, but in the stage in which it is filled.
  empty-at_barrier :
      (n : ℕ) (s : System) (ps : List (List Action))
      → Accounts amount num_epoch k n s
      → ((e : ℕ) → num_epoch ≤ e → amount e ≡ 0)
      → opened s.processes ≡ some ps
      → (n < 2) ⊎ ((m : ℕ) × (n ≡ 3 + 2 * m))
      → s.shared.permits ≡ 0
  unfolding held
  empty-at_barrier n s ps a none_later o (inl lt) = a.early lt
  empty-at_barrier n s ps a none_later o (inr (m, odd)) = elim (dec_lt m num_epoch) [
    | no ge ↦ ground (arith, none_later m (omega arith), a.balance m, odd)
    | yes lt ↦ elim (a.helps m lt) [
      | inr (inl over) ↦ absurd (omega arith)
      | inr (inr (_, z)) ↦ z
      | inl some_left ↦
          let (p', same, found) = opened-get s.processes ps k a.program o a.at_k in
          let st = all_of-get (staged n) s.processes k a.program a.in_time a.at_k in
          let none_left = waiting-drains n m a.program p' same st odd in
          absurd (omega (arith, none_left))
    ]
  ]

  at_stage :
      (n : ℕ) (s : System) (ps : List (List Action))
      → Accounts amount num_epoch k n s
      → ((e : ℕ) → num_epoch ≤ e → amount e ≡ 0)
      → opened s.processes ≡ some ps
      → (s.shared.permits ≡ 0) ⊎ ((m : ℕ) × (n ≡ 2 + 2 * m))
  at_stage n s ps a none_later o = elim (stage-cases n) [
    | inl lt ↦ inl (empty-at_barrier n s ps a none_later o (inl lt))
    | inr (inl even) ↦ inr even
    | inr (inr odd) ↦ inl (empty-at_barrier n s ps a none_later o (inr odd))
  ]

  Accounts-pass :
      (n : ℕ) (s : System) (ps : List (List Action))
      → Accounts amount num_epoch k n s
      → ((e : ℕ) → num_epoch ≤ e → amount e ≡ 0)
      → opened s.processes ≡ some ps
      → Accounts amount num_epoch k (suc n) (record s { processes = ps })
  Accounts-pass n s ps a none_later o =
      let (p', same, found) = opened-get s.processes ps k a.program o a.at_k in
      record {
        in_time = opened-staged n s.processes ps o a.in_time;
        balance = λ e. omega (
          arith,
          a.balance e,
          opened-pending e s.processes ps o,
          held-pass n e s.shared (at_stage n s ps a none_later o),
        );
        early = λ lt. a.early (omega arith);
        program = p';
        at_k = found;
        helps = λ e lt. Drained-pass n s.shared.permits e a.program p' same (a.helps e lt);
      }

  pub Accounts-Steps :
      (s t : System)
      → Accounts amount num_epoch k 0 s
      → ((e : ℕ) → num_epoch ≤ e → amount e ≡ 0)
      → Steps s t
      → (n : ℕ) × Accounts amount num_epoch k n t
  Accounts-Steps s t a none_later stop = (0, a)
  Accounts-Steps s t a none_later (step {t = u} before (go i h)) =
      let (n, b) = Accounts-Steps s u a none_later before in (n, Accounts-go n i u t b h)
  Accounts-Steps s t a none_later (step {t = u} before (pass {ps = ps} o)) =
      let (n, b) = Accounts-Steps s u a none_later before in
      (suc n, Accounts-pass n u ps b none_later o)

  -- When all processes have ended, each batch has been trained once.
  pub Accounts-finished :
      (s t : System) (e : ℕ)
      → Accounts amount num_epoch k 0 s
      → ((e : ℕ) → num_epoch ≤ e → amount e ≡ 0)
      → Steps s t
      → is_finished t ≡ true
      → e < num_epoch
      → count e t.shared.trained ≡ amount e
  unfolding is_finished held drains is_over
  Accounts-finished s t e a none_later steps f lt =
      let (n, b) = Accounts-Steps s t a none_later steps in
      let nothing_pending = pending_all-over e t.processes f in
      let ended = all_of-get is_over t.processes k b.program f b.at_k in
      elim (b.helps e lt) [
        | inl some_left ↦ let left = over-drains e b.program ended in absurd (omega (arith, left))
        | inr (inl over) ↦ ground (arith, b.balance e, nothing_pending, over)
        | inr (inr (now, z)) ↦ ground (arith, b.balance e, nothing_pending, z)
      ]
