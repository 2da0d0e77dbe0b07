-- ===== src/Switcher/Progress.antt =====
-- No process of example/samgraph/balance_switcher/train_pinsage.py waits for ever, neither at the barrier
-- nor for an event.
use fgnn_artifacts.Prelude.{
  ℕ, zero, suc, ◌+◌, ◌-◌, ◌*◌, ◌≤◌, ◌<◌, ◌≡◌, refl, ap, sym, ◌⊎◌, inl, inr, Bool, true, false, ◌&&◌,
  none, some, Option, Option-cases, List, [], ◌∷◌, ◌++◌, all_of, length, get_elem?,
  get_elem?-append_at, ◌==◌, arith,
}
use mathlib.Core.Path.{subst}
use fgnn_artifacts.Prelude
use fgnn_artifacts.Switcher.{Action, wait, release, sample, drain, clear, set, await, fail}
use fgnn_artifacts.Switcher.Traces.{waits}
use fgnn_artifacts.Switcher.Calls.{heeds, sets}
use fgnn_artifacts.Switcher.System.{
  Shared, perform, System, advance, opened, Step, go, pass, is_over, is_finished,
}
use fgnn_artifacts.Switcher.Crowds.{all_of-get}
use fgnn_artifacts.Switcher.Crossings.{level, sets-perform}
use fgnn_artifacts.Switcher.Alive.{Alive}

-- One process can go on, or one awaits an event that is not set, or all have ended, or all wait.
abbrev Able : List (List Action) → Shared → Type 0
Able ps s =
    (k : ℕ) × (p : List Action) × (p' : List Action) × (s' : Shared) × (get_elem? ps k ≡ some p)
    × (perform p s ≡ some (p', s'))

abbrev Blocked : List (List Action) → Shared → Type 0
Blocked ps s =
    (k : ℕ) × (i : ℕ) × (p : List Action) × (get_elem? ps k ≡ some (await i ∷ p))
    × (s.events i ≡ false)

abbrev Parked : List (List Action) → Type 0
Parked ps = (all_of is_over ps ≡ true) ⊎ ((qs : List (List Action)) × (opened ps ≡ some qs))

-- What the next action of one process allows.
abbrev Next : List Action → Shared → Type 0
Next p s =
    ((p' : List Action) × (s' : Shared) × (perform p s ≡ some (p', s')))
    ⊎ (((i : ℕ) × (q : List Action) × (p ≡ await i ∷ q) × (s.events i ≡ false))
        ⊎ ((p ≡ []) ⊎ ((q : List Action) × (p ≡ wait ∷ q))))

next : (m n : ℕ) (p : List Action) (s : Shared) → heeds m n p ≡ true → Next p s
unfolding perform heeds
next m n [] s h = inr (inr (inl refl))
next m n (wait ∷ p) s h = inr (inr (inr (p, refl)))
next m n (release e ∷ p) s h = inl (_, _, refl)
next m n (sample e ∷ p) s h = inl (_, _, refl)
next m n (drain e ∷ p) s h = elim (Option-cases (perform (drain e ∷ p) s)) [
  | inl stuck ↦ absurd (ground (arith, stuck))
  | inr ((p', s'), done) ↦ inl (p', s', done)
]
next m n (clear i ∷ p) s h = inl (_, _, refl)
next m n (set i ∷ p) s h = inl (_, _, refl)
next m n (fail ∷ p) s h = absurd (ground arith)
next m n (await i ∷ p) s h = elim (Option-cases (perform (await i ∷ p) s)) [
  | inl stuck ↦ inr (inl (i, p, refl, ground (arith, stuck)))
  | inr ((p', s'), done) ↦ inl (p', s', done)
]

ended_lem :
    (w : ℕ) (ps : List (List Action)) → all_of is_over ps ≡ true → level (suc w) ps ≡ true → ps ≡ []
unfolding is_over level waits
ended_lem w [] f l = refl
ended_lem w ([] ∷ ps) f l = absurd (ground arith)
ended_lem w ((a ∷ p) ∷ ps) f l = absurd (ground arith)

waiting_lem : (ps qs : List (List Action)) → opened ps ≡ some qs → level 0 ps ≡ true → ps ≡ []
unfolding opened level waits
waiting_lem [] qs o l = refl
waiting_lem ([] ∷ ps) qs o l = absurd (ground arith)
waiting_lem ((wait ∷ p) ∷ ps) qs o l = absurd (ground arith)
waiting_lem ((release e ∷ p) ∷ ps) qs o l = absurd (ground arith)
waiting_lem ((sample e ∷ p) ∷ ps) qs o l = absurd (ground arith)
waiting_lem ((drain e ∷ p) ∷ ps) qs o l = absurd (ground arith)
waiting_lem ((clear i ∷ p) ∷ ps) qs o l = absurd (ground arith)
waiting_lem ((set i ∷ p) ∷ ps) qs o l = absurd (ground arith)
waiting_lem ((await i ∷ p) ∷ ps) qs o l = absurd (ground arith)
waiting_lem ((fail ∷ p) ∷ ps) qs o l = absurd (ground arith)

Parked-end :
    (w : ℕ) (ps : List (List Action)) → level w ([] ∷ ps) ≡ true → Parked ps → Parked ([] ∷ ps)
unfolding opened level waits is_over
Parked-end w ps l (inl f) = inl f
Parked-end w ps l (inr (qs, o)) = inl (ground (arith, waiting_lem ps qs o))

Parked-wait :
    (w : ℕ) (p : List Action) (ps : List (List Action))
    → level w ((wait ∷ p) ∷ ps) ≡ true
    → Parked ps
    → Parked ((wait ∷ p) ∷ ps)
unfolding opened level waits is_over
Parked-wait w p ps l (inl f) = inr (p ∷ [], ground (arith, ended_lem (waits p) ps f))
Parked-wait w p ps l (inr (qs, o)) = inr (p ∷ qs, ground (arith, o))

abbrev Verdict : List (List Action) → Shared → Type 0
Verdict ps s = Able ps s ⊎ (Blocked ps s ⊎ Parked ps)

Verdict-cons :
    (w : ℕ) (p : List Action) (ps : List (List Action)) (s : Shared)
    → level w (p ∷ ps) ≡ true
    → Next p s
    → Verdict ps s
    → Verdict (p ∷ ps) s
Verdict-cons w p ps s l (inl (p', s', done)) v = inl (0, p, p', s', refl, done)
Verdict-cons w p ps s l n (inl (k, q, q', s', found, done)) = inl (suc k, q, q', s', found, done)
Verdict-cons w p ps s l (inr (inl (i, q, same, unset))) v = inr (inl (0, i, q, ap some same, unset))
Verdict-cons w p ps s l n (inr (inl (k, i, q, found, unset))) =
    inr (inl (suc k, i, q, found, unset))
Verdict-cons w p ps s l (inr (inr (inl over))) (inr (inr parked)) = inr (
    inr (
      subst (λ q. Parked (q ∷ ps)) (sym over)
        (Parked-end w ps (subst (λ q. level w (q ∷ ps) ≡ true) over l) parked)))
Verdict-cons w p ps s l (inr (inr (inr (q, waiting)))) (inr (inr parked)) = inr (
    inr (
      subst (λ r. Parked (r ∷ ps)) (sym waiting)
        (Parked-wait w q ps (subst (λ r. level w (r ∷ ps) ≡ true) waiting l) parked)))

verdict :
    (m n w : ℕ) (ps : List (List Action)) (s : Shared)
    → level w ps ≡ true
    → all_of (heeds m n) ps ≡ true
    → Verdict ps s
unfolding level
verdict m n w [] s l h = inr (inr (inl refl))
verdict m n w (p ∷ ps) s l h =
    Verdict-cons w p ps s l (next m n p s (ground arith))
      (verdict m n w ps s (ground arith) (ground arith))

over-waits : (p : List Action) → is_over p ≡ true → waits p ≡ 0
unfolding is_over waits
over-waits [] h = refl
over-waits (a ∷ p) h = absurd (ground arith)

-- Where a process awaits an event, the sampler of the event can go on.
unblock :
    (m n w : ℕ) (s : System)
    → Alive m n w s
    → Blocked s.processes s.shared
    → Able s.processes s.shared
unfolding heeds level waits
unblock m n w s a (k, i, p, found, unset) =
    let heed = all_of-get (heeds m n) s.processes k (await i ∷ p) a.heedful found in
    let even_p = all_of-get (λ q. waits q == w) s.processes k (await i ∷ p) a.even found in
    let sg = a.signaler i (ground (arith, heed)) in
    let even_q = all_of-get (λ q. waits q == w) s.processes sg.place sg.program a.even sg.found in
    elim (sg.armed (ground (arith, heed))) [
      | inl done ↦ absurd (ground (arith, done, unset))
      | inr later ↦ elim (Prelude.Bool-cases (sets i sg.program)) [
        | inl yes_set ↦
            let (p', s', done) = sets-perform i n sg.program s.shared yes_set sg.keeps in
            (sg.place, sg.program, p', s', sg.found, done)
        | inr no_set ↦
            let over : is_over sg.program ≡ true = ground (arith, later, no_set) in
            absurd (ground (arith, heed, even_p, even_q, over-waits sg.program over))
      ]
    ]

pub CanStep : System → Type 0
CanStep s = (t : System) × Step s t

able_lem : (s : System) → Able s.processes s.shared → CanStep s
unfolding CanStep advance
able_lem s (k, p, p', s', found, done) = (
  record { processes = Prelude.set s.processes k p'; shared = s' },
  go k (ground (arith, found, done)),
)

pub can_step : (m n w : ℕ) (s : System) → Alive m n w s → (is_finished s ≡ true) ⊎ CanStep s
unfolding CanStep is_finished
can_step m n w s a = elim (verdict m n w s.processes s.shared a.even a.heedful) [
  | inl able ↦ inr (able_lem s able)
  | inr (inl blocked) ↦ inr (able_lem s (unblock m n w s a blocked))
  | inr (inr (inl over)) ↦ inl over
  | inr (inr (inr (qs, o))) ↦ inr (record s { processes = qs }, pass o)
]
