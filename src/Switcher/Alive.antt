-- ===== src/Switcher/Alive.antt =====
-- What stays true of the waits and the events while the processes of
-- example/samgraph/balance_switcher/train_pinsage.py run: nobody waits for an event in vain.
use mathlib.Core.Path.{subst}
use fgnn_artifacts.Prelude
use fgnn_artifacts.Prelude.{
  ℕ, zero, suc, ◌+◌, ◌-◌, ◌*◌, ◌≤◌, ◌<◌, ◌≡◌, refl, ◌⊎◌, inl, inr, Bool, true, false, ◌||◌, none,
  some, Option-cases, List, [], ◌∷◌, all_of, length, get_elem?, get_elem?-set_self,
  get_elem?-set_ne, ℕ_discrete, ◌==◌, arith,
}
use fgnn_artifacts.Switcher.{Action, wait, release, sample, drain, clear, set, await, fail}
use fgnn_artifacts.Switcher.Traces.{waits}
use fgnn_artifacts.Switcher.Calls.{is_training, heeds, sets, signals}
use fgnn_artifacts.Switcher.System.{
  Shared, perform, System, advance, opened, go, pass, Steps, stop, step, is_over,
}
use fgnn_artifacts.Switcher.Crowds.{all_of-get, all_of-set, opened-get}
use fgnn_artifacts.Switcher.Accounts.{advance-cases}
use fgnn_artifacts.Switcher.Crossings.{
  load, remaining, level, perform-waits, perform-length, perform-heeds, perform-events,
  perform-signals, perform-sets, load-set, opened-level, opened-heeds, opened-load,
}

-- The event is set, or the program sets it before it waits again, or it has ended.
abbrev pub Armed : ℕ → ℕ → Shared → List Action → Type 0
Armed i n s q = is_training n ≡ true → (s.events i ≡ true) ⊎ ((is_over q || sets i q) ≡ true)

pub record Signaler (i n : ℕ) (s : System) : Type 0 where
  pub place : ℕ
  pub program : List Action
  pub found : get_elem? s.processes place ≡ some program
  pub keeps : signals i n program ≡ true
  pub armed : Armed i n s.shared program

-- After n waits, w are left to each process, and each of the m samplers will set its event.
pub record Alive (m n w : ℕ) (s : System) : Type 0 where
  pub even : level w s.processes ≡ true
  pub heedful : all_of (heeds m n) s.processes ≡ true
  pub signaler : (i : ℕ) → i < m → Signaler i n s
  pub some_process : 0 < length s.processes

-- A process that moves has not ended.
later_lem :
    (i : ℕ) (p p' : List Action) (s s' : Shared)
    → perform p s ≡ some (p', s')
    → (is_over p || sets i p) ≡ true
    → sets i p ≡ true
unfolding perform is_over
later_lem i [] p' s s' h later = absurd (ground arith)
later_lem i (b ∷ p) p' s s' h later = later

module _ (m n : ℕ) (p p' : List Action) (s s' : Shared) (h : perform p s ≡ some (p', s'))
    (a : heeds m n p ≡ true) (i : ℕ) where
  Armed-own : Armed i n s p → Armed i n s' p'
  Armed-own armed t = elim (armed t) [
    | inl done ↦ inl (perform-events m n i p p' s s' h a t done)
    | inr later ↦ elim (perform-sets i n p p' s s' h (later_lem i p p' s s' h later)) [
      | inl done ↦ inl done
      | inr left ↦ inr (ground (arith, left))
    ]
  ]

  Armed-other : (q : List Action) → Armed i n s q → Armed i n s' q
  Armed-other q armed t = elim (armed t) [
    | inl done ↦ inl (perform-events m n i p p' s s' h a t done)
    | inr later ↦ inr later
  ]

Signaler-go :
    (m n i j : ℕ) (s t : System) (p p' : List Action)
    → get_elem? s.processes j ≡ some p
    → perform p s.shared ≡ some (p', t.shared)
    → t.processes ≡ Prelude.set s.processes j p'
    → heeds m n p ≡ true
    → Signaler i n s
    → Signaler i n t
Signaler-go m n i j s t p p' found done moved a sg = elim (ℕ_discrete j sg.place) [
  | yes same ↦
      let own : sg.program ≡ p = ground (arith, found, sg.found, same) in
      record {
        place = j;
        program = p';
        found = rw moved (get_elem?-set_self s.processes j p' p found);
        keeps = perform-signals i n p p' s.shared t.shared done (rw (← own) sg.keeps);
        armed =
            Armed-own m n p p' s.shared t.shared done a i
              (subst (λ q. Armed i n s.shared q) own sg.armed);
      }
  | no ne ↦ record {
    place = sg.place;
    program = sg.program;
    found = rw (moved, get_elem?-set_ne s.processes j sg.place p' ne) sg.found;
    keeps = sg.keeps;
    armed = Armed-other m n p p' s.shared t.shared done a i sg.program sg.armed;
  }
]

length-set : {A : Type 0} (xs : List A) (i : ℕ) (x : A) → length (Prelude.set xs i x) ≡ length xs
length-set [] i x = refl
length-set (y ∷ xs) zero x = refl
length-set (y ∷ xs) (suc i) x = omega (arith, length-set xs i x)

pub Alive-go :
    (m n w i : ℕ) (s t : System)
    → Alive m n w s
    → advance i s ≡ some t
    → Alive m n w t × (remaining t < remaining s)
unfolding remaining level
Alive-go m n w i s t a h =
    let (p, p', found, done, moved) = advance-cases i s t h in
    let heed = all_of-get (heeds m n) s.processes i p a.heedful found in
    let same_waits = perform-waits p p' s.shared t.shared done in
    let level_p = all_of-get (λ q. waits q == w) s.processes i p a.even found in
    (
      record {
        even = rw moved (
            all_of-set (λ q. waits q == w) s.processes i p' a.even
              (ground (arith, same_waits, level_p)));
        heedful = rw moved (
            all_of-set (heeds m n) s.processes i p' a.heedful
              (perform-heeds m n p p' s.shared t.shared done heed));
        signaler = λ j lt. Signaler-go m n j i s t p p' found done moved heed (a.signaler j lt);
        some_process = rw (moved, length-set s.processes i p') a.some_process;
      },
      rw moved (
          omega
            (arith, load-set s.processes i p p' found, perform-length p p' s.shared t.shared done)),
    )

Signaler-pass :
    (i n : ℕ) (s : System) (ps : List (List Action))
    → opened s.processes ≡ some ps
    → Signaler i n s
    → Signaler i (suc n) (record s { processes = ps })
unfolding signals
Signaler-pass i n s ps o sg =
    let (p', same, found) = opened-get s.processes ps sg.place sg.program o sg.found in
    let keeps : signals i n (wait ∷ p') ≡ true = subst (λ q. signals i n q ≡ true) same sg.keeps in
    record {
      place = sg.place;
      program = p';
      found = found;
      keeps = ground (arith, keeps);
      armed = λ t. inr (ground (arith, keeps, t));
    }

opened-length : (ps qs : List (List Action)) → opened ps ≡ some qs → 0 < length ps → 0 < length qs
unfolding opened
opened-length [] qs o h = absurd (omega arith)
opened-length ([] ∷ ps) qs o h = absurd (ground arith)
opened-length ((wait ∷ p) ∷ ps) qs o h = elim (Option-cases (opened ps)) [
  | inl closed ↦ absurd (ground arith)
  | inr (rs, rest) ↦ ground arith
]
opened-length ((release e ∷ p) ∷ ps) qs o h = absurd (ground arith)
opened-length ((sample e ∷ p) ∷ ps) qs o h = absurd (ground arith)
opened-length ((drain e ∷ p) ∷ ps) qs o h = absurd (ground arith)
opened-length ((clear i ∷ p) ∷ ps) qs o h = absurd (ground arith)
opened-length ((set i ∷ p) ∷ ps) qs o h = absurd (ground arith)
opened-length ((await i ∷ p) ∷ ps) qs o h = absurd (ground arith)
opened-length ((fail ∷ p) ∷ ps) qs o h = absurd (ground arith)

pub Alive-pass :
    (m n w : ℕ) (s : System) (ps : List (List Action))
    → Alive m n w s
    → opened s.processes ≡ some ps
    → Alive m (suc n) (w - 1) (record s { processes = ps })
      × (load ps + s.shared.permits < remaining s)
unfolding remaining
Alive-pass m n w s ps a o = (
  record {
    even = opened-level w s.processes ps o a.even;
    heedful = opened-heeds m n s.processes ps o a.heedful;
    signaler = λ i lt. Signaler-pass i n s ps o (a.signaler i lt);
    some_process = opened-length s.processes ps o a.some_process;
  },
  omega (arith, opened-load s.processes ps o, a.some_process),
)

-- The number of steps.
unfoldable pub steps_of : {s t : System} → Steps s t → ℕ
steps_of stop = 0
steps_of (step before last) = suc (steps_of before)

-- A process stays alive, and each step takes some of the work.
pub Alive-Steps :
    (m w : ℕ) (s t : System)
    → Alive m 0 w s
    → (steps : Steps s t)
    → (n : ℕ) × (v : ℕ) × Alive m n v t × (steps_of steps + remaining t ≤ remaining s)
unfolding steps_of remaining
Alive-Steps m w s t a stop = (0, w, a, omega arith)
Alive-Steps m w s t a (step {t = u} before (go i h)) =
    let (n, v, b, bound) = Alive-Steps m w s u a before in
    let (c, less) = Alive-go m n v i u t b h in (n, v, c, omega arith)
Alive-Steps m w s t a (step {t = u} before (pass {ps = ps} o)) =
    let (n, v, b, bound) = Alive-Steps m w s u a before in
    let (c, less) = Alive-pass m n v u ps b o in (suc n, v - 1, c, omega arith)
