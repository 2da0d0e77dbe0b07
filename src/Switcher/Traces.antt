-- ===== src/Switcher/Traces.antt =====
-- What the programs of the processes hold: how often they wait and release the semaphore for an epoch,
-- and between which waits they use it.
use fgnn_artifacts.Prelude.{
  ℕ, zero, suc, ◌+◌, ◌*◌, ◌<◌, ◌≡◌, refl, Bool, true, ◌&&◌, List, [], ◌∷◌, ◌++◌, ltb, leb, ◌==◌,
  if◌then◌else◌, arith,
}
use fgnn_artifacts.Switcher.{
  Action, wait, release, sample, drain, clear, set, await, fail, epochs, process,
}

unfoldable pub waits : List Action → ℕ
waits [] = 0
waits (wait ∷ p) = suc (waits p)
waits (a ∷ p) = waits p

-- The permits for an epoch that are still to be released.
unfoldable pub pending : ℕ → List Action → ℕ
pending e [] = 0
pending e (release k ∷ p) = (if k == e then 1 else 0) + pending e p
pending e (a ∷ p) = pending e p

unfoldable pub drains : ℕ → List Action → ℕ
drains e [] = 0
drains e (drain k ∷ p) = (if k == e then 1 else 0) + drains e p
drains e (a ∷ p) = drains e p

-- The permits of an epoch are released after the wait number 2 + 2 * e, and acquired after the next.
abbrev pub timely : ℕ → Action → Bool
timely n (release e) = n == 2 + 2 * e
timely n (drain e) = n == 3 + 2 * e
timely n _ = true

unfoldable pub staged : ℕ → List Action → Bool
staged n [] = true
staged n (wait ∷ p) = staged (suc n) p
staged n (a ∷ p) = timely n a && staged n p

pub waits-append : (p q : List Action) → waits (p ++ q) ≡ waits p + waits q
unfolding waits
waits-append [] q = omega arith
waits-append (wait ∷ p) q = ground (arith, waits-append p q)
waits-append (release e ∷ p) q = waits-append p q
waits-append (sample e ∷ p) q = waits-append p q
waits-append (drain e ∷ p) q = waits-append p q
waits-append (clear i ∷ p) q = waits-append p q
waits-append (set i ∷ p) q = waits-append p q
waits-append (await i ∷ p) q = waits-append p q
waits-append (fail ∷ p) q = waits-append p q

pub pending-append : (e : ℕ) (p q : List Action) → pending e (p ++ q) ≡ pending e p + pending e q
unfolding pending
pending-append e [] q = omega arith
pending-append e (wait ∷ p) q = pending-append e p q
pending-append e (release k ∷ p) q = ground (arith, pending-append e p q)
pending-append e (sample k ∷ p) q = pending-append e p q
pending-append e (drain k ∷ p) q = pending-append e p q
pending-append e (clear i ∷ p) q = pending-append e p q
pending-append e (set i ∷ p) q = pending-append e p q
pending-append e (await i ∷ p) q = pending-append e p q
pending-append e (fail ∷ p) q = pending-append e p q

pub drains-append : (e : ℕ) (p q : List Action) → drains e (p ++ q) ≡ drains e p + drains e q
unfolding drains
drains-append e [] q = omega arith
drains-append e (wait ∷ p) q = drains-append e p q
drains-append e (release k ∷ p) q = drains-append e p q
drains-append e (sample k ∷ p) q = drains-append e p q
drains-append e (drain k ∷ p) q = ground (arith, drains-append e p q)
drains-append e (clear i ∷ p) q = drains-append e p q
drains-append e (set i ∷ p) q = drains-append e p q
drains-append e (await i ∷ p) q = drains-append e p q
drains-append e (fail ∷ p) q = drains-append e p q

pub staged-append :
    (n : ℕ) (p q : List Action) → staged n (p ++ q) ≡ staged n p && staged (n + waits p) q
unfolding staged waits
staged-append n [] q = let same : n + 0 ≡ n = omega arith in rw same refl
staged-append n (wait ∷ p) q =
    let same : n + suc (waits p) ≡ suc n + waits p = omega arith in
    rw same (staged-append (suc n) p q)
staged-append n (release e ∷ p) q = ground (arith, staged-append n p q)
staged-append n (sample e ∷ p) q = ground (arith, staged-append n p q)
staged-append n (drain e ∷ p) q = ground (arith, staged-append n p q)
staged-append n (clear i ∷ p) q = ground (arith, staged-append n p q)
staged-append n (set i ∷ p) q = ground (arith, staged-append n p q)
staged-append n (await i ∷ p) q = ground (arith, staged-append n p q)
staged-append n (fail ∷ p) q = ground (arith, staged-append n p q)

-- After its stage, nothing of an epoch is left.
pub pending-late : (n e : ℕ) (p : List Action) → staged n p ≡ true → 2 + 2 * e < n → pending e p ≡ 0
unfolding staged pending
pending-late n e [] s late = refl
pending-late n e (wait ∷ p) s late = pending-late (suc n) e p s (omega arith)
pending-late n e (release k ∷ p) s late = ground (arith, pending-late n e p (ground arith) late)
pending-late n e (sample k ∷ p) s late = pending-late n e p (ground arith) late
pending-late n e (drain k ∷ p) s late = pending-late n e p (ground arith) late
pending-late n e (clear i ∷ p) s late = pending-late n e p (ground arith) late
pending-late n e (set i ∷ p) s late = pending-late n e p (ground arith) late
pending-late n e (await i ∷ p) s late = pending-late n e p (ground arith) late
pending-late n e (fail ∷ p) s late = pending-late n e p (ground arith) late

pub drains-late : (n e : ℕ) (p : List Action) → staged n p ≡ true → 3 + 2 * e < n → drains e p ≡ 0
unfolding staged drains
drains-late n e [] s late = refl
drains-late n e (wait ∷ p) s late = drains-late (suc n) e p s (omega arith)
drains-late n e (drain k ∷ p) s late = ground (arith, drains-late n e p (ground arith) late)
drains-late n e (release k ∷ p) s late = drains-late n e p (ground arith) late
drains-late n e (sample k ∷ p) s late = drains-late n e p (ground arith) late
drains-late n e (clear i ∷ p) s late = drains-late n e p (ground arith) late
drains-late n e (set i ∷ p) s late = drains-late n e p (ground arith) late
drains-late n e (await i ∷ p) s late = drains-late n e p (ground arith) late
drains-late n e (fail ∷ p) s late = drains-late n e p (ground arith) late

-- What is known of the body of an epoch's loop.
pub record Body (body : ℕ → List Action) (amount turns : ℕ) : Type 0 where
  pub two : (e : ℕ) → waits (body e) ≡ 2
  pub in_time : (e : ℕ) → staged (2 + 2 * e) (body e) ≡ true
  pub amount_of : (e k : ℕ) → pending e (body k) ≡ (if k == e then amount else 0)
  pub turns_of : (e k : ℕ) → drains e (body k) ≡ (if k == e then turns else 0)

-- What is known of the end of a process.
pub record Plain (end : List Action) : Type 0 where
  pub in_order : (n : ℕ) → staged n end ≡ true
  pub releases_none : (e : ℕ) → pending e end ≡ 0
  pub drains_none : (e : ℕ) → drains e end ≡ 0

module _ {body : ℕ → List Action} {amount turns : ℕ} (b : Body body amount turns) where
  staged-epochs : (rounds e : ℕ) → staged (2 + 2 * e) (epochs body rounds e) ≡ true
  unfolding epochs staged
  staged-epochs zero e = refl
  staged-epochs (suc rounds) e =
      let next : 2 + 2 * e + waits (body e) ≡ 2 + 2 * suc e = omega (arith, b.two e) in
      rw (staged-append (2 + 2 * e) (body e) (epochs body rounds (suc e)), b.in_time e, next)
        (staged-epochs rounds (suc e))

  pending-epochs :
      (rounds first e : ℕ)
      → pending e (epochs body rounds first)
        ≡ (if leb first e && ltb e (first + rounds) then amount else 0)
  unfolding epochs pending
  pending-epochs zero first e = ground arith
  pending-epochs (suc rounds) first e = ground (
    arith,
    pending-append e (body first) (epochs body rounds (suc first)),
    b.amount_of e first,
    pending-epochs rounds (suc first) e,
  )

  drains-epochs :
      (rounds first e : ℕ)
      → drains e (epochs body rounds first)
        ≡ (if leb first e && ltb e (first + rounds) then turns else 0)
  unfolding epochs drains
  drains-epochs zero first e = ground arith
  drains-epochs (suc rounds) first e = ground (
    arith,
    drains-append e (body first) (epochs body rounds (suc first)),
    b.turns_of e first,
    drains-epochs rounds (suc first) e,
  )

  pub staged-process :
      {end : List Action} (num_epoch : ℕ) → Plain end → staged 0 (process body num_epoch end) ≡ true
  unfolding process staged
  staged-process {end = end} num_epoch plain =
      rw (staged-append 2 (epochs body num_epoch 0) end, staged-epochs num_epoch 0)
        (plain.in_order _)

  pub pending-process :
      {end : List Action} (num_epoch e : ℕ)
      → Plain end
      → pending e (process body num_epoch end) ≡ (if ltb e num_epoch then amount else 0)
  unfolding process pending
  pending-process {end = end} num_epoch e plain = ground (
    arith,
    pending-append e (epochs body num_epoch 0) end,
    plain.releases_none e,
    pending-epochs num_epoch 0 e,
  )

  pub drains-process :
      {end : List Action} (num_epoch e : ℕ)
      → Plain end
      → drains e (process body num_epoch end) ≡ (if ltb e num_epoch then turns else 0)
  unfolding process drains
  drains-process {end = end} num_epoch e plain = ground (
    arith,
    drains-append e (epochs body num_epoch 0) end,
    plain.drains_none e,
    drains-epochs num_epoch 0 e,
  )
