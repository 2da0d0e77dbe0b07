-- ===== src/Prelude/Lists.antt =====
-- Lists measured and indexed by native numbers, and filtered by Boolean tests.
use Prim.Native.String.{String}
use Prim.Native.Nat.{ℕ, zero, suc, ◌+◌, ◌*◌}
use mathlib.Core.Path.{◌≡◌, refl, ap}
use mathlib.Core.Logic.{◌≢◌}
use mathlib.Core.Bool.{Bool, true, false, ◌&&◌, ◌||◌}
use mathlib.Core.List.Perm
use mathlib.Core.List.{List, [], ◌∷◌, ◌++◌, map, Perm, perm_middle}
use mathlib.Core.Option.{Option, none, some}
use native.Mathlib.Omega.{arith}
use fgnn_artifacts.Prelude.Tests.{if◌then◌else◌, ◌=ˢ◌}

module _ {ℓ} {A : Type ℓ} where
  abbrev pub length : List A → ℕ
  length [] = 0
  length (x ∷ xs) = suc (length xs)

  abbrev pub get_elem? : List A → ℕ → Option A
  get_elem? [] i = none
  get_elem? (x ∷ xs) zero = some x
  get_elem? (x ∷ xs) (suc i) = get_elem? xs i

  -- A write out of bounds changes nothing.
  abbrev pub set : List A → ℕ → A → List A
  set [] i v = []
  set (x ∷ xs) zero v = v ∷ xs
  set (x ∷ xs) (suc i) v = x ∷ set xs i v

  abbrev pub replicate : ℕ → A → List A
  replicate zero a = []
  replicate (suc n) a = a ∷ replicate n a

  pub length-append : (xs ys : List A) → length (xs ++ ys) ≡ length xs + length ys
  length-append [] ys = omega arith
  length-append (x ∷ xs) ys = omega (arith, length-append xs ys)

  pub length-set : (xs : List A) (i : ℕ) (v : A) → length (set xs i v) ≡ length xs
  length-set [] i v = refl
  length-set (x ∷ xs) zero v = refl
  length-set (x ∷ xs) (suc i) v = ap suc (length-set xs i v)

  pub length-replicate : (n : ℕ) (a : A) → length (replicate n a) ≡ n
  length-replicate zero a = refl
  length-replicate (suc n) a = ap suc (length-replicate n a)

-- The items that pass a test, and those that fail it, in order.
module _ {ℓ} {A : Type ℓ} (p : A → Bool) where
  abbrev pub retain : List A → List A
  retain [] = []
  retain (x ∷ xs) = if p x then x ∷ retain xs else retain xs

  abbrev pub reject : List A → List A
  reject [] = []
  reject (x ∷ xs) = if p x then reject xs else x ∷ reject xs

  abbrev pub all_of : List A → Bool
  all_of [] = true
  all_of (x ∷ xs) = p x && all_of xs

module _ {ℓ} {A : Type ℓ} (p : A → Bool) where
  pub retain-append : (xs ys : List A) → retain p (xs ++ ys) ≡ retain p xs ++ retain p ys
  retain-append [] ys = refl
  retain-append (x ∷ xs) ys = ground (arith, retain-append xs ys)

  pub reject-append-retain-perm : (xs : List A) → Perm (reject p xs ++ retain p xs) xs
  reject-append-retain-perm [] = Perm.rfl
  reject-append-retain-perm (x ∷ xs) =
      let kept = Perm.cons x (reject-append-retain-perm xs) in
      ground (arith, Perm.trans (perm_middle (reject p xs) (retain p xs)) kept, kept)

  pub retain_all : (xs : List A) → all_of p xs ≡ true → retain p xs ≡ xs
  retain_all [] h = refl
  retain_all (x ∷ xs) h = ground (arith, retain_all xs)

module _ {ℓ} {A : Type ℓ} (p q : A → Bool) where
  pub retain-retain : (xs : List A) → retain p (retain q xs) ≡ retain (λ x. q x && p x) xs
  retain-retain [] = refl
  retain-retain (x ∷ xs) = ground (arith, retain-retain xs)

module _ {ℓ κ} {A : Type ℓ} {B : Type κ} where
  -- The rows of a nested loop, one after another.
  abbrev pub flat_map : (A → List B) → List A → List B
  flat_map f [] = []
  flat_map f (x ∷ xs) = f x ++ flat_map f xs

  pub length-map : (f : A → B) (xs : List A) → length (map f xs) ≡ length xs
  length-map f [] = refl
  length-map f (x ∷ xs) = ap suc (length-map f xs)

  pub length-flat_map :
      (f : A → List B) (n : ℕ) (xs : List A)
      → ((x : A) → length (f x) ≡ n)
      → length (flat_map f xs) ≡ length xs * n
  length-flat_map f n [] h = omega arith
  length-flat_map f n (x ∷ xs) h =
      omega (arith, h x, length-append (f x) (flat_map f xs), length-flat_map f n xs h)

  pub retain-map :
      (p : B → Bool) (f : A → B) (xs : List A)
      → retain p (map f xs) ≡ map f (retain (λ x. p (f x)) xs)
  retain-map p f [] = refl
  retain-map p f (x ∷ xs) = ground (arith, retain-map p f xs)

-- The item behind a prefix, and a write to it.
module _ {ℓ} {A : Type ℓ} (ys : List A) where
  pub get_elem?-append_at : (x : A) (xs : List A) → get_elem? (xs ++ x ∷ ys) (length xs) ≡ some x
  get_elem?-append_at x [] = refl
  get_elem?-append_at x (z ∷ xs) = get_elem?-append_at x xs

  pub set-append_at : (x v : A) (xs : List A) → set (xs ++ x ∷ ys) (length xs) v ≡ xs ++ v ∷ ys
  set-append_at x v [] = refl
  set-append_at x v (z ∷ xs) = ap (λ l. z ∷ l) (set-append_at x v xs)

pub get_elem?-length {ℓ} : {A : Type ℓ} (xs : List A) → get_elem? xs (length xs) ≡ none
get_elem?-length [] = refl
get_elem?-length (x ∷ xs) = get_elem?-length xs

-- Reading after a write.
module _ {ℓ} {A : Type ℓ} where
  pub get_elem?-set_self :
      (xs : List A) (i : ℕ) (v x : A) → get_elem? xs i ≡ some x → get_elem? (set xs i v) i ≡ some v
  get_elem?-set_self [] i v x h = cc
  get_elem?-set_self (y ∷ xs) zero v x h = refl
  get_elem?-set_self (y ∷ xs) (suc i) v x h = get_elem?-set_self xs i v x h

  pub get_elem?-set_ne :
      (xs : List A) (i j : ℕ) (v : A) → i ≢ j → get_elem? (set xs i v) j ≡ get_elem? xs j
  get_elem?-set_ne [] i j v h = refl
  get_elem?-set_ne (x ∷ xs) zero zero v h = absurd (h refl)
  get_elem?-set_ne (x ∷ xs) zero (suc j) v h = refl
  get_elem?-set_ne (x ∷ xs) (suc i) zero v h = refl
  get_elem?-set_ne (x ∷ xs) (suc i) (suc j) v h = get_elem?-set_ne xs i j v (λ e. h (ap suc e))

-- `x in xs` for a list of texts.
abbrev pub occurs : String → List String → Bool
occurs x [] = false
occurs x (y ∷ ys) = (x =ˢ y) || occurs x ys

-- How many of the items occur again behind them.
abbrev pub repeated : List String → ℕ
repeated [] = 0
repeated (x ∷ xs) = if occurs x xs then suc (repeated xs) else repeated xs
