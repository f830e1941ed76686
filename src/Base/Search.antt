-- ===== src/Base/Search.antt =====
-- The iterator calls of the source on a `heapless::Vec`: `position`, `find`, `find` over
-- `iter_mut`, `retain`, `any`, `all`, `filter().count()`, `swap_remove` and `push` with a capacity.
use Prim.Native.Nat.{ℕ, suc, ◌-◌, ◌≤◌}
use mathlib.Core.Path.{◌≡◌, refl}
use mathlib.Core.Bool.{Bool, true, false, ◌&&◌, ◌||◌}
use mathlib.Core.List.{List, [], ◌∷◌, ◌++◌}
use mathlib.Core.Option.{Option, none, some}
use native.Mathlib.Omega.{arith}
use meshtastenstein_rs.Base.Tests.{ltb, if◌then◌else◌}
use meshtastenstein_rs.Base.Lists.{length, set, take, length-take, length-set, All}

module _ {ℓ} {A : Type ℓ} where
  unfoldable pub position_from : ℕ → (A → Bool) → List A → Option ℕ
  position_from i p [] = none
  position_from i p (x ∷ xs) = if p x then some i else position_from (suc i) p xs

  -- `iter().position(p)`
  abbrev pub position : (A → Bool) → List A → Option ℕ
  position p xs = position_from 0 p xs

  -- `iter().find(p)`
  unfoldable pub find : (A → Bool) → List A → Option A
  find p [] = none
  find p (x ∷ xs) = if p x then some x else find p xs

  -- `if let Some(x) = iter_mut().find(p) { *x = f(*x) }`
  unfoldable pub update_first : (A → Bool) → (A → A) → List A → List A
  update_first p f [] = []
  update_first p f (x ∷ xs) = if p x then f x ∷ xs else x ∷ update_first p f xs

  -- `retain(p)`, and what `filter(p)` yields
  unfoldable pub retain : (A → Bool) → List A → List A
  retain p [] = []
  retain p (x ∷ xs) = let rest = retain p xs in if p x then x ∷ rest else rest

  -- `iter().any(p)`
  unfoldable pub any : (A → Bool) → List A → Bool
  any p [] = false
  any p (x ∷ xs) = p x || any p xs

  -- `iter().all(p)`
  unfoldable pub all : (A → Bool) → List A → Bool
  all p [] = true
  all p (x ∷ xs) = p x && all p xs

  unfoldable pub last? : List A → Option A
  last? [] = none
  last? (x ∷ []) = some x
  last? (x ∷ y ∷ xs) = last? (y ∷ xs)

  -- `swap_remove(i)`: the last element takes the place of the removed one
  unfoldable pub swap_remove : ℕ → List A → List A
  unfolding last?
  swap_remove i xs = elim (last? xs) [ none ↦ [] | some l ↦ take (length xs - 1) (set xs i l) ]

  -- `push`, which gives the element back when the vector is full
  unfoldable pub push : ℕ → A → List A → Option (List A)
  push capacity x xs = if ltb (length xs) capacity then some (xs ++ (x ∷ [])) else none

  pub length-update_first :
      (p : A → Bool) (f : A → A) (xs : List A) → length (update_first p f xs) ≡ length xs
  unfolding update_first
  length-update_first p f [] = refl
  length-update_first p f (x ∷ xs) = ground (arith, length-update_first p f xs)

  pub length-retain-le : (p : A → Bool) (xs : List A) → length (retain p xs) ≤ length xs
  unfolding retain
  length-retain-le p [] = omega arith
  length-retain-le p (x ∷ xs) = ground (arith, length-retain-le p xs)

  pub last?-cons : (x : A) (xs : List A) → (l : A) × (last? (x ∷ xs) ≡ some l)
  unfolding last?
  last?-cons x [] = (x, refl)
  last?-cons x (y ∷ xs) = last?-cons y xs

  pub length-swap_remove : (i : ℕ) (xs : List A) → length (swap_remove i xs) ≡ length xs - 1
  unfolding swap_remove
  length-swap_remove i [] = refl
  length-swap_remove i (x ∷ xs) =
      let (l, e) = last?-cons x xs in
      ground (arith, e, length-take (length xs) (set (x ∷ xs) i l), length-set (x ∷ xs) i l)

  -- what `find` returns passes the test
  pub find_sound : (p : A → Bool) (xs : List A) (x : A) → find p xs ≡ some x → p x ≡ true
  unfolding find
  find_sound p [] x h = ground arith
  find_sound p (y ∷ xs) x h = ground (arith, find_sound p xs x)

  pub All-retain {κ} :
      (P : A → Type κ) (p : A → Bool) (xs : List A) → All P xs → All P (retain p xs)
  unfolding retain
  All-retain P p [] h = h
  All-retain P p (x ∷ xs) h =
      let rest : All P (retain p xs) = All-retain P p xs h.1 in
      elim (p x) as (λ b. All P (if b then x ∷ retain p xs else retain p xs)) [
        | true ↦ (h.0, rest)
        | false ↦ rest
      ]
