-- ===== src/Base/Ring.antt =====
-- A fixed array with a head and a count that is written round and round, as the seen-sets of the
-- router are: what it holds is a bounded queue that forgets its oldest element.
use Prim.Native.Nat.{ℕ, zero, suc, ◌≤◌, ◌<◌, min}
use mathlib.Core.Logic.{◌⊎◌, inl, inr}
use mathlib.Core.Path.{◌≡◌, refl, ap, sym, ◌∙◌}
use mathlib.Core.Bool.{Bool, true}
use mathlib.Core.List.{List, [], ◌∷◌, ◌++◌}
use native.Mathlib.Omega.{arith}
use meshtastenstein_rs.Base.Tests.{ltb, ◌==◌, if◌then◌else◌, Bool-cases}
use meshtastenstein_rs.Base.Lists.{
  length, set, take, drop, length-append, length-take, length-drop, length-set, take_of_length-le,
}
use meshtastenstein_rs.Base.Search.{any}
use meshtastenstein_rs.Base.Keyed.{any-append, any_comm}

module _ {ℓ} {A : Type ℓ} where
  pub append_nil : (xs : List A) → xs ++ [] ≡ xs
  append_nil [] = refl
  append_nil (x ∷ xs) = ap (λ l. x ∷ l) (append_nil xs)

  pub append_assoc : (xs ys zs : List A) → (xs ++ ys) ++ zs ≡ xs ++ (ys ++ zs)
  append_assoc [] ys zs = refl
  append_assoc (x ∷ xs) ys zs = ap (λ l. x ∷ l) (append_assoc xs ys zs)

  pub take-suc-set :
      (xs : List A) (i : ℕ) (v : A)
      → i < length xs
      → take (suc i) (set xs i v) ≡ take i xs ++ (v ∷ [])
  take-suc-set [] i v h = absurd (omega arith)
  take-suc-set (x ∷ xs) zero v h = refl
  take-suc-set (x ∷ xs) (suc i) v h = ap (λ l. x ∷ l) (take-suc-set xs i v (omega arith))

  drop-suc-set : (xs : List A) (i : ℕ) (v : A) → drop (suc i) (set xs i v) ≡ drop (suc i) xs
  drop-suc-set [] i v = refl
  drop-suc-set (x ∷ xs) zero v = refl
  drop-suc-set (x ∷ xs) (suc i) v = drop-suc-set xs i v

  drop_one-append :
      (xs ys : List A) (i : ℕ) → i < length xs → drop 1 (drop i xs ++ ys) ≡ drop (suc i) xs ++ ys
  drop_one-append [] ys i h = absurd (omega arith)
  drop_one-append (x ∷ xs) ys zero h = refl
  drop_one-append (x ∷ xs) ys (suc i) h = drop_one-append xs ys i (omega arith)

  drop_of_length-le : (xs : List A) (n : ℕ) → length xs ≤ n → drop n xs ≡ []
  drop_of_length-le [] zero h = refl
  drop_of_length-le [] (suc n) h = refl
  drop_of_length-le (x ∷ xs) zero h = absurd (omega arith)
  drop_of_length-le (x ∷ xs) (suc n) h = drop_of_length-le xs n (omega arith)

  take-drop : (xs : List A) (n : ℕ) → take n xs ++ drop n xs ≡ xs
  take-drop xs zero = refl
  take-drop [] (suc n) = refl
  take-drop (x ∷ xs) (suc n) = ap (λ l. x ∷ l) (take-drop xs n)

  -- The array has its size, the head is in it, and equals the count until the array is full.
  abbrev pub IsRing : ℕ → ℕ → ℕ → List A → Type 0
  IsRing cap head count xs =
      (length xs ≡ cap) × (head < cap) × (count ≤ cap) × ((count ≡ cap) ⊎ (head ≡ count))

  -- the elements, the oldest first
  unfoldable pub in_order : ℕ → ℕ → ℕ → List A → List A
  in_order cap head count xs = if ltb count cap then take count xs else drop head xs ++ take head xs

  -- a bounded queue: a full one forgets its oldest element
  unfoldable pub enqueue : ℕ → A → List A → List A
  enqueue cap v xs = if ltb (length xs) cap then xs ++ (v ∷ []) else drop 1 xs ++ (v ∷ [])

  pub length-in_order :
      (cap head count : ℕ) (xs : List A)
      → IsRing cap head count xs
      → length (in_order cap head count xs) ≡ count
  unfolding in_order
  length-in_order cap head count xs (size, within, few, phase) = ground (
    arith,
    length-take count xs,
    length-append {A = A} (drop head xs) (take head xs),
    length-drop head xs,
    length-take head xs,
  )

  full_step :
      (cap head : ℕ) (v : A) (xs : List A)
      → length xs ≡ cap
      → head < cap
      → drop (if suc head == cap then 0 else suc head) (set xs head v)
          ++ take (if suc head == cap then 0 else suc head) (set xs head v)
        ≡ drop 1 (drop head xs ++ take head xs) ++ (v ∷ [])
  full_step cap head v xs size within = elim (Bool-cases (suc head == cap)) [
    | inl wraps ↦
        rw
          (
            wraps,
            drop_one-append xs (take head xs) head (omega arith),
            drop_of_length-le xs (suc head) (ground arith),
          )
          (append_nil (set xs head v)
            ∙ sym (
                take_of_length-le (set xs head v) (suc head) (ground (arith, length-set xs head v)))
            ∙ take-suc-set xs head v (omega arith))
    | inr goes ↦
        rw
          (
            goes,
            drop_one-append xs (take head xs) head (omega arith),
            drop-suc-set xs head v,
            take-suc-set xs head v (omega arith),
          )
          (sym (append_assoc (drop (suc head) xs) (take head xs) (v ∷ [])))
  ]

  -- Writing at the head and moving it on enqueues.
  pub in_order-write :
      (cap head count : ℕ) (v : A) (xs : List A)
      → IsRing cap head count xs
      → in_order cap
          (if suc head == cap then 0 else suc head)
          (if ltb count cap then suc count else count)
          (set xs head v)
        ≡ enqueue cap v (in_order cap head count xs)
  unfolding in_order enqueue
  in_order-write cap head count v xs (size, within, few, inl full) =
      let e : (drop (if suc head == cap then 0 else suc head) (set xs head v)
            ++ take (if suc head == cap then 0 else suc head) (set xs head v))
          ≡ drop 1 (drop head xs ++ take head xs) ++ (v ∷ []) =
        full_step cap head v xs size within in
      ground (
        arith,
        e,
        full,
        length-append {A = A} (drop head xs) (take head xs),
        length-drop head xs,
        length-take head xs,
      )
  in_order-write cap head count v xs (size, within, few, inr partial) =
      elim (Bool-cases (suc head == cap)) [
        | inl wraps ↦
            let e : set xs head v ≡ take head xs ++ (v ∷ []) =
              sym (
                take_of_length-le (set xs head v) (suc head) (ground (arith, length-set xs head v)))
              ∙ take-suc-set xs head v (omega arith) in
            ground (arith, e, append_nil (set xs head v), length-take count xs)
        | inr goes ↦
            ground
              (arith, take-suc-set xs head v (omega (arith, size, within)), length-take count xs)
      ]

  pub IsRing-write :
      (cap head count : ℕ) (v : A) (xs : List A)
      → IsRing cap head count xs
      → IsRing cap
          (if suc head == cap then 0 else suc head)
          (if ltb count cap then suc count else count)
          (set xs head v)
  IsRing-write cap head count v xs (size, within, few, phase) =
      (length-set xs head v ∙ size, ground arith, ground arith, ground arith)

  -- A search of the cells in use is a search of the queue.
  pub any-in_order :
      (p : A → Bool) (cap head count : ℕ) (xs : List A)
      → IsRing cap head count xs
      → any p (take (min count cap) xs) ≡ any p (in_order cap head count xs)
  unfolding in_order
  any-in_order p cap head count xs (size, within, few, inl full) =
      let all : min count cap ≡ length xs = omega arith in
      rw all (
        ap (any p) (take_of_length-le xs (length xs) (omega arith) ∙ sym (take-drop xs head))
        ∙ any_comm p (take head xs) (drop head xs)
        ∙ ground (arith, full))
  any-in_order p cap head count xs (size, within, few, inr partial) =
      elim (Bool-cases (ltb count cap)) [
        | inl some_free ↦
            let used : min count cap ≡ count = ground arith in rw (used, some_free) refl
        | inr none_free ↦ absurd (ground arith)
      ]

-- How long a bounded queue holds an element.
module _ {ℓ} {A : Type ℓ} (p : A → Bool) where
  -- an element that passes the test, with at most so many after it
  unfoldable pub Recent : ℕ → List A → Type ℓ
  Recent n xs =
      (pre : List A) × (x : A) × (post : List A) × (xs ≡ pre ++ (x ∷ post))
      × (p x ≡ true)
      × (length post ≤ n)

  pub Recent-any : (n : ℕ) (xs : List A) → Recent n xs → any p xs ≡ true
  unfolding Recent any
  Recent-any n xs (pre, x, post, split, holds, near) =
      rw split (ground (arith, holds, any-append p pre (x ∷ post)))

  pub Recent-enqueue_self :
      (cap : ℕ) (v : A) (xs : List A) → p v ≡ true → Recent 0 (enqueue cap v xs)
  unfolding Recent enqueue
  Recent-enqueue_self cap v xs holds = elim (Bool-cases (ltb (length xs) cap)) [
    | inl room ↦ (xs, v, [], rw (room, enqueue) refl, holds, omega arith)
    | inr full ↦ (drop 1 xs, v, [], rw (full, enqueue) refl, holds, omega arith)
  ]

  Recent-enqueue_at :
      (cap n : ℕ) (v : A) (pre : List A) (x : A) (post : List A)
      → p x ≡ true
      → length post ≤ n
      → suc n < cap
      → Recent (suc n) (enqueue cap v (pre ++ (x ∷ post)))
  unfolding Recent enqueue
  Recent-enqueue_at cap n v [] x post holds near room =
      let fits : ltb (suc (length post)) cap ≡ true = ground arith in
      (
        [],
        x,
        post ++ (v ∷ []),
        rw (fits, enqueue) refl,
        holds,
        omega (arith, near, length-append {A = A} post (v ∷ [])),
      )
  Recent-enqueue_at cap n v (y ∷ pre) x post holds near room =
      elim (Bool-cases (ltb (length (y ∷ pre ++ (x ∷ post))) cap)) [
        | inl fits ↦ (
          y ∷ pre,
          x,
          post ++ (v ∷ []),
          rw (fits, enqueue) (append_assoc (y ∷ pre) (x ∷ post) (v ∷ [])),
          holds,
          omega (arith, near, length-append {A = A} post (v ∷ [])),
        )
        | inr full ↦ (
          pre,
          x,
          post ++ (v ∷ []),
          rw (full, enqueue) (append_assoc pre (x ∷ post) (v ∷ [])),
          holds,
          omega (arith, near, length-append {A = A} post (v ∷ [])),
        )
      ]

  pub Recent-weaken : (n : ℕ) (xs : List A) → Recent n xs → Recent (suc n) xs
  unfolding Recent
  Recent-weaken n xs (pre, x, post, split, holds, near) =
      (pre, x, post, split, holds, omega (arith, near))

  -- One more element enqueued moves the others one place on.
  pub Recent-enqueue :
      (cap n : ℕ) (v : A) (xs : List A)
      → suc n < cap
      → Recent n xs
      → Recent (suc n) (enqueue cap v xs)
  unfolding Recent
  Recent-enqueue cap n v xs room (pre, x, post, split, holds, near) =
      rw split (Recent-enqueue_at cap n v pre x post holds near room)
