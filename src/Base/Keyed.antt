-- ===== src/Base/Keyed.antt =====
-- Vectors whose elements carry a number, as the node database and the pending queues do: what a
-- lookup by number sees after each change.
use Prim.Native.Nat.{ℕ, zero, suc, ◌+◌, ◌-◌}
use mathlib.Core.Logic.{inl, inr}
use mathlib.Core.Path.{◌≡◌, refl, ap, sym, ◌∙◌, subst}
use mathlib.Core.Bool.{Bool, true, false, ◌||◌}
use mathlib.Core.List.{List, [], ◌∷◌, ◌++◌}
use mathlib.Core.Option.{Option, none, some}
use native.Mathlib.Omega.{arith}
use meshtastenstein_rs.Base.Tests.{◌==◌, if◌then◌else◌, is_some, ==_iff, Bool-cases}
use meshtastenstein_rs.Base.Lists.{length, get_elem?, set, take, length-append}
use meshtastenstein_rs.Base.Search.{
  position_from, position, find, update_first, retain, any, last?, swap_remove, last?-cons,
}

-- `Option::map`
abbrev pub map_some {ℓ κ} : {A : Type ℓ} {B : Type κ} → (A → B) → Option A → Option B
map_some f none = none
map_some f (some a) = some (f a)

-- `Option::filter`
abbrev pub filter_some {ℓ} : {A : Type ℓ} → (A → Bool) → Option A → Option A
filter_some p none = none
filter_some p (some a) = if p a then some a else none

-- `Option::or`
abbrev pub or_some {ℓ} : {A : Type ℓ} → Option A → Option A → Option A
or_some none o = o
or_some (some a) o = some a

pub any-append {ℓ} :
    {A : Type ℓ} (p : A → Bool) (xs ys : List A) → any p (xs ++ ys) ≡ (any p xs || any p ys)
unfolding any
any-append p [] ys = refl
any-append p (x ∷ xs) ys = ground (arith, any-append p xs ys)

pub any_comm {ℓ} :
    {A : Type ℓ} (p : A → Bool) (xs ys : List A) → any p (xs ++ ys) ≡ any p (ys ++ xs)
any_comm p xs ys = ground (arith, any-append p xs ys, any-append p ys xs)

pub find-append {ℓ} :
    {A : Type ℓ} (p : A → Bool) (xs ys : List A)
    → find p (xs ++ ys) ≡ or_some (find p xs) (find p ys)
unfolding find
find-append p [] ys = refl
find-append p (x ∷ xs) ys = ground (arith, find-append p xs ys)

pub is_some-find {ℓ} : {A : Type ℓ} (p : A → Bool) (xs : List A) → is_some (find p xs) ≡ any p xs
unfolding find any
is_some-find p [] = refl
is_some-find p (x ∷ xs) = ground (arith, is_some-find p xs)

pub is_some-position_from {ℓ} :
    {A : Type ℓ} (i : ℕ) (p : A → Bool) (xs : List A) → is_some (position_from i p xs) ≡ any p xs
unfolding position_from any
is_some-position_from i p [] = refl
is_some-position_from i p (x ∷ xs) = ground (arith, is_some-position_from (suc i) p xs)

-- Where `position` finds something, the vector splits there.
pub position_split {ℓ} :
    {A : Type ℓ} (p : A → Bool) (xs : List A) (i k : ℕ)
    → position_from i p xs ≡ some k
    → (pre : List A) × (x : A) × (post : List A) × (xs ≡ pre ++ (x ∷ post))
      × (k ≡ i + length pre)
      × (p x ≡ true)
      × (any p pre ≡ false)
unfolding position_from any
position_split p [] i k h = absurd (ground arith)
position_split {A} p (x ∷ xs) i k h = elim (Bool-cases (p x)) [
  | inl yes_x ↦ ([], x, xs, refl, ground arith, yes_x, refl)
  | inr no_x ↦
      let (pre, y, post, e, at, yes_y, before) = position_split p xs (suc i) k (ground arith) in
      (x ∷ pre, y, post, ap (λ l. x ∷ l) e, omega (arith, at), yes_y, ground arith)
]

-- Removing at the split: the last element of what follows takes the place.
unfoldable pub rotate {ℓ} : {A : Type ℓ} → List A → List A
rotate post = elim (last? post) [ none ↦ [] | some l ↦ l ∷ take (length post - 1) post ]

last?-append {ℓ} :
    {A : Type ℓ} (pre : List A) (x : A) (post : List A)
    → last? (pre ++ (x ∷ post)) ≡ last? (x ∷ post)
unfolding last?
last?-append [] x post = refl
last?-append (y ∷ []) x post = refl
last?-append (y ∷ z ∷ pre) x post = last?-append (z ∷ pre) x post

pub replace_at {ℓ} :
    {A : Type ℓ} (pre : List A) (x l : A) (post : List A)
    → set (pre ++ (x ∷ post)) (length pre) l ≡ pre ++ (l ∷ post)
replace_at [] x l post = refl
replace_at (y ∷ pre) x l post = ap (λ t. y ∷ t) (replace_at pre x l post)

take-append_cons {ℓ} :
    {A : Type ℓ} (n : ℕ) (pre : List A) (l : A) (post : List A)
    → n ≡ length pre + length post
    → take n (pre ++ (l ∷ post)) ≡ pre ++ take (length post) (l ∷ post)
take-append_cons n [] l post h = ap (λ k. take k (l ∷ post)) (omega (arith, h))
take-append_cons zero (y ∷ pre) l post h = absurd (omega arith)
take-append_cons (suc n) (y ∷ pre) l post h =
    ap (λ t. y ∷ t) (take-append_cons n pre l post (omega arith))

rotate_of_last {ℓ} :
    {A : Type ℓ} (y : A) (post : List A) (l : A)
    → last? (y ∷ post) ≡ some l
    → rotate (y ∷ post) ≡ l ∷ take (length post) (y ∷ post)
unfolding rotate
rotate_of_last y post l e = rw (e, rotate) (ap (λ k. l ∷ take k (y ∷ post)) (omega arith))

split_last {ℓ} :
    {A : Type ℓ} (y : A) (post : List A) (l : A)
    → last? (y ∷ post) ≡ some l
    → y ∷ post ≡ take (length post) (y ∷ post) ++ (l ∷ [])
unfolding last?
split_last y [] l e = cc
split_last y (z ∷ post) l e = ap (λ t. y ∷ t) (split_last z post l e)

pub swap_remove_split {ℓ} :
    {A : Type ℓ} (pre : List A) (x : A) (post : List A)
    → swap_remove (length pre) (pre ++ (x ∷ post)) ≡ pre ++ rotate post
unfolding swap_remove rotate
swap_remove_split {A} pre x [] =
    rw (last?-append pre x [], replace_at pre x x [], swap_remove)
      (take-append_cons (length (pre ++ (x ∷ [])) - 1) pre x []
        (omega (arith, length-append {A = A} pre (x ∷ []))))
swap_remove_split {A} pre x (y ∷ post) =
    let (l, is_last) = last?-cons y post in
    rw (last?-append pre x (y ∷ post), is_last, swap_remove, replace_at pre x l (y ∷ post))
      (take-append_cons (length (pre ++ (x ∷ y ∷ post)) - 1) pre l (y ∷ post)
          (omega (arith, length-append {A = A} pre (x ∷ y ∷ post)))
        ∙ ap (λ t. pre ++ t) (sym (rotate_of_last y post l is_last)))

rotate_cons {ℓ} :
    {A : Type ℓ} (y : A) (post : List A)
    → (l : A) × (init : List A) × (y ∷ post ≡ init ++ (l ∷ [])) × (rotate (y ∷ post) ≡ l ∷ init)
rotate_cons y post =
    let (l, is_last) = last?-cons y post in
    (l, take (length post) (y ∷ post), split_last y post l is_last, rotate_of_last y post l is_last)

-- A predicate holds somewhere in the rotated rest exactly when it does in the rest.
pub any-rotate {ℓ} : {A : Type ℓ} (p : A → Bool) (post : List A) → any p (rotate post) ≡ any p post
unfolding rotate last?
any-rotate p [] = refl
any-rotate p (y ∷ post) =
    let (l, init, split, turned) = rotate_cons y post in
    rw (turned, split) (any_comm p (l ∷ []) init)

pub length-rotate {ℓ} : {A : Type ℓ} (post : List A) → length (rotate post) ≡ length post
unfolding rotate last?
length-rotate [] = refl
length-rotate {A} (y ∷ post) =
    let (l, init, split, turned) = rotate_cons y post in
    rw turned (omega (arith, ap (λ t. length t) split, length-append {A = A} init (l ∷ [])))

pub retain-append {ℓ} :
    {A : Type ℓ} (p : A → Bool) (xs ys : List A) → retain p (xs ++ ys) ≡ retain p xs ++ retain p ys
unfolding retain
retain-append p [] ys = refl
retain-append p (x ∷ xs) ys = ground (arith, retain-append p xs ys)

count-turn {ℓ} :
    {A : Type ℓ} (p : A → Bool) (l : A) (init : List A)
    → length (retain p (init ++ (l ∷ []))) ≡ length (retain p (l ∷ init))
unfolding retain
count-turn {A} p l init = ground (
  arith,
  retain-append p init (l ∷ []),
  length-append {A = A} (retain p init) (retain p (l ∷ [])),
)

-- As many elements pass a test in the rotated rest as in the rest.
pub count-rotate {ℓ} :
    {A : Type ℓ} (p : A → Bool) (post : List A)
    → length (retain p (rotate post)) ≡ length (retain p post)
unfolding rotate last?
count-rotate p [] = refl
count-rotate {A} p (y ∷ post) =
    let (l, init, split, turned) = rotate_cons y post in
    let turn : length (retain p (init ++ (l ∷ []))) ≡ length (retain p (l ∷ init)) =
      count-turn p l init in
    rw turned (sym turn ∙ ap (λ t. length (retain p t)) (sym split))

pub get_elem?-split {ℓ} :
    {A : Type ℓ} (pre : List A) (x : A) (post : List A)
    → get_elem? (pre ++ (x ∷ post)) (length pre) ≡ some x
get_elem?-split [] x post = refl
get_elem?-split (y ∷ pre) x post = get_elem?-split pre x post

pub get_elem?-end {ℓ} : {A : Type ℓ} (pre : List A) → get_elem? (pre ++ []) (length pre) ≡ none
get_elem?-end [] = refl
get_elem?-end (y ∷ pre) = get_elem?-end pre

module _ {A : Type 0} (key : A → ℕ) where
  -- `|a| a.key == n`
  abbrev pub has : ℕ → A → Bool
  has n a = key a == n

  -- No two elements have one number.
  abbrev pub Distinct : List A → Type 0
  Distinct [] = Unit
  Distinct (x ∷ xs) = (any (has (key x)) xs ≡ false) × Distinct xs

  -- A change that keeps numbers is seen by the lookup of its number, and by no other.
  pub find-update_first :
      (m n : ℕ) (f : A → A) (xs : List A)
      → ((a : A) → key (f a) ≡ key a)
      → find (has m) (update_first (has n) f xs)
        ≡ (if n == m then map_some f (find (has n) xs) else find (has m) xs)
  unfolding find update_first
  find-update_first m n f [] k = ground arith
  find-update_first m n f (x ∷ xs) k = ground (arith, k x, find-update_first m n f xs k)

  pub any-update_first :
      (m n : ℕ) (f : A → A) (xs : List A)
      → ((a : A) → key (f a) ≡ key a)
      → any (has m) (update_first (has n) f xs) ≡ any (has m) xs
  unfolding any update_first
  any-update_first m n f [] k = refl
  any-update_first m n f (x ∷ xs) k = ground (arith, k x, any-update_first m n f xs k)

  pub update_first-Distinct :
      (n : ℕ) (f : A → A) (xs : List A)
      → ((a : A) → key (f a) ≡ key a)
      → Distinct xs
      → Distinct (update_first (has n) f xs)
  unfolding update_first
  update_first-Distinct n f [] k d = d
  update_first-Distinct n f (x ∷ xs) k d = elim (Bool-cases (key x == n)) [
    | inl yes_x ↦ rw (yes_x, k x) d
    | inr no_x ↦
        rw no_x (any-update_first (key x) n f xs k ∙ d.0, update_first-Distinct n f xs k d.1)
  ]

  pub any-retain-false :
      (n : ℕ) (p : A → Bool) (xs : List A)
      → any (has n) xs ≡ false
      → any (has n) (retain p xs) ≡ false
  unfolding any retain
  any-retain-false n p [] h = refl
  any-retain-false n p (x ∷ xs) h = ground (arith, any-retain-false n p xs)

  pub retain-Distinct : (p : A → Bool) (xs : List A) → Distinct xs → Distinct (retain p xs)
  unfolding retain
  retain-Distinct p [] d = d
  retain-Distinct p (x ∷ xs) d = elim (Bool-cases (p x)) [
    | inl kept ↦ rw kept (any-retain-false (key x) p xs d.0, retain-Distinct p xs d.1)
    | inr dropped ↦ rw dropped (retain-Distinct p xs d.1)
  ]

  -- Among distinct numbers, a lookup after `retain` sees what it saw, if that passed the test.
  pub find-retain :
      (n : ℕ) (p : A → Bool) (xs : List A)
      → Distinct xs
      → find (has n) (retain p xs) ≡ filter_some p (find (has n) xs)
  unfolding find retain
  find-retain n p [] d = refl
  find-retain n p (x ∷ xs) d = elim (Bool-cases (key x == n)) [
    | inl yes_x ↦
        let e : key x ≡ n = (==_iff (key x) n).0 yes_x in
        let absent : any (has n) xs ≡ false = rw e at (d.0) in
        ground (arith, absent, any-retain-false n p xs absent, is_some-find (has n) (retain p xs))
    | inr no_x ↦ ground (arith, find-retain n p xs d.1)
  ]

  pub append-Distinct :
      (xs : List A) (a : A) → Distinct xs → any (has (key a)) xs ≡ false → Distinct (xs ++ (a ∷ []))
  unfolding any
  append-Distinct [] a d h = (refl, tt)
  append-Distinct (x ∷ xs) a d h = (
    ground (arith, any-append (has (key x)) xs (a ∷ [])),
    append-Distinct xs a d.1 (ground arith),
  )

  snoc-Distinct :
      (init : List A) (l : A)
      → Distinct (init ++ (l ∷ []))
      → (any (has (key l)) init ≡ false) × Distinct init
  unfolding any
  snoc-Distinct [] l d = (refl, tt)
  snoc-Distinct (x ∷ init) l d =
      let (absent, rest) = snoc-Distinct init l d.1 in
      (
        ground (arith, any-append (has (key x)) init (l ∷ [])),
        (ground (arith, any-append (has (key x)) init (l ∷ [])), rest),
      )

  pub rotate-Distinct : (post : List A) → Distinct post → Distinct (rotate post)
  unfolding rotate last?
  rotate-Distinct [] d = d
  rotate-Distinct (y ∷ post) d =
      let (l, init, split, turned) = rotate_cons y post in
      rw turned (snoc-Distinct init l (subst Distinct split d))

  absent_at :
      (m n : ℕ) (xs : List A) → (n == m) ≡ true → any (has n) xs ≡ false → any (has m) xs ≡ false
  absent_at m n xs e h = subst (λ k. any (has k) xs ≡ false) ((==_iff n m).0 e) h

  find-turn :
      (m : ℕ) (l : A) (init : List A)
      → any (has (key l)) init ≡ false
      → find (has m) (l ∷ init) ≡ find (has m) (init ++ (l ∷ []))
  unfolding find
  find-turn m l init absent = elim (Bool-cases (key l == m)) [
    | inl yes_l ↦ ground (
      arith,
      absent_at m (key l) init yes_l absent,
      is_some-find (has m) init,
      find-append (has m) init (l ∷ []),
    )
    | inr no_l ↦ ground (arith, find-append (has m) init (l ∷ []))
  ]

  pub find-rotate :
      (m : ℕ) (post : List A) → Distinct post → find (has m) (rotate post) ≡ find (has m) post
  unfolding rotate last?
  find-rotate m [] d = refl
  find-rotate m (y ∷ post) d =
      let (l, init, split, turned) = rotate_cons y post in
      let (absent, rest) = snoc-Distinct init l (subst Distinct split d) in
      rw (turned, split) (find-turn m l init absent)

  drop_split-Distinct :
      (pre : List A) (x : A) (post : List A)
      → Distinct (pre ++ (x ∷ post))
      → Distinct (pre ++ rotate post)
  unfolding any
  drop_split-Distinct [] x post d = rotate-Distinct post d.1
  drop_split-Distinct (p ∷ pre) x post d = (
    ground (
      arith,
      any-append (has (key p)) pre (x ∷ post),
      any-append (has (key p)) pre (rotate post),
      any-rotate (has (key p)) post,
    ),
    drop_split-Distinct pre x post d.1,
  )

  find-drop_split :
      (m : ℕ) (pre : List A) (x : A) (post : List A)
      → Distinct (pre ++ (x ∷ post))
      → find (has m) (pre ++ rotate post)
        ≡ (if key x == m then none else find (has m) (pre ++ (x ∷ post)))
  unfolding any find
  find-drop_split m [] x post d = elim (Bool-cases (key x == m)) [
    | inl yes_x ↦ ground (
      arith,
      absent_at m (key x) post yes_x d.0,
      any-rotate (has m) post,
      is_some-find (has m) (rotate post),
    )
    | inr no_x ↦ ground (arith, find-rotate m post d.1)
  ]
  find-drop_split m (p ∷ pre) x post d =
      ground (arith, find-drop_split m pre x post d.1, any-append (has (key p)) pre (x ∷ post))

  removed :
      (pre : List A) (x : A) (post : List A) (k : ℕ) (xs : List A)
      → k ≡ length pre
      → xs ≡ pre ++ (x ∷ post)
      → swap_remove k xs ≡ pre ++ rotate post
  removed pre x post k xs at split = rw (at, split) (swap_remove_split pre x post)

  -- Removing the element at the position of a number: among distinct numbers, that number is gone,
  -- every other lookup is as it was, and the numbers stay distinct.
  pub find-swap_remove :
      (m n k : ℕ) (xs : List A)
      → Distinct xs
      → position (has n) xs ≡ some k
      → Distinct (swap_remove k xs)
        × (find (has m) (swap_remove k xs) ≡ (if n == m then none else find (has m) xs))
  find-swap_remove m n k xs d h =
      let (pre, x, post, split, at, yes_x, before) = position_split (has n) xs 0 k h in
      let at' : k ≡ length pre = omega (arith, at) in
      let d' : Distinct (pre ++ (x ∷ post)) = subst Distinct split d in
      let e : swap_remove k xs ≡ pre ++ rotate post = removed pre x post k xs at' split in
      rw e (
        drop_split-Distinct pre x post d',
        ground (arith, find-drop_split m pre x post d', ==_iff (key x) n, split),
      )
