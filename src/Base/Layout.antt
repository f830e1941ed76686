-- ===== src/Base/Layout.antt =====
-- Records of fixed offsets in a byte buffer: fields written one after the other by
-- `buf[off..off + n].copy_from_slice(src)`, and what is read back from them.
use Prim.Native.Nat.{ℕ, zero, suc, ◌+◌, ◌-◌, ◌≤◌, min}
use mathlib.Core.Path.{◌≡◌, refl, ap, sym, subst, ◌∙◌}
use mathlib.Core.List.{List, [], ◌∷◌, ◌++◌}
use native.Mathlib.Omega.{arith}
use meshtastenstein_rs.Base.Lists.{
  length, get_or, take, drop, splice, slice, All, length-append, length-take, length-drop,
  take_all-append, drop_all-append,
}
use meshtastenstein_rs.Base.Ring.{append_assoc}

module _ {ℓ} {A : Type ℓ} where
  -- the fields, each an offset and its bytes, written in order
  unfoldable pub write_fields : List (ℕ × List A) → List A → List A
  write_fields [] buf = buf
  write_fields (f ∷ fs) buf = write_fields fs (splice f.0 f.1 buf)

  -- from `from` on, every field starts after the one before it, and the last ends by `to`
  abbrev pub IsLaid : ℕ → ℕ → List (ℕ × List A) → Type 0
  IsLaid from to [] = from ≤ to
  IsLaid from to (f ∷ fs) = (from ≤ f.0) × IsLaid (f.0 + length f.1) to fs

  pub IsLaid-le : (from to : ℕ) (fs : List (ℕ × List A)) → IsLaid from to fs → from ≤ to
  IsLaid-le from to [] h = h
  IsLaid-le from to (f ∷ fs) h = omega (arith, h.0, IsLaid-le (f.0 + length f.1) to fs h.1)

  pub length-splice :
      (off : ℕ) (src buf : List A)
      → off + length src ≤ length buf
      → length (splice off src buf) ≡ length buf
  length-splice off src buf h = omega (
    arith,
    h,
    length-append (take off buf) (src ++ drop (off + length src) buf),
    length-append src (drop (off + length src) buf),
    length-take off buf,
    length-drop (off + length src) buf,
  )

  pub length-write_fields :
      (from : ℕ) (fs : List (ℕ × List A)) (buf : List A)
      → IsLaid from (length buf) fs
      → length (write_fields fs buf) ≡ length buf
  unfolding write_fields
  length-write_fields from [] buf h = refl
  length-write_fields from (f ∷ fs) buf h =
      let fits : f.0 + length f.1 ≤ length buf = IsLaid-le (f.0 + length f.1) (length buf) fs h.1 in
      let same = length-splice f.0 f.1 buf fits in
      length-write_fields (f.0 + length f.1) fs (splice f.0 f.1 buf)
        (subst (λ n. IsLaid (f.0 + length f.1) n fs) (sym same) h.1)
      ∙ same

  pub take-take : (m n : ℕ) (xs : List A) → m ≤ n → take m (take n xs) ≡ take m xs
  take-take zero n xs h = refl
  take-take (suc m) zero xs h = absurd (omega arith)
  take-take (suc m) (suc n) [] h = refl
  take-take (suc m) (suc n) (x ∷ xs) h = ap (λ l. x ∷ l) (take-take m n xs (omega arith))

  pub take_within-append : (n : ℕ) (xs ys : List A) → n ≤ length xs → take n (xs ++ ys) ≡ take n xs
  take_within-append zero xs ys h = refl
  take_within-append (suc n) [] ys h = absurd (omega arith)
  take_within-append (suc n) (x ∷ xs) ys h =
      ap (λ l. x ∷ l) (take_within-append n xs ys (omega arith))

  take-splice :
      (k off : ℕ) (src buf : List A)
      → k ≤ off
      → off ≤ length buf
      → take k (splice off src buf) ≡ take k buf
  take-splice k off src buf h fits =
      take_within-append k (take off buf) (src ++ drop (off + length src) buf)
        (omega (arith, length-take off buf))
      ∙ take-take k off buf h

  pub take-write_fields :
      (k : ℕ) (fs : List (ℕ × List A)) (buf : List A)
      → IsLaid k (length buf) fs
      → take k (write_fields fs buf) ≡ take k buf
  unfolding write_fields
  take-write_fields k [] buf h = refl
  take-write_fields k (f ∷ fs) buf h =
      let end : ℕ = f.0 + length f.1 in
      let fits : end ≤ length buf = IsLaid-le end (length buf) fs h.1 in
      let same = length-splice f.0 f.1 buf fits in
      let rest : take end (write_fields fs (splice f.0 f.1 buf)) ≡ take end (splice f.0 f.1 buf) =
        take-write_fields end fs (splice f.0 f.1 buf)
          (subst (λ n. IsLaid end n fs) (sym same) h.1) in
      sym (take-take k end (write_fields fs (splice f.0 f.1 buf)) (omega (arith, h.0)))
      ∙ (ap (take k) rest
          ∙ (take-take k end (splice f.0 f.1 buf) (omega (arith, h.0))
              ∙ take-splice k f.0 f.1 buf h.0 (omega (arith, fits))))

  take-drop : (m n k : ℕ) (xs : List A) → k ≡ m + n → take n (drop m xs) ≡ drop m (take k xs)
  take-drop zero n k xs h = let e : n ≡ k = omega arith in ap (λ j. take j xs) e
  take-drop (suc m) n zero xs h = absurd (omega arith)
  take-drop (suc m) zero (suc k) [] h = refl
  take-drop (suc m) (suc n) (suc k) [] h = refl
  take-drop (suc m) n (suc k) (x ∷ xs) h = take-drop m n k xs (omega arith)

  -- a field reads back, whatever follows it
  read_field :
      (off : ℕ) (src buf : List A) (fs : List (ℕ × List A))
      → IsLaid (off + length src) (length buf) fs
      → slice off (off + length src) (write_fields fs (splice off src buf)) ≡ src
  read_field off src buf fs h =
      let end : ℕ = off + length src in
      let w : List A = write_fields fs (splice off src buf) in
      let fits : end ≤ length buf = IsLaid-le end (length buf) fs h in
      let same = length-splice off src buf fits in
      let rest : take end w ≡ take end (splice off src buf) =
        take-write_fields end fs (splice off src buf) (subst (λ n. IsLaid end n fs) (sym same) h) in
      let upto : length (take off buf) ≡ off = omega (arith, fits, length-take off buf) in
      let tail : List A = drop end buf in
      let inner : take end (splice off src buf) ≡ take off buf ++ src =
        ap (take end) (sym (append_assoc (take off buf) src tail))
        ∙ take_all-append (take off buf ++ src) tail end
            (omega (arith, upto, length-append (take off buf) src)) in
      let width : (off + length src) - off ≡ length src = omega arith in
      ap (λ n. take n (drop off w)) width
      ∙ (take-drop off (length src) end w refl
          ∙ (ap (drop off) (rest ∙ inner)
              ∙ drop_all-append (take off buf) src off (omega (arith, upto))))

  -- the fields read in `w` are those that were written
  abbrev pub Reads : List A → List (ℕ × List A) → Type ℓ
  Reads w fs = All (λ f. slice f.0 (f.0 + length f.1) w ≡ f.1) fs

  -- every field reads back
  pub read_back :
      (from : ℕ) (fs : List (ℕ × List A)) (buf : List A)
      → IsLaid from (length buf) fs
      → Reads (write_fields fs buf) fs
  unfolding write_fields
  read_back from [] buf h = tt
  read_back from (f ∷ fs) buf h =
      let fits : f.0 + length f.1 ≤ length buf = IsLaid-le (f.0 + length f.1) (length buf) fs h.1 in
      let same = length-splice f.0 f.1 buf fits in
      (
        read_field f.0 f.1 buf fs h.1,
        read_back (f.0 + length f.1) fs (splice f.0 f.1 buf)
            (subst (λ n. IsLaid (f.0 + length f.1) n fs) (sym same) h.1),
      )

  -- a slice of one element is that element
  pub get_or-slice :
      (i : ℕ) (xs : List A) (v d : A) → slice i (i + 1) xs ≡ v ∷ [] → get_or xs i d ≡ v
  get_or-slice i xs v d e = at i xs (sym (ap (λ n. take n (drop i xs)) (width i)) ∙ e)
    where
      width : (n : ℕ) → (n + 1) - n ≡ 1
      width n = omega arith

      at : (j : ℕ) (ys : List A) → take 1 (drop j ys) ≡ v ∷ [] → get_or ys j d ≡ v
      at zero [] e = absurd (omega (arith, ap length e))
      at zero (y ∷ ys) e = cc
      at (suc j) [] e = absurd (omega (arith, ap length e))
      at (suc j) (y ∷ ys) e = at j ys e

  drop_past-append : (k j : ℕ) (xs ys : List A) → k ≡ length xs + j → drop k (xs ++ ys) ≡ drop j ys
  drop_past-append k j [] ys h = let e : k ≡ j = omega arith in ap (λ n. drop n ys) e
  drop_past-append zero j (x ∷ xs) ys h = absurd (omega arith)
  drop_past-append (suc k) j (x ∷ xs) ys h = drop_past-append k j xs ys (omega arith)

  drop-drop : (m n k : ℕ) (xs : List A) → k ≡ m + n → drop m (drop n xs) ≡ drop k xs
  drop-drop m zero k xs h = let e : m ≡ k = omega arith in ap (λ n. drop n xs) e
  drop-drop zero (suc n) zero [] h = refl
  drop-drop zero (suc n) (suc k) [] h = refl
  drop-drop (suc m) (suc n) zero [] h = refl
  drop-drop (suc m) (suc n) (suc k) [] h = refl
  drop-drop m (suc n) zero (x ∷ xs) h = absurd (omega arith)
  drop-drop m (suc n) (suc k) (x ∷ xs) h = drop-drop m n k xs (omega arith)

  -- what lies after the fields stays
  drop-splice :
      (k off : ℕ) (src buf : List A)
      → off + length src ≤ k
      → k ≤ length buf
      → drop k (splice off src buf) ≡ drop k buf
  drop-splice k off src buf h fits =
      let end : ℕ = off + length src in
      let front : List A = take off buf ++ src in
      let size : length front ≡ end =
        omega (arith, h, fits, length-append (take off buf) src, length-take off buf) in
      ap (drop k) (sym (append_assoc (take off buf) src (drop end buf)))
      ∙ (drop_past-append k (k - end) front (drop end buf) (omega (arith, size, h))
          ∙ drop-drop (k - end) end k buf (omega (arith, h)))

  pub drop-write_fields :
      (from k : ℕ) (fs : List (ℕ × List A)) (buf : List A)
      → IsLaid from k fs
      → k ≤ length buf
      → drop k (write_fields fs buf) ≡ drop k buf
  unfolding write_fields
  drop-write_fields from k [] buf h fits = refl
  drop-write_fields from k (f ∷ fs) buf h fits =
      let ends : f.0 + length f.1 ≤ k = IsLaid-le (f.0 + length f.1) k fs h.1 in
      drop-write_fields (f.0 + length f.1) k fs (splice f.0 f.1 buf) h.1
        (omega (arith, fits, length-splice f.0 f.1 buf (omega (arith, ends, fits))))
      ∙ drop-splice k f.0 f.1 buf ends fits

  pub IsLaid-from :
      (from start to : ℕ) (fs : List (ℕ × List A))
      → from ≤ start
      → IsLaid start to fs
      → IsLaid from to fs
  IsLaid-from from start to [] h l = omega (arith, l)
  IsLaid-from from start to (f ∷ fs) h l = (omega (arith, l.0), l.1)

  pub IsLaid-to :
      (from end to : ℕ) (fs : List (ℕ × List A)) → end ≤ to → IsLaid from end fs → IsLaid from to fs
  IsLaid-to from end to [] h l = omega (arith, l)
  IsLaid-to from end to (f ∷ fs) h l = (l.0, IsLaid-to (f.0 + length f.1) end to fs h l.1)

  pub IsLaid-append :
      (from mid to : ℕ) (fs gs : List (ℕ × List A))
      → IsLaid from mid fs
      → IsLaid mid to gs
      → IsLaid from to (fs ++ gs)
  IsLaid-append from mid to [] gs hf hg = IsLaid-from from mid to gs hf hg
  IsLaid-append from mid to (f ∷ fs) gs hf hg =
      (hf.0, IsLaid-append (f.0 + length f.1) mid to fs gs hf.1 hg)

  -- the first `k` of a field
  pub slice_prefix :
      (off k : ℕ) (xs w : List A)
      → k ≤ length xs
      → slice off (off + length xs) w ≡ xs
      → slice off (off + k) w ≡ take k xs
  slice_prefix off k xs w h r =
      let n : ℕ = (off + length xs) - off in
      let narrow : (off + k) - off ≡ k = omega arith in
      ap (λ m. take m (drop off w)) narrow
      ∙ (sym (take-take k n (drop off w) (omega (arith, h))) ∙ ap (take k) r)

  pub take-min : (n : ℕ) (xs : List A) → take (min (length xs) n) xs ≡ take n xs
  take-min zero xs = let e : min (length xs) 0 ≡ 0 = omega arith in ap (λ m. take m xs) e
  take-min (suc n) [] = let e : min 0 (suc n) ≡ 0 = omega arith in ap (λ m. take m []) e
  take-min (suc n) (x ∷ xs) =
      let e : min (suc (length xs)) (suc n) ≡ suc (min (length xs) n) = omega arith in
      ap (λ m. take m (x ∷ xs)) e ∙ ap (λ l. x ∷ l) (take-min n xs)

  -- the first `n` of an array, stored as a field
  pub read_prefix :
      (off n k : ℕ) (xs w : List A)
      → n ≤ length xs
      → k ≡ n
      → slice off (off + length (take n xs)) w ≡ take n xs
      → slice off (off + k) w ≡ take n xs
  read_prefix off n k xs w h e r =
      let width : length (take n xs) ≡ k = omega (arith, length-take n xs) in
      ap (λ m. slice off (off + m) w) (sym width) ∙ r

module _ {ℓ κ} {A : Type ℓ} (P : A → Type κ) where
  pub All-left : (xs ys : List A) → All P (xs ++ ys) → All P xs
  All-left [] ys h = tt
  All-left (x ∷ xs) ys h = (h.0, All-left xs ys h.1)

  pub All-right : (xs ys : List A) → All P (xs ++ ys) → All P ys
  All-right [] ys h = h
  All-right (x ∷ xs) ys h = All-right xs ys h.1
