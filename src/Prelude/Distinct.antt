-- ===== src/Prelude/Distinct.antt =====
-- Lists of numbers without repetition: sorting, cutting, joining and overwriting.
use mathlib.Core.List.{Permᴰ}
use swarm_communication.Prelude.{
  ℕ, ◌<◌, ◌≡◌, refl, ◌∙◌, false, List, [], ◌∷◌, ◌++◌, ltb, arith, inl, inr, Bool-cases, All,
  All-map, contains, contains-append, IsDistinct, IsIncreasing, take, set, zero, suc,
}
use swarm_communication.Prelude.Sort.{sort, insert_sorted, sort-Permᴰ}

pub contains-Permᴰ : {xs ys : List ℕ} → Permᴰ xs ys → (j : ℕ) → contains xs j ≡ contains ys j
contains-Permᴰ Permᴰ.nil j = refl
contains-Permᴰ (Permᴰ.cons {a = a} {b = b} e p) j = ground (arith, contains-Permᴰ p j)
contains-Permᴰ (Permᴰ.swap e f) j = ground arith
contains-Permᴰ (Permᴰ.trans p q) j = contains-Permᴰ p j ∙ contains-Permᴰ q j

pub IsDistinct-Permᴰ : {xs ys : List ℕ} → Permᴰ xs ys → IsDistinct xs → IsDistinct ys
IsDistinct-Permᴰ Permᴰ.nil d = tt
IsDistinct-Permᴰ (Permᴰ.cons {a = a} {b = b} e p) d =
    (ground (arith, contains-Permᴰ p b), IsDistinct-Permᴰ p d.1)
IsDistinct-Permᴰ (Permᴰ.swap e f) d = ground arith
IsDistinct-Permᴰ (Permᴰ.trans p q) d = IsDistinct-Permᴰ q (IsDistinct-Permᴰ p d)

All-insert_sorted :
    (a x : ℕ) (l : List ℕ) → a < x → All (λ y. a < y) l → All (λ y. a < y) (insert_sorted ltb x l)
unfolding insert_sorted
All-insert_sorted a x [] p h = (p, tt)
All-insert_sorted a x (y ∷ l) p h = ground (arith, All-insert_sorted a x l p h.1)

insert_sorted-IsIncreasing :
    (x : ℕ) (l : List ℕ)
    → IsIncreasing l
    → contains l x ≡ false
    → IsIncreasing (insert_sorted ltb x l)
unfolding insert_sorted
insert_sorted-IsIncreasing x [] h n = (tt, tt)
insert_sorted-IsIncreasing x (y ∷ l) h n = elim (Bool-cases (ltb y x)) [
  | inl c ↦ rw c (
    All-insert_sorted y x l (ground arith) h.0,
    insert_sorted-IsIncreasing x l h.1 (ground arith),
  )
  | inr c ↦
      let below : x < y = ground arith in rw c ((below, All-map (λ z p. omega arith) l h.0), h)
]

-- Numbers without repetition are sorted into strictly increasing order.
pub sort-IsIncreasing : (l : List ℕ) → IsDistinct l → IsIncreasing (sort ltb l)
unfolding sort
sort-IsIncreasing [] d = tt
sort-IsIncreasing (x ∷ l) d =
    insert_sorted-IsIncreasing x (sort ltb l) (sort-IsIncreasing l d.1)
      (contains-Permᴰ (sort-Permᴰ ltb l) x ∙ d.0)

pub contains-take :
    (n : ℕ) (l : List ℕ) (j : ℕ) → contains l j ≡ false → contains (take n l) j ≡ false
contains-take zero l j h = refl
contains-take (suc n) [] j h = refl
contains-take (suc n) (x ∷ l) j h = ground (arith, contains-take n l j)

pub take-IsDistinct : (n : ℕ) (l : List ℕ) → IsDistinct l → IsDistinct (take n l)
take-IsDistinct zero l d = tt
take-IsDistinct (suc n) [] d = tt
take-IsDistinct (suc n) (x ∷ l) d = (contains-take n l x d.0, take-IsDistinct n l d.1)

pub append-IsDistinct :
    (xs ys : List ℕ)
    → IsDistinct xs
    → IsDistinct ys
    → All (λ y. contains xs y ≡ false) ys
    → IsDistinct (xs ++ ys)
append-IsDistinct [] ys dx dy h = dy
append-IsDistinct (x ∷ xs) ys dx dy h = (
  rw (contains-append xs ys x, dx.0) (missing ys h),
  append-IsDistinct xs ys dx.1 dy (All-map (λ y p. ground arith) ys h),
)
  where
    missing : (zs : List ℕ) → All (λ y. contains (x ∷ xs) y ≡ false) zs → contains zs x ≡ false
    missing [] h = refl
    missing (z ∷ zs) h = ground (arith, missing zs h.1)

-- Without the number in the middle the rest stays distinct, and does not hold it.
pub IsDistinct-middle :
    (xs : List ℕ) (y : ℕ) (ys : List ℕ)
    → IsDistinct (xs ++ y ∷ ys)
    → (contains (xs ++ ys) y ≡ false) × IsDistinct (xs ++ ys)
IsDistinct-middle [] y ys d = d
IsDistinct-middle (x ∷ xs) y ys d =
    ground
      (arith, IsDistinct-middle xs y ys d.1, contains-append xs (y ∷ ys) x, contains-append xs ys x)

contains-set-append :
    (xs : List ℕ) (i y : ℕ) (ys : List ℕ) (j : ℕ)
    → contains (xs ++ y ∷ ys) j ≡ false
    → contains (set xs i y ++ ys) j ≡ false
contains-set-append [] i y ys j h = ground arith
contains-set-append (x ∷ xs) zero y ys j h =
    ground (arith, contains-append xs (y ∷ ys) j, contains-append xs ys j)
contains-set-append (x ∷ xs) (suc i) y ys j h = ground (arith, contains-set-append xs i y ys j)

-- One number of the first list is overwritten by the head of the second.
pub set-append-IsDistinct :
    (xs : List ℕ) (i y : ℕ) (ys : List ℕ)
    → IsDistinct (xs ++ y ∷ ys)
    → IsDistinct (set xs i y ++ ys)
set-append-IsDistinct [] i y ys d = d.1
set-append-IsDistinct (x ∷ xs) zero y ys d = IsDistinct-middle xs y ys d.1
set-append-IsDistinct (x ∷ xs) (suc i) y ys d =
    (contains-set-append xs i y ys x d.0, set-append-IsDistinct xs i y ys d.1)

pub append-IsDistinct_left : (xs ys : List ℕ) → IsDistinct (xs ++ ys) → IsDistinct xs
append-IsDistinct_left [] ys d = tt
append-IsDistinct_left (x ∷ xs) ys d =
    (ground (arith, contains-append xs ys x), append-IsDistinct_left xs ys d.1)
