-- ===== src/Prelude/Sort.antt =====
-- A stable sort by a Boolean `less`, as sort.SliceStable and slices.SortFunc make it.
use mathlib.Core.List.{Permᴰ}
use mathlib.Core.List.Permᴰ
use swarm_communication.Prelude.{
  ◌≡◌, refl, ap, ◌∙◌, subst, inl, inr, Bool, true, not, List, [], ◌∷◌, arith, if◌then◌else◌, All,
  length, Bool-cases, suc, keep,
}

module _ {A : Type 0} (less : A → A → Bool) where
  -- `x` goes before the first element that is not less than it.
  unfoldable pub insert_sorted : A → List A → List A
  insert_sorted x [] = x ∷ []
  insert_sorted x (y ∷ ys) = if less y x then y ∷ insert_sorted x ys else x ∷ y ∷ ys

  unfoldable pub sort : List A → List A
  unfolding insert_sorted
  sort [] = []
  sort (x ∷ xs) = insert_sorted x (sort xs)

module _ {A : Type 0} where
  -- Every two elements, at different places, are in the relation.
  abbrev pub AllPairs : (A → A → Type 0) → List A → Type 0
  AllPairs R [] = Unit
  AllPairs R (x ∷ xs) = All (R x) xs × AllPairs R xs

  All-perm : (P : A → Type 0) {xs ys : List A} → Permᴰ xs ys → All P xs → All P ys
  All-perm P Permᴰ.nil h = h
  All-perm P (Permᴰ.cons {a = a} {b = b} e p) h = (rw (← e) h.0, All-perm P p h.1)
  All-perm P (Permᴰ.swap e f) h = (rw (← f) h.1.0, (rw (← e) h.0, h.1.1))
  All-perm P (Permᴰ.trans p q) h = All-perm P q (All-perm P p h)

  pub AllPairs-perm :
      {R : A → A → Type 0}
      → ((x y : A) → R x y → R y x)
      → {xs ys : List A} → Permᴰ xs ys
      → AllPairs R xs
      → AllPairs R ys
  AllPairs-perm symm Permᴰ.nil h = h
  AllPairs-perm {R} symm (Permᴰ.cons e p) h =
      (rw (← e) (All-perm (R _) p h.0), AllPairs-perm symm p h.1)
  AllPairs-perm {R} symm (Permᴰ.swap {a = x} {b = y} {b' = x'} {l = l} e f) h =
      subst (λ z. AllPairs R (z ∷ x' ∷ l)) f
        (subst (λ z. AllPairs R (y ∷ z ∷ l)) e ((symm x y h.0.0, h.1.0), (h.0.1, h.1.1)))
  AllPairs-perm symm (Permᴰ.trans p q) h = AllPairs-perm symm q (AllPairs-perm symm p h)

module _ {A : Type 0} (less : A → A → Bool) where
  -- Exactly one of the two is less than the other.
  abbrev pub Comparable : A → A → Type 0
  Comparable x y = less x y ≡ not (less y x)

  Comparable-symm : (x y : A) → Comparable x y → Comparable y x
  Comparable-symm x y h = ground arith

  module _ (trans : (x y z : A) → less x y ≡ true → less y z ≡ true → less x z ≡ true) where
    insert_sorted_comm :
        (x y : A) (l : List A)
        → Comparable x y
        → insert_sorted less x (insert_sorted less y l)
          ≡ insert_sorted less y (insert_sorted less x l)
    unfolding insert_sorted
    insert_sorted_comm x y [] h = ground arith
    insert_sorted_comm x y (z ∷ l) h =
        ground (arith, insert_sorted_comm x y l h, trans z x y, trans z y x)

    -- Where any two elements are comparable, the order of the input does not matter.
    pub sort-perm :
        {xs ys : List A} → Permᴰ xs ys → AllPairs Comparable xs → sort less xs ≡ sort less ys
    unfolding sort
    sort-perm Permᴰ.nil h = refl
    sort-perm (Permᴰ.cons e p) h = rw (e, sort-perm p h.1)
    sort-perm (Permᴰ.swap {l = l} e f) h =
        rw (← e, ← f) (insert_sorted_comm _ _ (sort less l) h.0.0)
    sort-perm (Permᴰ.trans p q) h = sort-perm p h ∙ sort-perm q (AllPairs-perm Comparable-symm p h)

module _ {A : Type 0} (less : A → A → Bool) where
  insert_sorted-perm : (x : A) (l : List A) → Permᴰ (insert_sorted less x l) (x ∷ l)
  unfolding insert_sorted
  insert_sorted-perm x [] = Permᴰ.cons refl Permᴰ.nil
  insert_sorted-perm x (y ∷ l) = elim (Bool-cases (less y x)) [
    | inl e ↦ rw e (Permᴰ.trans (Permᴰ.cons refl (insert_sorted-perm x l)) (Permᴰ.swap refl refl))
    | inr e ↦ rw e (Permᴰ.refl (x ∷ y ∷ l))
  ]

  -- Sorting only reorders.
  pub sort-Permᴰ : (l : List A) → Permᴰ (sort less l) l
  unfolding sort
  sort-Permᴰ [] = Permᴰ.nil
  sort-Permᴰ (x ∷ l) =
      Permᴰ.trans (insert_sorted-perm x (sort less l)) (Permᴰ.cons refl (sort-Permᴰ l))

module _ {A : Type 0} where
  pub All-Permᴰ : (P : A → Type 0) {xs ys : List A} → Permᴰ xs ys → All P xs → All P ys
  All-Permᴰ P p h = All-perm P p h

  pub length-Permᴰ : {xs ys : List A} → Permᴰ xs ys → length xs ≡ length ys
  length-Permᴰ Permᴰ.nil = refl
  length-Permᴰ (Permᴰ.cons e p) = ap suc (length-Permᴰ p)
  length-Permᴰ (Permᴰ.swap e f) = refl
  length-Permᴰ (Permᴰ.trans p q) = length-Permᴰ p ∙ length-Permᴰ q

  pub keep-Permᴰ : (p : A → Bool) {xs ys : List A} → Permᴰ xs ys → Permᴰ (keep p xs) (keep p ys)
  keep-Permᴰ p Permᴰ.nil = Permᴰ.nil
  keep-Permᴰ p (Permᴰ.cons {a = a} {b = b} e q) = elim (Bool-cases (p a)) [
    | inl t ↦ rw (← e, t) (Permᴰ.cons refl (keep-Permᴰ p q))
    | inr t ↦ rw (← e, t) (keep-Permᴰ p q)
  ]
  keep-Permᴰ p (Permᴰ.swap {a = a} {b = b} {l = l} e f) = rw (← e, ← f) (swapped a b l)
    where
      swapped : (a b : A) (l : List A) → Permᴰ (keep p (a ∷ b ∷ l)) (keep p (b ∷ a ∷ l))
      swapped a b l = elim (Bool-cases (p a)) [
        | inl s ↦ elim (Bool-cases (p b)) [
          | inl t ↦ rw (s, t) (Permᴰ.swap refl refl)
          | inr t ↦ rw (s, t) (Permᴰ.refl _)
        ]
        | inr s ↦ elim (Bool-cases (p b)) [
          | inl t ↦ rw (s, t) (Permᴰ.refl _)
          | inr t ↦ rw (s, t) (Permᴰ.refl _)
        ]
      ]
  keep-Permᴰ p (Permᴰ.trans q r) = Permᴰ.trans (keep-Permᴰ p q) (keep-Permᴰ p r)
