-- ===== src/Prelude/Map.antt =====
-- A Go map with numbers for keys, as an association list with one entry for each key. The order of
-- the entries stands for the order in which one `range` over the map visits them.
use swarm_communication.Prelude.{
  some_inj, subst, ◌∙◌, inl, inr, Bool-cases, ==_iff, ℕ, ◌≡◌, refl, true, false, Option, none, some,
  List, [], ◌∷◌, arith, ◌==◌, if◌then◌else◌, contains, IsDistinct,
}

abbrev pub Map : Type 0 → Type 0
Map V = List (ℕ × V)

module _ {V : Type 0} where
  -- `m[k]`, with its second result.
  unfoldable pub lookup : ℕ → Map V → Option V
  lookup key [] = none
  lookup key ((own, val) ∷ rest) = if own == key then some val else lookup key rest

  -- `m[k] = v`: in the place of the key, or behind the other entries.
  unfoldable pub insert : ℕ → V → Map V → Map V
  insert key new [] = (key, new) ∷ []
  insert key new ((own, val) ∷ rest) =
      if own == key then (key, new) ∷ rest else (own, val) ∷ insert key new rest

  -- `delete`
  unfoldable pub erase : ℕ → Map V → Map V
  erase k [] = []
  erase k ((j, v) ∷ m) = if j == k then erase k m else (j, v) ∷ erase k m

  abbrev pub keys : Map V → List ℕ
  keys [] = []
  keys ((j, v) ∷ m) = j ∷ keys m

  abbrev pub values : Map V → List V
  values [] = []
  values ((j, v) ∷ m) = v ∷ values m

  pub lookup-insert :
      (key asked : ℕ) (new : V) (entries : Map V)
      → lookup asked (insert key new entries)
        ≡ (if key == asked then some new else lookup asked entries)
  unfolding lookup insert
  lookup-insert key asked new [] = refl
  lookup-insert key asked new ((own, val) ∷ rest) = ground (arith, lookup-insert key asked new rest)

  pub lookup-erase :
      (k j : ℕ) (m : Map V) → lookup j (erase k m) ≡ (if k == j then none else lookup j m)
  unfolding lookup erase
  lookup-erase k j [] = ground arith
  lookup-erase k j ((i, w) ∷ m) = ground (arith, lookup-erase k j m)

  pub contains-keys-insert :
      (k j : ℕ) (v : V) (m : Map V)
      → contains (keys (insert k v m)) j ≡ (if k == j then true else contains (keys m) j)
  unfolding insert
  contains-keys-insert k j v [] = refl
  contains-keys-insert k j v ((i, w) ∷ m) = ground (arith, contains-keys-insert k j v m)

  pub contains-keys-erase :
      (k j : ℕ) (m : Map V)
      → contains (keys (erase k m)) j ≡ (if k == j then false else contains (keys m) j)
  unfolding erase
  contains-keys-erase k j [] = ground arith
  contains-keys-erase k j ((i, w) ∷ m) = ground (arith, contains-keys-erase k j m)

  -- Writing and deleting keep one entry for each key.
  pub insert-IsDistinct :
      (k : ℕ) (v : V) (m : Map V) → IsDistinct (keys m) → IsDistinct (keys (insert k v m))
  unfolding insert
  insert-IsDistinct k v [] h = (refl, tt)
  insert-IsDistinct k v ((i, w) ∷ m) h =
      ground (arith, insert-IsDistinct k v m h.1, contains-keys-insert k i v m)

  pub erase-IsDistinct : (k : ℕ) (m : Map V) → IsDistinct (keys m) → IsDistinct (keys (erase k m))
  unfolding erase
  erase-IsDistinct k [] h = tt
  erase-IsDistinct k ((i, w) ∷ m) h =
      ground (arith, erase-IsDistinct k m h.1, contains-keys-erase k i m)

-- A relation of every key and its value.
abbrev pub AllEntries : {V : Type 0} → (ℕ → V → Type 0) → Map V → Type 0
AllEntries P [] = Unit
AllEntries P ((j, v) ∷ m) = P j v × AllEntries P m

module _ {V : Type 0} (P : ℕ → V → Type 0) where
  pub insert-AllEntries :
      (k : ℕ) (v : V) (m : Map V) → P k v → AllEntries P m → AllEntries P (insert k v m)
  unfolding insert
  insert-AllEntries k v [] p h = (p, tt)
  insert-AllEntries k v ((j, w) ∷ m) p h = elim (Bool-cases (j == k)) [
    | inl e ↦ rw e (p, h.1)
    | inr e ↦ rw e (h.0, insert-AllEntries k v m p h.1)
  ]

  pub erase-AllEntries : (k : ℕ) (m : Map V) → AllEntries P m → AllEntries P (erase k m)
  unfolding erase
  erase-AllEntries k [] h = tt
  erase-AllEntries k ((j, w) ∷ m) h = elim (Bool-cases (j == k)) [
    | inl e ↦ rw e (erase-AllEntries k m h.1)
    | inr e ↦ rw e (h.0, erase-AllEntries k m h.1)
  ]

  pub lookup-AllEntries : (k : ℕ) (m : Map V) {v : V} → AllEntries P m → lookup k m ≡ some v → P k v
  unfolding lookup
  lookup-AllEntries k [] h e = absurd (cc)
  lookup-AllEntries k ((j, w) ∷ m) {v = u} h e = elim (Bool-cases (j == k)) [
    | inl t ↦ subst (λ i. P i u) ((==_iff j k).0 t) (subst (P j) (some_inj (rw t at e)) h.0)
    | inr t ↦ lookup-AllEntries k m h.1 (rw t at e)
  ]

-- The laws in their rewriting form.
pub ruleset map_laws = (lookup-insert, lookup-erase)

-- The key that is written or deleted.
module _ {V : Type 0} where
  pub lookup-insert_self : (k : ℕ) (v : V) (m : Map V) → lookup k (insert k v m) ≡ some v
  lookup-insert_self k v m = lookup-insert k k v m ∙ rw ((==_iff k k).1 refl) refl

  pub lookup-erase_self : (k : ℕ) (m : Map V) → lookup k (erase k m) ≡ none
  lookup-erase_self k m = lookup-erase k k m ∙ rw ((==_iff k k).1 refl) refl
