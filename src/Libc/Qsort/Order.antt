-- ===== src/Libc/Qsort/Order.antt =====
-- qsort sorts, and neither loses nor invents an element.
use mathlib.Core.List.{Perm}
use mathlib.Core.List.Perm
use tank_convertor.Base.{
  suc, length, ap, ◌∙◌, ◌≡◌, ◌≢◌, inl, inr, refl, List, [], ◌∷◌, Ordering, All, arith,
}
use tank_convertor.Libc.Search.Order.{Ordering-cases}
use tank_convertor.Libc.Qsort.{insert, qsort}

-- What qsort asks of its comparison function, on the elements that satisfy `P`.
pub record IsPreorder {ℓ} {A : Type ℓ} (P : A → Type 0) (cmp : A → A → Ordering) : Type ℓ where
  pub trans :
      (x y z : A)
      → P x
      → P y
      → P z
      → cmp x y ≢ Ordering.gt
      → cmp y z ≢ Ordering.gt
      → cmp x z ≢ Ordering.gt
  pub total : (x y : A) → P x → P y → cmp x y ≡ Ordering.gt → cmp y x ≢ Ordering.gt

module _ {ℓ} {A : Type ℓ} (cmp : A → A → Ordering) where
  -- No element is greater than a later one.
  abbrev pub IsSorted : List A → Type 0
  IsSorted [] = Unit
  IsSorted (x ∷ xs) = All (λ y. cmp x y ≢ Ordering.gt) xs × IsSorted xs

  insert-perm : (x : A) (xs : List A) → Perm (insert cmp x xs) (x ∷ xs)
  unfolding insert
  insert-perm x [] = Perm.rfl
  insert-perm x (y ∷ ys) = elim (Ordering-cases (cmp x y)) [
    | inl lt ↦ rw (lt, insert) Perm.rfl
    | inr (inl eq) ↦ rw (eq, insert) Perm.rfl
    | inr (inr gt) ↦
        rw (gt, insert) (Perm.trans (Perm.cons y (insert-perm x ys)) (Perm.swap x y ys))
  ]

  -- The result has the same elements, each as often.
  pub qsort-perm : (xs : List A) → Perm (qsort cmp xs) xs
  unfolding qsort
  qsort-perm [] = Perm.rfl
  qsort-perm (x ∷ xs) = Perm.trans (insert-perm x (qsort cmp xs)) (Perm.cons x (qsort-perm xs))

  length-insert : (x : A) (xs : List A) → length (insert cmp x xs) ≡ suc (length xs)
  unfolding insert
  length-insert x [] = refl
  length-insert x (y ∷ ys) = elim (Ordering-cases (cmp x y)) [
    | inl lt ↦ rw (lt, insert) refl
    | inr (inl eq) ↦ rw (eq, insert) refl
    | inr (inr gt) ↦ rw (gt, insert) (ap suc (length-insert x ys))
  ]

  pub length-qsort : (xs : List A) → length (qsort cmp xs) ≡ length xs
  unfolding qsort
  length-qsort [] = refl
  length-qsort (x ∷ xs) = length-insert x (qsort cmp xs) ∙ ap suc (length-qsort xs)

  insert-All : (Q : A → Type 0) (x : A) (xs : List A) → Q x → All Q xs → All Q (insert cmp x xs)
  unfolding insert
  insert-All Q x [] h a = (h, tt)
  insert-All Q x (y ∷ ys) h a = elim (Ordering-cases (cmp x y)) [
    | inl lt ↦ rw (lt, insert) (h, a)
    | inr (inl eq) ↦ rw (eq, insert) (h, a)
    | inr (inr gt) ↦ rw (gt, insert) (a.0, insert-All Q x ys h a.1)
  ]

  pub qsort-All : (Q : A → Type 0) (xs : List A) → All Q xs → All Q (qsort cmp xs)
  unfolding qsort
  qsort-All Q [] a = tt
  qsort-All Q (x ∷ xs) a = insert-All Q x (qsort cmp xs) a.0 (qsort-All Q xs a.1)

  module _ (P : A → Type 0) (laws : IsPreorder P cmp) where
    above-All :
        (x y : A) (ys : List A)
        → P x
        → P y
        → All P ys
        → cmp x y ≢ Ordering.gt
        → All (λ z. cmp y z ≢ Ordering.gt) ys
        → All (λ z. cmp x z ≢ Ordering.gt) ys
    above-All x y [] p q ps h a = tt
    above-All x y (z ∷ zs) p q ps h a =
        (laws.trans x y z p q ps.0 h a.0, above-All x y zs p q ps.1 h a.1)

    insert_front :
        (x y : A) (ys : List A)
        → P x
        → P y
        → All P ys
        → cmp x y ≢ Ordering.gt
        → IsSorted (y ∷ ys)
        → IsSorted (x ∷ y ∷ ys)
    insert_front x y ys p q ps h s = ((h, above-All x y ys p q ps h s.0), s)

    insert-IsSorted :
        (x : A) (xs : List A) → P x → All P xs → IsSorted xs → IsSorted (insert cmp x xs)
    unfolding insert
    insert-IsSorted x [] p ps s = (tt, tt)
    insert-IsSorted x (y ∷ ys) p ps s = elim (Ordering-cases (cmp x y)) [
      | inl lt ↦ rw (lt, insert) (insert_front x y ys p ps.0 ps.1 (λ e. ground (arith, lt)) s)
      | inr (inl eq) ↦ rw (eq, insert) (insert_front x y ys p ps.0 ps.1 (λ e. ground (arith, eq)) s)
      | inr (inr gt) ↦
          rw (gt, insert)
            (
              insert-All (λ z. cmp y z ≢ Ordering.gt) x ys (laws.total x y p ps.0 gt) s.0,
              insert-IsSorted x ys p ps.1 s.1,
            )
    ]

    -- The result is sorted.
    pub qsort-IsSorted : (xs : List A) → All P xs → IsSorted (qsort cmp xs)
    unfolding qsort
    qsort-IsSorted [] ps = tt
    qsort-IsSorted (x ∷ xs) ps =
        insert-IsSorted x (qsort cmp xs) ps.0 (qsort-All P xs ps.1) (qsort-IsSorted xs ps.1)
