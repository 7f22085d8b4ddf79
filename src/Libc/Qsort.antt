-- ===== src/Libc/Qsort.antt =====
-- qsort. The standard leaves the algorithm open; this one inserts each element in turn.
pub mod Order
use tank_convertor.Base.{List, [], ◌∷◌, Ordering}

module _ {ℓ} {A : Type ℓ} (cmp : A → A → Ordering) where
  unfoldable pub insert : A → List A → List A
  insert x [] = x ∷ []
  insert x (y ∷ ys) = elim (cmp x y) [ Ordering.gt ↦ y ∷ insert x ys | _ ↦ x ∷ y ∷ ys ]

  unfoldable pub qsort : List A → List A
  qsort [] = []
  qsort (x ∷ xs) = insert x (qsort xs)
