-- ===== src/Libc/Search.antt =====
-- The tree of <search.h> over pointers: tfind, tsearch and twalk. POSIX asks for a binary search
-- tree and leaves balancing to the implementation; this one does not balance.
pub mod Order
pub mod Found
use tank_convertor.Base.{ℕ, ◌+◌, Option, none, some, List, [], ◌∷◌, ◌++◌, Ordering}

pub data Tree : Type 0 where
  nil : Tree
  node : Tree → ℕ → Tree → Tree

-- The values of `VISIT`.
pub data Visit : Type 0 where
  preorder postorder endorder leaf : Visit

pub record Event : Type 0 where
  pub pointer : ℕ
  pub which : Visit
  pub depth : ℕ

abbrev pub event : ℕ → Visit → ℕ → Event
event p w d = record { pointer = p; which = w; depth = d }

module _ {ℓ} {K : Type ℓ} (cmp : K → K → Ordering) (key_of : ℕ → K) where
  unfoldable pub tfind : K → Tree → Option ℕ
  tfind k nil = none
  tfind k (node l p r) = elim (cmp k (key_of p)) [
    | Ordering.lt ↦ tfind k l
    | Ordering.eq ↦ some p
    | Ordering.gt ↦ tfind k r
  ]

  -- Inserts the pointer `p`, unless a node with an equal key is there.
  unfoldable pub tsearch : ℕ → Tree → Tree
  tsearch p nil = node nil p nil
  tsearch p (node l q r) = elim (cmp (key_of p) (key_of q)) [
    | Ordering.lt ↦ node (tsearch p l) q r
    | Ordering.eq ↦ node l q r
    | Ordering.gt ↦ node l q (tsearch p r)
  ]

-- The calls that twalk makes, in order.
unfoldable pub twalk : Tree → ℕ → List Event
twalk nil d = []
twalk (node nil p nil) d = event p leaf d ∷ []
twalk (node (node a q b) p r) d =
    event p preorder d
    ∷ (twalk (node a q b) (d + 1)
        ++ (event p postorder d ∷ (twalk r (d + 1) ++ (event p endorder d ∷ []))))
twalk (node nil p (node a q b)) d =
    event p preorder d
    ∷ event p postorder d
    ∷ (twalk (node a q b) (d + 1) ++ (event p endorder d ∷ []))
