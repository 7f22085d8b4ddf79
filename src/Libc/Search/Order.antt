-- ===== src/Libc/Search/Order.antt =====
-- The tree of <search.h> is ordered, and tfind finds what tsearch has put there.
use mathlib.Core.Path.{subst}
use mathlib.Core.Option.{some-injective}
use tank_convertor.Base.{
  ℕ, suc, ◌≡◌, ◌⊎◌, inl, inr, refl, none, some, List, [], ◌∷◌, ◌++◌, Ordering, length,
  length-append, arith,
}
use tank_convertor.Libc.Strings.Order.{IsComparison}
use tank_convertor.Libc.Search.{Tree, nil, node, tfind, tsearch}

-- The pointers of a tree, in order.
abbrev pub inorder : Tree → List ℕ
inorder nil = []
inorder (node l p r) = inorder l ++ (p ∷ inorder r)

-- Every pointer of the tree satisfies `P`.
abbrev pub Every : (ℕ → Type 0) → Tree → Type 0
Every P nil = Unit
Every P (node l p r) = Every P l × P p × Every P r

pub Ordering-cases : (o : Ordering) → (o ≡ Ordering.lt) ⊎ ((o ≡ Ordering.eq) ⊎ (o ≡ Ordering.gt))
Ordering-cases Ordering.lt = inl refl
Ordering-cases Ordering.eq = inr (inl refl)
Ordering-cases Ordering.gt = inr (inr refl)

module _ {K : Type 0} (cmp : K → K → Ordering) (key_of : ℕ → K) where
  -- A binary search tree without equal keys.
  abbrev pub IsSearchTree : Tree → Type 0
  IsSearchTree nil = Unit
  IsSearchTree (node l p r) =
      IsSearchTree l
      × Every (λ q. cmp (key_of q) (key_of p) ≡ Ordering.lt) l
      × Every (λ q. cmp (key_of p) (key_of q) ≡ Ordering.lt) r
      × IsSearchTree r

  pub tsearch-Every :
      (P : ℕ → Type 0) (p : ℕ) (t : Tree) → P p → Every P t → Every P (tsearch cmp key_of p t)
  unfolding tsearch
  tsearch-Every P p nil h e = (tt, h, tt)
  tsearch-Every P p (node l q r) h e = elim (Ordering-cases (cmp (key_of p) (key_of q))) [
    | inl lt ↦ rw (lt, tsearch) (tsearch-Every P p l h e.0, e.1, e.2)
    | inr (inl eq) ↦ rw (eq, tsearch) e
    | inr (inr gt) ↦ rw (gt, tsearch) (e.0, e.1, tsearch-Every P p r h e.2)
  ]

  module _ (laws : IsComparison cmp) where
    -- tsearch keeps the order.
    pub tsearch-IsSearchTree :
        (p : ℕ) (t : Tree) → IsSearchTree t → IsSearchTree (tsearch cmp key_of p t)
    unfolding tsearch
    tsearch-IsSearchTree p nil s = (tt, tt, tt, tt)
    tsearch-IsSearchTree p (node l q r) s = elim (Ordering-cases (cmp (key_of p) (key_of q))) [
      | inl lt ↦
          rw (lt, tsearch) (tsearch-IsSearchTree p l s.0, tsearch-Every _ p l lt s.1, s.2, s.3)
      | inr (inl eq) ↦ rw (eq, tsearch) s
      | inr (inr gt) ↦
          rw (gt, tsearch)
            (
              s.0,
              s.1,
              tsearch-Every _ p r (rw (laws.flipped (key_of p) (key_of q), gt) refl) s.2,
              tsearch-IsSearchTree p r s.3,
            )
    ]

    -- What tfind finds has the key, and is in the tree.
    pub tfind-eq :
        (k : K) (t : Tree) (p : ℕ) → tfind cmp key_of k t ≡ some p → cmp k (key_of p) ≡ Ordering.eq
    unfolding tfind
    tfind-eq k nil p h = cc
    tfind-eq k (node l q r) p h = elim (Ordering-cases (cmp k (key_of q))) [
      | inl lt ↦ tfind-eq k l p (rw (lt, tfind) at h)
      | inr (inl eq) ↦ ground (arith, eq)
      | inr (inr gt) ↦ tfind-eq k r p (rw (gt, tfind) at h)
    ]

    pub tfind-Every :
        (P : ℕ → Type 0) (k : K) (t : Tree) (p : ℕ)
        → Every P t
        → tfind cmp key_of k t ≡ some p
        → P p
    unfolding tfind
    tfind-Every P k nil p e h = cc
    tfind-Every P k (node l q r) p e h = elim (Ordering-cases (cmp k (key_of q))) [
      | inl lt ↦ tfind-Every P k l p e.0 (rw (lt, tfind) at h)
      | inr (inl eq) ↦ subst P (some-injective _ _ (rw (eq, tfind) at h)) e.1
      | inr (inr gt) ↦ tfind-Every P k r p e.2 (rw (gt, tfind) at h)
    ]

    -- A key that tfind does not find is inserted: one more pointer.
    pub length-inorder-tsearch :
        (p : ℕ) (t : Tree)
        → tfind cmp key_of (key_of p) t ≡ none
        → length (inorder (tsearch cmp key_of p t)) ≡ suc (length (inorder t))
    unfolding tfind tsearch
    length-inorder-tsearch p nil h = refl
    length-inorder-tsearch p (node l q r) h = elim (Ordering-cases (cmp (key_of p) (key_of q))) [
      | inl lt ↦
          rw (lt, tsearch)
            (omega (
              arith,
              length-inorder-tsearch p l (rw (lt, tfind) at h),
              length-append (inorder l) (q ∷ inorder r),
              length-append (inorder (tsearch cmp key_of p l)) (q ∷ inorder r),
            ))
      | inr (inl eq) ↦ ground (arith, eq)
      | inr (inr gt) ↦
          rw (gt, tsearch)
            (omega (
              arith,
              length-inorder-tsearch p r (rw (gt, tfind) at h),
              length-append (inorder l) (q ∷ inorder r),
              length-append (inorder l) (q ∷ inorder (tsearch cmp key_of p r)),
            ))
    ]

    -- After the insertion of a key that was not there, tfind finds the new pointer by that key, and
    -- by every other key what it found before.
    pub tfind-tsearch :
        (k : K) (p : ℕ) (t : Tree)
        → tfind cmp key_of (key_of p) t ≡ none
        → tfind cmp key_of k (tsearch cmp key_of p t)
          ≡ elim (cmp k (key_of p)) [ Ordering.eq ↦ some p | _ ↦ tfind cmp key_of k t ]
    unfolding tfind tsearch
    tfind-tsearch k p nil h = ground arith
    tfind-tsearch k p (node l q r) h = elim (Ordering-cases (cmp (key_of p) (key_of q))) [
      | inl lt ↦
          let absent : tfind cmp key_of (key_of p) l ≡ none = rw (lt, tfind) at h in
          rw (lt, tsearch)
            (ground (
              arith,
              tfind-tsearch k p l absent,
              laws.eq_left k (key_of q) (key_of p),
              laws.flipped (key_of p) (key_of q),
              laws.flipped k (key_of q),
              laws.flipped (key_of p) k,
              laws.trans_lt (key_of p) (key_of q) k,
            ))
      | inr (inl eq) ↦ ground (arith, eq)
      | inr (inr gt) ↦
          let absent : tfind cmp key_of (key_of p) r ≡ none = rw (gt, tfind) at h in
          rw (gt, tsearch)
            (ground (
              arith,
              tfind-tsearch k p r absent,
              laws.eq_left k (key_of q) (key_of p),
              laws.flipped (key_of p) (key_of q),
              laws.trans_lt k (key_of q) (key_of p),
            ))
    ]

-- Two ways to read the keys that agree on the pointers of the tree.
module _ {K : Type 0} (cmp : K → K → Ordering) (key_of key_of' : ℕ → K) where
  abbrev Agree : Tree → Type 0
  Agree = Every (λ p. key_of' p ≡ key_of p)

  pub tfind_congr : (k : K) (t : Tree) → Agree t → tfind cmp key_of' k t ≡ tfind cmp key_of k t
  unfolding tfind
  tfind_congr k nil a = refl
  tfind_congr k (node l q r) a =
      rw (a.1, tfind) (ground (arith, tfind_congr k l a.0, tfind_congr k r a.2))

  Every-below :
      (x : K) (t : Tree)
      → Agree t
      → Every (λ q. cmp (key_of q) x ≡ Ordering.lt) t
      → Every (λ q. cmp (key_of' q) x ≡ Ordering.lt) t
  Every-below x nil a e = tt
  Every-below x (node l q r) a e = (Every-below x l a.0 e.0, rw a.1 e.1, Every-below x r a.2 e.2)

  Every-above :
      (x : K) (t : Tree)
      → Agree t
      → Every (λ q. cmp x (key_of q) ≡ Ordering.lt) t
      → Every (λ q. cmp x (key_of' q) ≡ Ordering.lt) t
  Every-above x nil a e = tt
  Every-above x (node l q r) a e = (Every-above x l a.0 e.0, rw a.1 e.1, Every-above x r a.2 e.2)

  pub IsSearchTree-congr :
      (t : Tree) → Agree t → IsSearchTree cmp key_of t → IsSearchTree cmp key_of' t
  IsSearchTree-congr nil a s = tt
  IsSearchTree-congr (node l q r) a s = (
    IsSearchTree-congr l a.0 s.0,
    rw a.1 (Every-below (key_of q) l a.0 s.1),
    rw a.1 (Every-above (key_of q) r a.2 s.2),
    IsSearchTree-congr r a.2 s.3,
  )

pub Every-mono : {P Q : ℕ → Type 0} (t : Tree) → ((p : ℕ) → P p → Q p) → Every P t → Every Q t
Every-mono nil h e = tt
Every-mono (node l q r) h e = (Every-mono l h e.0, h q e.1, Every-mono r h e.2)

-- Keys that compare equal are found alike.
pub tfind_same :
    {K : Type 0} (cmp : K → K → Ordering)
    → IsComparison cmp
    → (key_of : ℕ → K) (j k : K) (t : Tree) → cmp j k ≡ Ordering.eq
    → tfind cmp key_of j t ≡ tfind cmp key_of k t
unfolding tfind
tfind_same cmp laws key_of j k nil e = refl
tfind_same cmp laws key_of j k (node l q r) e =
    rw (laws.eq_left j k (key_of q) e, tfind)
      (ground (arith, tfind_same cmp laws key_of j k l e, tfind_same cmp laws key_of j k r e))
