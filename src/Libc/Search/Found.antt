-- ===== src/Libc/Search/Found.antt =====
-- Each pointer of a search tree is found by its own key.
use mathlib.Core.List.{Mem, mem-append_left, mem-append_right, mem-cons_self, mem-cons_of_mem}
use tank_convertor.Base.{ℕ, ◌≡◌, refl, ◌∙◌, some, ◌∷◌, Ordering}
use tank_convertor.Libc.Strings.Order.{IsComparison}
use tank_convertor.Libc.Search.{Tree, nil, node, tfind}
use tank_convertor.Libc.Search.Order.{inorder, Every, Every-mono, IsSearchTree}

both :
    {P Q R : ℕ → Type 0} (t : Tree)
    → Every P t
    → Every Q t
    → ((p : ℕ) → P p → Q p → R p)
    → Every R t
both nil a b h = tt
both (node l q r) a b h = (both l a.0 b.0 h, h q a.1 b.1, both r a.2 b.2 h)

pub Every-Mem : (t : Tree) → Every (λ p. Mem p (inorder t)) t
Every-Mem nil = tt
Every-Mem (node l p r) = (
  Every-mono l (λ q h. mem-append_left (p ∷ inorder r) h) (Every-Mem l),
  mem-append_right (inorder l) mem-cons_self,
  Every-mono r (λ q h. mem-append_right (inorder l) (mem-cons_of_mem p h)) (Every-Mem r),
)

module _ {K : Type 0} (cmp : K → K → Ordering) (key_of : ℕ → K) (laws : IsComparison cmp) where
  pub tfind_own :
      (t : Tree) → IsSearchTree cmp key_of t → Every (λ p. tfind cmp key_of (key_of p) t ≡ some p) t
  unfolding tfind
  tfind_own nil s = tt
  tfind_own (node l q r) s = (
    both l s.1 (tfind_own l s.0) (λ p less own. rw (less, tfind) own),
    rw (laws.refl_eq (key_of q), tfind) refl,
    both r s.2 (tfind_own r s.3) (λ p more own.
        let less : cmp (key_of p) (key_of q) ≡ Ordering.gt =
          laws.flipped (key_of q) (key_of p) ∙ rw more refl in
        rw (less, tfind) own),
  )
