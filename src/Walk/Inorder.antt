-- ===== src/Walk/Inorder.antt =====
-- tree2list under twalk lists the nodes of the tree in order.
use tank_convertor.Base.{
  ℕ, suc, ◌+◌, ◌≡◌, refl, sym, ap, ◌∙◌, ◌<◌, ◌⊎◌, inl, inr, none, some, List, [], ◌∷◌, ◌++◌, map,
  length, length-append, set, replicate, arith,
}
use mathlib.Core.List.{append_assoc, map-append, append-nil}
use tank_convertor.Libc.Search.{Tree, nil, node, Event, event, Visit, twalk}
use tank_convertor.Libc.Search.Order.{inorder}
use tank_convertor.Walk.{Listing, list_trace, visit_list, tree2list, walk_events}

pub walk_events-append {ℓ} :
    {S : Type ℓ} (action : Event → S → S) (es es' : List Event) (s : S)
    → walk_events action (es ++ es') s ≡ walk_events action es' (walk_events action es s)
unfolding walk_events
walk_events-append action [] es' s = refl
walk_events-append action (e ∷ es) es' s = walk_events-append action es es' (action e s)

set-append {ℓ} :
    {A : Type ℓ} (xs ys : List A) (x v : A) → set (xs ++ x ∷ ys) (length xs) v ≡ xs ++ v ∷ ys
set-append [] ys x v = refl
set-append (y ∷ xs) ys x v = ap (◌∷◌ y) (set-append xs ys x v)

-- A listing whose first pointers are `done`, with `room` null pointers behind them.
abbrev listed : List ℕ → ℕ → Listing
listed done room = record { nlist = length done; trace_list = map some done ++ replicate room none }

length-map-some : (ps : List ℕ) → length (map some ps) ≡ length ps
length-map-some [] = refl
length-map-some (p ∷ ps) = ap suc (length-map-some ps)

list_trace-listed :
    (p : ℕ) (done : List ℕ) (room : ℕ)
    → list_trace p (listed done (suc room)) ≡ listed (done ++ p ∷ []) room
unfolding list_trace
list_trace-listed p done room = λ i. record { nlist = counted i; trace_list = written i }
  where
    counted : length done + 1 ≡ length (done ++ p ∷ [])
    counted = omega (arith, length-append done (p ∷ []))

    written :
        set (map some done ++ replicate (suc room) none) (length done) (some p)
        ≡ map some (done ++ p ∷ []) ++ replicate room none
    written =
        ap (λ (n : ℕ). set (map some done ++ replicate (suc room) none) n (some p))
          (sym (length-map-some done))
        ∙ set-append (map some done) (replicate room none) none (some p)
        ∙ rw (map-append, append_assoc)

regroup : (xs l r : List ℕ) (p : ℕ) → ((xs ++ l) ++ p ∷ []) ++ r ≡ xs ++ (l ++ (p ∷ r))
regroup xs l r p = simp append_assoc

-- A call before the left subtree resets the counter at the root only, where it is 0 anyway.
before :
    (p d : ℕ) (done : List ℕ) (room : ℕ)
    → (0 < d) ⊎ (done ≡ [])
    → visit_list Visit.preorder p d (listed done room) ≡ listed done room
unfolding visit_list
before p d done room (inl h) = ground arith
before p d done room (inr h) = rw h (ground arith)

-- The calls for a subtree list it, behind what is listed already.
abbrev Lists : Tree → Type 0
Lists t =
    (d : ℕ) (done : List ℕ) (room : ℕ)
    → (0 < d) ⊎ (done ≡ [])
    → walk_events tree2list (twalk t d) (listed done (length (inorder t) + room))
      ≡ listed (done ++ inorder t) room

internal :
    (l r : Tree) (p d : ℕ) (done : List ℕ) (room : ℕ)
    → Lists l
    → Lists r
    → (0 < d) ⊎ (done ≡ [])
    → walk_events tree2list
        (event p Visit.preorder d
          ∷ (twalk l (d + 1)
              ++ (event p Visit.postorder d
                  ∷ (twalk r (d + 1) ++ (event p Visit.endorder d ∷ [])))))
        (listed done (length (inorder (node l p r)) + room))
      ≡ listed (done ++ inorder (node l p r)) room
unfolding walk_events tree2list visit_list
internal l r p d done room hl hr h =
    let k = length (inorder r) + room in
    let rooms : length (inorder (node l p r)) + room ≡ length (inorder l) + suc k =
      omega (arith, length-append (inorder l) (p ∷ inorder r)) in
    let walk = walk_events tree2list in
    let right : List Event = twalk r (d + 1) ++ (event p Visit.endorder d ∷ []) in
    let middle : List Event = event p Visit.postorder d ∷ right in
    let mine = done ++ inorder l in
    ap (λ (n : ℕ). walk (event p Visit.preorder d ∷ (twalk l (d + 1) ++ middle)) (listed done n))
      rooms
    ∙ ap (walk (twalk l (d + 1) ++ middle)) (before p d done (length (inorder l) + suc k) h)
    ∙ walk_events-append tree2list (twalk l (d + 1)) middle
        (listed done (length (inorder l) + suc k))
    ∙ ap (walk middle) (hl (d + 1) done (suc k) (inl (omega arith)))
    ∙ ap (walk right) (list_trace-listed p mine k)
    ∙ walk_events-append tree2list (twalk r (d + 1)) (event p Visit.endorder d ∷ [])
        (listed (mine ++ p ∷ []) k)
    ∙ ap (walk (event p Visit.endorder d ∷ []))
        (hr (d + 1) (mine ++ p ∷ []) room (inl (omega arith)))
    ∙ ap (λ (ps : List ℕ). listed ps room) (regroup done (inorder l) (inorder r) p)

walk-Lists : (t : Tree) → Lists t
unfolding walk_events tree2list visit_list twalk
walk-Lists nil d done room h =
    let e : 0 + room ≡ room = omega arith in
    ap (λ (n : ℕ). listed done n) e ∙ ap (λ (ps : List ℕ). listed ps room) (sym (append-nil done))
walk-Lists (node nil p nil) d done room h =
    let e : 1 + room ≡ suc room = omega arith in
    ap (λ (n : ℕ). list_trace p (listed done n)) e ∙ list_trace-listed p done room
walk-Lists (node (node a q b) p r) d done room h =
    internal (node a q b) r p d done room (walk-Lists (node a q b)) (walk-Lists r) h
walk-Lists (node nil p (node a q b)) d done room h =
    internal nil (node a q b) p d done room (walk-Lists nil) (walk-Lists (node a q b)) h

-- A walk of the whole tree into an array of null pointers that is large enough lists the pointers
-- in order, and leaves the rest null.
pub walk-inorder :
    (t : Tree) (room : ℕ)
    → (walk_events tree2list
        (twalk t 0)
        (record { nlist = 0; trace_list = replicate (length (inorder t) + room) none })).trace_list
      ≡ map some (inorder t) ++ replicate room none
walk-inorder t room = ap (λ (l : Listing). l.trace_list) (walk-Lists t 0 [] room (inr refl))
