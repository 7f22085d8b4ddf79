-- ===== src/Scan/Invariant.antt =====
-- The invariant of the loop of scan_tracebuf, and that every round keeps it.
use tank_convertor.Base.{
  ℕ, ◌^◌, ◌<◌, ◌≡◌, fun_ext, some, List, ◌++◌, length, get_elem?, set, All, All-set,
  get_elem?-set_self, get_elem?-set_ne, get_elem?-append, length-set,
}
use native.Mathlib.Decide.{ℕ_discrete}
use tank_convertor.Libc.Search.Order.{inorder, Every, IsSearchTree}
use tank_convertor.Trace.{TraceNode, compare_scnl}
use tank_convertor.Scan.{State, Outcome, again, stop, failed, crashed, key_of}

-- There is room for one more tracebuf in the list of a trace.
pub record IsNode {D : Type 0} (t : TraceNode D) : Type 0 where
  pub room : t.ntbuf < t.maxtbuf
  pub full : length t.tlist ≡ t.maxtbuf

pub record IsState {D : Type 0} (s : State D) : Type 0 where
  -- the tree is ordered, holds each node once, and every pointer in it points to a node
  pub search : IsSearchTree compare_scnl (key_of s.nodes) s.root
  pub inside : Every (λ p. p < length s.nodes) s.root
  pub count : length (inorder s.root) ≡ length s.nodes
  pub total : s.totaltrace ≡ length s.nodes
  pub each : All IsNode s.nodes

-- No list of a trace has 2 ^ 31 elements: twice their number still fits an `unsigned int`.
abbrev pub IsSmall : {D : Type 0} → State D → Type 0
IsSmall s = All (λ t. t.maxtbuf < 2 ^ 31) s.nodes

-- The state that a round ends in, if it ends in one, satisfies `P`.
abbrev pub Ends : {D : Type 0} → (State D → Type 0) → Outcome D → Type 0
Ends P (again s) = P s
Ends P (stop s) = P s
Ends P failed = Unit
Ends P crashed = Unit

module _ {D : Type 0} where
  key_of-set_at :
      (nodes : List (TraceNode D)) (p : ℕ) (t t1 : TraceNode D)
      → get_elem? nodes p ≡ some t
      → t1.scnl ≡ t.scnl
      → (q : ℕ) → key_of (set nodes p t1) q ≡ key_of nodes q
  unfolding key_of
  key_of-set_at nodes p t t1 h e q = elim (ℕ_discrete p q) [
    | yes same ↦ rw (← same, get_elem?-set_self nodes p t1 t h, key_of) (rw (h, key_of) e)
    | no other ↦ rw (get_elem?-set_ne nodes p q t1 other, key_of)
  ]

  -- A node that is written anew keeps its key.
  pub key_of-set :
      (nodes : List (TraceNode D)) (p : ℕ) (t t1 : TraceNode D)
      → get_elem? nodes p ≡ some t
      → t1.scnl ≡ t.scnl
      → key_of (set nodes p t1) ≡ key_of nodes
  key_of-set nodes p t t1 h e = fun_ext (key_of-set_at nodes p t t1 h e)

  -- A new node leaves the keys of the others alone.
  pub key_of-append :
      (nodes rest : List (TraceNode D)) (p : ℕ)
      → p < length nodes
      → key_of (nodes ++ rest) p ≡ key_of nodes p
  unfolding key_of
  key_of-append nodes rest p h = rw (get_elem?-append nodes rest p h, key_of)

  -- Writing a node with the same key and with room keeps the invariant.
  pub set-IsState :
      (s s1 : State D) (p : ℕ) (t t1 : TraceNode D)
      → IsState s
      → get_elem? s.nodes p ≡ some t
      → t1.scnl ≡ t.scnl
      → IsNode t1
      → s1.nodes ≡ set s.nodes p t1
      → s1.root ≡ s.root
      → s1.totaltrace ≡ s.totaltrace
      → IsState s1
  set-IsState s s1 p t t1 v h e n e1 e2 e3 =
      let keys = key_of-set s.nodes p t t1 h e in
      let len = length-set s.nodes p t1 in
      record {
        search = rw (e1, e2, keys) v.search;
        inside = rw (e1, e2, len) v.inside;
        count = rw (e1, e2, len) v.count;
        total = rw (e1, e3, len) v.total;
        each = rw e1 (All-set IsNode s.nodes p t1 v.each n);
      }
