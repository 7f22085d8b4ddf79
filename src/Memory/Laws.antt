-- ===== src/Memory/Laws.antt =====
-- Memories that agree on a range of addresses.
use mathlib.Core.Path.{ap₂}
use tank_convertor.Base.{
  ℕ, zero, suc, ◌+◌, ◌≤◌, ◌<◌, ◌≡◌, ◌⊎◌, refl, sym, ap, ◌∙◌, List, [], ◌∷◌, arith, length,
}
use tank_convertor.Memory.{Mem, load, store}

-- `m` and `m'` hold the same bytes in `[p, p + n)`.
abbrev pub SameOn : ℕ → ℕ → Mem → Mem → Type 0
SameOn p n m m' = (x : ℕ) → p ≤ x → x < p + n → m' x ≡ m x

-- `m` and `m'` hold the same bytes outside `[p, p + n)`.
abbrev pub SameOutside : ℕ → ℕ → Mem → Mem → Type 0
SameOutside p n m m' = (x : ℕ) → (x < p) ⊎ (p + n ≤ x) → m' x ≡ m x

pub store-SameOutside : (m : Mem) (p : ℕ) (bs : List ℕ) → SameOutside p (length bs) m (store m p bs)
store-SameOutside m p [] x h = refl
store-SameOutside m p (b ∷ bs) x h = ground (arith, store-SameOutside m (p + 1) bs x)

pub load-SameOn : (m m' : Mem) (p n : ℕ) → SameOn p n m m' → load m' p n ≡ load m p n
load-SameOn m m' p zero h = refl
load-SameOn m m' p (suc n) h =
    ap₂ ◌∷◌ (h p (omega arith) (omega arith))
      (load-SameOn m m' (p + 1) n (λ x lo hi. h x (omega arith) (omega arith)))

pub load-disjoint :
    (m m' : Mem) (p n q k : ℕ)
    → SameOutside p n m m'
    → (q + k ≤ p) ⊎ (p + n ≤ q)
    → load m' q k ≡ load m q k
load-disjoint m m' p n q k same apart = load-SameOn m m' q k (λ x lo hi. same x (omega arith))

pub SameOutside-mono :
    {m m' : Mem} (p n q k : ℕ) → SameOutside p n m m' → q ≤ p → p + n ≤ q + k → SameOutside q k m m'
SameOutside-mono p n q k same lo hi x h = same x (omega arith)

pub SameOutside-trans :
    {m m' m'' : Mem} (p n : ℕ)
    → SameOutside p n m m'
    → SameOutside p n m' m''
    → SameOutside p n m m''
SameOutside-trans p n s t x h = t x h ∙ s x h

pub length-load : (m : Mem) (p n : ℕ) → length (load m p n) ≡ n
length-load m p zero = refl
length-load m p (suc n) = ap suc (length-load m (p + 1) n)

-- What was written is read back.
pub load-store : (m : Mem) (p : ℕ) (bs : List ℕ) → load (store m p bs) p (length bs) ≡ bs
load-store m p [] = refl
load-store m p (b ∷ bs) = ap₂ ◌∷◌ (ground arith) (
    load-SameOn (store m (p + 1) bs) (store m p (b ∷ bs)) (p + 1) (length bs)
      (λ x lo hi. ground arith)
    ∙ load-store m (p + 1) bs)

pub store_congr :
    (m m' : Mem) (p : ℕ) (cs : List ℕ) (x : ℕ) → m x ≡ m' x → store m p cs x ≡ store m' p cs x
store_congr m m' p [] x h = h
store_congr m m' p (c ∷ cs) x h = ground (arith, store_congr m m' (p + 1) cs x h)

-- A second write of as many bytes covers the first.
pub store-store :
    (m : Mem) (p : ℕ) (bs cs : List ℕ)
    → length bs ≡ length cs
    → (x : ℕ) → store (store m p bs) p cs x ≡ store m p cs x
store-store m p [] [] h x = refl
store-store m p [] (c ∷ cs) h x = absurd (omega arith)
store-store m p (b ∷ bs) [] h x = absurd (omega arith)
store-store m p (b ∷ bs) (c ∷ cs) h x = ground (
  arith,
  store_congr (store m p (b ∷ bs)) (store m (p + 1) bs) (p + 1) cs x,
  store-store m (p + 1) bs cs (omega arith) x,
)

-- Writing what is there changes nothing.
pub store-load : (m : Mem) (p n : ℕ) (x : ℕ) → store m p (load m p n) x ≡ m x
store-load m p zero x = refl
store-load m p (suc n) x = ground (arith, store-load m (p + 1) n x)

-- A write followed by a write of what stood there before changes nothing.
pub restore :
    (m : Mem) (p : ℕ) (bs : List ℕ) (x : ℕ) → store (store m p bs) p (load m p (length bs)) x ≡ m x
restore m p bs x =
    store-store m p bs (load m p (length bs)) (sym (length-load m p (length bs))) x
    ∙ store-load m p (length bs) x
