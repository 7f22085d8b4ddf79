-- ===== src/Sac/Fill.antt =====
-- src/sacproc.c: the loops and calls that write into the arrays of a header.
pub mod Split
use tank_convertor.Base.{
  ℕ, zero, suc, ◌+◌, ◌*◌, ◌-◌, List, [], ◌∷◌, ◌++◌, set, length, take, drop, replicate,
}
use tank_convertor.Libc.Strings.{c_str}

-- `for ( ; n rounds; i++ ) l[i] = v;`
unfoldable pub fill {ℓ} : {A : Type ℓ} → (n i : ℕ) → A → List A → List A
fill zero i v l = l
fill (suc n) i v l = fill n (i + 1) v (set l i v)

-- The elements `s` from index `i` on.
unfoldable pub put {ℓ} : {A : Type ℓ} → (i : ℕ) → (s l : List A) → List A
put i [] l = l
put i (c ∷ s) l = put (i + 1) s (set l i c)

-- strcpy: the text and its terminator.
unfoldable pub strcpy_at : (i : ℕ) → (s l : List ℕ) → List ℕ
strcpy_at i s l = put i (c_str s ++ 0 ∷ []) l

-- strncpy of `n` characters, the rest of which are zero.
unfoldable pub strncpy_at : (i n : ℕ) → (s l : List ℕ) → List ℕ
strncpy_at i n s l = put i (take n (c_str s) ++ replicate (n - length (c_str s)) 0) l

-- The first `count` fields of `k_len` characters from index `i` on.
unfoldable pub fill_strings : (count i width : ℕ) → (s l : List ℕ) → List ℕ
fill_strings zero i width s l = l
fill_strings (suc n) i width s l = fill_strings n (i + width) width s (strncpy_at i width s l)

-- "Copy the SCNL into the header and blank the trailing chars"
unfoldable pub copy_blank : (i width : ℕ) → (s l : List ℕ) → List ℕ
copy_blank i width s l =
    fill (width - length (c_str s)) (i + length (c_str s)) b' ' (strcpy_at i s l)
