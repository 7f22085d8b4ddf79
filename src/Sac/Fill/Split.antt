-- ===== src/Sac/Fill/Split.antt =====
-- What the writes into an array leave: the part in front, what is written, and the part behind.
use tank_convertor.Base.{
  ℕ, zero, suc, ◌+◌, ◌-◌, ◌≤◌, ◌<◌, ◌≡◌, refl, sym, ap, ◌∙◌, List, [], ◌∷◌, ◌++◌, set, length, take,
  drop, replicate, length-append, length-take, set-set, length-set, arith,
}
use tank_convertor.Libc.Strings.{c_str}
use tank_convertor.Sac.Fill.{fill, put, strcpy_at, strncpy_at, fill_strings, copy_blank}

module _ {ℓ} {A : Type ℓ} where
  -- `s` in place of the elements from index `i` on.
  abbrev pub overwrite : ℕ → List A → List A → List A
  overwrite i s l = take i l ++ (s ++ drop (i + length s) l)

  pub length-drop : (n : ℕ) (l : List A) → length (drop n l) ≡ length l - n
  length-drop zero l = omega arith
  length-drop (suc n) [] = omega arith
  length-drop (suc n) (x ∷ l) = omega (arith, length-drop n l)

  pub drop-take_append : (i : ℕ) (l s : List A) → i ≤ length l → drop i (take i l ++ s) ≡ s
  drop-take_append zero l s h = refl
  drop-take_append (suc i) [] s h = absurd (omega arith)
  drop-take_append (suc i) (x ∷ l) s h = drop-take_append i l s (omega arith)

  pub drop-drop : (i j : ℕ) (l : List A) → drop i (drop j l) ≡ drop (j + i) l
  drop-drop i zero l = let e : 0 + i ≡ i = omega arith in rw e
  drop-drop zero (suc j) [] = let e : suc j + 0 ≡ suc j = omega arith in rw e refl
  drop-drop (suc i) (suc j) [] = let e : suc j + suc i ≡ suc (j + suc i) = omega arith in rw e refl
  drop-drop i (suc j) (x ∷ l) =
      let e : suc j + i ≡ suc (j + i) = omega arith in rw e (drop-drop i j l)

  pub length-overwrite :
      (i : ℕ) (s l : List A) → i + length s ≤ length l → length (overwrite i s l) ≡ length l
  length-overwrite i s l h = omega (
    arith,
    length-append (take i l) (s ++ drop (i + length s) l),
    length-append s (drop (i + length s) l),
    length-take i l,
    length-drop (i + length s) l,
  )

  set-overwrite : (i : ℕ) (v : A) (l : List A) → i < length l → set l i v ≡ overwrite i (v ∷ []) l
  set-overwrite i v [] h = absurd (omega arith)
  set-overwrite zero v (x ∷ l) h = refl
  set-overwrite (suc i) v (x ∷ l) h =
      let e : suc i + 1 ≡ suc (i + 1) = omega arith in
      rw e (ap (λ t. x ∷ t) (set-overwrite i v l (omega arith)))

  pub take-length_append : (s t : List A) → take (length s) (s ++ t) ≡ s
  take-length_append [] t = refl
  take-length_append (x ∷ s) t = ap (λ u. x ∷ u) (take-length_append s t)

  pub drop-length_append : (s t : List A) → drop (length s) (s ++ t) ≡ t
  drop-length_append [] t = refl
  drop-length_append (x ∷ s) t = drop-length_append s t

module _ {ℓ} {A : Type ℓ} where
  put-cons : (i : ℕ) (s : List A) (x : A) (l : List A) → put (suc i) s (x ∷ l) ≡ x ∷ put i s l
  unfolding put
  put-cons i [] x l = refl
  put-cons i (c ∷ s) x l =
      let e : suc i + 1 ≡ suc (i + 1) = omega arith in rw e (put-cons (i + 1) s x (set l i c))

  put_zero : (s l : List A) → length s ≤ length l → put 0 s l ≡ s ++ drop (length s) l
  unfolding put
  put_zero [] l h = refl
  put_zero (c ∷ s) [] h = absurd (omega arith)
  put_zero (c ∷ s) (x ∷ l) h = put-cons 0 s c l ∙ ap (λ t. c ∷ t) (put_zero s l (omega arith))

  -- A write that fits leaves what is in front of it and what is behind it.
  pub put-overwrite : (i : ℕ) (s l : List A) → i + length s ≤ length l → put i s l ≡ overwrite i s l
  put-overwrite zero s l h =
      let e : 0 + length s ≡ length s = omega arith in rw e (put_zero s l (omega arith))
  put-overwrite (suc i) s [] h = absurd (omega arith)
  put-overwrite (suc i) s (x ∷ l) h =
      let e : suc i + length s ≡ suc (i + length s) = omega arith in
      rw e (put-cons i s x l ∙ ap (λ t. x ∷ t) (put-overwrite i s l (omega arith)))

  pub put-append : (i : ℕ) (s t l : List A) → put i (s ++ t) l ≡ put (i + length s) t (put i s l)
  unfolding put
  put-append i [] t l = let e : i + 0 ≡ i = omega arith in rw e refl
  put-append i (c ∷ s) t l =
      let e : i + suc (length s) ≡ i + 1 + length s = omega arith in
      rw e (put-append (i + 1) s t (set l i c))

  pub fill-put : (n i : ℕ) (v : A) (l : List A) → fill n i v l ≡ put i (replicate n v) l
  unfolding fill put
  fill-put zero i v l = refl
  fill-put (suc n) i v l = fill-put n (i + 1) v (set l i v)

  pub length-put : (i : ℕ) (s l : List A) → length (put i s l) ≡ length l
  unfolding put
  length-put i [] l = refl
  length-put i (c ∷ s) l = length-put (i + 1) s (set l i c) ∙ length-set l i c

  fill_over : (k i : ℕ) (v w : A) (l : List A) → fill (suc k) i v (set l i w) ≡ fill (suc k) i v l
  unfolding fill
  fill_over k i v w l = rw (set-set l i w v)

-- A text that is shorter than its field is followed by spaces to the field's end.
pub copy_blank-put :
    (i width : ℕ) (s l : List ℕ)
    → length (c_str s) < width
    → copy_blank i width s l ≡ put i (c_str s ++ replicate (width - length (c_str s)) b' ') l
unfolding copy_blank strcpy_at put
copy_blank-put i width s l h =
    let n = length (c_str s) in
    let k : width - n ≡ suc (width - n - 1) = omega arith in
    let terminated = put-append i (c_str s) (0 ∷ []) l in
    rw (k, terminated)
      (fill_over (width - n - 1) (i + n) b' ' 0 (put i (c_str s) l)
        ∙ fill-put (suc (width - n - 1)) (i + n) b' ' (put i (c_str s) l)
        ∙ sym (put-append i (c_str s) (replicate (suc (width - n - 1)) b' ') l))

-- A text that takes the whole field, or more, is written with its terminator.
pub copy_blank_long :
    (i width : ℕ) (s l : List ℕ)
    → width ≤ length (c_str s)
    → copy_blank i width s l ≡ put i (c_str s ++ 0 ∷ []) l
unfolding copy_blank strcpy_at fill
copy_blank_long i width s l h = let k : width - length (c_str s) ≡ 0 = omega arith in rw k refl

abbrev pub copies : ℕ → List ℕ → List ℕ
copies zero s = []
copies (suc n) s = s ++ copies n s

pub fill_strings-put :
    (n i width : ℕ) (s l : List ℕ)
    → ((j : ℕ) (u : List ℕ) → strncpy_at j width s u ≡ put j s u)
    → length s ≡ width
    → fill_strings n i width s l ≡ put i (copies n s) l
unfolding fill_strings put
fill_strings-put zero i width s l h e = refl
fill_strings-put (suc n) i width s l h e = rw (h i l) (
    fill_strings-put n (i + width) width s (put i s l) h e
    ∙ rw (← e) (sym (put-append i s (copies n s) l)))
