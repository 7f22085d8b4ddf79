-- ===== src/Libc/Strings.antt =====
-- Strings of <string.h> and <stdlib.h>. A string is the bytes from its start on; the end of the list
-- counts as the terminator.
pub mod Order
use tank_convertor.Base.{
  ℕ, zero, suc, ◌+◌, ◌-◌, ◌*◌, Bool, ◌&&◌, ◌==◌, leb, if◌then◌else◌, List, [], ◌∷◌, compare,
  Ordering,
}
use tank_convertor.Memory.{Mem}

-- The sign of the result of strcmp.
unfoldable pub strcmp : List ℕ → List ℕ → Ordering
strcmp [] [] = Ordering.eq
strcmp [] (b ∷ t) = compare 0 b
strcmp (a ∷ s) [] = compare a 0
strcmp (a ∷ s) (b ∷ t) = if a == b then if a == 0 then Ordering.eq else strcmp s t else compare a b

-- The characters before the terminator.
unfoldable pub c_str : List ℕ → List ℕ
c_str [] = []
c_str (a ∷ s) = if a == 0 then [] else a ∷ c_str s

unfoldable pub is_digit : ℕ → Bool
is_digit c = leb b'0' c && leb c b'9'

-- The loop of atoi over the digits of a number that begins at `p`. Eleven digits overflow an `int`,
-- so ten rounds are enough for every call that C defines.
unfoldable pub atoi_digits : ℕ → Mem → ℕ → ℕ → ℕ
atoi_digits zero m p acc = acc
atoi_digits (suc rounds) m p acc =
    let rest = atoi_digits rounds m (p + 1) (acc * 10 + (m p - b'0')) in
    if is_digit (m p) then rest else acc

-- atoi of a text without leading space or sign.
unfoldable pub atoi : Mem → ℕ → ℕ
atoi m p = atoi_digits 10 m p 0
