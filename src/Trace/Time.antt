-- ===== src/Trace/Time.antt =====
-- compare_time orders the tracebufs whose times are numbers.
use tank_convertor.Base.{◌≡◌, ◌≢◌, false, List, [], ◌∷◌, All, Ordering, arith}
use tank_convertor.Floating.{Floating, IsOrdered}
use tank_convertor.Libc.Qsort.Order.{IsPreorder, IsSorted}
use tank_convertor.Trace.{TBuf, compare_time}

pub compare_time-IsPreorder :
    (f : Floating) (IsNumber : f.Double → Type 0)
    → IsOrdered f IsNumber
    → IsPreorder (λ (b : TBuf f.Double). IsNumber b.time) (compare_time f)
unfolding compare_time
compare_time-IsPreorder f IsNumber laws = record {
  trans = λ x y z p q r h k. ground (arith, laws.le_trans x.time y.time z.time p q r);
  total = λ x y p q h. ground (arith, laws.lt_asymm y.time x.time q p);
}

-- No tracebuf has a time before that of one in front of it.
abbrev pub IsChronological : (f : Floating) → List (TBuf f.Double) → Type 0
IsChronological f [] = Unit
IsChronological f (b ∷ bs) =
    All (λ (c : TBuf f.Double). f.lt c.time b.time ≡ false) bs × IsChronological f bs

not_greater :
    (f : Floating) (b c : TBuf f.Double)
    → compare_time f b c ≢ Ordering.gt
    → f.lt c.time b.time ≡ false
unfolding compare_time
not_greater f b c h = ground arith

none_earlier :
    (f : Floating) (b : TBuf f.Double) (cs : List (TBuf f.Double))
    → All (λ (c : TBuf f.Double). compare_time f b c ≢ Ordering.gt) cs
    → All (λ (c : TBuf f.Double). f.lt c.time b.time ≡ false) cs
none_earlier f b [] a = tt
none_earlier f b (c ∷ cs) a = (not_greater f b c a.0, none_earlier f b cs a.1)

-- What is sorted by compare_time is in order of time.
pub IsSorted-IsChronological :
    (f : Floating) (bs : List (TBuf f.Double)) → IsSorted (compare_time f) bs → IsChronological f bs
IsSorted-IsChronological f [] s = tt
IsSorted-IsChronological f (b ∷ bs) s = (none_earlier f b bs s.0, IsSorted-IsChronological f bs s.1)
