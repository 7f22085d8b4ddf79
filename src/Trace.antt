-- ===== src/Trace.antt =====
-- include/tbconvert.h: TBUF and TRACE_NODE; src/compare.c: the two comparison functions.
pub mod Order
pub mod Time
use tank_convertor.Base.{ℕ, Bool, true, false, List, ◌++◌, Ordering, if◌then◌else◌}
use tank_convertor.Floating.{Floating}
use tank_convertor.Libc.Strings.{strcmp}

abbrev pub max_num_tbuf : ℕ
max_num_tbuf = 4096

-- A tracebuf of the tank. `D` is the type of its time.
pub record TBuf (D : Type 0) : Type 0 where
  pub offset : ℕ
  pub size : ℕ
  pub time : D

-- The four arrays at the head of a TRACE_NODE: they lie in memory in this order.
pub record Scnl : Type 0 where
  pub sta : List ℕ
  pub chan : List ℕ
  pub net : List ℕ
  pub loc : List ℕ

-- `tlist` has `maxtbuf` elements, of which the first `ntbuf` are in use.
pub record TraceNode (D : Type 0) : Type 0 where
  pub scnl : Scnl
  pub ntbuf : ℕ
  pub maxtbuf : ℕ
  pub tlist : List (TBuf D)

-- Each field as a string. One that is not terminated runs on into the next.
abbrev pub loc_string : Scnl → List ℕ
loc_string k = k.loc

abbrev pub net_string : Scnl → List ℕ
net_string k = k.net ++ loc_string k

abbrev pub chan_string : Scnl → List ℕ
chan_string k = k.chan ++ net_string k

abbrev pub sta_string : Scnl → List ℕ
sta_string k = k.sta ++ chan_string k

-- `if ( (ret = first) ) return ret; return second;`
abbrev pub or_else : Ordering → Ordering → Ordering
or_else Ordering.eq second = second
or_else Ordering.lt second = Ordering.lt
or_else Ordering.gt second = Ordering.gt

unfoldable pub compare_scnl : Scnl → Scnl → Ordering
compare_scnl a b = or_else (strcmp (sta_string a) (sta_string b)) (
    or_else (strcmp (chan_string a) (chan_string b))
      (or_else (strcmp (net_string a) (net_string b)) (strcmp (loc_string a) (loc_string b))))

unfoldable pub compare_time : (f : Floating) → TBuf f.Double → TBuf f.Double → Ordering
compare_time f a b =
    if f.lt b.time a.time
    then Ordering.gt
    else if f.lt a.time b.time
    then Ordering.lt
    else Ordering.eq
