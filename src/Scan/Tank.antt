-- ===== src/Scan/Tank.antt =====
-- What a tank holds, read without the program: tracebufs, each in its own byte order, and bytes
-- between them that are no tracebuf.
pub mod Message
pub mod Local
pub mod Round
pub mod Skip
pub mod Reading
use tank_convertor.Base.{
  ℕ, ◌+◌, ◌-◌, ◌*◌, ◌/◌, ◌≤◌, ◌<◌, ◌≡◌, ◌⊎◌, Option, none, some, List, [], ◌∷◌, ℤ, pos, ◌≤ℤ◌,
}
use tank_convertor.Floating.{Floating}
use tank_convertor.Memory.{Mem, Endian}
use tank_convertor.Header.{datatype_at}
use tank_convertor.Swap.Sides.{IsDatatype}
use tank_convertor.Swap.Code.{IsConsistent}
use tank_convertor.Swap.Contract.{size_at, endian_at, message_at}
use tank_convertor.Trace.{TBuf, Scnl}
use tank_convertor.Scan.{scnl_at}

-- At `p` stands the header of a tracebuf of a known type, with no digit behind it, and with `n`
-- samples that the largest tracebuf has room for.
pub record IsMessage (f : Floating) (m : Mem) (p n : ℕ) : Type 0 where
  pub known : IsDatatype (m (datatype_at p)) (m (datatype_at p + 1))
  pub ended : (m (p + 59) < b'0') ⊎ (b'9' < m (p + 59))
  pub count : (message_at f m p).nsamp ≡ pos n
  pub room : size_at m p * n ≤ 4032

-- The bytes of the header and of the samples.
abbrev pub extent : Mem → (p n : ℕ) → ℕ
extent m p n = size_at m p * n + 64

-- The trace that the tracebuf at `p` belongs to, and the record of it.
abbrev pub packet_at : (f : Floating) → Mem → (tankstart p n : ℕ) → Scnl × TBuf f.Double
packet_at f m tankstart p n = (
  scnl_at m p,
  record { offset = p - tankstart; size = extent m p n; time = (message_at f m p).endtime },
)

-- The tank from `p` to its end, with what there is to read: for each message the tracebuf that is to
-- be kept, if there is one, and none for each byte that is skipped. A message whose times do not fit
-- its samples is passed over; one of the machine's own byte order with too many samples is not a
-- message, like one of an unknown type.
pub data Tank (f : Floating) (host : Endian) (m : Mem) (tankstart tankend : ℕ)
    : ℕ → List (Option (Scnl × TBuf f.Double)) → Type 0 where
  done : {p : ℕ} → tankend ≤ p → Tank f host m tankstart tankend p []
  packet :
      {p : ℕ} {rs : List (Option (Scnl × TBuf f.Double))} (n : ℕ)
      → p < tankend
      → IsMessage f m p n
      → IsConsistent f (message_at f m p)
      → Tank f host m tankstart tankend (p + extent m p n) rs
      → Tank f host m tankstart tankend p (some (packet_at f m tankstart p n) ∷ rs)
  inconsistent :
      {p : ℕ} {rs : List (Option (Scnl × TBuf f.Double))} (n : ℕ)
      → p < tankend
      → IsMessage f m p n
      → ¬ IsConsistent f (message_at f m p)
      → Tank f host m tankstart tankend (p + extent m p n) rs
      → Tank f host m tankstart tankend p (none ∷ rs)
  unknown :
      {p : ℕ} {rs : List (Option (Scnl × TBuf f.Double))}
      → p < tankend
      → ¬ IsDatatype (m (datatype_at p)) (m (datatype_at p + 1))
      → Tank f host m tankstart tankend (p + 1) rs
      → Tank f host m tankstart tankend p (none ∷ rs)
  overfull :
      {p : ℕ} {rs : List (Option (Scnl × TBuf f.Double))}
      → p < tankend
      → IsDatatype (m (datatype_at p)) (m (datatype_at p + 1))
      → endian_at m p ≡ host
      → ¬ ((message_at f m p).nsamp ≤ℤ pos (4032 / size_at m p))
      → Tank f host m tankstart tankend (p + 1) rs
      → Tank f host m tankstart tankend p (none ∷ rs)
