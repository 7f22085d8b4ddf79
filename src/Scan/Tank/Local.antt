-- ===== src/Scan/Tank/Local.antt =====
-- An accepted message of the tank in the memory that is left behind: it reads in the machine's byte
-- order as it read in its own.
use tank_convertor.Base.{
  ℕ, ◌+◌, ◌*◌, ◌≤◌, ◌<◌, ◌≡◌, refl, ap, ◌∙◌, Option, List, pos, pos_part, arith,
}
use tank_convertor.Floating.{Floating}
use tank_convertor.Memory.{Mem, Endian, load, value_of}
use tank_convertor.Memory.Laws.{load-SameOn}
use tank_convertor.Header.{datatype_at, numbers_at}
use tank_convertor.Swap.MakeLocal.{ByteOrder, makelocal_wavemsg_ver}
use tank_convertor.Swap.Numbers.{numbers_at-SameOn}
use tank_convertor.Swap.Sides.{IsDatatype, SameKind, IsStatic}
use tank_convertor.Swap.Contract.{size_at, endian_at, message_at}
use tank_convertor.Swap.Correct.{makelocal-type, makelocal-sample}
use tank_convertor.Trace.{TBuf, Scnl}
use tank_convertor.Scan.{scnl_at}
use tank_convertor.Scan.Tank.{
  IsMessage, extent, Tank, done, packet, inconsistent, unknown, overfull,
}
use tank_convertor.Scan.Tank.Message.{
  message_at_same, scnl_at_same, result-numbers, result-scnl, result-text,
}

-- The message of `n` samples at `p` of the tank `m`, as `m'` holds it.
pub record IsLocal (f : Floating) (host : Endian) (m : Mem) (p n : ℕ) (m' : Mem) : Type 0 where
  pub numbers : numbers_at f host m' p ≡ message_at f m p
  pub scnl : scnl_at m' p ≡ scnl_at m p
  pub known : IsDatatype (m' (datatype_at p)) (m' (datatype_at p + 1))
  pub own : endian_at m' p ≡ host
  pub digit : m' (datatype_at p + 1) ≡ m (datatype_at p + 1)
  pub kind : SameKind (m' (datatype_at p)) (m (datatype_at p))
  pub tail : m' (p + 59) ≡ m (p + 59)
  pub sample :
      (i : ℕ)
      → i < n
      → value_of host (load m' (p + 64 + i * size_at m p) (size_at m p))
        ≡ value_of (endian_at m p) (load m (p + 64 + i * size_at m p) (size_at m p))

-- Each tracebuf that the tank holds, in the memory `m'`.
abbrev pub AllLocal :
    (f : Floating) (host : Endian) (m : Mem) (tankstart tankend : ℕ) (m' : Mem) (p : ℕ)
    (rs : List (Option (Scnl × TBuf f.Double)))
    → Tank f host m tankstart tankend p rs
    → Type 0
AllLocal f host m tankstart tankend m' p rs (done end) = Unit
AllLocal f host m tankstart tankend m' p rs (packet n lt msg c rest) =
    IsLocal f host m p n m' × AllLocal f host m tankstart tankend m' _ _ rest
AllLocal f host m tankstart tankend m' p rs (inconsistent n lt msg c rest) =
    AllLocal f host m tankstart tankend m' _ _ rest
AllLocal f host m tankstart tankend m' p rs (unknown lt u rest) =
    AllLocal f host m tankstart tankend m' _ _ rest
AllLocal f host m tankstart tankend m' p rs (overfull lt k e u rest) =
    AllLocal f host m tankstart tankend m' _ _ rest

-- It depends on the bytes of the message only.
pub IsLocal-same :
    (f : Floating) (host : Endian) (m : Mem) (p n : ℕ) (m1 m2 : Mem)
    → ((x : ℕ) → x < p + extent m p n → m2 x ≡ m1 x)
    → IsLocal f host m p n m1
    → IsLocal f host m p n m2
IsLocal-same f host m p n m1 m2 same l =
    let letter = same (p + 57) (omega arith) in
    let digit = same (p + 57 + 1) (omega arith) in
    record {
      numbers = numbers_at-SameOn f host m1 m2 p (λ x lo hi. same x (omega arith)) ∙ l.numbers;
      scnl = scnl_at_same m1 m2 p (λ x lo hi. same x (omega arith)) ∙ l.scnl;
      known = rw (letter, digit) l.known;
      own = rw letter l.own;
      digit = digit ∙ l.digit;
      kind = rw letter l.kind;
      tail = same (p + 59) (omega arith) ∙ l.tail;
      sample = λ i lt.
          let w = size_at m p in
          ap (value_of host)
            (load-SameOn m1 m2 (p + 64 + i * w) w (λ x lo hi. same x (grind (arith, lt, hi))))
          ∙ l.sample i lt;
    }

module _ (f : Floating) (host : Endian) (static : ByteOrder) (ok : IsStatic host static)
    (p version n : ℕ) (m m' : Mem) (ahead : (x : ℕ) → p ≤ x → m' x ≡ m x)
    (msg : IsMessage f m p n) where
  -- What a call that accepts the message leaves.
  pub result-IsLocal :
      (makelocal_wavemsg_ver f host static p version m').rc ≡ pos 0
      → IsLocal f host m p n (makelocal_wavemsg_ver f host static p version m').mem
  result-IsLocal z =
      let letter = ahead (p + 57) (omega arith) in
      let digit = ahead (p + 57 + 1) (omega arith) in
      let (known, own, kept, kind) = makelocal-type f host static ok p version m' z in
      let count : pos_part (message_at f m' p).nsamp ≡ n =
        rw (message_at_same f m m' p ahead, msg.count) refl in
      record {
        numbers = result-numbers f host static ok p version n m m' ahead msg;
        scnl = result-scnl f host static ok p version n m m' ahead msg;
        known = known;
        own = own;
        digit = kept ∙ digit;
        kind = rw (← letter) kind;
        tail =
            result-text f host static ok p version n m m' ahead msg (p + 59) (omega arith)
              (omega arith) (λ e. omega arith);
        sample = λ i lt.
            let w = size_at m p in
            let here = makelocal-sample f host static ok p version m' i z (rw count lt) in
            (rw (letter, digit) at here)
            ∙ ap (value_of (endian_at m p))
                (load-SameOn m m' (p + 64 + i * w) w (λ x lo hi. ahead x (omega (arith, lo))));
      }
