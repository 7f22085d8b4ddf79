-- ===== src/Scan/Tank/Round.antt =====
-- A round of the loop of scan_tracebuf at each thing that the tank holds.
use tank_convertor.Base.{
  ℕ, zero, suc, ◌+◌, ◌-◌, ◌%◌, ◌^◌, ◌≤◌, ◌<◌, ◌≡◌, ◌≢◌, inl, inr, refl, sym, ap, ◌∙◌, Bool, true,
  if◌then◌else◌, leb, Bool-cases, Option, none, some, ℤ, pos, negsuc, arith, ◌&&◌,
}
use tank_convertor.Floating.{Floating}
use tank_convertor.Memory.{Mem, Endian}
use tank_convertor.Header.{datatype_at, version_at, Numbers, numbers_at}
use tank_convertor.Libc.Strings.{atoi}
use tank_convertor.Swap.MakeLocal.{swap_wavemsg2_makelocal}
use tank_convertor.Swap.Sides.{IsStatic}
use tank_convertor.Swap.Contract.{size_at, message_at, verdict}
use tank_convertor.Swap.Text.{makelocal-order}
use tank_convertor.Swap.Correct.{makelocal-same}
use tank_convertor.Trace.{TBuf, Scnl}
use tank_convertor.Scan.{State, again, is_zero, scnl_at, dispatch, scan_step}
use tank_convertor.Scan.Invariant.{IsState, IsSmall}
use tank_convertor.Scan.Record.{size_of, entry_of}
use tank_convertor.Scan.Step.{read_packet, same_traces}
use tank_convertor.Scan.Passes.{Passes, fetch-Passes}
use tank_convertor.Scan.Tank.{IsMessage, extent, packet_at}
use tank_convertor.Scan.Tank.Local.{IsLocal, result-IsLocal}
use tank_convertor.Scan.Tank.Message.{
  result-rc, result-numbers, result-scnl, result-size, result-ahead,
}

-- From the pointer on the memory is that of the tank.
pub record IsAhead {D : Type 0} (host : Endian) (m : Mem) (s : State D) : Type 0 where
  pub mem : (x : ℕ) → s.tankbyte ≤ x → s.mem x ≡ m x
  pub static : IsStatic host s.host_byte_order

module _ (f : Floating) (alloc : ℕ → Bool) (ok : (i : ℕ) → alloc i ≡ true) (tankstart : ℕ)
    (host : Endian) (tankend : ℕ) (m : Mem) where
  -- The round goes on from `s` with the pointer at `q`, and has read `packet`.
  pub record Steps (s : State f.Double) (q : ℕ) (packet : Option (Scnl × TBuf f.Double))
      : Type 0 where
    pub after : State f.Double
    pub step : scan_step f alloc tankstart host tankend s ≡ again after
    pub pointer : after.tankbyte ≡ q
    pub ahead : IsAhead host m after
    pub read : read_packet f host tankstart s ≡ packet
    -- what is left in memory, in which nothing in front of the pointer has changed
    pub left : after.mem ≡ (swap_wavemsg2_makelocal f host s.host_byte_order s.tankbyte s.mem).mem
    pub front : (x : ℕ) → x < s.tankbyte → after.mem x ≡ s.mem x

  -- `rc` is 0 or -2: the message is not skipped.
  dispatch-Passes :
      (rc : ℤ) (s : State f.Double)
      → rc ≢ negsuc 0
      → IsState s
      → IsSmall s
      → (let size =
            size_of
              (atoi s.mem (datatype_at s.tankbyte + 1))
              (numbers_at f host s.mem s.tankbyte).nsamp in
          Passes s ((s.tankbyte + size) % 2 ^ 64) (dispatch f alloc tankstart host tankend rc s))
  unfolding dispatch
  dispatch-Passes (negsuc zero) s ne v small = absurd (ne refl)
  dispatch-Passes (negsuc (suc k)) s ne v small =
      fetch-Passes f alloc ok tankstart host tankend (negsuc (suc k)) s v small
  dispatch-Passes (pos k) s ne v small =
      let s' : State f.Double = record s { skipbyte = 0 } in
      let (s1, e, moved) =
        fetch-Passes f alloc ok tankstart host tankend (pos k) s'
          (same_traces s s' v refl refl refl) small in
      (s1, e, record { mem = moved.mem; order = moved.order; pointer = moved.pointer })

  -- What a message is read as, by its code.
  abbrev kept : ℤ → (p n : ℕ) → Option (Scnl × TBuf f.Double)
  kept rc p n = if is_zero rc then some (packet_at f m tankstart p n) else none

  read-kept :
      (rc : ℤ) (p n : ℕ) (k : Scnl) (size : ℕ) (time : f.Double)
      → tankstart ≤ p
      → p < 2 ^ 64
      → extent m p n ≤ 4096
      → k ≡ scnl_at m p
      → size ≡ extent m p n
      → time ≡ (message_at f m p).endtime
      → (if is_zero rc && leb size 4096 then some (k, entry_of tankstart p size time) else none)
        ≡ kept rc p n
  read-kept rc p n k size time from high room e1 e2 e3 =
      let fits : leb (extent m p n) 4096 ≡ true = ground arith in
      let off : (p + 2 ^ 64 - tankstart) % 2 ^ 64 ≡ p - tankstart = omega arith in
      rw (e1, e2, e3, fits, off)
        (elim (Bool-cases (is_zero rc)) [ inl z ↦ rw z refl | inr z ↦ rw z refl ])

  module _ (s : State f.Double) (v : IsState s) (small : IsSmall s) (a : IsAhead host m s) where
    -- A message that is not skipped: it is read by its code, and the pointer is moved over it.
    pub message-Steps :
        (n : ℕ) (rc : ℤ)
        → IsMessage f m s.tankbyte n
        → verdict f (size_at m s.tankbyte) (message_at f m s.tankbyte) ≡ rc
        → rc ≢ negsuc 0
        → tankstart ≤ s.tankbyte
        → s.tankbyte + 4096 < 2 ^ 64
        → Steps s (s.tankbyte + extent m s.tankbyte n) (kept rc s.tankbyte n)
    unfolding scan_step swap_wavemsg2_makelocal
    message-Steps n rc msg code ne from high =
        let p = s.tankbyte in
        let version = s.mem (version_at p) in
        let r = swap_wavemsg2_makelocal f host s.host_byte_order p s.mem in
        let s' : State f.Double = record s { host_byte_order = r.host_byte_order; mem = r.mem } in
        let room : extent m p n ≤ 4096 = omega (arith, msg.room) in
        let rc_eq : r.rc ≡ rc =
          result-rc f host s.host_byte_order a.static p version n m s.mem a.mem msg ∙ code in
        let size = result-size f host s.host_byte_order a.static p version n m s.mem a.mem msg in
        let numbers =
          result-numbers f host s.host_byte_order a.static p version n m s.mem a.mem msg in
        let scnl = result-scnl f host s.host_byte_order a.static p version n m s.mem a.mem msg in
        let beyond = result-ahead f host s.host_byte_order a.static p version n m s.mem a.mem msg in
        let (s1, e, moved) =
          dispatch-Passes r.rc s' (λ z. ne (sym rc_eq ∙ z)) (same_traces s s' v refl refl refl)
            small in
        let pointer : s1.tankbyte ≡ p + extent m p n =
          moved.pointer ∙ rw size (omega (arith, room, high)) in
        record {
          after = s1;
          step = e;
          pointer = pointer;
          ahead = record {
            mem = λ x far. rw moved.mem (beyond x (omega (arith, pointer, far)));
            static =
                inr
                  (moved.order ∙ makelocal-order f host s.host_byte_order a.static p version s.mem);
          };
          read = rw rc_eq (
              read-kept rc p n _ _ _ from (omega (arith, high)) room scnl size
                (ap (λ (h : Numbers f). h.endtime) numbers));
          left = moved.mem;
          front = λ x lt.
              rw moved.mem
                (makelocal-same f host s.host_byte_order a.static p version s.mem x (inl lt));
        }

  -- A message that is accepted is left in the machine's byte order.
  pub accepted-IsLocal :
      (s : State f.Double)
      → IsAhead host m s
      → (p n : ℕ) → s.tankbyte ≡ p
      → IsMessage f m p n
      → verdict f (size_at m p) (message_at f m p) ≡ pos 0
      → (m1 : Mem) → m1 ≡ (swap_wavemsg2_makelocal f host s.host_byte_order s.tankbyte s.mem).mem
      → IsLocal f host m p n m1
  unfolding swap_wavemsg2_makelocal
  accepted-IsLocal s a p n at msg code m1 e =
      let q = s.tankbyte in
      let version = s.mem (version_at q) in
      let msg_q : IsMessage f m q n = rw at msg in
      let code_q : verdict f (size_at m q) (message_at f m q) ≡ pos 0 = rw at code in
      rw (e, ← at)
        (result-IsLocal f host s.host_byte_order a.static q version n m s.mem a.mem msg_q
          (result-rc f host s.host_byte_order a.static q version n m s.mem a.mem msg_q ∙ code_q))
