-- ===== src/Scan/Tank/Skip.antt =====
-- A round of the loop of scan_tracebuf at a byte of the tank where no message stands.
use tank_convertor.Base.{
  ℕ, ◌+◌, ◌-◌, ◌/◌, ◌≤◌, ◌<◌, ◌≡◌, inl, inr, refl, ap, ◌∙◌, true, false, ltb, Bool, none, ℤ, pos,
  negsuc, ◌≤ℤ◌, arith,
}
use mathlib.Core.Path.{ap₂}
use tank_convertor.Floating.{Floating}
use tank_convertor.Memory.{Mem, Endian}
use tank_convertor.Header.{datatype_at, version_at}
use tank_convertor.Swap.MakeLocal.{swap_wavemsg2_makelocal}
use tank_convertor.Swap.Sides.{IsDatatype, IsDatatype-cases, native_order}
use tank_convertor.Swap.Code.{unknown, too_many, inconsistent, accepted, verdict-Code}
use tank_convertor.Swap.Contract.{size_at, endian_at, message_at, verdict, makelocal_unknown}
use tank_convertor.Swap.Effect.{makelocal_native}
use tank_convertor.Scan.{State, stop, skip_byte, dispatch, scan_step}
use tank_convertor.Scan.Step.{read_packet}
use tank_convertor.Scan.Tank.Message.{message_at_same}
use tank_convertor.Scan.Tank.Round.{IsAhead, Steps}

module _ (f : Floating) (alloc : ℕ → Bool) (ok : (i : ℕ) → alloc i ≡ true) (tankstart : ℕ)
    (host : Endian) (tankend : ℕ) (m : Mem) (s : State f.Double) (a : IsAhead host m s) where
  -- The call answers -1 and writes nothing.
  abbrev pub IsSkipped : Type 0
  IsSkipped =
      swap_wavemsg2_makelocal f host s.host_byte_order s.tankbyte s.mem
      ≡ record { rc = negsuc 0; host_byte_order = native_order host; mem = s.mem }

  pub unknown-IsSkipped :
      ¬ IsDatatype (m (datatype_at s.tankbyte)) (m (datatype_at s.tankbyte + 1)) → IsSkipped
  unfolding swap_wavemsg2_makelocal
  unknown-IsSkipped not_known =
      let p = s.tankbyte in
      elim (IsDatatype-cases (s.mem (p + 57)) (s.mem (p + 57 + 1))) [
        | inl none_of ↦
            makelocal_unknown f host s.host_byte_order a.static p (s.mem (version_at p)) s.mem
              none_of
        | inr known ↦ absurd (
            not_known
              (rw (← a.mem (p + 57) (omega arith), ← a.mem (p + 57 + 1) (omega arith)) known))
      ]

  pub overfull-IsSkipped :
      IsDatatype (m (datatype_at s.tankbyte)) (m (datatype_at s.tankbyte + 1))
      → endian_at m s.tankbyte ≡ host
      → ¬ ((message_at f m s.tankbyte).nsamp ≤ℤ pos (4032 / size_at m s.tankbyte))
      → IsSkipped
  unfolding swap_wavemsg2_makelocal
  overfull-IsSkipped known own many =
      let p = s.tankbyte in
      let letter = a.mem (p + 57) (omega arith) in
      let digit = a.mem (p + 57 + 1) (omega arith) in
      let code : verdict f (size_at m p) (message_at f m p) ≡ negsuc 0 =
        elim (verdict-Code f _ _ (message_at f m p) known) [
          | unknown h e ↦ e
          | too_many k h e ↦ e
          | inconsistent k few bad e ↦ absurd (many few)
          | accepted k few good e ↦ absurd (many few)
        ] in
      let same : verdict f (size_at s.mem p) (message_at f s.mem p) ≡ negsuc 0 =
        ap₂ (verdict f) (ap (λ (c : ℕ). c - b'0') digit) (message_at_same f m s.mem p a.mem)
        ∙ code in
      makelocal_native f host s.host_byte_order a.static p (s.mem (version_at p)) s.mem
        (rw (letter, digit) known) (rw letter own)
      ∙ ap (λ (z : ℤ). record { rc = z; host_byte_order = native_order host; mem = s.mem }) same

  skipped-ahead : (x : ℕ) → s.tankbyte + 1 ≤ x → s.mem x ≡ m x
  skipped-ahead x far = a.mem x (omega (arith, far))

  -- In front of the last byte the round goes on behind the byte, and has read nothing.
  pub skipped-Steps :
      IsSkipped
      → s.tankbyte + 1 < tankend
      → Steps f alloc ok tankstart host tankend m s (s.tankbyte + 1) none
  unfolding scan_step dispatch skip_byte
  skipped-Steps e more =
      let before : ltb (s.tankbyte + 1) tankend ≡ true = ground arith in
      record {
        after = record s {
          host_byte_order = native_order host;
          mem = s.mem;
          tankbyte = s.tankbyte + 1;
          skipbyte = s.skipbyte + 1;
        };
        step = rw (scan_step, e, before) refl;
        pointer = refl;
        ahead = record { mem = skipped-ahead; static = inr refl };
        read = rw e refl;
        left = rw e refl;
        front = λ x lt. refl;
      }

  -- At the last byte the loop is left.
  pub skipped_last :
      IsSkipped
      → tankend ≤ s.tankbyte + 1
      → (s1 : State f.Double) × (scan_step f alloc tankstart host tankend s ≡ stop s1)
        × (read_packet f host tankstart s ≡ none)
        × (s1.mem ≡ s.mem)
  unfolding scan_step dispatch skip_byte
  skipped_last e last =
      let over : ltb (s.tankbyte + 1) tankend ≡ false = ground arith in
      let left : State f.Double = record s {
        host_byte_order = native_order host;
        mem = s.mem;
        tankbyte = s.tankbyte + 1;
      } in
      (left, rw (scan_step, e, over) refl, rw e refl, refl)
