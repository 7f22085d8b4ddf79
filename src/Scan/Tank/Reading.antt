-- ===== src/Scan/Tank/Reading.antt =====
-- The loop of scan_tracebuf reads what the tank holds: all of it, and nothing else.
use tank_convertor.Base.{
  ℕ, suc, ◌+◌, ◌-◌, ◌≤◌, ◌<◌, ◌^◌, ◌≡◌, ◌≢◌, refl, ◌∙◌, Bool, true, Option, none, some, List, [],
  ◌∷◌, length, ℤ, pos, negsuc, if◌then◌else◌, arith,
}
use native.Mathlib.Decide.{dec_lt}
use tank_convertor.Floating.{Floating}
use tank_convertor.Memory.{Mem, Endian}
use tank_convertor.Swap.Contract.{size_at, message_at, verdict}
use tank_convertor.Trace.{TBuf, Scnl}
use tank_convertor.Scan.{State, is_zero}
use tank_convertor.Scan.Invariant.{IsState}
use tank_convertor.Scan.Step.{read_packet, scan_step-HasMore}
use tank_convertor.Scan.Growth.{IsHeld, IsHeld-IsSmall, scan_step-IsHeld}
use tank_convertor.Scan.Rounds.{Rounds, breaks, ends, goes}
use tank_convertor.Scan.Tank.{
  IsMessage, extent, packet_at, Tank, done, packet, inconsistent, unknown, overfull,
}
use tank_convertor.Scan.Tank.Message.{verdict_consistent, verdict_inconsistent}
use tank_convertor.Scan.Tank.Round.{IsAhead, Steps, message-Steps, accepted-IsLocal}
use tank_convertor.Scan.Tank.Local.{AllLocal, IsLocal-same}
use tank_convertor.Scan.Tank.Skip.{
  IsSkipped, unknown-IsSkipped, overfull-IsSkipped, skipped-Steps, skipped_last,
}

module _ (f : Floating) (host : Endian) (m : Mem) (tankstart tankend : ℕ) where
  abbrev pub Holds : ℕ → List (Option (Scnl × TBuf f.Double)) → Type 0
  Holds = Tank f host m tankstart tankend

  -- Nothing is read behind the end.
  Tank-nil :
      (p : ℕ) (rs : List (Option (Scnl × TBuf f.Double))) → Holds p rs → tankend ≤ p → rs ≡ []
  Tank-nil p rs (done end) h = refl
  Tank-nil p rs (packet n lt msg c rest) h = absurd (omega arith)
  Tank-nil p rs (inconsistent n lt msg c rest) h = absurd (omega arith)
  Tank-nil p rs (unknown lt u rest) h = absurd (omega arith)
  Tank-nil p rs (overfull lt k e u rest) h = absurd (omega arith)

  -- There are no more things to read than bytes.
  pub Tank-length :
      (p : ℕ) (rs : List (Option (Scnl × TBuf f.Double))) → Holds p rs → length rs ≤ tankend - p
  Tank-length p rs (done end) = omega arith
  Tank-length p rs (packet n lt msg c rest) = omega (arith, Tank-length _ _ rest)
  Tank-length p rs (inconsistent n lt msg c rest) = omega (arith, Tank-length _ _ rest)
  Tank-length p rs (unknown lt u rest) = omega (arith, Tank-length _ _ rest)
  Tank-length p rs (overfull lt k e u rest) = omega (arith, Tank-length _ _ rest)

  module _ (alloc : ℕ → Bool) (ok : (i : ℕ) → alloc i ≡ true) where
    -- The rounds from `s`, in front of `p`, to the end: they read `rs`, change nothing in front of `p`,
    -- and leave each tracebuf in the machine's byte order.
    abbrev pub Reads :
        (p : ℕ) (rs : List (Option (Scnl × TBuf f.Double))) → Holds p rs → State f.Double → Type 0
    Reads p rs t s =
        (s1 : State f.Double) × Rounds f alloc tankstart host tankend s rs s1
        × ((x : ℕ) → x < p → s1.mem x ≡ s.mem x)
        × AllLocal f host m tankstart tankend s1.mem p rs t

    -- The same behind a round that has led to `s1` and has read `r`.
    abbrev Onward :
        (q : ℕ) (rs : List (Option (Scnl × TBuf f.Double)))
        → Holds q rs
        → (s s1 : State f.Double) → Option (Scnl × TBuf f.Double)
        → Type 0
    Onward q rs t s s1 r =
        (s2 : State f.Double) × Rounds f alloc tankstart host tankend s (r ∷ rs) s2
        × ((x : ℕ) → x < q → s2.mem x ≡ s1.mem x)
        × AllLocal f host m tankstart tankend s2.mem q rs t

    no-AllLocal :
        (m1 : Mem) (p : ℕ) (rs : List (Option (Scnl × TBuf f.Double))) (t : Holds p rs)
        → tankend ≤ p
        → AllLocal f host m tankstart tankend m1 p rs t
    no-AllLocal m1 p rs (done end) h = tt
    no-AllLocal m1 p rs (packet n lt msg c rest) h = absurd (omega arith)
    no-AllLocal m1 p rs (inconsistent n lt msg c rest) h = absurd (omega arith)
    no-AllLocal m1 p rs (unknown lt u rest) h = absurd (omega arith)
    no-AllLocal m1 p rs (overfull lt k e u rest) h = absurd (omega arith)

    -- What holds of a state in front of a round: the pointer is at `p`, `k` rounds are over.
    pub record IsReady (k p : ℕ) (s : State f.Double) : Type 0 where
      pub pointer : s.tankbyte ≡ p
      pub state : IsState s
      pub held : IsHeld k s
      pub ahead : IsAhead host m s

    step-IsReady :
        (k q : ℕ) (s : State f.Double) (r : Option (Scnl × TBuf f.Double))
        → IsState s
        → IsHeld k s
        → k + 4096 < 2 ^ 30
        → (st : Steps f alloc ok tankstart host tankend m s q r) → IsReady (suc k) q st.after
    step-IsReady k q s r v h few st =
        let e = st.step in
        let more =
          rw e at
            (scan_step-HasMore f alloc tankstart host tankend s v (IsHeld-IsSmall k s h few)) in
        record {
          pointer = st.pointer;
          state = more.state;
          held = rw e at (scan_step-IsHeld f alloc tankstart host tankend k s h);
          ahead = st.ahead;
        }

    as_read :
        (s s2 : State f.Double) (r : Option (Scnl × TBuf f.Double))
        (rs : List (Option (Scnl × TBuf f.Double)))
        → read_packet f host tankstart s ≡ r
        → Rounds f alloc tankstart host tankend s (read_packet f host tankstart s ∷ rs) s2
        → Rounds f alloc tankstart host tankend s (r ∷ rs) s2
    as_read s s2 r rs e rounds = rw (← e) rounds

    -- A round that goes on, with the rest of the tank behind it.
    onward :
        (k p q : ℕ) (s : State f.Double) (r : Option (Scnl × TBuf f.Double))
        (rs : List (Option (Scnl × TBuf f.Double)))
        → IsReady k p s
        → k + 4096 < 2 ^ 30
        → (st : Steps f alloc ok tankstart host tankend m s q r) (rest : Holds q rs)
        → ((s1 : State f.Double) → IsReady (suc k) q s1 → q < tankend → Reads q rs rest s1)
        → Onward q rs rest s st.after r
    onward k p q s r rs ready few st rest ih = elim (dec_lt q tankend) [
      | yes inside ↦
          let (s2, rounds, front, each) =
            ih st.after (step-IsReady k q s r ready.state ready.held few st) inside in
          let all : Rounds f alloc tankstart host tankend s (r ∷ rs) s2 =
            as_read s s2 r rs st.read (goes st.step (rw st.pointer inside) rounds) in
          (s2, all, front, each)
      | no outside ↦
          let one : Rounds f alloc tankstart host tankend s (r ∷ rs) st.after =
            as_read s st.after r rs st.read (
              rw (Tank-nil q rs rest (omega (arith, outside)))
                (ends st.step (rw st.pointer (omega (arith, outside))))) in
          (st.after, one, λ x lt. refl, no-AllLocal st.after.mem q rs rest (omega (arith, outside)))
    ]

    -- What is in front of `p` is left alone by the round and by all behind it.
    in_front :
        (k p q : ℕ) (s s2 : State f.Double) (r : Option (Scnl × TBuf f.Double))
        → IsReady k p s
        → (st : Steps f alloc ok tankstart host tankend m s q r) → p ≤ q
        → ((x : ℕ) → x < q → s2.mem x ≡ st.after.mem x)
        → (x : ℕ) → x < p
        → s2.mem x ≡ s.mem x
    in_front k p q s s2 r ready st le later x lt =
        later x (omega (arith, le, lt)) ∙ st.front x (rw ready.pointer lt)

    -- A byte that is skipped.
    skipped :
        (k p : ℕ) (s : State f.Double) (rs : List (Option (Scnl × TBuf f.Double)))
        (ready : IsReady k p s)
        → k + 4096 < 2 ^ 30
        → IsSkipped f alloc ok tankstart host tankend m s ready.ahead
        → (rest : Holds (p + 1) rs)
        → ((s1 : State f.Double)
            → IsReady (suc k) (p + 1) s1
            → p + 1 < tankend
            → Reads (p + 1) rs rest s1)
        → (s2 : State f.Double) × Rounds f alloc tankstart host tankend s (none ∷ rs) s2
          × ((x : ℕ) → x < p → s2.mem x ≡ s.mem x)
          × AllLocal f host m tankstart tankend s2.mem (p + 1) rs rest
    skipped k p s rs ready few e rest ih =
        let at = ready.pointer in
        elim (dec_lt (p + 1) tankend) [
          | yes inside ↦
              let st : Steps f alloc ok tankstart host tankend m s (p + 1) none = rw (← at) (
                skipped-Steps f alloc ok tankstart host tankend m s ready.ahead e (rw at inside)) in
              let (s2, rounds, later, each) = onward k p (p + 1) s none rs ready few st rest ih in
              (s2, rounds, in_front k p (p + 1) s s2 none ready st (omega arith) later, each)
          | no outside ↦
              let (s1, left, nothing, same) =
                skipped_last f alloc ok tankstart host tankend m s ready.ahead e
                  (rw at (omega (arith, outside))) in
              let one : Rounds f alloc tankstart host tankend s (none ∷ rs) s1 =
                rw (← nothing, Tank-nil (p + 1) rs rest (omega (arith, outside))) (breaks left) in
              (
                s1,
                one,
                λ x lt. rw same refl,
                no-AllLocal s1.mem (p + 1) rs rest (omega (arith, outside)),
              )
        ]

    -- A message that is not skipped, with code `rc`.
    message_at-Steps :
        (k p n : ℕ) (rc : ℤ) (s : State f.Double) (ready : IsReady k p s)
        → k + 4096 < 2 ^ 30
        → p < tankend
        → IsMessage f m p n
        → verdict f (size_at m p) (message_at f m p) ≡ rc
        → rc ≢ negsuc 0
        → tankstart ≤ p
        → tankend + 4096 ≤ 2 ^ 64
        → Steps f alloc ok tankstart host tankend m s
            (p + extent m p n)
            (if is_zero rc then some (packet_at f m tankstart p n) else none)
    message_at-Steps k p n rc s ready few before msg code ne from high =
        let at = ready.pointer in
        let small = IsHeld-IsSmall k s ready.held few in
        rw (← at) (
          message-Steps f alloc ok tankstart host tankend m s ready.state small ready.ahead n rc
            (rw at msg) (rw at code) ne (rw at from) (rw at (omega (arith, before, high))))

    -- Rounds from a state in front of `p`, after `k` rounds.
    pub Holds-Reads :
        (k p : ℕ) (s : State f.Double) (rs : List (Option (Scnl × TBuf f.Double))) (t : Holds p rs)
        → p < tankend
        → IsReady k p s
        → k + length rs + 4096 ≤ 2 ^ 30
        → tankstart ≤ p
        → tankend + 4096 ≤ 2 ^ 64
        → Reads p rs t s
    Holds-Reads k p s rs (done end) lt ready few from high = absurd (omega arith)
    Holds-Reads k p s _ (packet {rs = rs} n lt msg c rest) before ready few from high =
        let q = p + extent m p n in
        let code = verdict_consistent f m p n msg c in
        let st : Steps f alloc ok tankstart host tankend m s q
            (some (packet_at f m tankstart p n)) =
          message_at-Steps k p n (pos 0) s ready (omega (arith, few)) before msg code (λ e. cc) from
            high in
        let (s2, rounds, later, each) =
          onward k p q s (some (packet_at f m tankstart p n)) rs ready (omega (arith, few)) st rest
            (λ s1 r1 inside.
              Holds-Reads (suc k) _ s1 rs rest inside r1 (omega (arith, few)) (omega (arith, from))
                high) in
        let own =
          accepted-IsLocal f alloc ok tankstart host tankend m s ready.ahead p n ready.pointer msg
            code st.after.mem st.left in
        (
          s2,
          rounds,
          in_front k p q s s2 _ ready st (omega arith) later,
          (IsLocal-same f host m p n st.after.mem s2.mem later own, each),
        )
    Holds-Reads k p s _ (inconsistent {rs = rs} n lt msg c rest) before ready few from high =
        let q = p + extent m p n in
        let st : Steps f alloc ok tankstart host tankend m s q none =
          message_at-Steps k p n (negsuc 1) s ready (omega (arith, few)) before msg
            (verdict_inconsistent f m p n msg c) (λ e. cc) from high in
        let (s2, rounds, later, each) =
          onward k p q s none rs ready (omega (arith, few)) st rest (λ s1 r1 inside.
            Holds-Reads (suc k) _ s1 rs rest inside r1 (omega (arith, few)) (omega (arith, from))
              high) in
        (s2, rounds, in_front k p q s s2 _ ready st (omega arith) later, each)
    Holds-Reads k p s _ (unknown {rs = rs} lt u rest) before ready few from high =
        skipped k p s rs ready (omega (arith, few))
          (unknown-IsSkipped f alloc ok tankstart host tankend m s ready.ahead (rw ready.pointer u))
          rest
          (λ s1 r1 inside.
            Holds-Reads (suc k) _ s1 rs rest inside r1 (omega (arith, few)) (omega (arith, from))
              high)
    Holds-Reads k p s _ (overfull {rs = rs} lt known own many rest) before ready few from high =
        skipped k p s rs ready (omega (arith, few))
          (overfull-IsSkipped f alloc ok tankstart host tankend m s ready.ahead
            (rw ready.pointer known) (rw ready.pointer own) (rw ready.pointer many))
          rest
          (λ s1 r1 inside.
            Holds-Reads (suc k) _ s1 rs rest inside r1 (omega (arith, few)) (omega (arith, from))
              high)
