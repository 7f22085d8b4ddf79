-- ===== src/Scan/Rounds.antt =====
-- A whole run of the loop of scan_tracebuf, as the sequence of its rounds.
use tank_convertor.Base.{
  ℕ, zero, suc, ◌+◌, ◌^◌, ◌≤◌, ◌<◌, ◌≡◌, ◌↔◌, ◌⊎◌, inl, inr, refl, sym, ap, ◌∙◌, Bool, true, false,
  ltb, if◌then◌else◌, Option, List, [], ◌∷◌, ◌++◌, length, arith,
}
use mathlib.Core.List.{append-nil, append_assoc}
use tank_convertor.Floating.{Floating}
use tank_convertor.Memory.{Endian}
use tank_convertor.Trace.{TBuf, Scnl}
use tank_convertor.Scan.{
  State, Outcome, again, stop, failed, crashed, Run, finished, error, segfault, scan_step,
  scan_loop,
}
use tank_convertor.Scan.Invariant.{IsState, Ends}
use tank_convertor.Scan.Locate.{view}
use tank_convertor.Scan.Step.{HasMore, of_trace, read_packet, scan_step-HasMore}
use tank_convertor.Scan.Growth.{IsHeld, IsHeld-IsSmall, scan_step-IsHeld}

-- The tracebufs of the trace `k` among those that the rounds have read, in their order.
abbrev pub all_of_trace : {D : Type 0} → Scnl → List (Option (Scnl × TBuf D)) → List (TBuf D)
all_of_trace k [] = []
all_of_trace k (r ∷ rs) = of_trace k r ++ all_of_trace k rs

module _ (f : Floating) (alloc : ℕ → Bool) (tankstart : ℕ) (host : Endian) (tankend : ℕ) where
  -- The rounds from one state to the end of the loop in another, with what each of them has read:
  -- the last one leaves by `break` or finds the pointer at the end.
  pub data Rounds
      : State f.Double → List (Option (Scnl × TBuf f.Double)) → State f.Double → Type 0 where
    breaks :
        {s s1 : State f.Double}
        → scan_step f alloc tankstart host tankend s ≡ stop s1
        → Rounds s (read_packet f host tankstart s ∷ []) s1
    ends :
        {s s1 : State f.Double}
        → scan_step f alloc tankstart host tankend s ≡ again s1
        → tankend ≤ s1.tankbyte
        → Rounds s (read_packet f host tankstart s ∷ []) s1
    goes :
        {s s1 s2 : State f.Double} {rs : List (Option (Scnl × TBuf f.Double))}
        → scan_step f alloc tankstart host tankend s ≡ again s1
        → s1.tankbyte < tankend
        → Rounds s1 rs s2
        → Rounds s (read_packet f host tankstart s ∷ rs) s2

  -- A round from a state that has seen `n` of them.
  abbrev Round : ℕ → State f.Double → State f.Double → Type 0
  Round n s s1 = HasMore s s1 (λ k. of_trace k (read_packet f host tankstart s)) × IsHeld (suc n) s1

  round :
      (n : ℕ) (s : State f.Double)
      → IsState s
      → IsHeld n s
      → n + 4096 < 2 ^ 30
      → (o : Outcome f.Double) → scan_step f alloc tankstart host tankend s ≡ o
      → Ends (Round n s) o
  round n s v h lt (again s1) e = (
    rw e at (scan_step-HasMore f alloc tankstart host tankend s v (IsHeld-IsSmall n s h lt)),
    rw e at (scan_step-IsHeld f alloc tankstart host tankend n s h),
  )
  round n s v h lt (stop s1) e = (
    rw e at (scan_step-HasMore f alloc tankstart host tankend s v (IsHeld-IsSmall n s h lt)),
    rw e at (scan_step-IsHeld f alloc tankstart host tankend n s h),
  )
  round n s v h lt failed e = tt
  round n s v h lt crashed e = tt

  Round-HasMore :
      (n : ℕ) (s s1 : State f.Double)
      → Round n s s1
      → HasMore s s1 (λ k. all_of_trace k (read_packet f host tankstart s ∷ []))
  Round-HasMore n s s1 r = record {
    state = r.0.state;
    traces =
        λ k. r.0.traces k ∙ ap (λ (l : List (TBuf f.Double)). view s k ++ l) (sym (append-nil _));
  }

  -- From a well-formed state in which no trace has more than `n` tracebufs, rounds that are together
  -- fewer than 2 ^ 30 - 4096 leave the state well formed, and have added to each trace exactly the
  -- tracebufs that they have read of it, in the order of reading.
  pub Rounds-HasMore :
      (n : ℕ) (s s1 : State f.Double) (rs : List (Option (Scnl × TBuf f.Double)))
      → Rounds s rs s1
      → IsState s
      → IsHeld n s
      → n + length rs + 4096 ≤ 2 ^ 30
      → HasMore s s1 (λ k. all_of_trace k rs)
  Rounds-HasMore n s s1 rs (breaks e) v h lt =
      Round-HasMore n s s1 (round n s v h (omega arith) _ e)
  Rounds-HasMore n s s1 rs (ends e at_end) v h lt =
      Round-HasMore n s s1 (round n s v h (omega arith) _ e)
  Rounds-HasMore n s s2 rs (goes {s1 = s1} {rs = rest} e inside rounds) v h lt =
      let (more, held) = round n s v h (omega arith) (again s1) e in
      let later = Rounds-HasMore (suc n) s1 s2 rest rounds more.state held (omega arith) in
      record {
        state = later.state;
        traces = λ k.
            later.traces k
            ∙ ap (λ (l : List (TBuf f.Double)). l ++ all_of_trace k rest) (more.traces k)
            ∙ append_assoc (view s k) _ _;
      }

  finished_same :
      (s1 s2 : State f.Double) → ◌≡◌ {A = Run f.Double} (finished s1) (finished s2) → s1 ≡ s2
  finished_same s1 s2 h = ground arith

  going :
      (fuel : ℕ) (s1 s2 : State f.Double) (b : Bool)
      → ltb s1.tankbyte tankend ≡ b
      → (if b then scan_loop f alloc tankstart host tankend fuel s1 else finished s1) ≡ finished s2
      → ((s1.tankbyte < tankend) × (scan_loop f alloc tankstart host tankend fuel s1 ≡ finished s2))
        ⊎ ((tankend ≤ s1.tankbyte) × (s1 ≡ s2))
  going fuel s1 s2 true e h = inl (ground arith, h)
  going fuel s1 s2 false e h = inr (ground arith, finished_same s1 s2 h)

  abbrev Found : ℕ → State f.Double → State f.Double → Type 0
  Found fuel s s2 =
      (rs : List (Option (Scnl × TBuf f.Double))) × Rounds s rs s2 × (length rs ≤ fuel)

  loop-Found :
      (fuel : ℕ) (s s2 : State f.Double) (o : Outcome f.Double)
      → scan_step f alloc tankstart host tankend s ≡ o
      → scan_loop f alloc tankstart host tankend fuel s ≡ finished s2
      → Found fuel s s2
  unfolding scan_loop
  loop-Found zero s s2 o e h = ground arith
  loop-Found (suc fuel) s s2 (again s1) e h =
      elim (going fuel s1 s2 (ltb s1.tankbyte tankend) refl (rw (e, scan_loop) at h)) [
        | inl (inside, rest) ↦
            let (rs, rounds, few) = loop-Found fuel s1 s2 _ refl rest in
            (_, goes e inside rounds, omega (arith, few))
        | inr (at_end, same) ↦ rw (← same) (_, ends e at_end, omega arith)
      ]
  loop-Found (suc fuel) s s2 (stop s1) e h =
      let same : s1 ≡ s2 = finished_same s1 s2 (rw (e, scan_loop) at h) in
      rw (← same) (_, breaks e, omega arith)
  loop-Found (suc fuel) s s2 failed e h =
      let off : ◌≡◌ {A = Run f.Double} error (finished s2) = rw (e, scan_loop) at h in ground arith
  loop-Found (suc fuel) s s2 crashed e h =
      let off : ◌≡◌ {A = Run f.Double} segfault (finished s2) = rw (e, scan_loop) at h in
      ground arith

  Rounds-loop :
      (fuel : ℕ) (s s2 : State f.Double) (rs : List (Option (Scnl × TBuf f.Double)))
      → Rounds s rs s2
      → length rs ≤ fuel
      → scan_loop f alloc tankstart host tankend fuel s ≡ finished s2
  unfolding scan_loop
  Rounds-loop zero s s2 rs (breaks e) h = absurd (omega arith)
  Rounds-loop zero s s2 rs (ends e at_end) h = absurd (omega arith)
  Rounds-loop zero s s2 rs (goes e inside rounds) h = absurd (omega arith)
  Rounds-loop (suc fuel) s s2 rs (breaks e) h = rw (e, scan_loop) refl
  Rounds-loop (suc fuel) s s2 rs (ends e at_end) h = rw (e, scan_loop) (ground arith)
  Rounds-loop (suc fuel) s s2 rs (goes e inside rounds) h =
      rw (e, scan_loop) (ground (arith, Rounds-loop fuel _ s2 _ rounds (omega arith)))

  -- The loop ends in a state within `fuel` rounds exactly when a sequence of at most `fuel` rounds
  -- leads to it.
  pub scan_loop-Rounds :
      (fuel : ℕ) (s s2 : State f.Double)
      → (scan_loop f alloc tankstart host tankend fuel s ≡ finished s2)
        ↔ ((rs : List (Option (Scnl × TBuf f.Double))) × Rounds s rs s2 × (length rs ≤ fuel))
  scan_loop-Rounds fuel s s2 = (loop-Found fuel s s2 _ refl, λ r. Rounds-loop fuel s s2 r.0 r.1 r.2)
