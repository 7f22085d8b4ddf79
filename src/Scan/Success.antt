-- ===== src/Scan/Success.antt =====
-- While no allocation fails, the loop of scan_tracebuf ends neither with -1 nor in a fault.
use tank_convertor.Base.{
  ℕ, zero, suc, ◌+◌, ◌^◌, ◌≤◌, ◌≡◌, refl, Bool, true, false, ltb, if◌then◌else◌, arith,
}
use tank_convertor.Floating.{Floating}
use tank_convertor.Memory.{Endian}
use tank_convertor.Scan.{
  State, Outcome, again, stop, failed, crashed, Run, finished, error, segfault, out_of_fuel,
  scan_step, scan_loop,
}
use tank_convertor.Scan.Invariant.{IsState}
use tank_convertor.Scan.Step.{scan_step-HasMore}
use tank_convertor.Scan.Growth.{IsHeld, IsHeld-IsSmall, scan_step-IsHeld}
use tank_convertor.Scan.Progress.{GoesOn, scan_step-GoesOn}

-- The loop ends in a state, or is still running when the fuel is used up.
abbrev pub Survives : {D : Type 0} → Run D → Type 0
Survives (finished s) = Unit
Survives out_of_fuel = Unit
Survives error = ⊥
Survives segfault = ⊥

Survives-either :
    {D : Type 0} (b : Bool) (r : Run D) (s : State D)
    → Survives r
    → Survives (if b then r else finished s)
Survives-either true r s h = h
Survives-either false r s h = tt

module _ (f : Floating) (alloc : ℕ → Bool) (ok : (i : ℕ) → alloc i ≡ true) (tankstart : ℕ)
    (host : Endian) (tankend : ℕ) where
  from_round :
      (fuel : ℕ) (s : State f.Double) (o : Outcome f.Double)
      → scan_step f alloc tankstart host tankend s ≡ o
      → GoesOn o
      → ((s1 : State f.Double)
          → o ≡ again s1
          → Survives (scan_loop f alloc tankstart host tankend fuel s1))
      → Survives (scan_loop f alloc tankstart host tankend (suc fuel) s)
  unfolding scan_loop
  from_round fuel s (again s1) e g rest =
      rw (e, scan_loop) (Survives-either (ltb s1.tankbyte tankend) _ s1 (rest s1 refl))
  from_round fuel s (stop s1) e g rest = rw (e, scan_loop) tt
  from_round fuel s failed e g rest = absurd g
  from_round fuel s crashed e g rest = absurd g

  -- A run of fewer than 2 ^ 30 - 4096 rounds, of which `n` are over.
  pub scan_loop-Survives :
      (n fuel : ℕ) (s : State f.Double)
      → IsState s
      → IsHeld n s
      → n + fuel + 4096 ≤ 2 ^ 30
      → Survives (scan_loop f alloc tankstart host tankend fuel s)
  unfolding scan_loop
  scan_loop-Survives n zero s v h few = tt
  scan_loop-Survives n (suc fuel) s v h few =
      let small = IsHeld-IsSmall n s h (omega arith) in
      from_round fuel s _ refl (scan_step-GoesOn f alloc ok tankstart host tankend s v small)
        (λ s1 e.
          let more = rw e at (scan_step-HasMore f alloc tankstart host tankend s v small) in
          let held = rw e at (scan_step-IsHeld f alloc tankstart host tankend n s h) in
          scan_loop-Survives (suc n) fuel s1 more.state held (omega arith))
