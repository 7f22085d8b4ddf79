-- ===== src/Scan/Tank/Message.antt =====
-- A message of the tank, as makelocal_wavemsg_ver leaves it for the rest of the round.
use tank_convertor.Base.{
  ℕ, ◌+◌, ◌-◌, ◌*◌, ◌/◌, ◌≤◌, ◌<◌, ◌≡◌, ◌⊎◌, inl, inr, refl, ap, ◌∙◌, false, pos, pos_part, negsuc,
  ◌≤ℤ◌, arith,
}
use mathlib.Core.Path.{ap₂}
use native.Mathlib.Nat.{mul_comm}
use tank_convertor.Floating.{Floating}
use tank_convertor.Memory.{Mem, Endian}
use tank_convertor.Memory.Laws.{load-SameOn}
use tank_convertor.Header.{datatype_at, numbers_at, sta_at, net_at, chan_at, loc_at}
use tank_convertor.Libc.Strings.{atoi, atoi_digits, is_digit}
use tank_convertor.Swap.MakeLocal.{ByteOrder, Local, makelocal_wavemsg_ver}
use tank_convertor.Swap.Numbers.{numbers_at-SameOn}
use tank_convertor.Swap.Sides.{IsDatatype, ints, floats, IsStatic}
use tank_convertor.Swap.Code.{unknown, too_many, inconsistent, accepted, verdict-Code, IsConsistent}
use tank_convertor.Swap.Contract.{size_at, message_at, verdict}
use tank_convertor.Swap.Effect.{makelocal-Effect}
use tank_convertor.Swap.Text.{makelocal-text}
use tank_convertor.Swap.Correct.{makelocal-numbers, makelocal-same}
use tank_convertor.Scan.{scnl_at, dash_spaces}
use tank_convertor.Scan.Record.{size_of}
use tank_convertor.Scan.Termination.{product}
use tank_convertor.Scan.Tank.{IsMessage, extent}

-- What is read of a message depends on its bytes only.
pub message_at_same :
    (f : Floating) (m m' : Mem) (p : ℕ)
    → ((x : ℕ) → p ≤ x → m' x ≡ m x)
    → message_at f m' p ≡ message_at f m p
message_at_same f m m' p h =
    rw (h (p + 57) (omega arith)) (numbers_at-SameOn f _ m m' p (λ x lo hi. h x lo))

pub scnl_at_same :
    (m m' : Mem) (p : ℕ)
    → ((x : ℕ) → p + 32 ≤ x → x < p + 57 → m' x ≡ m x)
    → scnl_at m' p ≡ scnl_at m p
unfolding scnl_at
scnl_at_same m m' p h =
    let keep = λ (q k : ℕ) (inside : (p + 32 ≤ q) × (q + k ≤ p + 57)).
      load-SameOn m m' q k (λ x lo hi. h x (omega arith) (omega arith)) in
    λ i. record {
      sta = keep (sta_at p) 7 (omega arith) i;
      chan = keep (chan_at p) 4 (omega arith) i;
      net = keep (net_at p) 9 (omega arith) i;
      loc = dash_spaces (keep (loc_at p) 3 (omega arith) i);
    }

no_digit : (c : ℕ) → (c < b'0') ⊎ (b'9' < c) → is_digit c ≡ false
unfolding is_digit
no_digit c h = ground arith

-- The digit of a data type, with no digit behind it.
pub digit :
    (m : Mem) (q t0 : ℕ)
    → IsDatatype t0 (m q)
    → (m (q + 1) < b'0') ⊎ (b'9' < m (q + 1))
    → atoi m q ≡ m q - b'0'
unfolding atoi atoi_digits is_digit
digit m q t0 (ints h (inl k)) e = rw (atoi, k, no_digit (m (q + 1)) e) refl
digit m q t0 (ints h (inr k)) e = rw (atoi, k, no_digit (m (q + 1)) e) refl
digit m q t0 (floats h (inl k)) e = rw (atoi, k, no_digit (m (q + 1)) e) refl
digit m q t0 (floats h (inr k)) e = rw (atoi, k, no_digit (m (q + 1)) e) refl

-- The sizes of a sample.
abbrev pub IsWidth : ℕ → Type 0
IsWidth w = (w ≡ 2) ⊎ (w ≡ 4) ⊎ (w ≡ 8)

pub known-IsWidth : (t0 t1 : ℕ) → IsDatatype t0 t1 → IsWidth (t1 - b'0')
known-IsWidth t0 t1 (ints h (inl k)) = inl (omega arith)
known-IsWidth t0 t1 (ints h (inr k)) = inr (inl (omega arith))
known-IsWidth t0 t1 (floats h (inl k)) = inr (inl (omega arith))
known-IsWidth t0 t1 (floats h (inr k)) = inr (inr (omega arith))

has_room : (w n : ℕ) → IsWidth w → w * n ≤ 4032 → n ≤ 4032 / w
has_room w n (inl e) le = let small = rw e at le in rw e (omega (arith, small))
has_room w n (inr (inl e)) le = let small = rw e at le in rw e (omega (arith, small))
has_room w n (inr (inr e)) le = let small = rw e at le in rw e (omega (arith, small))

module _ (f : Floating) (m : Mem) (p n : ℕ) (msg : IsMessage f m p n) where
  fits : (message_at f m p).nsamp ≤ℤ pos (4032 / size_at m p)
  fits =
      let le = has_room (size_at m p) n (known-IsWidth _ _ msg.known) msg.room in
      rw msg.count (omega (arith, le))

  pub verdict_consistent :
      IsConsistent f (message_at f m p) → verdict f (size_at m p) (message_at f m p) ≡ pos 0
  verdict_consistent c = elim (verdict-Code f _ _ (message_at f m p) msg.known) [
    | unknown h e ↦ absurd (h msg.known)
    | too_many k many e ↦ absurd (many fits)
    | inconsistent k few bad e ↦ absurd (bad c)
    | accepted k few good e ↦ e
  ]

  pub verdict_inconsistent :
      ¬ IsConsistent f (message_at f m p) → verdict f (size_at m p) (message_at f m p) ≡ negsuc 1
  verdict_inconsistent c = elim (verdict-Code f _ _ (message_at f m p) msg.known) [
    | unknown h e ↦ absurd (h msg.known)
    | too_many k many e ↦ absurd (many fits)
    | inconsistent k few bad e ↦ e
    | accepted k few good e ↦ absurd (c good)
  ]

-- A call for the message, on a memory `m'` in which the bytes from the message on are still those of
-- the tank.
module _ (f : Floating) (host : Endian) (static : ByteOrder) (ok : IsStatic host static)
    (p version n : ℕ) (m m' : Mem) (ahead : (x : ℕ) → p ≤ x → m' x ≡ m x)
    (msg : IsMessage f m p n) where
  abbrev result : Local
  result = makelocal_wavemsg_ver f host static p version m'

  known : IsDatatype (m' (datatype_at p)) (m' (datatype_at p + 1))
  known = rw (ahead (p + 57) (omega arith), ahead (p + 57 + 1) (omega arith)) msg.known

  size_same : size_at m' p ≡ size_at m p
  size_same = ap (λ (c : ℕ). c - b'0') (ahead (p + 57 + 1) (omega arith))

  pub result-rc : result.rc ≡ verdict f (size_at m p) (message_at f m p)
  result-rc =
      (makelocal-Effect f host static ok p version m' known).0
      ∙ ap₂ (verdict f) size_same (message_at_same f m m' p ahead)

  pub result-numbers : numbers_at f host result.mem p ≡ message_at f m p
  result-numbers =
      makelocal-numbers f host static ok p version m' known ∙ message_at_same f m m' p ahead

  pub result-text : (x : ℕ) → p + 32 ≤ x → x < p + 60 → ¬ (x ≡ p + 57) → result.mem x ≡ m x
  result-text x lo hi ne =
      makelocal-text f host static ok p version m' known x lo hi (omega arith)
      ∙ ahead x (omega arith)

  pub result-scnl : scnl_at result.mem p ≡ scnl_at m p
  result-scnl =
      scnl_at_same m result.mem p (λ x lo hi. result-text x lo (omega arith) (λ e. omega arith))

  pub result-width : atoi result.mem (datatype_at p + 1) ≡ size_at m p
  result-width =
      let d = result-text (p + 57 + 1) (omega arith) (omega arith) (λ e. omega arith) in
      let e = result-text (p + 57 + 1 + 1) (omega arith) (omega arith) (λ e. omega arith) in
      let next : p + 57 + 1 + 1 ≡ p + 59 = omega arith in
      digit result.mem (p + 57 + 1) (m (datatype_at p)) (rw d msg.known) (rw (e, next) msg.ended)
      ∙ ap (λ (c : ℕ). c - b'0') d

  pub result-size :
      size_of (atoi result.mem (datatype_at p + 1)) (numbers_at f host result.mem p).nsamp
      ≡ extent m p n
  result-size =
      let room = msg.room in
      rw (result-width, result-numbers, msg.count, product (size_at m p) n) (omega (arith, room))

  -- Behind the message the bytes are those of the tank.
  pub result-ahead : (x : ℕ) → p + extent m p n ≤ x → result.mem x ≡ m x
  result-ahead x far =
      let count : pos_part (message_at f m' p).nsamp ≡ n =
        rw (message_at_same f m m' p ahead, msg.count) refl in
      makelocal-same f host static ok p version m' x
        (inr (rw (size_same, count) (omega (arith, mul_comm n (size_at m p), far))))
      ∙ ahead x (omega (arith, far))
