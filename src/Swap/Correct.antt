-- ===== src/Swap/Correct.antt =====
-- What a call of makelocal_wavemsg_ver promises its callers.
use tank_convertor.Base.{
  ℕ, ◌+◌, ◌*◌, ◌≤◌, ◌<◌, ◌≡◌, ◌⊎◌, inl, inr, refl, sym, ap, ◌∙◌, ℤ, pos, pos_part, arith,
}
use tank_convertor.Memory.{Mem, Endian, opposite, load, value_of}
use tank_convertor.Memory.Laws.{load-SameOn}
use tank_convertor.Floating.{Floating}
use tank_convertor.Header.{datatype_at, numbers_at}
use tank_convertor.Swap.MakeLocal.{ByteOrder, swap_header, Local, makelocal_wavemsg_ver}
use tank_convertor.Swap.Numbers.{
  numbers_at-swap_header, numbers_at-SameOn, swap_header-SameOutside, value_of-reverse,
}
use tank_convertor.Swap.Sides.{
  IsDatatype, IsDatatype-cases, SameKind, SameKind-refl, IsStatic, native_order,
}
use tank_convertor.Swap.Code.{Code, unknown, verdict-Code, byte_order_of-unknown}
use tank_convertor.Swap.Contract.{size_at, endian_at, message_at, makelocal_unknown}
use tank_convertor.Swap.Text.{digit_back}
use tank_convertor.Swap.Effect.{
  Effect, stays, rejected, converted, makelocal-Effect, makelocal_native,
}

Effect-numbers :
    (f : Floating) (host : Endian) (p version : ℕ) (m : Mem) (n rc : ℤ) (m' : Mem)
    → Effect host p version m n rc m'
    → numbers_at f host m' p ≡ message_at f m p
Effect-numbers f host p version m n rc m' (stays e h) = rw (h, e)
Effect-numbers f host p version m n rc m' (rejected e r h) =
    rw (h, e) (numbers_at-swap_header f host version p m)
Effect-numbers f host p version m n rc m' (converted e r c k kind own conv) = rw e (
    numbers_at-SameOn f host (swap_header version p m) m' p
      (λ x lo hi. conv.same x (omega arith) (omega arith))
    ∙ numbers_at-swap_header f host version p m)

-- What is not part of the message.
Effect-same :
    (host : Endian) (p version : ℕ) (m : Mem) (n rc : ℤ) (m' : Mem) (x : ℕ)
    → Effect host p version m n rc m'
    → (x < p) ⊎ (p + 64 + pos_part n * size_at m p ≤ x)
    → m' x ≡ m x
Effect-same host p version m n rc m' x (stays e h) out = rw h
Effect-same host p version m n rc m' x (rejected e r h) out =
    rw h (swap_header-SameOutside version p x m (omega arith) (omega arith))
Effect-same host p version m n rc m' x (converted e r c k kind own conv) out =
    conv.same x (omega arith) (omega arith)
    ∙ swap_header-SameOutside version p x m (omega arith) (omega arith)

-- Every sample of an accepted message reads as it read in its own byte order.
Effect-sample :
    (host : Endian) (p version : ℕ) (m : Mem) (n rc : ℤ) (m' : Mem) (i : ℕ)
    → Effect host p version m n rc m'
    → rc ≡ pos 0
    → i < pos_part n
    → value_of host (load m' (p + 64 + i * size_at m p) (size_at m p))
      ≡ value_of (endian_at m p) (load m (p + 64 + i * size_at m p) (size_at m p))
Effect-sample host p version m n rc m' i (stays e h) z lt = rw (h, e)
Effect-sample host p version m n rc m' i (rejected e r h) z lt = absurd (r z)
Effect-sample host p version m n rc m' i (converted e r c k kind own conv) z lt =
    let m1 = swap_header version p m in
    let w = size_at m p in
    let q = p + 64 + i * w in
    rw e (
      value_of-reverse host (load m1 q w) (load m' q w) (conv.sample i lt)
      ∙ ap (value_of (opposite host)) (
          load-SameOn m m1 q w
            (λ x lo hi. swap_header-SameOutside version p x m (omega arith) (omega arith))))

-- The type of an accepted message is known again, and names the machine's own byte order.
Effect-type :
    (host : Endian) (p version : ℕ) (m : Mem) (n rc : ℤ) (m' : Mem)
    → IsDatatype (m (datatype_at p)) (m (datatype_at p + 1))
    → Effect host p version m n rc m'
    → rc ≡ pos 0
    → IsDatatype (m' (datatype_at p)) (m' (datatype_at p + 1))
      × (endian_at m' p ≡ host)
      × (m' (datatype_at p + 1) ≡ m (datatype_at p + 1))
      × SameKind (m' (datatype_at p)) (m (datatype_at p))
Effect-type host p version m n rc m' known (stays e h) z =
    rw h (known, e, refl, SameKind-refl _ _ known)
Effect-type host p version m n rc m' known (rejected e r h) z = absurd (r z)
Effect-type host p version m n rc m' known (converted e r c k kind own conv) z =
    let digit : m' (datatype_at p + 1) ≡ m (datatype_at p + 1) =
      conv.digit ∙ digit_back _ _ known in
    rw (conv.letter, digit) (k, own, refl, kind)

module _ (f : Floating) (host : Endian) (static : ByteOrder) (ok : IsStatic host static)
    (p version : ℕ) (m : Mem) where
  -- If the static variable is undefined or names the machine's byte order, the code is -1 for an
  -- unknown data type or for more samples than the largest message has room for, else -2 if the end
  -- time is off by more than five sample intervals, else 0: by the numbers of the message as they
  -- read in the byte order that its data type names.
  pub makelocal-Code :
      Code f
        (m (datatype_at p))
        (m (datatype_at p + 1))
        (message_at f m p)
        (makelocal_wavemsg_ver f host static p version m).rc
  makelocal-Code = elim (IsDatatype-cases (m (datatype_at p)) (m (datatype_at p + 1))) [
    | inl none_of ↦
        rw (makelocal_unknown f host static ok p version m none_of)
          (unknown (byte_order_of-unknown _ _ none_of) refl)
    | inr known ↦
        rw ((makelocal-Effect f host static ok p version m known).0)
          (verdict-Code f _ _ (message_at f m p) known)
  ]

  -- After the call the numbers of a known message read, in the machine's byte order, as they read
  -- before in the message's own, whatever the code.
  pub makelocal-numbers :
      IsDatatype (m (datatype_at p)) (m (datatype_at p + 1))
      → numbers_at f host (makelocal_wavemsg_ver f host static p version m).mem p ≡ message_at f m p
  makelocal-numbers known =
      Effect-numbers f host p version m _ _ _
        (makelocal-Effect f host static ok p version m known).1

  accepted-IsDatatype :
      (makelocal_wavemsg_ver f host static p version m).rc ≡ pos 0
      → IsDatatype (m (datatype_at p)) (m (datatype_at p + 1))
  accepted-IsDatatype z = elim (IsDatatype-cases (m (datatype_at p)) (m (datatype_at p + 1))) [
    | inl none_of ↦
        cc (
          sym z ∙ ap (λ (r : Local). r.rc) (makelocal_unknown f host static ok p version m none_of))
    | inr known ↦ known
  ]

  -- An accepted message is of a known type, in the machine's byte order, with samples of the same size
  -- and kind.
  pub makelocal-type :
      (makelocal_wavemsg_ver f host static p version m).rc ≡ pos 0
      → (let m' = (makelocal_wavemsg_ver f host static p version m).mem in
          IsDatatype (m' (datatype_at p)) (m' (datatype_at p + 1))
          × (endian_at m' p ≡ host)
          × (m' (datatype_at p + 1) ≡ m (datatype_at p + 1))
          × SameKind (m' (datatype_at p)) (m (datatype_at p)))
  makelocal-type z =
      let known = accepted-IsDatatype z in
      Effect-type host p version m _ _ _ known
        (makelocal-Effect f host static ok p version m known).1 z

  -- If the message is accepted, each of its samples reads, in the machine's byte order, as it read
  -- before in the message's own.
  pub makelocal-sample :
      (i : ℕ)
      → (makelocal_wavemsg_ver f host static p version m).rc ≡ pos 0
      → i < pos_part (message_at f m p).nsamp
      → value_of host (
          load
            (makelocal_wavemsg_ver f host static p version m).mem
            (p + 64 + i * size_at m p)
            (size_at m p))
        ≡ value_of (endian_at m p) (load m (p + 64 + i * size_at m p) (size_at m p))
  makelocal-sample i z lt =
      Effect-sample host p version m _ _ _ i
        (makelocal-Effect f host static ok p version m (accepted-IsDatatype z)).1 z lt

  -- Nothing is written in front of the message, or behind its header and the samples that the
  -- header counts (none where the count is negative), whatever the code.
  pub makelocal-same :
      (x : ℕ)
      → (x < p) ⊎ (p + 64 + pos_part (message_at f m p).nsamp * size_at m p ≤ x)
      → (makelocal_wavemsg_ver f host static p version m).mem x ≡ m x
  makelocal-same x out = elim (IsDatatype-cases (m (datatype_at p)) (m (datatype_at p + 1))) [
    | inl none_of ↦ rw (makelocal_unknown f host static ok p version m none_of)
    | inr known ↦
        Effect-same host p version m _ _ _ x (makelocal-Effect f host static ok p version m known).1
          out
  ]

  -- If the message is accepted, a second call, whatever version it is given, accepts it again and
  -- leaves the memory as the first call left it.
  pub makelocal_again :
      (static' : ByteOrder)
      → IsStatic host static'
      → (version' : ℕ) → (makelocal_wavemsg_ver f host static p version m).rc ≡ pos 0
      → makelocal_wavemsg_ver f host static' p version'
          (makelocal_wavemsg_ver f host static p version m).mem
        ≡ record {
          rc = pos 0;
          host_byte_order = native_order host;
          mem = (makelocal_wavemsg_ver f host static p version m).mem;
        }
  makelocal_again static' ok' version' z =
      let known = accepted-IsDatatype z in
      let (code, effect) = makelocal-Effect f host static ok p version m known in
      let m' = (makelocal_wavemsg_ver f host static p version m).mem in
      let (known', own, digit, kind) = Effect-type host p version m _ _ _ known effect z in
      let numbers = Effect-numbers f host p version m _ _ _ effect in
      rw (makelocal_native f host static' ok' p version' m' known' own, own, numbers, digit)
        (ap (λ (r : ℤ). record { rc = r; host_byte_order = native_order host; mem = m' })
          (sym code ∙ z))
