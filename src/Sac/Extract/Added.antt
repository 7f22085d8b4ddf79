-- ===== src/Sac/Extract/Added.antt =====
-- A tracebuf that is joined to the trace: all its samples go to the buffer, which grows if need be.
use Prim.Native.Nat.{min}
use tank_convertor.Base.{
  ℕ, ◌+◌, ◌-◌, ◌*◌, ◌≤◌, ◌<◌, ◌≡◌, refl, sym, ap, ◌∙◌, Bool, true, Bool-cases, ◌⊎◌, inl, inr, leb,
  some, List, ◌++◌, length, length-append, pos, ◌+ℤ◌, arith,
}
use mathlib.Core.List.{append_assoc}
use tank_convertor.Memory.{Mem, Endian}
use tank_convertor.Floating.{Floating}
use tank_convertor.Header.{Numbers, numbers_at}
use tank_convertor.Sac.Samples.{OutBuf, room, enlarge, Reader, reader_at, enrich_sac_samps}
use tank_convertor.Sac.Samples.Copy.{samples, length-samples, samples-add, copy_samps-min}
use tank_convertor.Sac.Extract.{
  Extract, Round, next, failed, crashed, advance, enrich_left, add_samps,
}

-- The round ends in a state that satisfies `P`.
abbrev pub Returns : {S : Type 0} → (S → Type 0) → Round S → Type 0
Returns P (next s) = P s
Returns P failed = ⊥
Returns P crashed = ⊥

-- At `p` there is a header of a known type with `count` samples behind it, `size` bytes in all.
pub record IsPacket (f : Floating) (host : Endian) (m : Mem) (p size : ℕ) : Type 0 where
  pub reader : Reader f.Single
  pub count : ℕ
  pub known : reader_at f host m p ≡ some reader
  pub wide : 0 < reader.width
  pub nsamp : (numbers_at f host m p).nsamp ≡ pos count
  pub length : size ≡ 64 + count * reader.width
  pub few : count ≤ 4032

module _ {f : Floating} {host : Endian} {m : Mem} {p size : ℕ} where
  abbrev pub samples_of : IsPacket f host m p size → List f.Single
  samples_of v = samples v.reader.read v.reader.width v.count (p + 64)

-- The words `ws` have been added, within the bounds of the buffer, and counted.
pub record Grown {f : Floating} (s s1 : Extract f) (ws : List f.Single) : Type 0 where
  pub words : s1.out.words ≡ s.out.words ++ ws
  pub head : s1.out.head ≡ s.out.head
  pub fits : length s1.out.words ≤ s1.out.capacity
  pub larger : s.out.capacity ≤ s1.out.capacity
  pub counted : s1.nsamp_trace ≡ s.nsamp_trace +ℤ pos (length ws)
  -- the buffer has grown no further than to 204800 words more than it holds
  pub tight : (s1.out.capacity ≤ s.out.capacity) ⊎ (s1.out.capacity ≤ length s1.out.words + 204800)

-- The same with the times of the tracebuf.
pub record Added {f : Floating} (s s1 : Extract f) (ws : List f.Single) (endtime : f.Double)
    : Type 0 where
  pub grown : Grown s s1 ws
  pub endtime_is : s1.endtime ≡ endtime
  pub samprate_is : s1.samprate ≡ s.samprate

module _ (f : Floating) (host : Endian) (m : Mem) (p : ℕ) (r : Reader f.Single)
    (known : reader_at f host m p ≡ some r) (wide : 0 < r.width) where
  enrich-samples :
      (n src srcend : ℕ) (o : OutBuf f.Single)
      → srcend ≡ src + n * r.width
      → enrich_sac_samps f host m p src srcend o
        ≡ some (
          record o { words = o.words ++ samples r.read r.width (min (room o) n) src },
          src + min (room o) n * r.width,
        )
  unfolding enrich_sac_samps
  enrich-samples n src srcend o e =
      rw (known, enrich_sac_samps, copy_samps-min r.read r.width (room o) n src srcend wide e) refl

module _ (f : Floating) (alloc : ℕ → Bool) (ok : (i : ℕ) → alloc i ≡ true) (host : Endian) (m : Mem)
    (p size : ℕ) (v : IsPacket f host m p size) (h : Numbers f) (same : h.nsamp ≡ pos v.count) where
  abbrev w : ℕ
  w = v.reader.width

  abbrev part : (n src : ℕ) → List f.Single
  part = samples v.reader.read v.reader.width

  joined :
      (k d : ℕ) (ws : List f.Single)
      → k + d ≡ v.count
      → (ws ++ part k (p + 64)) ++ part d (p + 64 + k * w) ≡ ws ++ samples_of v
  joined k d ws e =
      append_assoc ws (part k (p + 64)) (part d (p + 64 + k * w))
      ∙ ap (λ (l : List f.Single). ws ++ l)
          (sym (samples-add v.reader.read w k d (p + 64)) ∙ ap (λ n. part n (p + 64)) e)

  -- The end of a round in which all samples are in the buffer `o`.
  advanced :
      (o : OutBuf f.Single) (s s2 : Extract f)
      → o.words ≡ s.out.words ++ samples_of v
      → o.head ≡ s.out.head
      → length o.words ≤ o.capacity
      → s.out.capacity ≤ o.capacity
      → (o.capacity ≤ s.out.capacity) ⊎ (o.capacity ≤ length o.words + 204800)
      → s2.nsamp_trace ≡ s.nsamp_trace
      → s2.samprate ≡ s.samprate
      → Added s (advance f alloc host m h o s2) (samples_of v) h.endtime
  unfolding advance
  advanced o s s2 words head fits larger tight count rate = record {
    grown = record {
      words = words;
      head = head;
      fits = fits;
      larger = larger;
      tight = tight;
      counted = rw (count, same, length-samples v.reader.read w v.count (p + 64)) refl;
    };
    endtime_is = refl;
    samprate_is = rate;
  }

  -- Whether the buffer has room for the samples or is enlarged in between, they are all joined.
  pub add_samps-Added :
      (s : Extract f)
      → length s.out.words ≤ s.out.capacity
      → Returns
          (λ s1. Added s s1 (samples_of v) h.endtime)
          (add_samps f alloc host m p (p + size) h s)
  unfolding add_samps enrich_left enlarge
  add_samps-Added s within =
      let k = min (room s.out) v.count in
      let d = v.count - k in
      let ws1 = s.out.words ++ part k (p + 64) in
      let o1 : OutBuf f.Single = record (s.out) { words = ws1 } in
      let len1 : length ws1 ≡ length s.out.words + k =
        length-append s.out.words (part k (p + 64))
        ∙ ap (λ n. length s.out.words + n) (length-samples v.reader.read w k (p + 64)) in
      let sum : k + d ≡ v.count = omega arith in
      let first =
        enrich-samples f host m p v.reader v.known v.wide v.count (p + 64) (p + size) s.out
          (omega (arith, v.length)) in
      elim (Bool-cases (leb s.out.capacity (length ws1))) [
        | inl full ↦
            let e2 : p + size ≡ p + 64 + k * w + d * w =
              omega (arith, v.length, ap (λ (n : ℕ). n * w) sum) in
            let second =
              enrich-samples f host m p v.reader v.known v.wide d (p + 64 + k * w) (p + size)
                (enlarge o1) e2 in
            let all : min (room (enlarge o1)) d ≡ d = omega (arith, v.few, len1) in
            rw (add_samps, first, full, ok s.allocs, second, all)
              (advanced (record (enlarge o1) { words = ws1 ++ part d (p + 64 + k * w) }) s _
                (joined k d s.out.words sum) refl
                (omega (
                  arith,
                  v.few,
                  len1,
                  length-append ws1 (part d (p + 64 + k * w)),
                  length-samples v.reader.read w d (p + 64 + k * w),
                ))
                (omega arith)
                (inr (
                  ground (
                    arith,
                    len1,
                    length-append ws1 (part d (p + 64 + k * w)),
                    length-samples v.reader.read w d (p + 64 + k * w),
                  )))
                refl refl)
        | inr space ↦
            let e : k ≡ v.count = ground (arith, len1) in
            rw (add_samps, first, space)
              (advanced o1 s s (ap (λ (n : ℕ). s.out.words ++ part n (p + 64)) e) refl
                (ground arith) (omega arith) (inl (omega arith)) refl refl)
      ]
