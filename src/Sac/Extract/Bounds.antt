-- ===== src/Sac/Extract/Bounds.antt =====
-- The output buffer: nothing is written behind its end, whatever the tank holds.
use Prim.Native.Nat.{min}
use tank_convertor.Base.{
  ℕ, zero, suc, ◌+◌, ◌*◌, ◌%◌, ◌^◌, ◌≤◌, ◌≡◌, Bool, Bool-cases, inl, inr, ltb, leb, Option, some,
  Option-cases, List, [], ◌∷◌, ◌++◌, length, length-append, length-replicate, ℤ, pos_part, arith,
}
use mathlib.Core.Option.{some-injective}
use tank_convertor.Memory.{Mem, Endian}
use tank_convertor.Floating.{Floating}
use tank_convertor.Header.{Numbers, numbers_at, trace2_header_size}
use tank_convertor.Trace.{TBuf}
use tank_convertor.Sac.Head.{undefined, enrich_sac_starttime}
use tank_convertor.Sac.Samples.{
  OutBuf, buffersiz, room, enlarge, copy_samps, reader_at, enrich_sac_samps,
}
use tank_convertor.Sac.Extract.{
  Extract, Round, next, failed, crashed, fill_words, is_gap, is_duplicate, nfill_of, newsize_of,
  Gap, filled, bogus, no_memory, fill_gap, enlarged, bridge, advance, enrich_left, add_samps,
  first_packet, next_packet, next_packets, extract, packet_at, with_rate,
}
use tank_convertor.Sac.Extract.Gaps.{fill_words-replicate}

-- If the round ends in a state, it satisfies `P`.
abbrev pub Keeps : {S : Type 0} → (S → Type 0) → Round S → Type 0
Keeps P (next s) = P s
Keeps P failed = Unit
Keeps P crashed = Unit

-- The pointer `seis` is not behind the end of the buffer.
abbrev pub IsWithin : {F : Type 0} → OutBuf F → Type 0
IsWithin o = length o.words ≤ o.capacity

copy_samps-le :
    {F : Type 0} (read : ℕ → F) (w left src srcend : ℕ)
    → length (copy_samps read w left src srcend).0 ≤ left
unfolding copy_samps
copy_samps-le read w zero src srcend = omega arith
copy_samps-le read w (suc left) src srcend = elim (Bool-cases (ltb src srcend)) [
  | inl before ↦
      let rest = copy_samps-le read w left (src + w) srcend in rw before (omega (arith, rest))
  | inr at_end ↦ rw at_end (omega arith)
]

append-IsWithin :
    {F : Type 0} (o : OutBuf F) (ws : List F)
    → IsWithin o
    → length ws ≤ room o
    → IsWithin (record o { words = o.words ++ ws })
append-IsWithin o ws h k = omega (arith, length-append o.words ws)

module _ (f : Floating) where
  abbrev pub Within : Extract f → Type 0
  Within s = IsWithin s.out

  pub enlarge-IsWithin : (o : OutBuf f.Single) → IsWithin o → IsWithin (enlarge o)
  unfolding enlarge
  enlarge-IsWithin o h = omega arith

  fill_gap-Within : (nfill : ℤ) (s : Extract f) → Within s → Within (fill_gap f nfill s)
  unfolding fill_gap
  fill_gap-Within nfill s h =
      let n = pos_part nfill in
      append-IsWithin s.out (fill_words (undefined f) n (room s.out)) h (
        rw (fill_words-replicate (undefined f) n (room s.out))
          (omega (arith, length-replicate (min n (room s.out)) (undefined f))))

  module _ (alloc : ℕ → Bool) where
    abbrev GapWithin : Gap f → Type 0
    GapWithin (filled s) = Within s
    GapWithin bogus = Unit
    GapWithin no_memory = Unit

    bridge-Within : (nfill : ℤ) (s : Extract f) → Within s → GapWithin (bridge f alloc nfill s)
    unfolding bridge
    bridge-Within nfill s h =
        let size = newsize_of f s.nsamp_trace nfill in
        elim (Bool-cases (ltb (buffersiz s.out) size)) [
          | inr fits ↦ rw fits (fill_gap-Within nfill s h)
          | inl large ↦ elim (Bool-cases (ltb (buffersiz s.out * 2 % 2 ^ 64) size)) [
            | inl huge ↦ rw (large, huge) tt
            | inr fair ↦ elim (Bool-cases (alloc s.allocs)) [
              | inl got ↦
                  rw (large, fair, got)
                    (fill_gap-Within nfill (enlarged f alloc s) (enlarge-IsWithin s.out h))
              | inr none_left ↦ rw (large, fair, none_left) tt
            ]
          ]
        ]

    module _ (host : Endian) (m : Mem) where
      pub enrich-IsWithin :
          (p src srcend : ℕ) (o : OutBuf f.Single) (r : OutBuf f.Single × ℕ)
          → enrich_sac_samps f host m p src srcend o ≡ some r
          → IsWithin o
          → IsWithin r.0
      unfolding enrich_sac_samps
      enrich-IsWithin p src srcend o r e h = elim (Option-cases (reader_at f host m p)) [
        | inl unknown ↦ ground (arith, unknown)
        | inr (reader, known) ↦
            let found : ◌≡◌ {A = Option (OutBuf f.Single × ℕ)} (some _) (some r) =
              rw (known, enrich_sac_samps) at e in
            let copied = (copy_samps reader.read reader.width (room o) src srcend).0 in
            rw (← some-injective _ _ found) (
              append-IsWithin o copied h
                (copy_samps-le reader.read reader.width (room o) src srcend))
      ]

      enrich_left-Within :
          (p srcend : ℕ) (h : Numbers f) (o : OutBuf f.Single) (left : ℕ) (s : Extract f)
          → IsWithin o
          → Keeps Within (enrich_left f alloc host m p srcend h (o, left) s)
      unfolding enrich_left advance
      enrich_left-Within p srcend h o left s v =
          elim (Bool-cases (leb o.capacity (length o.words))) [
            | inr space ↦ rw space v
            | inl full ↦ elim (Bool-cases (alloc s.allocs)) [
              | inr none_left ↦ rw (full, none_left) tt
              | inl got ↦
                  elim (Option-cases (enrich_sac_samps f host m p left srcend (enlarge o))) [
                    | inl unknown ↦ rw (full, got, unknown) (enlarge-IsWithin o v)
                    | inr (r, more) ↦
                        rw (full, got, more)
                          (enrich-IsWithin p left srcend (enlarge o) r more (enlarge-IsWithin o v))
                  ]
            ]
          ]

      add_samps-Within :
          (p srcend : ℕ) (h : Numbers f) (s : Extract f)
          → Within s
          → Keeps Within (add_samps f alloc host m p srcend h s)
      unfolding add_samps
      add_samps-Within p srcend h s v =
          elim (Option-cases (enrich_sac_samps f host m p (p + trace2_header_size) srcend s.out)) [
            | inl unknown ↦ rw (add_samps, unknown) v
            | inr (r, more) ↦
                rw (add_samps, more)
                  (enrich_left-Within p srcend h r.0 r.1 s
                    (enrich-IsWithin p _ srcend s.out r more v))
          ]

      module _ (tankstart : ℕ) where
        next_packet-Within :
            (b : TBuf f.Double) (s : Extract f)
            → Within s
            → Keeps Within (next_packet f alloc host m tankstart b s)
        unfolding next_packet
        next_packet-Within b s v =
            let p = packet_at f alloc host m tankstart b in
            let h = numbers_at f host m p in
            let s1 = with_rate f alloc host m tankstart h s in
            elim (Bool-cases (is_gap f s.endtime h.samprate h.starttime)) [
              | inl far ↦
                  rw (far, next_packet)
                    (bridged p (p + b.size) h s1 v _
                      (bridge-Within (nfill_of f s.endtime h.samprate h.starttime) s1 v))
              | inr near ↦ elim (Bool-cases (is_duplicate f s.endtime h.samprate h.endtime)) [
                | inl again ↦ rw (near, again, next_packet) v
                | inr new ↦ rw (near, new, next_packet) (add_samps-Within p (p + b.size) h s1 v)
              ]
            ]
          where
            bridged :
                (p srcend : ℕ) (h : Numbers f) (s1 : Extract f)
                → Within s1
                → (g : Gap f) → GapWithin g
                → Keeps Within (elim g [
                  | filled s2 ↦ add_samps f alloc host m p srcend h s2
                  | bogus ↦ next s1
                  | no_memory ↦ failed
                ])
            bridged p srcend h s1 v (filled s2) w = add_samps-Within p srcend h s2 w
            bridged p srcend h s1 v bogus w = v
            bridged p srcend h s1 v no_memory w = tt

        onward :
            (bs : List (TBuf f.Double)) (r : Round (Extract f))
            → Keeps Within r
            → ((s1 : Extract f)
                → Within s1
                → Keeps Within (next_packets f alloc host m tankstart bs s1))
            → Keeps Within (elim r [
              | next s1 ↦ next_packets f alloc host m tankstart bs s1
              | failed ↦ failed
              | crashed ↦ crashed
            ])
        onward bs (next s1) v rest = rest s1 v
        onward bs failed v rest = tt
        onward bs crashed v rest = tt

        next_packets-Within :
            (bs : List (TBuf f.Double)) (s : Extract f)
            → Within s
            → Keeps Within (next_packets f alloc host m tankstart bs s)
        unfolding next_packets
        next_packets-Within [] s v = v
        next_packets-Within (b ∷ bs) s v =
            onward bs _ (next_packet-Within b s v) (next_packets-Within bs)

        -- Whatever the tracebufs are, the loop over them leaves no more words than the buffer has room
        -- for, if there were no more before.
        pub extract-Within :
            (bs : List (TBuf f.Double)) (s : Extract f)
            → Within s
            → Keeps Within (extract f alloc host m tankstart bs s)
        unfolding extract first_packet
        extract-Within [] s v = v
        extract-Within (b ∷ bs) s v =
            let p = packet_at f alloc host m tankstart b in
            let h = numbers_at f host m p in
            elim (Option-cases (enrich_sac_starttime f h.starttime s.out.head)) [
              | inl no_time ↦ rw (extract, first_packet, no_time) tt
              | inr (head, started) ↦
                  rw (extract, first_packet, started)
                    (onward bs _
                      (add_samps-Within p (p + b.size) h
                        (with_rate f alloc host m tankstart h
                          (record s { out = record (s.out) { head = head } }))
                        v)
                      (next_packets-Within bs))
            ]
