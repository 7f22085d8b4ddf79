-- ===== src/Mseed/Records.antt =====
-- The records that msproc_tlist_add hands to libmseed, against a fold over the tracebufs.
use tank_convertor.Base.{
  ℕ, zero, suc, ◌+◌, ◌%◌, ◌^◌, ◌≡◌, refl, ap, ◌∙◌, Bool, true, false, Bool-cases, inl, inr, ltb_ℤ,
  if◌then◌else◌, none, some, Option-cases, List, [], ◌∷◌, ◌++◌, length, drop, take, ℤ, pos,
  pos_part,
}
use tank_convertor.Memory.{Mem, Endian}
use tank_convertor.Floating.{Floating}
use tank_convertor.Header.{numbers_at, trace2_header_size}
use tank_convertor.Trace.{TBuf}
use tank_convertor.Mseed.{
  Samples, null, at_address, in_buffer, Ms3Record, Libmseed, mstl3_addmsr, widen, Adding,
  enrich_record, note_gap, ms_epoch2nstime, sampletype_at, add_record, convert_samples, add_packet,
  add_packets,
}

length-widen : (host : Endian) (m : Mem) (n p : ℕ) → length (widen host m n p) ≡ n
unfolding widen
length-widen host m zero p = refl
length-widen host m (suc n) p = ap suc (length-widen host m n (p + 2))

take-front {ℓ} : {A : Type ℓ} (n : ℕ) (xs ys : List A) → length xs ≡ n → take n (xs ++ ys) ≡ xs
take-front n [] ys e = rw (← e) refl
take-front n (x ∷ xs) ys e = rw (← e) (ap (λ l. x ∷ l) (take-front (length xs) xs ys refl))

module _ (f : Floating) (lib : Libmseed f.Double) (host : Endian) (m : Mem) (tankstart : ℕ) where
  abbrev place : TBuf f.Double → ℕ
  place b = (tankstart + b.offset) % 2 ^ 64

  abbrev pub nanoseconds : f.Double → ℤ
  nanoseconds t =
      let double_of : ℕ → f.Double = λ n. f.double_of_int (pos n) in
      f.int_of_double (f.add (f.mul t (double_of (10 ^ 9))) (f.div (double_of 1) (double_of 2)))

  -- A record with the values of a tracebuf: its time in nanoseconds, its rate, and its samples, of
  -- which those of 16 bits are widened.
  abbrev with_packet : Ms3Record f.Double → TBuf f.Double → ℕ × Bool → Ms3Record f.Double
  with_packet r b (sampletype, widened) =
      let p = place b in
      let h = numbers_at f host m p in
      record r {
        starttime = nanoseconds h.starttime;
        samprate = h.samprate;
        numsamples = h.nsamp;
        samplecnt = h.nsamp;
        datasamples =
            if widened
            then in_buffer (widen host m (pos_part h.nsamp) (p + trace2_header_size))
            else at_address (p + trace2_header_size);
        sampletype = sampletype;
      }

  -- The record of a tracebuf: all but its values and the identifier is as libmseed makes it.
  abbrev base : (sid : List ℕ) → Ms3Record f.Double
  base sid = record (lib.msr3_init) { sid = sid; pubversion = 1 }

  abbrev pub record_of : (sid : List ℕ) → TBuf f.Double → ℕ × Bool → Ms3Record f.Double
  record_of sid b t = with_packet (base sid) b t

  -- The trace list with the records of the tracebufs whose type is known, in their order.
  abbrev pub collected : (sid : List ℕ) → List (TBuf f.Double) → lib.Ms3TraceList → lib.Ms3TraceList
  collected sid [] l = l
  collected sid (b ∷ bs) l = elim (sampletype_at f lib m (place b)) [
    | none ↦ collected sid bs l
    | some t ↦ collected sid bs (mstl3_addmsr lib l (record_of sid b t) false true 1).0
  ]

  -- Whether the type of the last tracebuf is not known.
  abbrev pub ends_unknown : Bool → List (TBuf f.Double) → Bool
  ends_unknown b [] = b
  ends_unknown _ (b ∷ bs) = elim (sampletype_at f lib m (place b)) [
    | none ↦ ends_unknown true bs
    | some t ↦ ends_unknown false bs
  ]

  -- The samples that the record still points to.
  abbrev pub Holds : Bool → Samples → Type 0
  Holds false d = d ≡ null
  Holds true d = (p : ℕ) × (d ≡ at_address p)

  abbrev pub S : Type 0
  S = Adding f lib

  -- A record without the values of a tracebuf.
  abbrev cleared : Ms3Record f.Double → Ms3Record f.Double
  cleared r = record r {
    starttime = pos 0;
    samprate = f.double_of_int (pos 0);
    numsamples = pos 0;
    samplecnt = pos 0;
    datasamples = null;
    sampletype = 0;
  }

  pub record Is (sid : List ℕ) (s : S) : Type 0 where
    pub based : cleared s.msr ≡ cleared (base sid)

  -- The state when the type of the samples is looked at, and when 16-bit samples are widened.
  abbrev noted : TBuf f.Double → S → S
  noted b s =
      let h = numbers_at f host m (place b) in
      note_gap f lib h (record s { msr = enrich_record f lib (place b) h s.msr })

  abbrev samples_at : TBuf f.Double → List ℤ
  samples_at b =
      widen host m (pos_part (numbers_at f host m (place b)).nsamp) (place b + trace2_header_size)

  abbrev widened : TBuf f.Double → S → S
  widened b s =
      let n = pos_part (numbers_at f host m (place b)).nsamp in
      let buffer = samples_at b ++ drop n (noted b s).int32_buf in
      record (noted b s) {
        int32_buf = buffer;
        msr = record ((noted b s).msr) { datasamples = in_buffer buffer };
      }

  -- The list after a record whose samples are in the buffer.
  added_widened :
      (sid : List ℕ) (b : TBuf f.Double) (s : S) (ty : ℕ)
      → Is sid s
      → (mstl3_addmsr lib s.msl (record ((widened b s).msr) { sampletype = ty }) false true 1).0
        ≡ (mstl3_addmsr lib s.msl (record_of sid b (ty, true)) false true 1).0
  unfolding enrich_record note_gap ms_epoch2nstime
  added_widened sid b s ty v =
      let n = pos_part (numbers_at f host m (place b)).nsamp in
      let r = with_packet s.msr b (ty, true) in
      let front =
        take-front n (samples_at b) (drop n s.int32_buf)
          (length-widen host m n (place b + trace2_header_size)) in
      ap (λ (x : lib.Ms3TraceList × Bool). x.0)
        (lib.addmsr_reads s.msl r (samples_at b ++ drop n s.int32_buf) false true 1
          ∙ ap
              (λ (l : List ℤ).
                mstl3_addmsr lib s.msl (record r { datasamples = in_buffer l }) false true 1)
              front)
      ∙ (λ i. (mstl3_addmsr lib s.msl (with_packet (v.based i) b (ty, true)) false true 1).0)

  module _ (alloc : ℕ → Bool) (ok : (i : ℕ) → alloc i ≡ true) where
    -- A tracebuf of a known type.
    known_packet :
        (sid : List ℕ) (b : TBuf f.Double) (s : S) (t : ℕ × Bool)
        → Is sid s
        → sampletype_at f lib m (place b) ≡ some t
        → (s1 : S) × (add_packet f lib alloc host m tankstart b s ≡ some s1)
          × (s1.msl ≡ (mstl3_addmsr lib s.msl (record_of sid b t) false true 1).0)
          × (s1.msr.datasamples ≡ null)
          × Is sid s1
    unfolding add_packet add_record convert_samples enrich_record note_gap ms_epoch2nstime
    known_packet sid b s (ty, false) v e = (
      add_record f lib (numbers_at f host m (place b)) ty (noted b s),
      rw (e, add_packet) refl,
      λ i. (mstl3_addmsr lib s.msl (with_packet (v.based i) b (ty, false)) false true 1).0,
      refl,
      record { based = v.based },
    )
    known_packet sid b s (ty, true) v e =
        let h = numbers_at f host m (place b) in
        elim (Bool-cases (ltb_ℤ (pos (length s.int32_buf)) h.nsamp)) [
          | inl short ↦ (
            add_record f lib h ty (record (widened b s) { allocs = s.allocs + 1 }),
            rw (e, add_packet, short, ok s.allocs) refl,
            added_widened sid b s ty v,
            refl,
            record { based = v.based },
          )
          | inr long ↦ (
            add_record f lib h ty (widened b s),
            rw (e, add_packet, long) refl,
            added_widened sid b s ty v,
            refl,
            record { based = v.based },
          )
        ]

    unknown_packet :
        (sid : List ℕ) (b : TBuf f.Double) (s : S)
        → Is sid s
        → sampletype_at f lib m (place b) ≡ none
        → (s1 : S) × (add_packet f lib alloc host m tankstart b s ≡ some s1)
          × (s1.msl ≡ s.msl)
          × Holds true s1.msr.datasamples
          × Is sid s1
    unfolding add_packet enrich_record note_gap ms_epoch2nstime
    unknown_packet sid b s v e = (
      noted b s,
      rw (e, add_packet) refl,
      refl,
      (place b + trace2_header_size, refl),
      record { based = v.based },
    )

    pub add_packets-collected :
        (sid : List ℕ) (bs : List (TBuf f.Double)) (u : Bool) (s : S)
        → Is sid s
        → Holds u s.msr.datasamples
        → (s1 : S) × (add_packets f lib alloc host m tankstart bs s ≡ some s1)
          × (s1.msl ≡ collected sid bs s.msl)
          × Holds (ends_unknown u bs) s1.msr.datasamples
    unfolding add_packets
    add_packets-collected sid [] u s v d = (s, refl, refl, d)
    add_packets-collected sid (b ∷ bs) u s v d =
        elim (Option-cases (sampletype_at f lib m (place b))) [
          | inl unknown ↦
              let (s1, done, same, holds, v1) = unknown_packet sid b s v unknown in
              let (s2, rest, all, held) = add_packets-collected sid bs true s1 v1 holds in
              (
                s2,
                rw (add_packets, done) rest,
                rw (collected, unknown) (rw same at all),
                rw (ends_unknown, unknown) held,
              )
          | inr (t, known) ↦
              let (s1, done, more, freed, v1) = known_packet sid b s t v known in
              let (s2, rest, all, held) = add_packets-collected sid bs false s1 v1 freed in
              (
                s2,
                rw (add_packets, done) rest,
                rw (collected, known) (rw more at all),
                rw (ends_unknown, known) held,
              )
        ]
