-- ===== src/Sac/Extract/Run.antt =====
-- The loop over the tracebufs produces what they merge to.
use tank_convertor.Base.{
  ℕ, ◌+◌, ◌^◌, ◌<◌, ◌≡◌, refl, sym, ap, ◌∙◌, Bool, true, false, List, ◌∷◌, ◌++◌, length,
  length-append, replicate, pos, arith, some,
}
use mathlib.Core.List.{append-nil, append_assoc}
use tank_convertor.Memory.{Mem, Endian}
use tank_convertor.Floating.{Floating}
use tank_convertor.Header.{Numbers}
use tank_convertor.Trace.{TBuf}
use tank_convertor.Sac.{SacHead}
use tank_convertor.Sac.Head.{undefined, enrich_sac_starttime}
use tank_convertor.Sac.Extract.{
  Extract, Round, next, failed, crashed, is_gap, is_duplicate, nfill_of, Gap, filled, bogus,
  no_memory, bridge, add_samps, with_rate, first_packet, next_packet, next_packets, extract,
}
use tank_convertor.Sac.Extract.Added.{Returns, samples_of}
use tank_convertor.Sac.Extract.Gaps.{IsReady, Grown-IsReady, Filled, bridge-Filled}
use tank_convertor.Sac.Extract.Merges.{
  place, numbers, Packet, Merges, done, repeats, continues, resumes, last_rate, Merged, Step,
  then-Merged, Returns-map, samples-Step,
}

module _ (f : Floating) (host : Endian) (m : Mem) (tankstart : ℕ) (alloc : ℕ → Bool)
    (ok : (i : ℕ) → alloc i ≡ true) where
  -- The rounds behind one that has added `us`.
  behind :
      (b : TBuf f.Double) (bs : List (TBuf f.Double)) (s : Extract f) (us ws : List f.Single)
      (endtime rate last : f.Double) (r : Round (Extract f))
      → next_packet f alloc host m tankstart b s ≡ r
      → Returns (Step f host m tankstart s us endtime rate) r
      → ((s1 : Extract f)
          → Step f host m tankstart s us endtime rate s1
          → Returns
              (λ s2. Merged f host m tankstart s1 s2 ws last)
              (next_packets f alloc host m tankstart bs s1))
      → Returns
          (λ s2. Merged f host m tankstart s s2 (us ++ ws) last)
          (next_packets f alloc host m tankstart (b ∷ bs) s)
  unfolding next_packets
  behind b bs s us ws endtime rate last (next s1) e h rest =
      rw (e, next_packets)
        (Returns-map f host m tankstart (next_packets f alloc host m tankstart bs s1)
          (λ s2 x. then-Merged f host m tankstart s s1 s2 us ws rate last h.0 x) (rest s1 h))
  behind b bs s us ws endtime rate last failed e h rest = absurd h
  behind b bs s us ws endtime rate last crashed e h rest = absurd h

  -- Filling, and then the samples.
  bridged :
      (b : TBuf f.Double) (s : Extract f) (k : ℕ) (v : Packet f host m tankstart b)
      → IsReady s
      → (g : Gap f) → Filled f s k g
      → Returns
          (Step f host m tankstart s
            (replicate k (undefined f) ++ samples_of v)
            (numbers f host m tankstart b).endtime
            s.samprate)
          (elim g [
            | filled s2 ↦
                add_samps f alloc host m
                  (place f host m tankstart b)
                  (place f host m tankstart b + b.size)
                  (numbers f host m tankstart b)
                  s2
            | bogus ↦ next s
            | no_memory ↦ failed
          ])
  bridged b s k v ready (filled s2) h =
      let ready2 = Grown-IsReady s s2 (replicate k (undefined f)) ready h.0 in
      let filling : Merged f host m tankstart s s2 (replicate k (undefined f)) s.samprate = record {
        words = h.0.words;
        head = h.0.head;
        ready = ready2;
        samprate_is = h.2;
      } in
      Returns-map f host m tankstart
        (add_samps f alloc host m (place f host m tankstart b) (place f host m tankstart b + b.size)
          (numbers f host m tankstart b) s2)
        (λ s3 x. (
          then-Merged f host m tankstart s s2 s3 (replicate k (undefined f)) (samples_of v)
              s.samprate s.samprate filling
              (record {
                words = x.0.words;
                head = x.0.head;
                ready = x.0.ready;
                samprate_is = x.0.samprate_is ∙ h.2;
              }),
          x.1,
        ))
        (samples-Step f host m tankstart alloc ok s2 b v ready2)
  bridged b s k v ready bogus h = absurd h
  bridged b s k v ready no_memory h = absurd h

  -- Setting the sample rate changes nothing else.
  rated :
      (h : Numbers f) (s : Extract f) → IsReady s → IsReady (with_rate f alloc host m tankstart h s)
  rated h s v = record { within = v.within; large = v.large; tight = v.tight; aligned = v.aligned }

  from_rated :
      (h : Numbers f) (s s1 : Extract f) (ws : List f.Single) (rate : f.Double)
      → Merged f host m tankstart (with_rate f alloc host m tankstart h s) s1 ws rate
      → Merged f host m tankstart s s1 ws rate
  from_rated h s s1 ws rate v = record {
    words = v.words;
    head = v.head;
    ready = v.ready;
    samprate_is = v.samprate_is;
  }

  rated_Step :
      (b : TBuf f.Double) (s : Extract f) (us : List f.Single) (r : Round (Extract f))
      → Returns
          (Step f host m tankstart
            (with_rate f alloc host m tankstart (numbers f host m tankstart b) s)
            us
            (numbers f host m tankstart b).endtime
            (numbers f host m tankstart b).samprate)
          r
      → Returns
          (Step f host m tankstart s us
            (numbers f host m tankstart b).endtime
            (numbers f host m tankstart b).samprate)
          r
  rated_Step b s us r h =
      Returns-map f host m tankstart r
        (λ s1 x. (from_rated (numbers f host m tankstart b) s s1 us _ x.0, x.1)) h

  pub next_packets-Merged :
      {e : f.Double} (bs : List (TBuf f.Double)) (ws : List f.Single) (s : Extract f)
      (rate : f.Double)
      → Merges f host m tankstart e bs ws
      → s.endtime ≡ e
      → s.samprate ≡ rate
      → IsReady s
      → length s.out.words + length ws < 2 ^ 59
      → Returns
          (λ s1. Merged f host m tankstart s s1 ws (last_rate f host m tankstart rate bs))
          (next_packets f alloc host m tankstart bs s)
  unfolding next_packets next_packet
  next_packets-Merged bs ws s rate done same rated_at ready few = record {
    words = sym (append-nil s.out.words);
    head = refl;
    ready = ready;
    samprate_is = rated_at;
  }
  next_packets-Merged bs ws s rate (repeats {b = b} {bs = rest} near again more) same rated_at ready
        few =
      let h = numbers f host m tankstart b in
      let s' = with_rate f alloc host m tankstart h s in
      let near' : is_gap f s.endtime h.samprate h.starttime ≡ false = rw same near in
      let again' : is_duplicate f s.endtime h.samprate h.endtime ≡ true = rw same again in
      rw (near', again', next_packet, next_packets)
        (Returns-map f host m tankstart (next_packets f alloc host m tankstart rest s')
          (λ s1 x. from_rated h s s1 ws _ x)
          (next_packets-Merged rest ws s' h.samprate more same refl (rated h s ready) few))
  next_packets-Merged bs ws s rate (continues {b = b} {bs = rest} {ws = us} near new v more) same
        rated_at ready few =
      let h = numbers f host m tankstart b in
      let s' = with_rate f alloc host m tankstart h s in
      let near' : is_gap f s.endtime h.samprate h.starttime ≡ false = rw same near in
      let new' : is_duplicate f s.endtime h.samprate h.endtime ≡ false = rw same new in
      let len = length-append (samples_of v) us in
      behind b rest s (samples_of v) us h.endtime h.samprate _ _ refl
        (rw (near', new', next_packet)
          (rated_Step b s (samples_of v) _
            (samples-Step f host m tankstart alloc ok s' b v (rated h s ready))))
        (λ s1 x.
          next_packets-Merged rest us s1 h.samprate more x.1 x.0.samprate_is x.0.ready
            (omega (arith, len, ap length x.0.words, length-append s.out.words (samples_of v))))
  next_packets-Merged bs ws s rate
        (resumes {b = b} {bs = rest} {ws = us} {k = k} far long short v more) same rated_at ready
        few =
      let h = numbers f host m tankstart b in
      let s' = with_rate f alloc host m tankstart h s in
      let far' : is_gap f s.endtime h.samprate h.starttime ≡ true = rw same far in
      let long' : nfill_of f s.endtime h.samprate h.starttime ≡ pos k = rw same long in
      let added = replicate k (undefined f) ++ samples_of v in
      let len = length-append added us in
      let assoc = append_assoc (replicate k (undefined f)) (samples_of v) us in
      rw (← assoc) (
        behind b rest s added us h.endtime h.samprate _ _ refl
          (rw (far', long', next_packet)
            (rated_Step b s added _ (
              bridged b s' k v (rated h s ready) (bridge f alloc (pos k) s')
                (bridge-Filled f alloc ok k s' (rated h s ready) short (omega arith)))))
          (λ s1 x. next_packets-Merged rest us s1 h.samprate more x.1 x.0.samprate_is x.0.ready (
            omega
              (arith, len, ap length assoc, ap length x.0.words, length-append s.out.words added))))

  -- From the first tracebuf on, whose start goes to the header.
  pub extract-Merged :
      (b : TBuf f.Double) (bs : List (TBuf f.Double)) (ws : List f.Single) (s : Extract f)
      (head : SacHead f.Single) (v : Packet f host m tankstart b)
      → enrich_sac_starttime f (numbers f host m tankstart b).starttime s.out.head ≡ some head
      → Merges f host m tankstart (numbers f host m tankstart b).endtime bs ws
      → IsReady s
      → length s.out.words + length (samples_of v ++ ws) < 2 ^ 59
      → Returns
          (λ s1.
            Merged f host m tankstart
              (record s { out = record (s.out) { head = head } })
              s1
              (samples_of v ++ ws)
              (last_rate f host m tankstart s.samprate (b ∷ bs)))
          (extract f alloc host m tankstart (b ∷ bs) s)
  unfolding extract first_packet
  extract-Merged b bs ws s head v started more ready few =
      let h = numbers f host m tankstart b in
      let s0 : Extract f = record s { out = record (s.out) { head = head } } in
      let ready0 : IsReady s0 = record {
        within = ready.within;
        large = ready.large;
        tight = ready.tight;
        aligned = ready.aligned;
      } in
      let len = length-append (samples_of v) ws in
      rw (started, extract, first_packet)
        (onward b bs s0 ws v _
          (rated_Step b s0 (samples_of v) _ (
            samples-Step f host m tankstart alloc ok (with_rate f alloc host m tankstart h s0) b v
              (rated h s0 ready0)))
          (λ s1 x.
            next_packets-Merged bs ws s1 h.samprate more x.1 x.0.samprate_is x.0.ready
              (omega (arith, len, ap length x.0.words, length-append s.out.words (samples_of v)))))
    where
      onward :
          (b : TBuf f.Double) (bs : List (TBuf f.Double)) (s : Extract f) (ws : List f.Single)
          (v : Packet f host m tankstart b) (r : Round (Extract f))
          → Returns
              (Step f host m tankstart s
                (samples_of v)
                (numbers f host m tankstart b).endtime
                (numbers f host m tankstart b).samprate)
              r
          → ((s1 : Extract f)
              → Step f host m tankstart s
                  (samples_of v)
                  (numbers f host m tankstart b).endtime
                  (numbers f host m tankstart b).samprate
                  s1
              → Returns
                  (λ s2.
                    Merged f host m tankstart s1 s2 ws
                      (last_rate f host m tankstart (numbers f host m tankstart b).samprate bs))
                  (next_packets f alloc host m tankstart bs s1))
          → Returns
              (λ s2.
                Merged f host m tankstart s s2
                  (samples_of v ++ ws)
                  (last_rate f host m tankstart (numbers f host m tankstart b).samprate bs))
              (elim r [
                | next s1 ↦ next_packets f alloc host m tankstart bs s1
                | failed ↦ failed
                | crashed ↦ crashed
              ])
      onward b bs s ws v (next s1) x rest =
          Returns-map f host m tankstart (next_packets f alloc host m tankstart bs s1)
            (λ s2 y. then-Merged f host m tankstart s s1 s2 (samples_of v) ws _ _ x.0 y) (rest s1 x)
      onward b bs s ws v failed x rest = absurd x
      onward b bs s ws v crashed x rest = absurd x
