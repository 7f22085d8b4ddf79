-- ===== src/Scan/Record.antt =====
-- The end of a round of the loop: the tracebuf is recorded in the list of its trace.
use tank_convertor.Base.{
  ℕ, suc, ◌+◌, ◌*◌, ◌%◌, ◌^◌, ◌≤◌, ◌<◌, ◌≡◌, refl, sym, ◌∙◌, ◌-◌, replicate, Bool, true, false,
  Bool-cases, inl, inr, if◌then◌else◌, ltb, lt→ltb, leb, some, List, [], ◌∷◌, ◌++◌, length,
  get_elem?, set, set-set, take, take-append, take-take, take-set, take-set_same, ◌&&◌,
  length-append, length-set, length-replicate, length-take, ℤ, pos, ◌*ℤ◌, size_of_int, arith,
}
use mathlib.Core.List.{append-nil}
use tank_convertor.Floating.{Floating}
use tank_convertor.Header.{Numbers}
use tank_convertor.Trace.{TBuf, Scnl, TraceNode}
use tank_convertor.Scan.{
  State, is_zero, again, zero_tbuf, new_node, realloc_tlist, grow, keep_packet, record_packet,
}
use tank_convertor.Scan.Invariant.{IsNode, Ends}

-- The size that is recorded for a tracebuf.
abbrev pub size_of : (width : ℕ) → ℤ → ℕ
size_of width nsamp = (size_of_int (pos width *ℤ nsamp) + 64) % 2 ^ 64

-- The record of a tracebuf: where it begins, behind the start of the tank.
abbrev pub entry_of : {D : Type 0} (tankstart tankbyte size : ℕ) → D → TBuf D
entry_of tankstart tankbyte size time = record {
  offset = (tankbyte + 2 ^ 64 - tankstart) % 2 ^ 64;
  size = size;
  time = time;
}

-- The tracebufs of a trace: the part of the list that is in use.
abbrev pub packets_of : {D : Type 0} → TraceNode D → List (TBuf D)
packets_of t = take t.ntbuf t.tlist

not_kept : (rc : ℤ) (size : ℕ) → ltb 4096 size ≡ true → (is_zero rc && leb size 4096) ≡ false
not_kept rc size h = ground arith

kept_if_zero :
    (rc : ℤ) (size : ℕ) → ltb 4096 size ≡ false → (is_zero rc && leb size 4096) ≡ is_zero rc
kept_if_zero rc size h = ground arith

module _ (f : Floating) where
  pub new_node-IsNode : (k : Scnl) → IsNode (new_node f k)
  unfolding new_node
  new_node-IsNode k = record { room = omega arith; full = length-replicate 4096 (zero_tbuf f) }

  length-realloc_tlist :
      (n : ℕ) (l : List (TBuf f.Double)) → length l ≤ n → length (realloc_tlist f n l) ≡ n
  unfolding realloc_tlist
  length-realloc_tlist n l h = omega (
    arith,
    length-append (take n l) (replicate (n - length l) (zero_tbuf f)),
    length-take n l,
    length-replicate (n - length l) (zero_tbuf f),
  )

  take-realloc_tlist :
      (n k : ℕ) (l : List (TBuf f.Double))
      → k ≤ n
      → k ≤ length l
      → take k (realloc_tlist f n l) ≡ take k l
  unfolding realloc_tlist
  take-realloc_tlist n k l h g =
      take-append k (take n l) (replicate (n - length l) (zero_tbuf f))
        (omega (arith, length-take n l))
      ∙ take-take k n l h

  -- `s1` is `s` with the node at `p` written anew: its key is kept, it has room again, and the
  -- tracebufs `more` are added to those in use.
  pub record IsRecorded (s s1 : State f.Double) (p : ℕ) (t : TraceNode f.Double)
      (more : List (TBuf f.Double)) : Type 0 where
    pub written : TraceNode f.Double
    pub nodes : s1.nodes ≡ set s.nodes p written
    pub root : s1.root ≡ s.root
    pub total : s1.totaltrace ≡ s.totaltrace
    pub key : written.scnl ≡ t.scnl
    pub fits : IsNode written
    pub packets : packets_of written ≡ packets_of t ++ more

  module _ (alloc : ℕ → Bool) where
    grow-IsRecorded :
        (p : ℕ) (t t2 : TraceNode f.Double) (s s2 : State f.Double) (more : List (TBuf f.Double))
        → s2.nodes ≡ set s.nodes p t2
        → s2.root ≡ s.root
        → s2.totaltrace ≡ s.totaltrace
        → t2.scnl ≡ t.scnl
        → t2.ntbuf ≤ t2.maxtbuf
        → 0 < t2.maxtbuf
        → t2.maxtbuf < 2 ^ 31
        → length t2.tlist ≡ t2.maxtbuf
        → packets_of t2 ≡ packets_of t ++ more
        → Ends (λ s1. IsRecorded s s1 p t more) (grow f alloc p t2 s2)
    unfolding grow
    grow-IsRecorded p t t2 s s2 more e1 e2 e3 key used pos_max small full pk =
        elim (Bool-cases (alloc s2.allocs)) [
          | inr out ↦ rw out tt
          | inl ok ↦
              let n = t2.maxtbuf * 2 % 2 ^ 32 in
              rw ok (record {
                written = record t2 { maxtbuf = n; tlist = realloc_tlist f n t2.tlist };
                nodes = rw e1 (set-set s.nodes p t2 _);
                root = e2;
                total = e3;
                key = key;
                fits = record {
                  room = omega arith;
                  full = length-realloc_tlist n t2.tlist (omega arith);
                };
                packets = take-realloc_tlist n t2.ntbuf t2.tlist (omega arith) (omega arith) ∙ pk;
              })
        ]

    -- The end of a round, after the number of tracebufs in use has been settled.
    settled-IsRecorded :
        (p : ℕ) (t t2 : TraceNode f.Double) (s s2 : State f.Double) (more : List (TBuf f.Double))
        → s2.nodes ≡ set s.nodes p t2
        → s2.root ≡ s.root
        → s2.totaltrace ≡ s.totaltrace
        → t2.scnl ≡ t.scnl
        → t2.ntbuf ≤ t2.maxtbuf
        → 0 < t2.maxtbuf
        → t2.maxtbuf < 2 ^ 31
        → length t2.tlist ≡ t2.maxtbuf
        → packets_of t2 ≡ packets_of t ++ more
        → Ends
            (λ s1. IsRecorded s s1 p t more)
            (if leb t2.maxtbuf t2.ntbuf then grow f alloc p t2 s2 else again s2)
    settled-IsRecorded p t t2 s s2 more e1 e2 e3 key used pos_max small full pk =
        elim (Bool-cases (leb t2.maxtbuf t2.ntbuf)) [
          | inl whole ↦
              rw whole (grow-IsRecorded p t t2 s s2 more e1 e2 e3 key used pos_max small full pk)
          | inr room ↦ rw room (record {
            written = t2;
            nodes = e1;
            root = e2;
            total = e3;
            key = key;
            fits = record { room = ground arith; full = full };
            packets = pk;
          })
        ]

    keep_packet-IsRecorded :
        (rc : ℤ) (p : ℕ) (t : TraceNode f.Double) (s s1 : State f.Double) (b : TBuf f.Double)
        → s1.nodes ≡ set s.nodes p (record t { tlist = set t.tlist t.ntbuf b })
        → s1.root ≡ s.root
        → s1.totaltrace ≡ s.totaltrace
        → IsNode t
        → t.maxtbuf < 2 ^ 31
        → Ends
            (λ s2. IsRecorded s s2 p t (if is_zero rc then b ∷ [] else []))
            (keep_packet f alloc rc p (record t { tlist = set t.tlist t.ntbuf b }) s1)
    unfolding keep_packet
    keep_packet-IsRecorded rc p t s s1 b e1 e2 e3 v small =
        let len = length-set t.tlist t.ntbuf b in
        let room : t.ntbuf < length t.tlist = omega (arith, v.room, v.full) in
        elim (Bool-cases (is_zero rc)) [
          | inl kept ↦
              let next : (t.ntbuf + 1) % 2 ^ 32 ≡ suc t.ntbuf = omega (arith, v.room) in
              rw (kept, next)
                (settled-IsRecorded p t _ s _ (b ∷ []) (rw e1 (set-set s.nodes p _ _)) e2 e3 refl
                  (omega (arith, v.room)) (omega (arith, v.room)) small (len ∙ v.full)
                  (take-set t.ntbuf t.tlist b room))
          | inr dropped ↦ rw dropped (
              settled-IsRecorded p t _ s _ [] (rw e1 (set-set s.nodes p _ _)) e2 e3 refl
                (omega (arith, v.room)) (omega (arith, v.room)) small (len ∙ v.full)
                (take-set_same t.ntbuf t.tlist b ∙ sym (append-nil (packets_of t))))
        ]

    -- A packet is added to the list of its trace exactly when its code is 0 and it is no longer than
    -- the maximum.
    pub record_packet-IsRecorded :
        (tankstart : ℕ) (rc : ℤ) (width : ℕ) (h : Numbers f) (p : ℕ) (s : State f.Double)
        (t : TraceNode f.Double)
        → get_elem? s.nodes p ≡ some t
        → IsNode t
        → t.maxtbuf < 2 ^ 31
        → (let size = size_of width h.nsamp in
            let b = entry_of tankstart s.tankbyte size h.endtime in
            Ends
              (λ s1. IsRecorded s s1 p t (if is_zero rc && leb size 4096 then b ∷ [] else []))
              (record_packet f alloc tankstart rc width h p s))
    unfolding record_packet
    record_packet-IsRecorded tankstart rc width h p s t e v small =
        let size = size_of width h.nsamp in
        let b = entry_of tankstart s.tankbyte size h.endtime in
        let len = length-set t.tlist t.ntbuf b in
        let room = lt→ltb t.ntbuf (length t.tlist) (omega (arith, v.room, v.full)) in
        rw (e, record_packet, room)
          (elim (Bool-cases (ltb 4096 size)) [
            | inl large ↦
                rw (large, not_kept rc size large)
                  (record {
                    written = record t { tlist = set t.tlist t.ntbuf b };
                    nodes = refl;
                    root = refl;
                    total = refl;
                    key = refl;
                    fits = record { room = v.room; full = len ∙ v.full };
                    packets = take-set_same t.ntbuf t.tlist b ∙ sym (append-nil (packets_of t));
                  })
            | inr fits ↦
                rw (fits, kept_if_zero rc size fits)
                  (keep_packet-IsRecorded rc p t s _ b refl refl refl v small)
          ])
