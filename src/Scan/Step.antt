-- ===== src/Scan/Step.antt =====
-- One round of the loop of scan_tracebuf, against the tracebufs of the traces.
use tank_convertor.Base.{
  ℕ, zero, suc, ◌+◌, ◌<◌, ◌≡◌, refl, sym, ap, ◌∙◌, Bool, true, false, ◌&&◌, leb, ltb, Bool-cases,
  inl, inr, if◌then◌else◌, Option, none, some, List, [], ◌∷◌, ◌++◌, length, get_elem?-some,
  All-get_elem?, Ordering, ◌^◌, ℤ, pos, negsuc,
}
use mathlib.Core.List.{append-nil}
use tank_convertor.Floating.{Floating}
use tank_convertor.Memory.{Endian}
use tank_convertor.Header.{Numbers, numbers_at, datatype_at}
use tank_convertor.Libc.Strings.{atoi}
use tank_convertor.Libc.Search.Order.{tfind-Every}
use tank_convertor.Swap.MakeLocal.{swap_wavemsg2_makelocal}
use tank_convertor.Trace.{TBuf, Scnl, TraceNode, compare_scnl}
use tank_convertor.Trace.Order.{compare_scnl-IsComparison}
use tank_convertor.Scan.{
  State, Outcome, again, stop, failed, crashed, is_zero, key_of, Located, found, no_memory, no_list,
  locate, scnl_at, record_packet, fetch, skip_byte, dispatch, scan_step,
}
use tank_convertor.Scan.Invariant.{IsNode, IsState, IsSmall, Ends}
use tank_convertor.Scan.Record.{entry_of, size_of, record_packet-IsRecorded}
use tank_convertor.Scan.Locate.{view, IsLocated, Finds, if_equal, locate-IsLocated}
use tank_convertor.Scan.View.{view-recorded, recorded-IsState}

-- What a round reads that is kept: the trace and the record of a tracebuf that is accepted and no
-- longer than the maximum.
abbrev pub read_packet :
    (f : Floating) → Endian → (tankstart : ℕ) → State f.Double → Option (Scnl × TBuf f.Double)
read_packet f host tankstart s =
    let r = swap_wavemsg2_makelocal f host s.host_byte_order s.tankbyte s.mem in
    let h = numbers_at f host r.mem s.tankbyte in
    let size = size_of (atoi r.mem (datatype_at s.tankbyte + 1)) h.nsamp in
    if is_zero r.rc && leb size 4096
    then some (scnl_at r.mem s.tankbyte, entry_of tankstart s.tankbyte size h.endtime)
    else none

-- The part of it that belongs to the trace `k`.
abbrev pub of_trace : {D : Type 0} → Scnl → Option (Scnl × TBuf D) → List (TBuf D)
of_trace k none = []
of_trace k (some (j, b)) = if_equal (compare_scnl k j) (b ∷ []) []

-- `s1` is a well-formed state in which each trace has its tracebufs of `s` and those of `more`.
pub record HasMore {D : Type 0} (s s1 : State D) (more : Scnl → List (TBuf D)) : Type 0 where
  pub state : IsState s1
  pub traces : (k : Scnl) → view s1 k ≡ view s k ++ more k

Ends-mono :
    {D : Type 0} {P Q : State D → Type 0} (o : Outcome D)
    → ((s : State D) → P s → Q s)
    → Ends P o
    → Ends Q o
Ends-mono (again s) h e = h s e
Ends-mono (stop s) h e = h s e
Ends-mono failed h e = tt
Ends-mono crashed h e = tt

if_equal-nil : {A : Type 0} (o : Ordering) → ◌≡◌ {A = List A} (if_equal o [] []) []
if_equal-nil Ordering.lt = refl
if_equal-nil Ordering.eq = refl
if_equal-nil Ordering.gt = refl

-- A state with the same nodes, tree and count is as well formed.
pub same_traces :
    {D : Type 0} (s s1 : State D)
    → IsState s
    → s1.nodes ≡ s.nodes
    → s1.root ≡ s.root
    → s1.totaltrace ≡ s.totaltrace
    → IsState s1
same_traces s s1 v e1 e2 e3 = record {
  search = rw (e1, e2) v.search;
  inside = rw (e1, e2) v.inside;
  count = rw (e1, e2) v.count;
  total = rw (e1, e3) v.total;
  each = rw e1 v.each;
}

-- A round that reads no tracebuf.
unread :
    {D : Type 0} (s s1 : State D)
    → IsState s1
    → ((j : Scnl) → view s1 j ≡ view s j)
    → HasMore s s1 (λ j. [])
unread s s1 v h = record { state = v; traces = λ j. h j ∙ sym (append-nil (view s j)) }

-- A tracebuf that is kept or not, seen from a trace.
of_trace-if :
    {D : Type 0} (k j : Scnl) (b : TBuf D) (c : Bool)
    → if_equal (compare_scnl k j) (if c then b ∷ [] else []) []
      ≡ of_trace k (if c then some (j, b) else none)
of_trace-if k j b true = refl
of_trace-if k j b false = if_equal-nil (compare_scnl k j)

module _ (f : Floating) (alloc : ℕ → Bool) (tankstart : ℕ) where
  -- What `fetch` keeps of the tracebuf at the pointer.
  abbrev fetched : Endian → ℤ → State f.Double → Option (Scnl × TBuf f.Double)
  fetched host rc s =
      let h = numbers_at f host s.mem s.tankbyte in
      let size = size_of (atoi s.mem (datatype_at s.tankbyte + 1)) h.nsamp in
      if is_zero rc && leb size 4096
      then some (scnl_at s.mem s.tankbyte, entry_of tankstart s.tankbyte size h.endtime)
      else none

  record_packet-HasMore :
      (rc : ℤ) (width : ℕ) (h : Numbers f) (k : Scnl) (p : ℕ) (s s1 : State f.Double)
      → IsLocated s s1 k p
      → (let size = size_of width h.nsamp in
          Ends
            (λ s2. HasMore s s2 (λ j. of_trace j (
              if is_zero rc && leb size 4096
              then some (k, entry_of tankstart s.tankbyte size h.endtime)
              else none)))
            (record_packet f alloc tankstart rc width h p s1))
  record_packet-HasMore rc width h k p s s1 l =
      let within : p < length s1.nodes =
        tfind-Every compare_scnl (key_of s1.nodes) compare_scnl-IsComparison
          (λ q. q < length s1.nodes) k s1.root p l.state.inside l.at in
      let (t, e) = get_elem?-some s1.nodes p within in
      let v : IsNode t = All-get_elem? IsNode s1.nodes p t l.state.each e in
      let small : t.maxtbuf < 2 ^ 31 =
        All-get_elem? (λ (n : TraceNode f.Double). n.maxtbuf < 2 ^ 31) s1.nodes p t l.small e in
      Ends-mono (record_packet f alloc tankstart rc width h p s1)
        (λ s2 r. record {
          state = recorded-IsState f s1 s2 k p t _ l.state e l.at r;
          traces = λ j.
              view-recorded f s1 s2 k p t _ l.state e l.at r j
              ∙ rw (l.same j, l.tankbyte)
                  (ap (λ (m : List (TBuf f.Double)). view s j ++ m) (of_trace-if j k _ _));
        })
        (record_packet-IsRecorded f alloc tankstart rc width h p s1 t e v small)

  module _ (host : Endian) (tankend : ℕ) where
    located-HasMore :
        (rc : ℤ) (s : State f.Double) (lo : Located f.Double)
        → locate f alloc (scnl_at s.mem s.tankbyte) s ≡ lo
        → Finds (λ p s1. IsLocated s s1 (scnl_at s.mem s.tankbyte) p) lo
        → Ends
            (λ s1. HasMore s s1 (λ j. of_trace j (fetched host rc s)))
            (fetch f alloc tankstart host tankend rc s)
    unfolding fetch
    located-HasMore rc s (found p s1) e l =
        rw (e, fetch)
          (record_packet-HasMore rc (atoi s.mem (datatype_at s.tankbyte + 1))
            (numbers_at f host s.mem s.tankbyte) (scnl_at s.mem s.tankbyte) p s s1 l)
    located-HasMore rc s no_memory e l = rw (e, fetch) tt
    located-HasMore rc s no_list e l = rw (e, fetch) tt

    fetch-HasMore :
        (rc : ℤ) (s : State f.Double)
        → IsState s
        → IsSmall s
        → Ends
            (λ s1. HasMore s s1 (λ j. of_trace j (fetched host rc s)))
            (fetch f alloc tankstart host tankend rc s)
    fetch-HasMore rc s v small =
        located-HasMore rc s _ refl (locate-IsLocated f alloc (scnl_at s.mem s.tankbyte) s v small)

    -- The state with which a round goes on after the conversion.
    abbrev converted_state : State f.Double → State f.Double
    converted_state s =
        let r = swap_wavemsg2_makelocal f host s.host_byte_order s.tankbyte s.mem in
        record s { host_byte_order = r.host_byte_order; mem = r.mem }

    dispatch-HasMore :
        (rc : ℤ) (s : State f.Double)
        → IsState s
        → IsSmall s
        → Ends
            (λ s1. HasMore s s1 (λ j. of_trace j (fetched host rc s)))
            (dispatch f alloc tankstart host tankend rc s)
    unfolding dispatch skip_byte view
    dispatch-HasMore (negsuc zero) s v small = elim (Bool-cases (ltb (s.tankbyte + 1) tankend)) [
      | inl more ↦ rw more (unread s _ (same_traces s _ v refl refl refl) (λ j. refl))
      | inr over ↦ rw over (unread s _ (same_traces s _ v refl refl refl) (λ j. refl))
    ]
    dispatch-HasMore (negsuc (suc n)) s v small = fetch-HasMore (negsuc (suc n)) s v small
    dispatch-HasMore (pos n) s v small =
        let s' : State f.Double = record s { skipbyte = 0 } in
        Ends-mono (fetch f alloc tankstart host tankend (pos n) s')
          (λ s1 h. record { state = h.state; traces = h.traces })
          (fetch-HasMore (pos n) s' (same_traces s s' v refl refl refl) small)

    -- From a well-formed state whose lists have fewer than 2 ^ 31 elements, a round that ends in a
    -- state has added to the traces exactly the tracebuf that it has read, if it is accepted and not
    -- too large, at the end of the list of its own trace, and has kept the state well formed.
    pub scan_step-HasMore :
        (s : State f.Double)
        → IsState s
        → IsSmall s
        → Ends
            (λ s1. HasMore s s1 (λ k. of_trace k (read_packet f host tankstart s)))
            (scan_step f alloc tankstart host tankend s)
    unfolding scan_step view
    scan_step-HasMore s v small =
        let s' = converted_state s in
        let rc = (swap_wavemsg2_makelocal f host s.host_byte_order s.tankbyte s.mem).rc in
        Ends-mono (dispatch f alloc tankstart host tankend rc s')
          (λ s1 h. record { state = h.state; traces = h.traces })
          (dispatch-HasMore rc s' (same_traces s s' v refl refl refl) small)
