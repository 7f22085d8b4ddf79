-- ===== src/Sac/Extract/Merges.antt =====
-- A whole trace: what its tracebufs merge to by their times, and that the program produces it.
use tank_convertor.Base.{
  ℕ, ◌+◌, ◌%◌, ◌^◌, ◌≤◌, ◌≡◌, ◌∙◌, Bool, true, false, List, [], ◌∷◌, ◌++◌, replicate, pos,
}
use mathlib.Core.List.{append_assoc}
use tank_convertor.Memory.{Mem, Endian}
use tank_convertor.Floating.{Floating}
use tank_convertor.Header.{Numbers, numbers_at}
use tank_convertor.Trace.{TBuf}
use tank_convertor.Sac.Head.{undefined}
use tank_convertor.Sac.Extract.{
  Extract, Round, next, failed, crashed, is_gap, is_duplicate, nfill_of, add_samps,
}
use tank_convertor.Sac.Extract.Added.{Returns, IsPacket, samples_of, add_samps-Added}
use tank_convertor.Sac.Extract.Gaps.{IsReady, Grown-IsReady}

module _ (f : Floating) (host : Endian) (m : Mem) (tankstart : ℕ) where
  -- The place and the numbers of the header of a tracebuf.
  abbrev pub place : TBuf f.Double → ℕ
  place b = (tankstart + b.offset) % 2 ^ 64

  abbrev pub numbers : TBuf f.Double → Numbers f
  numbers b = numbers_at f host m (place b)

  abbrev pub Packet : TBuf f.Double → Type 0
  Packet b = IsPacket f host m (place b) b.size

  -- The words that tracebufs behind one that ends at a time merge to: a tracebuf is left out if it
  -- ends less than a sample interval behind it; its samples come at once if it starts no more than two
  -- sample intervals behind it, and otherwise behind as many undefined samples as the gap is long.
  pub data Merges : f.Double → List (TBuf f.Double) → List f.Single → Type 0 where
    done : {e : f.Double} → Merges e [] []
    repeats :
        {e : f.Double} {b : TBuf f.Double} {bs : List (TBuf f.Double)} {ws : List f.Single}
        → is_gap f e (numbers b).samprate (numbers b).starttime ≡ false
        → is_duplicate f e (numbers b).samprate (numbers b).endtime ≡ true
        → Merges e bs ws
        → Merges e (b ∷ bs) ws
    continues :
        {e : f.Double} {b : TBuf f.Double} {bs : List (TBuf f.Double)} {ws : List f.Single}
        → is_gap f e (numbers b).samprate (numbers b).starttime ≡ false
        → is_duplicate f e (numbers b).samprate (numbers b).endtime ≡ false
        → (v : Packet b) → Merges (numbers b).endtime bs ws
        → Merges e (b ∷ bs) (samples_of v ++ ws)
    resumes :
        {e : f.Double} {b : TBuf f.Double} {bs : List (TBuf f.Double)} {ws : List f.Single} {k : ℕ}
        → is_gap f e (numbers b).samprate (numbers b).starttime ≡ true
        → nfill_of f e (numbers b).samprate (numbers b).starttime ≡ pos k
        → k ≤ 204800
        → (v : Packet b) → Merges (numbers b).endtime bs ws
        → Merges e (b ∷ bs) (replicate k (undefined f) ++ (samples_of v ++ ws))

  -- The sample rate of the last tracebuf.
  abbrev pub last_rate : f.Double → List (TBuf f.Double) → f.Double
  last_rate r [] = r
  last_rate r (b ∷ bs) = last_rate (numbers b).samprate bs

  -- The words `ws` have been added, and the state is as it should be.
  pub record Merged (s s1 : Extract f) (ws : List f.Single) (rate : f.Double) : Type 0 where
    pub words : s1.out.words ≡ s.out.words ++ ws
    pub head : s1.out.head ≡ s.out.head
    pub ready : IsReady s1
    pub samprate_is : s1.samprate ≡ rate

  -- A round that adds `ws` and ends at the end of its tracebuf.
  abbrev pub Step : Extract f → List f.Single → f.Double → f.Double → Extract f → Type 0
  Step s ws endtime rate s1 = Merged s s1 ws rate × (s1.endtime ≡ endtime)

  pub then-Merged :
      (s s1 s2 : Extract f) (ws us : List f.Single) (r rate : f.Double)
      → Merged s s1 ws r
      → Merged s1 s2 us rate
      → Merged s s2 (ws ++ us) rate
  then-Merged s s1 s2 ws us r rate a b = record {
    words = b.words ∙ rw a.words (append_assoc s.out.words ws us);
    head = b.head ∙ a.head;
    ready = b.ready;
    samprate_is = b.samprate_is;
  }

  pub Returns-map :
      {S : Type 0} {P Q : S → Type 0} (r : Round S)
      → ((s : S) → P s → Q s)
      → Returns P r
      → Returns Q r
  Returns-map (next s) g h = g s h
  Returns-map failed g h = h
  Returns-map crashed g h = h

  module _ (alloc : ℕ → Bool) (ok : (i : ℕ) → alloc i ≡ true) where
    pub samples-Step :
        (s : Extract f) (b : TBuf f.Double) (v : Packet b)
        → IsReady s
        → Returns
            (Step s (samples_of v) (numbers b).endtime s.samprate)
            (add_samps f alloc host m (place b) (place b + b.size) (numbers b) s)
    samples-Step s b v ready =
        Returns-map (add_samps f alloc host m (place b) (place b + b.size) (numbers b) s)
          (λ s1 a. (
            record {
              words = a.grown.words;
              head = a.grown.head;
              ready = Grown-IsReady s s1 (samples_of v) ready a.grown;
              samprate_is = a.samprate_is;
            },
            a.endtime_is,
          ))
          (add_samps-Added f alloc ok host m (place b) b.size v (numbers b) v.nsamp s ready.within)
