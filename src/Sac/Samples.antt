-- ===== src/Sac/Samples.antt =====
-- src/sacproc.c: enrich_sac_samps and realloc_outbuf, on the buffer that becomes the SAC file.
pub mod Copy
use tank_convertor.Base.{
  ℕ, zero, suc, ◌+◌, ◌-◌, ◌*◌, ◌%◌, ◌^◌, ◌||◌, Bool, true, false, ◌==◌, ltb, if◌then◌else◌, Option,
  none, some, List, [], ◌∷◌, ◌++◌, length,
}
use tank_convertor.Memory.{Mem, Endian, read_i16, read_i32, read_u32, read_u64}
use tank_convertor.Floating.{Floating}
use tank_convertor.Header.{datatype_at}
use tank_convertor.Libc.Strings.{atoi}
use tank_convertor.Sac.{SacHead, sacheadersize, sacword_size}

-- The output buffer: the header, and room for `capacity` samples, of which `words` are those in front
-- of the pointer `seis`, which only moves forward.
pub record OutBuf (F : Type 0) : Type 0 where
  pub head : SacHead F
  pub words : List F
  pub capacity : ℕ

-- `buffersiz`
abbrev pub buffersiz : {F : Type 0} → OutBuf F → ℕ
buffersiz o = sacheadersize + o.capacity * sacword_size

-- The samples between `seis` and `outbufend`.
abbrev pub room : {F : Type 0} → OutBuf F → ℕ
room o = o.capacity - length o.words

-- `*bufsize += (MAX_NUM_TBUF * 0.5) * 100 * sizeof(SACWORD);`
unfoldable pub enlarge : {F : Type 0} → OutBuf F → OutBuf F
enlarge o = record o { capacity = o.capacity + 2048 * 100 }

module _ {F : Type 0} (read : ℕ → F) (width : ℕ) where
  -- `for ( ; src < srcend && seis < bufend; seis++, src++ ) *seis = *src;` for `left` samples of room:
  -- what it writes, and where it stops.
  unfoldable pub copy_samps : (left src srcend : ℕ) → List F × ℕ
  copy_samps zero src srcend = ([], src)
  copy_samps (suc left) src srcend =
      let rest = copy_samps left (src + width) srcend in
      if ltb src srcend then (read src ∷ rest.0, rest.1) else ([], src)

-- How a sample is read, and its width.
pub record Reader (F : Type 0) : Type 0 where
  pub read : ℕ → F
  pub width : ℕ

module _ (f : Floating) (host : Endian) (m : Mem) where
  -- The branches on the data type of the header at `p`; `none` is a `return -1`.
  unfoldable pub reader_at : ℕ → Option (Reader f.Single)
  reader_at p =
      let byte_order = m (datatype_at p) in
      let byte_per_sample = atoi m (datatype_at p + 1) in
      if byte_order == b'i' || byte_order == b's'
      then if byte_per_sample == 4
        then some (record { read = λ a. f.single_of_int (read_i32 host m a); width = 4 })
        else if byte_per_sample == 2
        then some (record { read = λ a. f.single_of_int (read_i16 host m a); width = 2 })
        else none
      else if byte_order == b'f' || byte_order == b't'
      then if byte_per_sample == 4
        then some (record { read = λ a. f.single_of_bits (read_u32 host m a); width = 4 })
        else if byte_per_sample == 8
        then some (record {
          read = λ a. f.single_of_double (f.double_of_bits (read_u64 host m a));
          width = 8;
        })
        else none
      else none

  -- The buffer and the pointer to the samples that are left; `none` is the result -1.
  unfoldable pub enrich_sac_samps :
      (p srcptr srcend : ℕ) → OutBuf f.Single → Option (OutBuf f.Single × ℕ)
  enrich_sac_samps p srcptr srcend o = elim (reader_at p) [
    | none ↦ none
    | some r ↦
        let copied = copy_samps r.read r.width (room o) srcptr srcend in
        some (record o { words = o.words ++ copied.0 }, copied.1)
  ]
