-- ===== src/Sac/Output/File.antt =====
-- write_sac_file on a buffer whose words are all counted: the file is the header and the words.
use tank_convertor.Base.{
  ℕ, ◌+◌, ◌-◌, ◌*◌, ◌/◌, ◌%◌, ◌^◌, ◌≤◌, ◌<◌, ◌≡◌, refl, sym, ap, ◌∙◌, true, false, ltb, some, List,
  [], ◌∷◌, ◌++◌, length, length-append, get_elem?, get_elem?-middle, get_or, pos, size_of_int,
  arith,
}
use mathlib.Core.List.{append_assoc}
use tank_convertor.Floating.{Floating}
use tank_convertor.Sac.Layout.{npts_field, int_at}
use tank_convertor.Sac.Samples.{OutBuf, buffersiz}
use tank_convertor.Sac.Output.{
  System, written, buffer_word, buffer_words, totalbyte, write_sac_file,
}

module _ {A : Type 0} (cleared : ℕ) (zero_word : A) (fresh : ℕ → A) where
  word_at :
      (ws : List A) (i : ℕ) (v : A)
      → get_elem? ws i ≡ some v
      → buffer_word ws cleared zero_word fresh i ≡ v
  unfolding buffer_word
  word_at ws i v e = rw (e, buffer_word) refl

  buffer_words-suffix :
      (all xs ys : List A)
      → all ≡ xs ++ ys
      → buffer_words (buffer_word all cleared zero_word fresh) (length ys) (length xs) ≡ ys
  unfolding buffer_words
  buffer_words-suffix all xs [] e = refl
  buffer_words-suffix all xs (y ∷ ys) e =
      let here : get_elem? all (length xs) ≡ some y = rw e (get_elem?-middle xs y ys) in
      let next : length (xs ++ y ∷ []) ≡ length xs + 1 = length-append xs (y ∷ []) in
      let rest =
        buffer_words-suffix all (xs ++ y ∷ []) ys (e ∙ sym (append_assoc xs (y ∷ []) ys)) in
      ap
        (λ (v : A).
          v ∷ buffer_words (buffer_word all cleared zero_word fresh) (length ys) (length xs + 1))
        (word_at all (length xs) y here)
      ∙ ap (λ (l : List A). y ∷ l) (rw next at rest)

  -- The words in front of the pointer are what has been written.
  pub buffer_words-all :
      (ws : List A) → buffer_words (buffer_word ws cleared zero_word fresh) (length ws) 0 ≡ ws
  buffer_words-all ws = buffer_words-suffix ws [] ws refl

module _ (f : Floating) (os : System f.Single) where
  -- If the header counts the words of the buffer, and the file can be written, it holds the header and
  -- these words.
  pub write_sac_file-written :
      (cleared : ℕ) (o : OutBuf f.Single) (path : List ℕ)
      → get_or o.head.sac_int (int_at npts_field) (pos 0) ≡ pos (length o.words)
      → length o.words ≤ o.capacity
      → length o.words < 2 ^ 60
      → os.fopen path ≡ true
      → os.fwrite path (632 + length o.words * 4) ≡ true
      → write_sac_file f os cleared o path
        ≡ written (record {
          path = path;
          size = 632 + length o.words * 4;
          head = o.head;
          words = o.words;
        })
  unfolding write_sac_file totalbyte
  write_sac_file-written cleared o path count within few opened wrote =
      let n = length o.words in
      let total : (632 + size_of_int (pos n) * 4) % 2 ^ 64 ≡ 632 + n * 4 = omega (arith, few) in
      let inside : ltb (buffersiz o) (632 + n * 4) ≡ false = ground (arith, within) in
      let number : (632 + n * 4 - 632) / 4 ≡ n = omega arith in
      let words = buffer_words-all cleared (f.single_of_bits 0) (os.fresh) o.words in
      rw (count, total, opened, inside, wrote, number, words) refl
