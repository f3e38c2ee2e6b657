-- ===== src/Dcd/Copy.antt =====
-- What the port's copies between memory and packet memory move.
use no2usb.Base.{ℕ, zero, suc, ◌+◌, ◌*◌, ◌/◌, ◌%◌, ◌<◌, ◌≤◌, ◌⊎◌, inl, inr, ◌≡◌, refl, arith}
use no2usb.Hw.Data.{word, put, read_words, data_read}
use no2usb.Dcd.Memory.{ram_load, copy_words, dcd_data_write}

-- A copy leaves the words below its start alone, and those behind its end.
copy_words-below :
    (tx : ℕ → ℕ) (i : ℕ) (ram : ℕ → ℕ) (src n k : ℕ) → k < i → copy_words tx i ram src n k ≡ tx k
unfolding copy_words
copy_words-below tx i ram src zero k h = refl
copy_words-below tx i ram src (suc n) k h = ground (
  arith,
  copy_words-below (put tx i (word (ram src) (ram (src + 1)) (ram (src + 2)) (ram (src + 3))))
      (i + 1) ram (src + 4) n k (omega arith),
)

copy_words-above :
    (tx : ℕ → ℕ) (i : ℕ) (ram : ℕ → ℕ) (src n k : ℕ)
    → i + n ≤ k
    → copy_words tx i ram src n k ≡ tx k
unfolding copy_words
copy_words-above tx i ram src zero k h = refl
copy_words-above tx i ram src (suc n) k h = ground (
  arith,
  copy_words-above (put tx i (word (ram src) (ram (src + 1)) (ram (src + 2)) (ram (src + 3))))
      (i + 1) ram (src + 4) n k (omega arith),
)

-- The bytes of a word.
word-bytes :
    (a b c d : ℕ)
    → a < 256
    → b < 256
    → c < 256
    → d < 256
    → (word a b c d % 256 ≡ a)
      × (word a b c d / 256 % 256 ≡ b)
      × (word a b c d / 256 / 256 % 256 ≡ c)
      × (word a b c d / 256 / 256 / 256 % 256 ≡ d)
unfolding word
word-bytes a b c d ha hb hc hd = ground arith

-- The first word that a copy writes.
first_word :
    (tx : ℕ → ℕ) (i : ℕ) (ram : ℕ → ℕ) (src m : ℕ)
    → copy_words tx i ram src (suc m) i
      ≡ word (ram src) (ram (src + 1)) (ram (src + 2)) (ram (src + 3))
unfolding copy_words
first_word tx i ram src m = ground (
  arith,
  copy_words-below (put tx i (word (ram src) (ram (src + 1)) (ram (src + 2)) (ram (src + 3))))
      (i + 1) ram (src + 4) m i (omega arith),
)

module _ (ram : ℕ → ℕ) (bytes : (k : ℕ) → ram k < 256) where
  HasBytes : ℕ → Type 0
  HasBytes src =
      let w = word (ram src) (ram (src + 1)) (ram (src + 2)) (ram (src + 3)) in
      (w % 256 ≡ ram src)
      × (w / 256 % 256 ≡ ram (src + 1))
      × (w / 256 / 256 % 256 ≡ ram (src + 1 + 1))
      × (w / 256 / 256 / 256 % 256 ≡ ram (src + 1 + 1 + 1))

  word_at : (src : ℕ) → HasBytes src
  unfolding HasBytes
  word_at src =
      let e2 : src + 1 + 1 ≡ src + 2 = omega arith in
      let e3 : src + 2 + 1 ≡ src + 3 = omega arith in
      rw e2 (
        rw e3 (
          word-bytes (ram src) (ram (src + 1)) (ram (src + 2)) (ram (src + 3)) (bytes src)
            (bytes (src + 1)) (bytes (src + 2)) (bytes (src + 3))))

  -- Whole words and a last partial one are read back as the bytes of memory.
  read_words-copy_words :
      (tx : ℕ → ℕ) (i src n m : ℕ)
      → n ≤ m * 4
      → read_words (copy_words tx i ram src m) i n ≡ ram_load ram src n
  unfolding read_words ram_load copy_words HasBytes
  read_words-copy_words tx i src zero m h = refl
  read_words-copy_words tx i src (suc n) zero h = absurd (omega arith)
  read_words-copy_words tx i src (suc zero) (suc m) h =
      ground (arith, first_word tx i ram src m, word_at src)
  read_words-copy_words tx i src (suc (suc zero)) (suc m) h =
      ground (arith, first_word tx i ram src m, word_at src)
  read_words-copy_words tx i src (suc (suc (suc zero))) (suc m) h =
      ground (arith, first_word tx i ram src m, word_at src)
  read_words-copy_words tx i src (suc (suc (suc (suc n)))) (suc m) h =
      let rest =
        read_words-copy_words
          (put tx i (word (ram src) (ram (src + 1)) (ram (src + 2)) (ram (src + 3)))) (i + 1)
          (src + 4) n m (omega arith) in
      ground (arith, rest, first_word tx i ram src m, word_at src)

  -- A block of memory that is written to packet memory stands there.
  pub data_read-dcd_data_write :
      (tx : ℕ → ℕ) (ofs src n : ℕ)
      → data_read (dcd_data_write tx ofs ram src n) ofs n ≡ ram_load ram src n
  unfolding data_read dcd_data_write
  data_read-dcd_data_write tx ofs src n =
      read_words-copy_words tx (ofs / 4) src n ((n + 3) / 4) (omega arith)

-- A read depends on its words alone.
read_words-cong :
    (m m' : ℕ → ℕ) (i n : ℕ)
    → ((k : ℕ) → i ≤ k → k < i + (n + 3) / 4 → m k ≡ m' k)
    → read_words m i n ≡ read_words m' i n
unfolding read_words
read_words-cong m m' i zero h = refl
read_words-cong m m' i (suc zero) h = ground (arith, h i (omega arith) (omega arith))
read_words-cong m m' i (suc (suc zero)) h = ground (arith, h i (omega arith) (omega arith))
read_words-cong m m' i (suc (suc (suc zero))) h = ground (arith, h i (omega arith) (omega arith))
read_words-cong m m' i (suc (suc (suc (suc n)))) h =
    let rest : read_words m (i + 1) n ≡ read_words m' (i + 1) n =
      read_words-cong m m' (i + 1) n (λ k a b. h k (omega arith) (omega arith)) in
    ground (arith, rest, h i (omega arith) (omega arith))

-- The buffers `[ofs, ofs + n)` and `[ofs', ofs' + n')` have no word in common.
abbrev pub Apart : (ofs n ofs' n' : ℕ) → Type 0
Apart ofs n ofs' n' = (ofs' / 4 + (n' + 3) / 4 ≤ ofs / 4) ⊎ (ofs / 4 + (n + 3) / 4 ≤ ofs' / 4)

-- A write leaves another buffer alone.
pub data_read-frame :
    (ram tx : ℕ → ℕ) (ofs src n ofs' n' : ℕ)
    → Apart ofs n ofs' n'
    → data_read (dcd_data_write tx ofs ram src n) ofs' n' ≡ data_read tx ofs' n'
unfolding data_read dcd_data_write
data_read-frame ram tx ofs src n ofs' n' (inl h) =
    read_words-cong _ tx (ofs' / 4) n'
      (λ k a b. copy_words-below tx (ofs / 4) ram src ((n + 3) / 4) k (omega arith))
data_read-frame ram tx ofs src n ofs' n' (inr h) =
    read_words-cong _ tx (ofs' / 4) n'
      (λ k a b. copy_words-above tx (ofs / 4) ram src ((n + 3) / 4) k (omega arith))
