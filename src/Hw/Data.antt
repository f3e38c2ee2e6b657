-- ===== src/Hw/Data.antt =====
-- Copies between the firmware's memory and the packet buffers: `usb_data_write` and
-- `usb_data_read` of fw/v0/src/usb.c. Packet memory is accessed by 32-bit words, low byte first.
use no2usb.Base.{
  ℕ, zero, suc, ◌+◌, ◌*◌, ◌/◌, ◌%◌, ◌<◌, ◌≤◌, ◌⊎◌, inl, inr, ◌≡◌, refl, ap, sym, ◌∙◌, ◌^◌,
  if◌then◌else◌, ◌==◌, List, [], ◌∷◌, arith, length, All,
}

-- The word of four bytes, as `*src_u32` reads it.
unfoldable pub word : ℕ → ℕ → ℕ → ℕ → ℕ
word a b c d = a + 256 * b + 65536 * c + 16777216 * d

abbrev pub put : (ℕ → ℕ) → ℕ → ℕ → ℕ → ℕ
put m i w k = if k == i then w else m k

-- `src` holds the `len` bytes from the source pointer on. The last word is filled with zeros.
write_words : (ℕ → ℕ) → ℕ → List ℕ → ℕ → ℕ
unfolding word
write_words m i [] = m
write_words m i (a ∷ []) = put m i (word a 0 0 0)
write_words m i (a ∷ b ∷ []) = put m i (word a b 0 0)
write_words m i (a ∷ b ∷ c ∷ []) = put m i (word a b c 0)
write_words m i (a ∷ b ∷ c ∷ d ∷ src) = write_words (put m i (word a b c d)) (i + 1) src

unfoldable pub data_write : (ℕ → ℕ) → ℕ → List ℕ → ℕ → ℕ
unfolding write_words
data_write m dst_ofs src = write_words m (dst_ofs / 4) src

-- The lowest byte, `x & 0xff` or `*dst_u8`, and the others after `x >>= 8`.
abbrev byte : ℕ → ℕ
byte x = x % 256

unfoldable pub read_words : (ℕ → ℕ) → ℕ → ℕ → List ℕ
read_words m i zero = []
read_words m i (suc zero) = byte (m i) ∷ []
read_words m i (suc (suc zero)) = byte (m i) ∷ byte (m i / 256) ∷ []
read_words m i (suc (suc (suc zero))) = byte (m i) ∷ byte (m i / 256) ∷ byte (m i / 256 / 256) ∷ []
read_words m i (suc (suc (suc (suc n)))) =
    byte (m i)
    ∷ byte (m i / 256)
    ∷ byte (m i / 256 / 256)
    ∷ byte (m i / 256 / 256 / 256)
    ∷ read_words m (i + 1) n

unfoldable pub data_read : (ℕ → ℕ) → ℕ → ℕ → List ℕ
unfolding read_words
data_read m src_ofs len = read_words m (src_ofs / 4) len

-- A write leaves the words below its start alone.
write_words-below : (m : ℕ → ℕ) (i : ℕ) (src : List ℕ) (k : ℕ) → k < i → write_words m i src k ≡ m k
unfolding write_words
write_words-below m i [] k h = refl
write_words-below m i (a ∷ []) k h = ground arith
write_words-below m i (a ∷ b ∷ []) k h = ground arith
write_words-below m i (a ∷ b ∷ c ∷ []) k h = ground arith
write_words-below m i (a ∷ b ∷ c ∷ d ∷ src) k h =
    ground (arith, write_words-below (put m i (word a b c d)) (i + 1) src k (omega arith))

-- What was written is read back, byte for byte.
read_words-write_words :
    (m : ℕ → ℕ) (i : ℕ) (src : List ℕ)
    → All (λ b. b < 256) src
    → read_words (write_words m i src) i (length src) ≡ src
unfolding write_words read_words
read_words-write_words m i [] h = refl
read_words-write_words m i (a ∷ []) h = ground arith
read_words-write_words m i (a ∷ b ∷ []) h = ground arith
read_words-write_words m i (a ∷ b ∷ c ∷ []) h = ground arith
read_words-write_words m i (a ∷ b ∷ c ∷ d ∷ src) (ha, (hb, (hc, (hd, hs)))) =
    ground (arith, first, read_words-write_words (put m i (word a b c d)) (i + 1) src hs)
  where
    first : write_words (put m i (word a b c d)) (i + 1) src i ≡ word a b c d
    first = ground (arith, write_words-below (put m i (word a b c d)) (i + 1) src i (omega arith))

pub data_read-data_write :
    (m : ℕ → ℕ) (ofs : ℕ) (src : List ℕ)
    → All (λ b. b < 256) src
    → data_read (data_write m ofs src) ofs (length src) ≡ src
unfolding data_write data_read
data_read-data_write m ofs src h = read_words-write_words m (ofs / 4) src h

write_words-above :
    (m : ℕ → ℕ) (i : ℕ) (src : List ℕ) (k : ℕ)
    → i + (length src + 3) / 4 ≤ k
    → write_words m i src k ≡ m k
unfolding write_words
write_words-above m i [] k h = refl
write_words-above m i (a ∷ []) k h = ground arith
write_words-above m i (a ∷ b ∷ []) k h = ground arith
write_words-above m i (a ∷ b ∷ c ∷ []) k h = ground arith
write_words-above m i (a ∷ b ∷ c ∷ d ∷ src) k h =
    ground (arith, write_words-above (put m i (word a b c d)) (i + 1) src k (omega arith))

data_write-frame :
    (m : ℕ → ℕ) (ofs : ℕ) (src : List ℕ) (k : ℕ)
    → (k < ofs / 4) ⊎ (ofs / 4 + (length src + 3) / 4 ≤ k)
    → data_write m ofs src k ≡ m k
unfolding data_write
data_write-frame m ofs src k (inl h) = write_words-below m (ofs / 4) src k h
data_write-frame m ofs src k (inr h) = write_words-above m (ofs / 4) src k h

-- Packet memory by bytes: the one with number `a` stands in the word `a / 4`, low byte first.
abbrev pub packet_byte : (ℕ → ℕ) → ℕ → ℕ
packet_byte m a = byte (m (a / 4) / 256 ^ (a % 4))

abbrev pub packet_bytes : (ℕ → ℕ) → (a n : ℕ) → List ℕ
packet_bytes m a zero = []
packet_bytes m a (suc n) = packet_byte m a ∷ packet_bytes m (a + 1) n

-- The four bytes of a word.
packet_byte-word :
    (m : ℕ → ℕ) (i : ℕ)
    → (packet_byte m (4 * i) ≡ byte (m i))
      × (packet_byte m (4 * i + 1) ≡ byte (m i / 256))
      × (packet_byte m (4 * i + 1 + 1) ≡ byte (m i / 256 / 256))
      × (packet_byte m (4 * i + 1 + 1 + 1) ≡ byte (m i / 256 / 256 / 256))
packet_byte-word m i =
    let at : (4 * i) / 4 ≡ i = omega arith in
    let at1 : (4 * i + 1) / 4 ≡ i = omega arith in
    let at2 : (4 * i + 1 + 1) / 4 ≡ i = omega arith in
    let at3 : (4 * i + 1 + 1 + 1) / 4 ≡ i = omega arith in
    let in0 : (4 * i) % 4 ≡ 0 = omega arith in
    let in1 : (4 * i + 1) % 4 ≡ 1 = omega arith in
    let in2 : (4 * i + 1 + 1) % 4 ≡ 2 = omega arith in
    let in3 : (4 * i + 1 + 1 + 1) % 4 ≡ 3 = omega arith in
    (
      rw (at, in0) (omega arith),
      rw (at1, in1) (omega arith),
      rw (at2, in2) (omega arith),
      rw (at3, in3) (omega arith),
    )

read_words-packet_bytes : (m : ℕ → ℕ) (i n : ℕ) → read_words m i n ≡ packet_bytes m (4 * i) n
unfolding read_words
read_words-packet_bytes m i zero = refl
read_words-packet_bytes m i (suc zero) = let (a, b, c, d) = packet_byte-word m i in rw a
read_words-packet_bytes m i (suc (suc zero)) = let (a, b, c, d) = packet_byte-word m i in rw (a, b)
read_words-packet_bytes m i (suc (suc (suc zero))) =
    let (a, b, c, d) = packet_byte-word m i in rw (a, b, c)
read_words-packet_bytes m i (suc (suc (suc (suc n)))) =
    let (a, b, c, d) = packet_byte-word m i in
    let next : 4 * i + 1 + 1 + 1 + 1 ≡ 4 * (i + 1) = omega arith in
    rw (a, b, c, d, next, read_words-packet_bytes m (i + 1) n)

-- `usb_data_write` and `usb_data_read` against a copy by bytes, for every number of bytes, with the
-- offset rounded down to a whole word. In the memory that is written, the bytes from there on are
-- those of the source, and a word that lies before them, or behind their last word, is left as it
-- is. What is read from the other memory are its bytes from there on.
pub data_copy :
    (tx rx : ℕ → ℕ) (ofs n : ℕ) (src : List ℕ) (k : ℕ)
    → All (λ b. b < 256) src
    → (k < ofs / 4) ⊎ (ofs / 4 + (length src + 3) / 4 ≤ k)
    → (packet_bytes (data_write tx ofs src) (4 * (ofs / 4)) (length src) ≡ src)
      × (data_write tx ofs src k ≡ tx k)
      × (data_read rx ofs n ≡ packet_bytes rx (4 * (ofs / 4)) n)
unfolding data_read
data_copy tx rx ofs n src k small outside = (
  sym (read_words-packet_bytes (data_write tx ofs src) (ofs / 4) (length src))
      ∙ data_read-data_write tx ofs src small,
  data_write-frame tx ofs src k outside,
  read_words-packet_bytes rx (ofs / 4) n,
)

length-read_words : (m : ℕ → ℕ) (i n : ℕ) → length (read_words m i n) ≡ n
unfolding read_words
length-read_words m i zero = refl
length-read_words m i (suc zero) = refl
length-read_words m i (suc (suc zero)) = refl
length-read_words m i (suc (suc (suc zero))) = refl
length-read_words m i (suc (suc (suc (suc n)))) =
    ap (λ k. suc (suc (suc (suc k)))) (length-read_words m (i + 1) n)

pub length-data_read : (m : ℕ → ℕ) (ofs n : ℕ) → length (data_read m ofs n) ≡ n
unfolding data_read
length-data_read m ofs n = length-read_words m (ofs / 4) n
