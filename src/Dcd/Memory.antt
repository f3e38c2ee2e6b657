-- ===== src/Dcd/Memory.antt =====
-- Copies between memory and the packet buffers: `_usb_data_write` and `_usb_data_read` of
-- fw/tinyusb/dcd_no2usb.c. Memory is a map of bytes; a word that is not aligned reads as its bytes.
use no2usb.Base.{ℕ, zero, suc, ◌+◌, ◌/◌, List, [], ◌∷◌}
use no2usb.Hw.Data.{word, put, data_read}

-- `len` bytes of memory.
unfoldable pub ram_load : (ℕ → ℕ) → ℕ → ℕ → List ℕ
ram_load ram src zero = []
ram_load ram src (suc n) = ram src ∷ ram_load ram (src + 1) n

unfoldable pub ram_store : (ℕ → ℕ) → ℕ → List ℕ → ℕ → ℕ
ram_store ram dst [] = ram
ram_store ram dst (b ∷ bs) = ram_store (put ram dst b) (dst + 1) bs

-- `n` whole words go from memory to packet memory.
unfoldable pub copy_words : (ℕ → ℕ) → ℕ → (ℕ → ℕ) → ℕ → ℕ → ℕ → ℕ
unfolding word
copy_words tx i ram src zero = tx
copy_words tx i ram src (suc n) =
    copy_words (put tx i (word (ram src) (ram (src + 1)) (ram (src + 2)) (ram (src + 3)))) (i + 1)
      ram (src + 4) n

-- `_usb_data_write`
unfoldable pub dcd_data_write : (ℕ → ℕ) → ℕ → (ℕ → ℕ) → ℕ → ℕ → ℕ → ℕ
unfolding copy_words
dcd_data_write tx dst_ofs ram src len = copy_words tx (dst_ofs / 4) ram src ((len + 3) / 4)

-- `_usb_data_read`, which is the same as `usb_data_read`, into memory.
unfoldable pub dcd_data_read : (ℕ → ℕ) → ℕ → (ℕ → ℕ) → ℕ → ℕ → ℕ → ℕ
unfolding ram_store data_read
dcd_data_read ram dst rx src_ofs len = ram_store ram dst (data_read rx src_ofs len)
