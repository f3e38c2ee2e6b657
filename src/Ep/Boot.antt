-- ===== src/Ep/Boot.antt =====
-- The buffers that `usb_ep_boot` of fw/v0/src/usb.c gives to an endpoint, and the endpoint's
-- registers behind it, once its alternate settings have been looked through.
use no2usb.Base.{
  ℕ, ◌+◌, ◌*◌, ◌%◌, ◌^◌, ◌<◌, ◌≤◌, ◌≡◌, refl, ap, ◌∙◌, ◌⊎◌, ◌≢◌, bit_and, bit_or, Bool, true, false,
  not, ◌&&◌, ◌==◌, leb, if◌then◌else◌, List, none, some, ok, arith,
}
use no2usb.Base.Bits.{passes_below, from_table}
use no2usb.Hw.{Ep, ep_bd_dual}
use no2usb.Stack.{Usb}
use no2usb.Desc.{half_at, intf_number}
use no2usb.Ep.{
  ep_number, ep_is_in, get_ep_regs, put_ep_regs, buf_size, alloc_buf, ep_settings, ep_conf, Scan,
  scan_loop, ep_boot,
}
use no2usb.Ep.Halt.{get_ep_regs-put_ep_regs, get_ep_regs-other}

-- Sizes up to the greatest packet: a buffer is at least as long, and made of whole words.
abbrev rounds_up : ℕ → Bool
rounds_up m = leb m (buf_size m) && (buf_size m % 4 == 0) && leb (buf_size m) 1024

rounds_up_table : passes_below rounds_up 1024 ≡ true
unfolding passes_below
rounds_up_table = refl

pub buf_size_lem :
    (m : ℕ) → m < 1024 → (m ≤ buf_size m) × (buf_size m % 4 ≡ 0) × (buf_size m ≤ 1024)
buf_size_lem m low = let e = from_table rounds_up m low rounds_up_table in ground (arith, e)

-- Where the next buffer of a direction is put.
abbrev pub next_buf : {A : Type 0} → Bool → Usb A → ℕ
next_buf is_in s = if is_in then s.mem_in else s.mem_out

-- Buffers of `m` bytes at `p` and, of an endpoint with two, at `q`, in front of the free memory.
abbrev pub Apart : Bool → (p q free m : ℕ) → Type 0
Apart true p q free m = (p + m ≤ q) × (q + m ≤ free) × (q % 4 ≡ 0)
Apart false p q free m = p + m ≤ free

-- An endpoint that has been set up with buffers for packets of `m` bytes, of a type and with a
-- packet size: its buffers lie one behind the other in free memory and hold `m` bytes each, the
-- memory behind them is free, and nothing else has changed.
pub record IsBooted {A : Type 0} (ep : ℕ) (dual : Bool) (m type size : ℕ) (s t : Usb A)
    : Type 0 where
  pub status : (get_ep_regs ep t.hw).status ≡ bit_or (if dual then 0x10 else 0) type
  pub mps : (get_ep_regs ep t.hw).mps ≡ size
  pub idle0 : (get_ep_regs ep t.hw).bd0.csr ≡ 0
  pub idle1 : (get_ep_regs ep t.hw).bd1.csr ≡ 0
  pub first : (get_ep_regs ep t.hw).bd0.ptr ≡ next_buf (ep_is_in ep) s
  pub buffers :
      Apart dual
        (get_ep_regs ep t.hw).bd0.ptr
        (get_ep_regs ep t.hw).bd1.ptr
        (next_buf (ep_is_in ep) t)
        m
  pub aligned : next_buf (ep_is_in ep) t % 4 ≡ 0
  pub other_way : next_buf (not (ep_is_in ep)) t ≡ next_buf (not (ep_is_in ep)) s
  pub others :
      (other : ℕ)
      → (ep_number other ≢ ep_number ep) ⊎ (ep_is_in other ≢ ep_is_in ep)
      → get_ep_regs other t.hw ≡ get_ep_regs other s.hw

-- What an allocation gives, and what it leaves.
module _ {A : Type 0} (m : ℕ) (s : Usb A) where
  alloc_buf_lem :
      (is_in : Bool)
      → ((alloc_buf m is_in s).0 ≡ next_buf is_in s)
        × (next_buf is_in (alloc_buf m is_in s).1 ≡ (next_buf is_in s + buf_size m) % 2 ^ 32)
        × (next_buf (not is_in) (alloc_buf m is_in s).1 ≡ next_buf (not is_in) s)
        × ((alloc_buf m is_in s).1.hw ≡ s.hw)
  unfolding alloc_buf
  alloc_buf_lem true = (refl, refl, refl, refl)
  alloc_buf_lem false = (refl, refl, refl, refl)

-- The state behind the allocations.
abbrev pub allocated : {A : Type 0} → ℕ → (dual is_in : Bool) → Usb A → Usb A
allocated m true is_in s = (alloc_buf m is_in (alloc_buf m is_in s).1).1
allocated m false is_in s = (alloc_buf m is_in s).1

-- The registers that the endpoint has first, and those it is left with.
abbrev pub first_regs : {A : Type 0} → (ep m : ℕ) → Bool → Usb A → Ep
first_regs ep m dual s = record {
  status = if dual then ep_bd_dual else 0;
  mps = m;
  bd0 = record { csr = 0; ptr = (alloc_buf m (ep_is_in ep) s).0 };
  bd1 =
      if dual
      then record { csr = 0; ptr = (alloc_buf m (ep_is_in ep) (alloc_buf m (ep_is_in ep) s).1).0 }
      else (get_ep_regs ep s.hw).bd1;
}

abbrev pub last_regs : Ep → (type size : ℕ) → Ep
last_regs r type size = record r {
  status = bit_or (bit_and r.status ep_bd_dual) type;
  mps = size;
  bd0 = record (r.bd0) { csr = 0 };
  bd1 = record (r.bd1) { csr = 0 };
}

abbrev pub booted : {A : Type 0} → (ep m : ℕ) → Bool → (type size : ℕ) → Usb A → Usb A
booted ep m dual type size s =
    let u = allocated m dual (ep_is_in ep) s in
    let hw1 = put_ep_regs ep (first_regs ep m dual s) u.hw in
    record u { hw = put_ep_regs ep (last_regs (get_ep_regs ep hw1) type size) hw1 }

-- Where allocations of `b` bytes put their buffers.
module _ (n n1 b m : ℕ) (up : m ≤ b) (whole : b % 4 ≡ 0) (start : n % 4 ≡ 0)
    (fits : n + 2 * b < 2 ^ 32) (first : n1 ≡ (n + b) % 2 ^ 32) where
  one_buffer : (n + m ≤ n1) × (n1 % 4 ≡ 0)
  one_buffer = omega arith

  two_buffers :
      (n2 : ℕ) → n2 ≡ (n1 + b) % 2 ^ 32 → (n + m ≤ n1) × (n1 + m ≤ n2) × (n1 % 4 ≡ 0) × (n2 % 4 ≡ 0)
  two_buffers n2 second = omega arith

some_bytes : (m : ℕ) → 0 < m → (m == 0) ≡ false
some_bytes m h = ground arith

module _ {A : Type 0} (intf ep : ℕ) (s : Usb A) (mem : List ℕ) (total number : ℕ) (sc : Scan)
    (type size : ℕ) (conf : s.conf ≡ some mem) (length : half_at mem 2 ≡ ok total)
    (num : intf_number mem intf ≡ ok number)
    (scan : scan_loop
        (total + 1)
        mem
        total
        number
        ep
        (some intf)
        (record { max_packet = 0; ep_def = none })
      ≡ ok sc) where
  pub boot_lem :
      (dual : Bool)
      → 0 < sc.max_packet
      → ep_settings mem sc.ep_def ≡ ok (type, size)
      → ep_boot intf ep dual s ≡ ok (true, booted ep sc.max_packet dual type size s)
  unfolding ep_boot ep_conf
  boot_lem true some_size settings =
      rw (conf, length, num, scan, some_bytes sc.max_packet some_size, settings)
  boot_lem false some_size settings =
      rw (conf, length, num, scan, some_bytes sc.max_packet some_size, settings)

  pub boot_none : (dual : Bool) → sc.max_packet ≡ 0 → ep_boot intf ep dual s ≡ ok (false, s)
  unfolding ep_boot
  boot_none dual none_size = rw (conf, length, num, scan, none_size)

module _ {A : Type 0} (ep m : ℕ) (s : Usb A) (type size : ℕ) (low : m < 1024)
    (start : next_buf (ep_is_in ep) s % 4 ≡ 0)
    (fits : next_buf (ep_is_in ep) s + 2 * buf_size m < 2 ^ 32) where
  module _ (dual : Bool) where
    regs-booted :
        get_ep_regs ep (booted ep m dual type size s).hw
        ≡ last_regs (first_regs ep m dual s) type size
    regs-booted =
        let u = allocated m dual (ep_is_in ep) s in
        let hw1 = put_ep_regs ep (first_regs ep m dual s) u.hw in
        get_ep_regs-put_ep_regs ep (last_regs (get_ep_regs ep hw1) type size) hw1
        ∙ ap (λ r. last_regs r type size) (get_ep_regs-put_ep_regs ep (first_regs ep m dual s) u.hw)

    others-booted :
        (other : ℕ)
        → (ep_number other ≢ ep_number ep) ⊎ (ep_is_in other ≢ ep_is_in ep)
        → get_ep_regs other (booted ep m dual type size s).hw
          ≡ get_ep_regs other (allocated m dual (ep_is_in ep) s).hw
    others-booted other apart =
        let u = allocated m dual (ep_is_in ep) s in
        let hw1 = put_ep_regs ep (first_regs ep m dual s) u.hw in
        get_ep_regs-other ep other (last_regs (get_ep_regs ep hw1) type size) hw1 apart
        ∙ get_ep_regs-other ep other (first_regs ep m dual s) u.hw apart

  pub booted-IsBooted :
      (dual : Bool) → IsBooted ep dual m type size s (booted ep m dual type size s)
  booted-IsBooted true =
      let r = regs-booted true in
      let (a, b, c, d) = alloc_buf_lem m s (ep_is_in ep) in
      let s1 = (alloc_buf m (ep_is_in ep) s).1 in
      let (a', b', c', d') = alloc_buf_lem m s1 (ep_is_in ep) in
      let (up, whole, top) = buf_size_lem m low in
      let p : (get_ep_regs ep (booted ep m true type size s).hw).bd0.ptr
          ≡ next_buf (ep_is_in ep) s =
        ap (λ e. e.bd0.ptr) r ∙ a in
      let q : (get_ep_regs ep (booted ep m true type size s).hw).bd1.ptr
          ≡ next_buf (ep_is_in ep) s1 =
        ap (λ e. e.bd1.ptr) r ∙ a' in
      let (x, y, z, w) =
        two_buffers (next_buf (ep_is_in ep) s) (next_buf (ep_is_in ep) s1) (buf_size m) m up whole
          start fits b (next_buf (ep_is_in ep) (booted ep m true type size s)) b' in
      record {
        status = ap (λ e. e.status) r;
        mps = ap (λ e. e.mps) r;
        idle0 = ap (λ e. e.bd0.csr) r;
        idle1 = ap (λ e. e.bd1.csr) r;
        first = p;
        buffers = rw (p, q) (x, y, z);
        aligned = w;
        other_way = c' ∙ c;
        others = λ other apart. others-booted true other apart ∙ ap (get_ep_regs other) (d' ∙ d);
      }
  booted-IsBooted false =
      let r = regs-booted false in
      let (a, b, c, d) = alloc_buf_lem m s (ep_is_in ep) in
      let (up, whole, top) = buf_size_lem m low in
      let p : (get_ep_regs ep (booted ep m false type size s).hw).bd0.ptr
          ≡ next_buf (ep_is_in ep) s =
        ap (λ e. e.bd0.ptr) r ∙ a in
      let (x, w) =
        one_buffer (next_buf (ep_is_in ep) s)
          (next_buf (ep_is_in ep) (booted ep m false type size s)) (buf_size m) m up whole start
          fits b in
      record {
        status = ap (λ e. e.status) r;
        mps = ap (λ e. e.mps) r;
        idle0 = ap (λ e. e.bd0.csr) r;
        idle1 = ap (λ e. e.bd1.csr) r;
        first = p;
        buffers = rw p x;
        aligned = w;
        other_way = c;
        others = λ other apart. others-booted false other apart ∙ ap (get_ep_regs other) d;
      }
