-- ===== src/Core/Cpu/LibraryModule/Laws.antt =====
-- The address counter of the library module: OUT LIB_PC loads it digit by digit, IN LIB_PC reads
-- the digits back, IN LIB reads bytes from it in sequence.
use calc_u.Base.{
  ℕ, zero, suc, ◌+◌, ◌*◌, ◌/◌, ◌%◌, ◌^◌, ◌<◌, ◌≡◌, refl, ◌∙◌, true, false, if◌then◌else◌, List, [],
  ◌∷◌, arith, slice, u16,
}
use calc_u.Core.Cpu.State.{Cpu}
use calc_u.Core.Cpu.LibraryModule.{
  image_bytes, push_digit, pull_digit, in_lib, in_lib_pc, out_lib_pc, exec_library,
}

-- OUT LIB_PC with the digit that KR holds.
unfoldable pub send_digit : ℕ → Cpu → Cpu
send_digit d c = exec_library 0x0A1E (record c { kr = d * 16 })

-- IN LIB_PC: the digit that EXT shows, and the state after it.
unfoldable pub next_digit : Cpu → ℕ × Cpu
next_digit c = let d = exec_library 0x0A2E c in (d.ext / 16, d)

abbrev pub send_four : (d0 d1 d2 d3 : ℕ) → Cpu → Cpu
send_four d0 d1 d2 d3 c = send_digit d3 (send_digit d2 (send_digit d1 (send_digit d0 c)))

send_digit_lem :
    (d : ℕ) (c : Cpu)
    → d < 10
    → c.lib.addr < 10000
    → (send_digit d c).lib.addr ≡ c.lib.addr / 10 + d * 1000
unfolding send_digit exec_library out_lib_pc push_digit
send_digit_lem d c h l = ground arith

-- Four decimal digits, the lowest first, load the counter, whatever four-digit number it held.
pub send_four-addr :
    (d0 d1 d2 d3 : ℕ) (c : Cpu)
    → d0 < 10
    → d1 < 10
    → d2 < 10
    → d3 < 10
    → c.lib.addr < 10000
    → (send_four d0 d1 d2 d3 c).lib.addr ≡ d0 + 10 * d1 + 100 * d2 + 1000 * d3
send_four-addr d0 d1 d2 d3 c h0 h1 h2 h3 l =
    let c1 = send_digit d0 c in
    let c2 = send_digit d1 c1 in
    let c3 = send_digit d2 c2 in
    let e0 = send_digit_lem d0 c h0 l in
    let e1 = send_digit_lem d1 c1 h1 (omega (arith, e0)) in
    let e2 = send_digit_lem d2 c2 h2 (omega (arith, e0, e1)) in
    omega (arith, e0, e1, e2, send_digit_lem d3 c3 h3 (omega (arith, e0, e1, e2)))

next_digit_lem :
    (c : Cpu)
    → let pos = if c.lib.was_writing then 0 else c.lib.read_pos in
      let (d, n) = next_digit c in
      (d ≡ c.lib.addr / 10 ^ pos % 10)
      × (n.lib.addr ≡ c.lib.addr)
      × (n.lib.read_pos ≡ (pos + 1) % 4)
      × (n.lib.was_writing ≡ false)
unfolding next_digit exec_library in_lib_pc pull_digit
next_digit_lem c = (omega arith, refl, refl, refl)

send_digit-writing : (d : ℕ) (c : Cpu) → (send_digit d c).lib.was_writing ≡ true
unfolding send_digit exec_library out_lib_pc push_digit
send_digit-writing d c = refl

-- IN LIB_PC, four times.
abbrev pub read_four : Cpu → List ℕ
read_four c =
    let (d0, c1) = next_digit c in
    let (d1, c2) = next_digit c1 in
    let (d2, c3) = next_digit c2 in let (d3, c4) = next_digit c3 in d0 ∷ d1 ∷ d2 ∷ d3 ∷ []

read_four_lem :
    (c : Cpu)
    → c.lib.was_writing ≡ true
    → let a = c.lib.addr in read_four c ≡ a % 10 ∷ a / 10 % 10 ∷ a / 100 % 10 ∷ a / 1000 % 10 ∷ []
unfolding next_digit exec_library in_lib_pc pull_digit
read_four_lem c w =
    let shown : (x : ℕ) → x % 10 * 16 / 16 ≡ x % 10 = λ x. omega arith in
    let whole : c.lib.addr / 1 ≡ c.lib.addr = omega arith in
    rw
      (
        w,
        shown (c.lib.addr / 1),
        shown (c.lib.addr / 10),
        shown (c.lib.addr / 100),
        shown (c.lib.addr / 1000),
        whole,
      )
      refl

-- IN LIB_PC reads four decimal digits back in the order in which OUT LIB_PC sent them to a counter
-- below 10000.
pub read_four-send_four :
    (d0 d1 d2 d3 : ℕ) (c : Cpu)
    → d0 < 10
    → d1 < 10
    → d2 < 10
    → d3 < 10
    → c.lib.addr < 10000
    → read_four (send_four d0 d1 d2 d3 c) ≡ d0 ∷ d1 ∷ d2 ∷ d3 ∷ []
read_four-send_four d0 d1 d2 d3 c h0 h1 h2 h3 l =
    let d = send_four d0 d1 d2 d3 c in
    let a = d.lib.addr in
    let e = send_four-addr d0 d1 d2 d3 c h0 h1 h2 h3 l in
    let e0 : a % 10 ≡ d0 = omega (arith, e) in
    let e1 : a / 10 % 10 ≡ d1 = omega (arith, e) in
    let e2 : a / 100 % 10 ≡ d2 = omega (arith, e) in
    let e3 : a / 1000 % 10 ≡ d3 = omega (arith, e) in
    read_four_lem d (send_digit-writing d3 _) ∙ rw (e0, e1, e2, e3) refl

-- IN LIB, `n` times: the bytes that EXT shows.
unfoldable pub read_bytes : ℕ → Cpu → List ℕ
read_bytes zero c = []
read_bytes (suc n) c = let d = exec_library 0x0A0E c in d.ext / 16 ∷ read_bytes n d

-- IN LIB reads the bytes of the image, each below 256, in sequence from the counter on, and starts
-- over after byte 4999.
pub read_bytes-slice :
    (n s : ℕ) (c : Cpu)
    → c.lib.addr ≡ s % image_bytes
    → ((i : ℕ) → c.lib.image i < 256)
    → read_bytes n c ≡ slice (λ i. c.lib.image (i % image_bytes)) s n
unfolding read_bytes exec_library in_lib
read_bytes-slice zero s c e h = refl
read_bytes-slice (suc n) s c e h =
    let d = exec_library 0x0A0E c in
    let next : u16 (c.lib.addr + 1) % image_bytes ≡ (s + 1) % image_bytes = omega (arith, e) in
    let byte : u16 (c.lib.image c.lib.addr * 16) / 16 ≡ c.lib.image c.lib.addr =
      omega (arith, h c.lib.addr) in
    rw (read_bytes-slice n (s + 1) d next h, byte, e) refl
