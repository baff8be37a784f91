-- ===== src/Addresses/Swaps.antt =====
-- Byte orders and texts of `IPv4Address` (ttw/swapendian.h, ttw/address.cc).
use ttw.Prelude.{ℕ, ◌/◌, ◌%◌, ◌^◌, ◌<◌, ◌≡◌, arith, ap, ◌∙◌}
use ttw.Addresses.{swap_endian, swap_loop, ipv4_address, address_to_string, dotted}

swap2 : (n : ℕ) → n < 2 ^ 16 → swap_endian 2 (swap_endian 2 n) ≡ n
unfolding swap_endian swap_loop
swap2 n h = omega arith

swap4 : (n : ℕ) → n < 2 ^ 32 → swap_endian 4 (swap_endian 4 n) ≡ n
unfolding swap_endian swap_loop
swap4 n h = omega arith

-- `toString` of the address that is made from two numbers prints the four bytes of the first, from the
-- highest on, with points between them, and behind a colon the second, as a word of 16 bits.
pub address_to_string-ipv4_address :
    (address port : ℕ)
    → address_to_string (ipv4_address address port)
      ≡ dotted
          (address / 2 ^ 24 % 256)
          (address / 2 ^ 16 % 256)
          (address / 2 ^ 8 % 256)
          (address % 256)
          (port % 2 ^ 16)
unfolding address_to_string ipv4_address
address_to_string-ipv4_address address port =
    let a : ℕ = address % 2 ^ 32 in
    let p : ℕ = port % 2 ^ 16 in
    let b1 : a / 2 ^ 24 % 256 ≡ address / 2 ^ 24 % 256 = omega arith in
    let b2 : a / 2 ^ 16 % 256 ≡ address / 2 ^ 16 % 256 = omega arith in
    let b3 : a / 2 ^ 8 % 256 ≡ address / 2 ^ 8 % 256 = omega arith in
    let b4 : a % 256 ≡ address % 256 = omega arith in
    ap
      (λ x.
        dotted (x / 2 ^ 24 % 256) (x / 2 ^ 16 % 256) (x / 2 ^ 8 % 256) (x % 256)
          (swap_endian 2 (swap_endian 2 p)))
      (swap4 a (omega arith))
    ∙ ap (λ x. dotted (a / 2 ^ 24 % 256) (a / 2 ^ 16 % 256) (a / 2 ^ 8 % 256) (a % 256) x)
        (swap2 p (omega arith))
    ∙ (λ i. dotted (b1 i) (b2 i) (b3 i) (b4 i) p)
