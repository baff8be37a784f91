-- ===== src/Addresses.antt =====
-- `swapEndian` of ttw/swapendian.h on a little-endian machine, and `IPv4Address` of ttw/address.h and ttw/address.cc.
-- What `inet_pton` writes is the argument `pton`; the family is always AF_INET.
pub mod Swaps
mod Tests
use ttw.Prelude.{ℕ, zero, suc, ◌+◌, ◌-◌, ◌*◌, ◌/◌, ◌%◌, ◌^◌, Option, none, some, [], ◌∷◌, ◌++◌}
use ttw.Prelude.Text.{Bytes}
use ttw.Json.Print.{show_nat}

-- The loop of `swapEndian` for a type of `size` bytes, for the values of the index below `i`. The bytes that `|=` joins
-- have no bit in common, so it is a sum.
unfoldable pub swap_loop : ℕ → ℕ → ℕ → ℕ
swap_loop size zero num = 0
swap_loop size (suc i) num =
    swap_loop size i num + (num / 2 ^ (8 * i) % 256) * 2 ^ (8 * (size - 1 - i))

unfoldable pub swap_endian : ℕ → ℕ → ℕ
unfolding swap_loop
swap_endian size num = swap_loop size size num

-- `sockaddr_in`: the port and the address, each in the order of the network.
pub record Ipv4Address : Type 0 where
  pub sin_port : ℕ
  pub s_addr : ℕ

-- The constructors from numbers and from a text.
unfoldable pub ipv4_address : ℕ → ℕ → Ipv4Address
unfolding swap_endian
ipv4_address address port = record {
  sin_port = swap_endian 2 (port % 2 ^ 16);
  s_addr = swap_endian 4 (address % 2 ^ 32);
}

pub ipv4_address_of : (Bytes → ℕ) → Bytes → ℕ → Ipv4Address
unfolding swap_endian
ipv4_address_of pton address port = record {
  sin_port = swap_endian 2 (port % 2 ^ 16);
  s_addr = pton address;
}

unfoldable pub get_port : Ipv4Address → ℕ
unfolding swap_endian
get_port a = swap_endian 2 a.sin_port

unfoldable pub set_port : ℕ → Ipv4Address → Ipv4Address
unfolding swap_endian
set_port port a = record a { sin_port = swap_endian 2 (port % 2 ^ 16) }

-- Four bytes with points between them, and the port behind a colon.
abbrev pub dotted : ℕ → ℕ → ℕ → ℕ → ℕ → Bytes
dotted a b c d port =
    show_nat a
    ++ (b'.'
        ∷ (show_nat b ++ (b'.' ∷ (show_nat c ++ (b'.' ∷ (show_nat d ++ (b':' ∷ show_nat port)))))))

-- `IPv4Address::toString`
unfoldable pub address_to_string : Ipv4Address → Bytes
unfolding swap_endian
address_to_string a =
    let addr = swap_endian 4 a.s_addr in
    dotted (addr / 2 ^ 24 % 256) (addr / 2 ^ 16 % 256) (addr / 2 ^ 8 % 256) (addr % 256)
      (swap_endian 2 a.sin_port)
