-- ===== src/Addresses/Tests.antt =====
-- Addresses of ttw/address.cc.
use ttw.Prelude.{◌≡◌, refl, ◌/◌, ◌%◌, ◌^◌}
use ttw.Prelude.Text.{codes}
use ttw.Json.Print.{show_nat}
use ttw.Addresses.{ipv4_address, address_to_string, dotted}
use ttw.Addresses.Swaps.{address_to_string-ipv4_address}

loopback : address_to_string (ipv4_address 2130706433 8080) ≡ codes "127.0.0.1:8080"
unfolding address_to_string ipv4_address show_nat
loopback = refl

address_to_string-ipv4_address_example :
    address_to_string (ipv4_address 3232235777 70000)
    ≡ dotted
        (3232235777 / 2 ^ 24 % 256)
        (3232235777 / 2 ^ 16 % 256)
        (3232235777 / 2 ^ 8 % 256)
        (3232235777 % 256)
        (70000 % 2 ^ 16)
address_to_string-ipv4_address_example = address_to_string-ipv4_address 3232235777 70000
