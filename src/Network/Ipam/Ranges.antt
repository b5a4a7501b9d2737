-- ===== src/Network/Ipam/Ranges.antt =====
-- The list operations of exordos_core/network/ipam.py on one pool of free addresses.
use genesis_core.Common.{
  ℕ, ◌+◌, ◌-◌, ◌==◌, ltb, ◌&&◌, Option, none, some, List, [], ◌∷◌, if◌then◌else◌,
}

abbrev pub Pool : Type 0
Pool = List (ℕ × ℕ)

-- The first range that holds the address loses it; an address in no range changes nothing.
unfoldable pub occupy_ip : ℕ → Pool → Pool
occupy_ip address [] = []
occupy_ip address ((s, e) ∷ rest) =
    let later = (s, e) ∷ occupy_ip address rest in
    if (s == e) && (s == address)
    then rest
    else if address == s
    then (s + 1, e) ∷ rest
    else if address == e
    then (s, e - 1) ∷ rest
    else if ltb s address && ltb address e
    then (s, address - 1) ∷ (address + 1, e) ∷ rest
    else later

-- `address_pool[i] = (s, e + 1)`, joined to the next range if that begins right behind it.
unfoldable pub extend_right : ℕ → ℕ → Pool → Pool
extend_right s address [] = (s, address) ∷ []
extend_right s address ((next_start, next_end) ∷ rest) =
    if next_start == address + 1
    then (s, next_end) ∷ rest
    else (s, address) ∷ (next_start, next_end) ∷ rest

-- The tests `address < s - 1` and `address == s - 1` of the source have `s` moved to the left,
-- since its integers go below zero.
unfoldable pub deallocate_in : ℕ → Pool → Pool
unfolding extend_right
deallocate_in address [] = (address, address) ∷ []
deallocate_in address ((s, e) ∷ rest) =
    let later = (s, e) ∷ deallocate_in address rest in
    if ltb (address + 1) s
    then (address, address) ∷ (s, e) ∷ rest
    else if address + 1 == s
    then (address, e) ∷ rest
    else if address == e + 1
    then extend_right s address rest
    else if ltb s address && ltb address e
    then (s, e) ∷ rest
    else later

-- "Take a first available IP address"
unfoldable pub take_first : Pool → Option (ℕ × Pool)
take_first [] = none
take_first ((start, end) ∷ rest) =
    some (start, if start == end then rest else (start + 1, end) ∷ rest)
