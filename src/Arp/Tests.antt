-- ===== src/Arp/Tests.antt =====
-- A cache of three slots, and the theorems at it.
use liquorice.Base.{ℕ, ◌≡◌, refl, some, List, [], ◌∷◌, arith}
use liquorice.Arp.{ArpCache, oldest_slot, ip_arp_cache_add, find_slot, ip_arp_cache_find, cleared}
use liquorice.Arp.Lookup.{ip_arp_cache_add-find}

abbrev some_mac : List ℕ
some_mac = 2 ∷ 0 ∷ 0 ∷ 0 ∷ 0 ∷ 9 ∷ []

abbrev full : ArpCache
full = record {
  slots =
      record { ip = 11; mac = 2 ∷ 0 ∷ 0 ∷ 0 ∷ 0 ∷ 1 ∷ []; age = 7 }
      ∷ record { ip = 12; mac = 2 ∷ 0 ∷ 0 ∷ 0 ∷ 0 ∷ 2 ∷ []; age = 4 }
      ∷ record { ip = 13; mac = 2 ∷ 0 ∷ 0 ∷ 0 ∷ 0 ∷ 3 ∷ []; age = 5 }
      ∷ [];
  age = 8;
}

-- A cleared cache finds the address 0, with whatever its memory held.
finds_zero : (ip_arp_cache_find (cleared some_mac) 0).0 ≡ some some_mac
unfolding ip_arp_cache_find find_slot
finds_zero = refl

ip_arp_cache_add-find_example :
    ((ip_arp_cache_find (ip_arp_cache_add full some_mac 14) 14).0 ≡ some some_mac)
    × ((ip_arp_cache_find (ip_arp_cache_add full some_mac 14) 13).0 ≡ (ip_arp_cache_find full 13).0)
unfolding oldest_slot
ip_arp_cache_add-find_example =
    ip_arp_cache_add-find full some_mac 14 13 (omega arith) (omega arith) (omega arith)
