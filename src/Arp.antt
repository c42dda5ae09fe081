-- ===== src/Arp.antt =====
-- The ARP cache of src/lib/ethernet_ip/ethernet_ip.c: `ip_arp_cache_add()` and `ip_arp_cache_find()`. Addresses
-- are numbers, hardware addresses the lists of their octets. Each runs under a lock, so is one step.
pub mod Lookup
pub mod Recency
mod Tests
use liquorice.Base.{
  ℕ, ◌+◌, ◌%◌, ◌^◌, Option, none, some, List, [], ◌∷◌, ltb, ◌==◌, if◌then◌else◌, set, replicate,
}

-- `struct ip_arp_cache_slot`
pub record CacheSlot : Type 0 where
  pub ip : ℕ
  pub mac : List ℕ
  pub age : ℕ

-- `eii_arp_cache` and `eii_ip_arp_age` of `struct ethernet_ip_instance`.
pub record ArpCache : Type 0 where
  pub slots : List CacheSlot
  pub age : ℕ

-- The loop of `ip_arp_cache_add()`: the slot to write, from the slots at `i` and behind.
unfoldable pub oldest_slot : ℕ → List CacheSlot → ℕ → ℕ → ℕ → ℕ
oldest_slot ip [] i oldest old_age = oldest
oldest_slot ip (slot ∷ slots) i oldest old_age =
    let older = ltb slot.age old_age in
    let rest =
      oldest_slot ip slots (i + 1) (if older then i else oldest)
        (if older then slot.age else old_age) in
    if slot.ip == ip then i else rest

-- `ip_arp_cache_add()`
unfoldable pub ip_arp_cache_add : ArpCache → List ℕ → ℕ → ArpCache
unfolding oldest_slot
ip_arp_cache_add cache mac ip = record {
  slots =
      set cache.slots (oldest_slot ip cache.slots 0 0 0xffffffff)
        (record { ip = ip; mac = mac; age = cache.age });
  age = (cache.age + 1) % 2 ^ 32;
}

-- The loop of `ip_arp_cache_find()`: the hardware address, and the slots with the one that was found refreshed.
unfoldable pub find_slot : ℕ → ℕ → List CacheSlot → Option (List ℕ) × List CacheSlot
find_slot ip age [] = (none, [])
find_slot ip age (slot ∷ slots) =
    let rest = find_slot ip age slots in
    if slot.ip == ip
    then (some slot.mac, record slot { age = age } ∷ slots)
    else (rest.0, slot ∷ rest.1)

abbrev pub find_end : ArpCache → Option (List ℕ) × List CacheSlot → Option (List ℕ) × ArpCache
find_end cache (none, slots) = (none, cache)
find_end cache (some mac, slots) =
    (some mac, record { slots = slots; age = (cache.age + 1) % 2 ^ 32 })

-- `ip_arp_cache_find()`
unfoldable pub ip_arp_cache_find : ArpCache → ℕ → Option (List ℕ) × ArpCache
ip_arp_cache_find cache ip = find_end cache (find_slot ip cache.age cache.slots)

-- The cleared cache of `ethernet_ip_instance_alloc()`; `mac` is what the memory of a slot held.
abbrev pub cleared : List ℕ → ArpCache
cleared mac = record { slots = replicate 8 (record { ip = 0; mac = mac; age = 0 }); age = 1 }
