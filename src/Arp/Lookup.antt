-- ===== src/Arp/Lookup.antt =====
-- The cache as a map from addresses to hardware addresses.
use liquorice.Base.{
  ℕ, zero, suc, ◌+◌, ◌<◌, ◌≡◌, ◌≢◌, refl, ap, sym, ◌∙◌, Option, none, some, List, [], ◌∷◌, ltb,
  ◌==◌, if◌then◌else◌, set, get_or, length, arith, Bool-cases, Option-cases, inl, inr,
}
use mathlib.Core.Option
use liquorice.Arp.{
  CacheSlot, ArpCache, oldest_slot, ip_arp_cache_add, find_slot, find_end, ip_arp_cache_find,
}

-- The hardware address that the first slot of an address has.
abbrev pub mac_of : ℕ → List CacheSlot → Option (List ℕ)
mac_of ip [] = none
mac_of ip (slot ∷ slots) =
    let rest = mac_of ip slots in if slot.ip == ip then some slot.mac else rest

-- The loop of `ip_arp_cache_find()` looks up a map and changes none of its entries.
find_slot-mac_of :
    (ip age : ℕ) (slots : List CacheSlot) → (find_slot ip age slots).0 ≡ mac_of ip slots
unfolding find_slot
find_slot-mac_of ip age [] = refl
find_slot-mac_of ip age (slot ∷ slots) =
    let ih = find_slot-mac_of ip age slots in
    elim (Bool-cases (slot.ip == ip)) [ inl e ↦ rw e refl | inr e ↦ rw e ih ]

find_slot-keeps :
    (ip age q : ℕ) (slots : List CacheSlot) → mac_of q (find_slot ip age slots).1 ≡ mac_of q slots
unfolding find_slot
find_slot-keeps ip age q [] = refl
find_slot-keeps ip age q (slot ∷ slots) =
    let ih = find_slot-keeps ip age q slots in
    elim (Bool-cases (slot.ip == ip)) [ inl e ↦ rw e refl | inr e ↦ rw e (rw ih refl) ]

find_end-mac_of :
    (cache : ArpCache) (q : ℕ) (found : Option (List ℕ) × List CacheSlot)
    → mac_of q found.1 ≡ mac_of q cache.slots
    → ((find_end cache found).0 ≡ found.0)
      × (mac_of q (find_end cache found).1.slots ≡ mac_of q cache.slots)
find_end-mac_of cache q (none, slots) e = (refl, refl)
find_end-mac_of cache q (some mac, slots) e = (refl, e)

-- Looking an address up gives the entry of the map, and leaves the map as it was.
pub ip_arp_cache_find-mac_of :
    (cache : ArpCache) (ip q : ℕ)
    → ((ip_arp_cache_find cache ip).0 ≡ mac_of ip cache.slots)
      × (mac_of q (ip_arp_cache_find cache ip).1.slots ≡ mac_of q cache.slots)
unfolding ip_arp_cache_find
ip_arp_cache_find-mac_of cache ip q =
    let (same, keeps) =
      find_end-mac_of cache q (find_slot ip cache.age cache.slots)
        (find_slot-keeps ip cache.age q cache.slots) in
    (same ∙ find_slot-mac_of ip cache.age cache.slots, keeps)

-- The first slot of an address.
abbrev pub index_of : ℕ → List CacheSlot → Option ℕ
index_of ip [] = none
index_of ip (slot ∷ slots) =
    let rest = Option.map suc (index_of ip slots) in if slot.ip == ip then some 0 else rest

unmap_suc :
    (o : Option ℕ) (k : ℕ) → Option.map suc o ≡ some k → (j : ℕ) × ((o ≡ some j) × (k ≡ suc j))
unmap_suc none k e = cc
unmap_suc (some j) k e = (j, (refl, cc))

pub unmap_none : (o : Option ℕ) → Option.map suc o ≡ none → o ≡ none
unmap_none none e = refl
unmap_none (some j) e = cc

-- The loop of `ip_arp_cache_add()` stops at the first slot of the address.
oldest_slot-index_of :
    (ip : ℕ) (slots : List CacheSlot) (i oldest old_age k : ℕ)
    → index_of ip slots ≡ some k
    → oldest_slot ip slots i oldest old_age ≡ i + k
unfolding oldest_slot
oldest_slot-index_of ip [] i oldest old_age k e = cc
oldest_slot-index_of ip (slot ∷ slots) i oldest old_age k e =
    let older = ltb slot.age old_age in
    let ih =
      oldest_slot-index_of ip slots (i + 1) (if older then i else oldest)
        (if older then slot.age else old_age) in
    elim (Bool-cases (slot.ip == ip)) [
      | inl s ↦ let e' : some 0 ≡ some k = rw s at e in let z : k ≡ 0 = cc in rw s (omega arith)
      | inr s ↦
          let e' : Option.map suc (index_of ip slots) ≡ some k = rw s at e in
          let (j, (there, next)) = unmap_suc (index_of ip slots) k e' in
          rw s (omega (arith, ih j there))
    ]

-- The slot that is written is one of the slots.
pub oldest_slot-bound :
    (ip : ℕ) (slots : List CacheSlot) (i oldest old_age : ℕ)
    → oldest < i + length slots
    → oldest_slot ip slots i oldest old_age < i + length slots
unfolding oldest_slot
oldest_slot-bound ip [] i oldest old_age h = h
oldest_slot-bound ip (slot ∷ slots) i oldest old_age h =
    let older = ltb slot.age old_age in
    let ih =
      oldest_slot-bound ip slots (i + 1) (if older then i else oldest)
        (if older then slot.age else old_age) in
    elim (Bool-cases (slot.ip == ip)) [
      | inl e ↦ rw e (omega arith)
      | inr e ↦ rw e (elim (Bool-cases older) [
        | inl o ↦ let h' = rw o at ih in rw o (omega (arith, h' (omega arith)))
        | inr o ↦ let h' = rw o at ih in rw o (omega (arith, h' (omega arith)))
      ])
    ]

-- Writing a slot sets the entry of the address.
set_hit :
    (slots : List CacheSlot) (k : ℕ) (new : CacheSlot)
    → index_of new.ip slots ≡ some k
    → mac_of new.ip (set slots k new) ≡ some new.mac
set_hit [] k new e = cc
set_hit (slot ∷ slots) zero new e = ground arith
set_hit (slot ∷ slots) (suc k) new e = elim (Bool-cases (slot.ip == new.ip)) [
  | inl s ↦ let e' : some 0 ≡ some (suc k) = rw s at e in cc
  | inr s ↦
      let e' : Option.map suc (index_of new.ip slots) ≡ some (suc k) = rw s at e in
      let (j, (there, next)) = unmap_suc (index_of new.ip slots) (suc k) e' in
      let there' : index_of new.ip slots ≡ some k = there ∙ ap some (omega arith) in
      rw s (set_hit slots k new there')
]

set_miss :
    (slots : List CacheSlot) (k : ℕ) (new : CacheSlot)
    → index_of new.ip slots ≡ none
    → k < length slots
    → mac_of new.ip (set slots k new) ≡ some new.mac
set_miss [] k new e h = absurd (omega arith)
set_miss (slot ∷ slots) zero new e h = ground arith
set_miss (slot ∷ slots) (suc k) new e h = elim (Bool-cases (slot.ip == new.ip)) [
  | inl s ↦ let e' : some 0 ≡ none = rw s at e in absurd (cc)
  | inr s ↦
      let e' : Option.map suc (index_of new.ip slots) ≡ none = rw s at e in
      rw s (set_miss slots k new (unmap_none (index_of new.ip slots) e') (omega arith))
]

-- ... and keeps the others, but the one that the slot had.
set_other :
    (slots : List CacheSlot) (k q : ℕ) (new d : CacheSlot)
    → new.ip ≢ q
    → (get_or slots k d).ip ≢ q
    → mac_of q (set slots k new) ≡ mac_of q slots
set_other [] k q new d n o = refl
set_other (slot ∷ slots) zero q new d n o = ground arith
set_other (slot ∷ slots) (suc k) q new d n o = ground (arith, set_other slots k q new d n o)

-- The slot that is written for an address.
abbrev pub victim : ArpCache → ℕ → ℕ
victim cache ip = oldest_slot ip cache.slots 0 0 0xffffffff

-- What is added is found.
pub ip_arp_cache_add-mac_of :
    (cache : ArpCache) (mac : List ℕ) (ip : ℕ)
    → 0 < length cache.slots
    → mac_of ip (ip_arp_cache_add cache mac ip).slots ≡ some mac
unfolding ip_arp_cache_add
ip_arp_cache_add-mac_of cache mac ip h =
    let new : CacheSlot = record { ip = ip; mac = mac; age = cache.age } in
    elim (Option-cases (index_of ip cache.slots)) [
      | inl e ↦
          set_miss cache.slots (victim cache ip) new e
            (omega (arith, oldest_slot-bound ip cache.slots 0 0 0xffffffff))
      | inr (k, e) ↦
          let first : victim cache ip ≡ k =
            omega (arith, oldest_slot-index_of ip cache.slots 0 0 0xffffffff k e) in
          set_hit cache.slots (victim cache ip) new (e ∙ ap some (sym first))
    ]

index_of-get_or :
    (ip k : ℕ) (slots : List CacheSlot) (d : CacheSlot)
    → index_of ip slots ≡ some k
    → (get_or slots k d).ip ≡ ip
index_of-get_or ip k [] d e = cc
index_of-get_or ip zero (slot ∷ slots) d e = elim (Bool-cases (slot.ip == ip)) [
  | inl s ↦ ground arith
  | inr s ↦
      let e' : Option.map suc (index_of ip slots) ≡ some 0 = rw s at e in
      let (j, (there, next)) = unmap_suc (index_of ip slots) 0 e' in absurd (omega arith)
]
index_of-get_or ip (suc k) (slot ∷ slots) d e = elim (Bool-cases (slot.ip == ip)) [
  | inl s ↦ let e' : some 0 ≡ some (suc k) = rw s at e in cc
  | inr s ↦
      let e' : Option.map suc (index_of ip slots) ≡ some (suc k) = rw s at e in
      let (j, (there, next)) = unmap_suc (index_of ip slots) (suc k) e' in
      index_of-get_or ip k slots d (there ∙ ap some (omega arith))
]

-- The slot that an address is written to, as it was. `mac` stands in for a slot that there is not.
abbrev pub evicted : ArpCache → List ℕ → ℕ → CacheSlot
evicted cache mac ip =
    get_or cache.slots (victim cache ip) (record { ip = ip; mac = mac; age = cache.age })

add_other :
    (cache : ArpCache) (mac : List ℕ) (ip q : ℕ)
    → ip ≢ q
    → (evicted cache mac ip).ip ≢ q
    → mac_of q (ip_arp_cache_add cache mac ip).slots ≡ mac_of q cache.slots
unfolding ip_arp_cache_add
add_other cache mac ip q other kept =
    let new : CacheSlot = record { ip = ip; mac = mac; age = cache.age } in
    set_other cache.slots (victim cache ip) q new new other kept

-- Adding an address that has an entry evicts no other.
pub evicted-index_of :
    (cache : ArpCache) (mac : List ℕ) (ip k : ℕ)
    → index_of ip cache.slots ≡ some k
    → (evicted cache mac ip).ip ≡ ip
evicted-index_of cache mac ip k e =
    let new : CacheSlot = record { ip = ip; mac = mac; age = cache.age } in
    let first : victim cache ip ≡ k =
      omega (arith, oldest_slot-index_of ip cache.slots 0 0 0xffffffff k e) in
    index_of-get_or ip (victim cache ip) cache.slots new (e ∙ ap some (sym first))

-- Adding an address with its hardware address to a cache that has slots, and looking it up, gives the hardware
-- address; every other address has the entry that it had, unless that stood in the slot that was written.
pub ip_arp_cache_add-find :
    (cache : ArpCache) (mac : List ℕ) (ip q : ℕ)
    → 0 < length cache.slots
    → ip ≢ q
    → (evicted cache mac ip).ip ≢ q
    → ((ip_arp_cache_find (ip_arp_cache_add cache mac ip) ip).0 ≡ some mac)
      × ((ip_arp_cache_find (ip_arp_cache_add cache mac ip) q).0 ≡ (ip_arp_cache_find cache q).0)
ip_arp_cache_add-find cache mac ip q h other kept =
    let added = ip_arp_cache_add cache mac ip in
    (
      (ip_arp_cache_find-mac_of added ip ip).0 ∙ ip_arp_cache_add-mac_of cache mac ip h,
      (ip_arp_cache_find-mac_of added q q).0
          ∙ (add_other cache mac ip q other kept ∙ sym (ip_arp_cache_find-mac_of cache q q).0),
    )
