-- ===== src/Arp/Recency.antt =====
-- Ages: which slot is given up, and which were used last.
use liquorice.Base.{
  ℕ, zero, suc, ◌+◌, ◌%◌, ◌^◌, ◌≤◌, ◌<◌, ◌≡◌, refl, sym, subst, Option, none, some, List, [], ◌∷◌,
  ltb, ◌==◌, set, get_or, length, All, arith, Bool-cases, inl, inr, ◌⊎◌,
}
use mathlib.Core.Option
use liquorice.Arp.{
  CacheSlot, ArpCache, oldest_slot, ip_arp_cache_add, find_slot, find_end, ip_arp_cache_find,
}
use liquorice.Arp.Lookup.{index_of, unmap_none, victim, evicted}

abbrev pub NoOlder : ℕ → List CacheSlot → Type 0
NoOlder age slots = All (λ slot. age ≤ slot.age) slots

NoOlder-le : (a b : ℕ) (slots : List CacheSlot) → a ≤ b → NoOlder b slots → NoOlder a slots
NoOlder-le a b [] h n = tt
NoOlder-le a b (slot ∷ slots) h (here, n) = (omega arith, NoOlder-le a b slots h n)

-- Where the loop of `ip_arp_cache_add()` ends when no slot has the address: the best slot up to its start, or
-- one behind that is older. `d` stands in for a slot that there is not.
abbrev Oldest : CacheSlot → ℕ → List CacheSlot → ℕ → ℕ → ℕ → Type 0
Oldest d found slots i oldest old_age =
    ((found ≡ oldest) × NoOlder old_age slots)
    ⊎ ((j : ℕ) × ((found ≡ i + j)
          × (((get_or slots j d).age ≤ old_age) × NoOlder (get_or slots j d).age slots)))

Oldest-found :
    (d slot : CacheSlot) (slots : List CacheSlot) (i oldest old_age found : ℕ)
    → slot.age < old_age
    → Oldest d found slots (i + 1) i slot.age
    → Oldest d found (slot ∷ slots) i oldest old_age
Oldest-found d slot slots i oldest old_age found h (inl (e, n)) =
    inr (0, (omega arith, (omega arith, (omega arith, n))))
Oldest-found d slot slots i oldest old_age found h (inr (j, (e, (le, n)))) =
    inr (suc j, (omega arith, (omega arith, (le, n))))

Oldest-kept :
    (d slot : CacheSlot) (slots : List CacheSlot) (i oldest old_age found : ℕ)
    → old_age ≤ slot.age
    → Oldest d found slots (i + 1) oldest old_age
    → Oldest d found (slot ∷ slots) i oldest old_age
Oldest-kept d slot slots i oldest old_age found h (inl (e, n)) = inl (e, (h, n))
Oldest-kept d slot slots i oldest old_age found h (inr (j, (e, (le, n)))) =
    inr (suc j, (omega arith, (le, (omega arith, n))))

-- The loop ends at a slot of the least age.
oldest_slot-Oldest :
    (d : CacheSlot) (ip : ℕ) (slots : List CacheSlot) (i oldest old_age : ℕ)
    → index_of ip slots ≡ none
    → Oldest d (oldest_slot ip slots i oldest old_age) slots i oldest old_age
unfolding oldest_slot
oldest_slot-Oldest d ip [] i oldest old_age e = inl (refl, tt)
oldest_slot-Oldest d ip (slot ∷ slots) i oldest old_age e =
    let ih = oldest_slot-Oldest d ip slots (i + 1) in
    elim (Bool-cases (slot.ip == ip)) [
      | inl s ↦ let e' : some 0 ≡ none = rw s at e in absurd (cc)
      | inr s ↦
          let e' : Option.map suc (index_of ip slots) ≡ none = rw s at e in
          let none' = unmap_none (index_of ip slots) e' in
          elim (Bool-cases (ltb slot.age old_age)) [
            | inl o ↦
                rw s rw o (
                  Oldest-found d slot slots i oldest old_age _ (ground arith) (ih i slot.age none'))
            | inr o ↦ rw s rw o (
                Oldest-kept d slot slots i oldest old_age _ (ground arith)
                  (ih oldest old_age none'))
          ]
    ]

least :
    (d : CacheSlot) (found : ℕ) (slots : List CacheSlot)
    → 0 < length slots
    → All (λ slot. slot.age < 2 ^ 32) slots
    → Oldest d found slots 0 0 0xffffffff
    → NoOlder (get_or slots found d).age slots
least d found (slot ∷ slots) h (b, bound) (inl (e, n)) =
    subst (λ k. NoOlder (get_or (slot ∷ slots) k d).age (slot ∷ slots)) (sym e)
      (NoOlder-le slot.age 0xffffffff (slot ∷ slots) (omega arith) n)
least d found [] h bound o = absurd (omega arith)
least d found (slot ∷ slots) h bound (inr (j, (e, (le, n)))) =
    let e' : j ≡ found = omega arith in
    subst (λ k. NoOlder (get_or (slot ∷ slots) k d).age (slot ∷ slots)) e' n

-- An address that has no slot is written to one of the least age, where ages are words of 32 bits.
pub evicted-NoOlder :
    (cache : ArpCache) (mac : List ℕ) (ip : ℕ)
    → 0 < length cache.slots
    → All (λ slot. slot.age < 2 ^ 32) cache.slots
    → index_of ip cache.slots ≡ none
    → NoOlder (evicted cache mac ip).age cache.slots
evicted-NoOlder cache mac ip h bound e =
    let d : CacheSlot = record { ip = ip; mac = mac; age = cache.age } in
    least d (victim cache ip) cache.slots h bound
      (oldest_slot-Oldest d ip cache.slots 0 0 0xffffffff e)

-- Every slot was used before now.
abbrev pub IsPast : ArpCache → Type 0
IsPast cache = All (λ slot. slot.age < cache.age) cache.slots

past_later :
    (slots : List CacheSlot) (age : ℕ)
    → All (λ slot. slot.age < age) slots
    → All (λ slot. slot.age < age + 1) slots
past_later [] age p = tt
past_later (slot ∷ slots) age (here, p) = (omega arith, past_later slots age p)

later-set :
    (slots : List CacheSlot) (k age : ℕ) (new : CacheSlot)
    → new.age ≡ age
    → All (λ slot. slot.age < age) slots
    → All (λ slot. slot.age < age + 1) (set slots k new)
later-set [] k age new e p = tt
later-set (slot ∷ slots) zero age new e (here, p) = (omega arith, past_later slots age p)
later-set (slot ∷ slots) (suc k) age new e (here, p) = (omega arith, later-set slots k age new e p)

later-find_slot :
    (ip age : ℕ) (slots : List CacheSlot)
    → All (λ slot. slot.age < age) slots
    → All (λ slot. slot.age < age + 1) (find_slot ip age slots).1
unfolding find_slot
later-find_slot ip age [] p = tt
later-find_slot ip age (slot ∷ slots) (here, p) =
    let ih = later-find_slot ip age slots p in
    elim (Bool-cases (slot.ip == ip)) [
      | inl e ↦ rw e (omega arith, past_later slots age p)
      | inr e ↦ rw e (omega arith, ih)
    ]

find_end-IsPast :
    (cache : ArpCache) (found : Option (List ℕ) × List CacheSlot)
    → cache.age + 1 < 2 ^ 32
    → IsPast cache
    → All (λ slot. slot.age < cache.age + 1) found.1
    → IsPast (find_end cache found).1
find_end-IsPast cache (none, slots) h p q = p
find_end-IsPast cache (some mac, slots) h p q =
    let next : cache.age + 1 ≡ (cache.age + 1) % 2 ^ 32 = omega arith in
    subst (λ n. All (λ slot. slot.age < n) slots) next q

-- Until the counter wraps, it stays above the age of every slot, so that the slot which is added or found has the
-- greatest age.
pub ip_arp_cache-IsPast :
    (cache : ArpCache) (mac : List ℕ) (ip : ℕ)
    → cache.age + 1 < 2 ^ 32
    → IsPast cache
    → IsPast (ip_arp_cache_add cache mac ip) × IsPast (ip_arp_cache_find cache ip).1
unfolding ip_arp_cache_add ip_arp_cache_find
ip_arp_cache-IsPast cache mac ip h p =
    let next : cache.age + 1 ≡ (cache.age + 1) % 2 ^ 32 = omega arith in
    let new : CacheSlot = record { ip = ip; mac = mac; age = cache.age } in
    (
      subst (λ n. All (λ slot. slot.age < n) (set cache.slots (victim cache ip) new)) next
          (later-set cache.slots (victim cache ip) cache.age new refl p),
      find_end-IsPast cache (find_slot ip cache.age cache.slots) h p
          (later-find_slot ip cache.age cache.slots p),
    )
