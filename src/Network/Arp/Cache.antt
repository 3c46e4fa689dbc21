-- ===== src/Network/Arp/Cache.antt =====
-- The ARP cache as a finite map from IPv4 addresses to MAC addresses.
use palmyra_os.Prelude.{
  ℕ, zero, suc, ◌+◌, ◌%◌, ◌^◌, ◌≤◌, ◌<◌, ◌≡◌, ◌≢◌, ◌⊎◌, inl, inr, refl, ap, ◌∙◌, true, false, not,
  ◌&&◌, Option, none, some, List, [], ◌∷◌, leb, ◌==◌, if◌then◌else◌, length, get_elem?, set, arith,
  length-set, Bool-cases, Option-cases, leb→le,
}
use native.Mathlib.Numerals.{add-one}
use palmyra_os.Network.Link.{Mac}
use palmyra_os.Network.Arp.{
  Arp, CacheEntry, max_cache_entries, find_slot, find_cache_entry, write_entry, add_cache_entry,
  clear_cache, usable_entry, invalidate, get_system_time, is_cache_entry_expired,
}

-- The map that the first `n` slots stand for.
unfoldable pub cached_in : ℕ → List CacheEntry → ℕ → Option Mac
cached_in zero cache ip = none
cached_in (suc n) [] ip = none
cached_in (suc n) (e ∷ cache) ip =
    if e.valid && e.ip_address == ip then some e.mac_address else cached_in n cache ip

abbrev pub cached : Arp → ℕ → Option Mac
cached a ip = cached_in a.cache_count a.cache ip

pub record IsValid (a : Arp) : Type 0 where
  pub capacity : length a.cache ≡ max_cache_entries
  pub count_in : a.cache_count ≤ max_cache_entries

-- What `find_slot` finds, entry by entry.
find_slot-none :
    (n : ℕ) (cache : List CacheEntry) (ip : ℕ)
    → find_slot n cache ip ≡ none
    → cached_in n cache ip ≡ none
unfolding find_slot cached_in
find_slot-none zero cache ip h = refl
find_slot-none (suc n) [] ip h = refl
find_slot-none (suc n) (e ∷ cache) ip h = ground (arith, find_slot-none n cache ip)

find_slot-some :
    (n : ℕ) (cache : List CacheEntry) (ip i : ℕ)
    → find_slot n cache ip ≡ some i
    → cached_in n cache ip ≢ none
unfolding find_slot cached_in
find_slot-some zero cache ip i h = cc
find_slot-some (suc n) [] ip i h = cc
find_slot-some (suc n) (e ∷ cache) ip zero h =
    ground (arith, λ (j : ℕ). find_slot-some n cache ip j)
find_slot-some (suc n) (e ∷ cache) ip (suc i) h = ground (arith, find_slot-some n cache ip i)

usable_slot :
    (n : ℕ) (cache : List CacheEntry) (ip : ℕ)
    → elim (find_slot n cache ip) [
      | none ↦ none
      | some i ↦ elim (get_elem? cache i) [
        | none ↦ none
        | some e ↦ if e.valid && not (is_cache_entry_expired e) then some e.mac_address else none
      ]
    ]
      ≡ cached_in n cache ip
unfolding find_slot cached_in is_cache_entry_expired
usable_slot zero cache ip = refl
usable_slot (suc n) [] ip = refl
usable_slot (suc n) (e ∷ cache) ip = ground (arith, usable_slot n cache ip)

-- Looking an address up answers what the map holds.
pub usable_entry-cached : (ip : ℕ) (a : Arp) → usable_entry ip a ≡ cached a ip
unfolding usable_entry find_cache_entry
usable_entry-cached ip a = usable_slot a.cache_count a.cache ip

module _ (ip : ℕ) (e : CacheEntry) (is_ip : e.ip_address ≡ ip) (ok : e.valid ≡ true) where
  -- A write to the slot that was found for `ip`.
  cached_in-set_found :
      (n : ℕ) (cache : List CacheEntry) (i q : ℕ)
      → find_slot n cache ip ≡ some i
      → cached_in n (set cache i e) q
        ≡ (if ip == q then some e.mac_address else cached_in n cache q)
  unfolding find_slot cached_in
  cached_in-set_found zero cache i q h = cc
  cached_in-set_found (suc n) [] i q h = cc
  cached_in-set_found (suc n) (c ∷ cache) zero q h = ground arith
  cached_in-set_found (suc n) (c ∷ cache) (suc i) q h =
      ground (arith, cached_in-set_found n cache i q)

  -- A write to the slot behind the last one in use.
  cached_in-set_end :
      (n : ℕ) (cache : List CacheEntry) (q : ℕ)
      → find_slot n cache ip ≡ none
      → n < length cache
      → cached_in (suc n) (set cache n e) q
        ≡ (if ip == q then some e.mac_address else cached_in n cache q)
  unfolding find_slot cached_in
  cached_in-set_end n [] q h l = absurd (omega arith)
  cached_in-set_end zero (c ∷ cache) q h l = ground arith
  cached_in-set_end (suc n) (c ∷ cache) q h l = ground (arith, cached_in-set_end n cache q)

length-invalidate : (n : ℕ) (cache : List CacheEntry) → length (invalidate n cache) ≡ length cache
unfolding invalidate
length-invalidate zero cache = refl
length-invalidate (suc n) [] = refl
length-invalidate (suc n) (e ∷ cache) = ap suc (length-invalidate n cache)

abbrev new_entry : ℕ → Mac → Arp → CacheEntry
new_entry ip mac a = record {
  ip_address = ip;
  mac_address = mac;
  timestamp = (a.dummy_time + 1) % 2 ^ 32;
  valid = true;
}

-- What `addCacheEntry` did when it answered true.
pub record Added (ip : ℕ) (mac : Mac) (a a' : Arp) : Type 0 where
  pub valid : IsValid a'
  pub map_changed : (q : ℕ) → cached a' q ≡ (if ip == q then some mac else cached a q)

module _ (ip : ℕ) (mac : Mac) (a : Arp) (v : IsValid a) where
  Added-found : (i : ℕ) → find_cache_entry ip a ≡ some i → Added ip mac a (write_entry i ip mac a)
  unfolding find_cache_entry write_entry get_system_time
  Added-found i h = record {
    valid = record {
      capacity = length-set a.cache i (new_entry ip mac a) ∙ v.capacity;
      count_in = v.count_in;
    };
    map_changed =
        λ q. cached_in-set_found ip (new_entry ip mac a) refl refl a.cache_count a.cache i q h;
  }

  Added-end :
      find_cache_entry ip a ≡ none
      → a.cache_count < max_cache_entries
      → Added ip mac a
          (record (write_entry a.cache_count ip mac a) { cache_count = a.cache_count + 1 })
  unfolding find_cache_entry write_entry get_system_time
  Added-end h l = record {
    valid = record {
      capacity = length-set a.cache a.cache_count (new_entry ip mac a) ∙ v.capacity;
      count_in = omega arith;
    };
    map_changed = λ q. rw add-one (
        cached_in-set_end ip (new_entry ip mac a) refl refl a.cache_count a.cache q h
          (omega (arith, v.capacity)));
  }

  add_off : a.initialized ≡ false → add_cache_entry ip (some mac) a ≡ (false, a)
  unfolding add_cache_entry
  add_off off = simp off

  add_found :
      (i : ℕ)
      → a.initialized ≡ true
      → find_cache_entry ip a ≡ some i
      → add_cache_entry ip (some mac) a ≡ (true, write_entry i ip mac a)
  unfolding add_cache_entry
  add_found i on found = simp (on, found)

  add_full :
      a.initialized ≡ true
      → find_cache_entry ip a ≡ none
      → leb max_cache_entries a.cache_count ≡ true
      → add_cache_entry ip (some mac) a ≡ (false, a)
  unfolding add_cache_entry
  add_full on free full = simp (on, free, full)

  add_end :
      a.initialized ≡ true
      → find_cache_entry ip a ≡ none
      → leb max_cache_entries a.cache_count ≡ false
      → add_cache_entry ip (some mac) a
        ≡ (true, record (write_entry a.cache_count ip mac a) { cache_count = a.cache_count + 1 })
  unfolding add_cache_entry
  add_end on free room = simp (on, free, room)

  -- `addCacheEntry` in a valid cache with a MAC address that is not null: it answers true and
  -- then the cache holds the new address for `ip` and for every other key what it held before;
  -- or it answers false and changes nothing, which happens exactly when the module is not
  -- initialised or when 32 entries are in use and `ip` has none.
  pub add_cache_entry_lem :
      (((add_cache_entry ip (some mac) a).0 ≡ true)
        × Added ip mac a (add_cache_entry ip (some mac) a).1
        × (a.initialized ≡ true)
        × ((cached a ip ≢ none) ⊎ (a.cache_count < max_cache_entries)))
      ⊎ ((add_cache_entry ip (some mac) a ≡ (false, a))
          × ((a.initialized ≡ false)
              ⊎ ((cached a ip ≡ none) × (a.cache_count ≡ max_cache_entries))))
  unfolding find_cache_entry
  add_cache_entry_lem = elim (Bool-cases a.initialized) [
    | inr off ↦ inr (add_off off, inl off)
    | inl on ↦ elim (Option-cases (find_cache_entry ip a)) [
      | inr (i, found) ↦ inl (
          rw (add_found i on found)
            (refl, Added-found i found, on, inl (find_slot-some _ _ _ i found)))
      | inl free ↦ elim (Bool-cases (leb max_cache_entries a.cache_count)) [
        | inl full ↦ inr (
          add_full on free full,
          inr (find_slot-none _ _ _ free, omega (arith, v.count_in, leb→le _ _ full)),
        )
        | inr room ↦ inl (
            rw (add_end on free room) (refl, Added-end free (ground arith), on, inr (ground arith)))
      ]
    ]
  ]

-- `clearCache` of an initialised module forgets every address.
cached-clear_cache :
    (a : Arp)
    → IsValid a
    → a.initialized ≡ true
    → IsValid (clear_cache a) × ((q : ℕ) → cached (clear_cache a) q ≡ none)
unfolding clear_cache cached_in
cached-clear_cache a v on = rw clear_on (
  record {
    capacity = length-invalidate a.cache_count a.cache ∙ v.capacity;
    count_in = omega arith;
  },
  λ q. refl,
)
  where
    clear_on :
        clear_cache a ≡ record a { cache = invalidate a.cache_count a.cache; cache_count = 0 }
    clear_on = simp on
