-- ===== src/Files/Fat32/Refine.antt =====
-- The operations on the disk against their specification on the table as a map.
use palmyra_os.Prelude.{
  ℕ, zero, suc, ◌+◌, ◌-◌, ◌*◌, ◌/◌, ◌%◌, ◌^◌, ◌≤◌, ◌<◌, ◌≡◌, ◌≢◌, ◌⊎◌, ◌↔◌, inl, inr, refl, ap, sym,
  ◌∙◌, true, false, ◌||◌, Option, none, some, arith, ltb, leb, ◌==◌, if◌then◌else◌, Bool-cases,
  ==→ne,
}
use palmyra_os.Files.VirtualDisk.{Sector, Disk, read_sector, get_uint32, put_uint32}
use palmyra_os.Files.Partition.{Partition}
use palmyra_os.Files.Fat32.{
  chain_end, standardise, parse_entry, parse_next_cluster, store_entry, write_entry,
  get_next_cluster, write_copies, set_next_cluster, calculate_fat_offset, scan_clusters,
  allocate_cluster, fat_sector, entry_offset, write_stored,
}
use palmyra_os.Files.Fat32.Entries.{
  IsFat, table_start, get-put, get-put_elsewhere, row-lt, copy-lt, fat_sector_lem, entry_offset_lem,
  same_row,
}
use palmyra_os.Files.Fat32.Table.{
  update, entry_at, Works, Represents, Works-SameDrive, read_sector-Works, Copied,
  Copied-write_copies,
}

module _ {p : Partition} (f : IsFat p) where
  pub calculate_fat_offset_lem :
      (c : ℕ)
      → c < p.count_clusters
      → calculate_fat_offset c p ≡ (table_start p + c / 128, 4 * (c % 128))
  unfolding calculate_fat_offset
  calculate_fat_offset_lem c l = rw (fat_sector_lem p f c l, entry_offset_lem p f c l) refl

  -- The row of a cluster is read.
  pub read_row :
      {d : Disk}
      → Works p d
      → (c : ℕ) → c < p.count_clusters
      → read_sector (table_start p + c / 128) d ≡ some (d.sectors (table_start p + c / 128))
  read_row w c l =
      read_sector-Works w (c / 128)
        (omega (arith, copy-lt p.count_fats 0 (c / 128) p.fat_size f.some_copy (row-lt p f c l)))

  first_copy :
      {t : ℕ → ℕ} {d : Disk}
      → Represents p t d
      → (c : ℕ) → c < p.count_clusters
      → get_uint32 (d.sectors (table_start p + c / 128)) (4 * (c % 128)) % 2 ^ 28 ≡ t c
  first_copy {t} {d} r c l =
      ap (λ i. get_uint32 (d.sectors (table_start p + i)) (4 * (c % 128)) % 2 ^ 28)
        (let e : c / 128 ≡ 0 * p.fat_size + c / 128 = omega arith in e)
      ∙ r.entries 0 c f.some_copy l

  pub get_next_cluster-Represents :
      {t : ℕ → ℕ} {d : Disk}
      → Represents p t d
      → (c : ℕ) → c < p.count_clusters
      → get_next_cluster c p d ≡ some (standardise chain_end (t c))
  unfolding get_next_cluster parse_next_cluster parse_entry palmyra_os.Files.Fat32.parse_read
  get_next_cluster-Represents r c l =
      rw (let e : leb p.count_clusters c ≡ false = ground arith in e) (
        rw (calculate_fat_offset_lem c l)
          (rw (read_row r.works c l) (rw (f.of_fat32) (rw (first_copy r c l) refl))))

  -- The row of a cluster after its entry was stored
  abbrev stored : Disk → ℕ → ℕ → Sector
  stored d c v = put_uint32 (4 * (c % 128)) (v % 2 ^ 28) (d.sectors (table_start p + c / 128))

  set_next_cluster-copies :
      {d : Disk}
      → Works p d
      → (c v : ℕ) → 2 ≤ c
      → c < p.count_clusters
      → set_next_cluster c v p d
        ≡ some (write_copies p.count_fats 0 (table_start p + c / 128) (stored d c v) p d)
  unfolding set_next_cluster store_entry write_entry write_stored
  set_next_cluster-copies w c v h l =
      rw (let e : (ltb c 2 || leb p.count_clusters c) ≡ false = ground arith in e)
        (rw (calculate_fat_offset_lem c l) (rw (read_row w c l) (rw (f.of_fat32) refl)))

  entry-stored :
      {t : ℕ → ℕ} {d d' : Disk} (c v : ℕ)
      → c < p.count_clusters
      → Represents p t d
      → Copied p 0 p.count_fats (c / 128) (stored d c v) d d'
      → (k x : ℕ) → k < p.count_fats
      → x < p.count_clusters
      → entry_at p d' k x ≡ update c (v % 2 ^ 28) t x
  entry-stored {t} {d} {d'} c v l r w k x kl xl = elim (Bool-cases (c / 128 == x / 128)) [
    | inl h ↦
        let same_rows : x / 128 ≡ c / 128 = ground arith in
        let row : entry_at p d' k x ≡ get_uint32 (stored d c v) (4 * (x % 128)) % 2 ^ 28 =
          ap
            (λ i.
              get_uint32 (d'.sectors (table_start p + (k * p.fat_size + i))) (4 * (x % 128))
              % 2 ^ 28)
            same_rows
          ∙ ap (λ (s : Sector). get_uint32 s (4 * (x % 128)) % 2 ^ 28)
              (w.same k (omega arith) (omega arith)) in
        row ∙ elim (Bool-cases (c % 128 == x % 128)) [
          | inl g ↦
              let same_places : 4 * (x % 128) ≡ 4 * (c % 128) = ground arith in
              ap (λ i. get_uint32 (stored d c v) i % 2 ^ 28) same_places
              ∙ ap (λ i. i % 2 ^ 28)
                  (get-put (4 * (c % 128)) (v % 2 ^ 28) (d.sectors (table_start p + c / 128))
                    (omega arith))
              ∙ ground arith
          | inr g ↦
              ap (λ i. i % 2 ^ 28)
                (get-put_elsewhere (4 * (c % 128)) (4 * (x % 128)) (v % 2 ^ 28)
                  (d.sectors (table_start p + c / 128)) (ground arith))
              ∙ ap (λ i. get_uint32 (d.sectors (table_start p + i)) (4 * (x % 128)) % 2 ^ 28)
                  (sym same_rows)
              ∙ first_copy r x xl
              ∙ ground arith
        ]
    | inr h ↦
        ap (λ (s : Sector). get_uint32 s (4 * (x % 128)) % 2 ^ 28)
          (w.other (table_start p + (k * p.fat_size + x / 128)) (λ j a b e. ==→ne _ _ h (
            same_row j k (c / 128) (x / 128) p.fat_size (row-lt p f c l) (row-lt p f x xl)
              (omega arith))))
        ∙ r.entries k x kl xl
        ∙ ground arith
  ]

  pub set_next_cluster-Represents :
      {t : ℕ → ℕ} {d : Disk} (c v : ℕ)
      → Represents p t d
      → 2 ≤ c
      → c < p.count_clusters
      → (d' : Disk) × (set_next_cluster c v p d ≡ some (true, d'))
        × Represents p (update c (v % 2 ^ 28) t) d'
  set_next_cluster-Represents {t} {d} c v r h l =
      let w =
        Copied-write_copies p f (c / 128) (stored d c v) (row-lt p f c l) p.count_fats 0 d r.works
          (omega arith) in
      (
        w.0,
        set_next_cluster-copies r.works c v h l ∙ ap some w.1,
        record { works = Works-SameDrive w.2.drive r.works; entries = entry-stored c v l r w.2 },
      )

  -- A panic of one call: the cluster is out of range.
  pub get_next_cluster-out :
      (d : Disk) (c : ℕ) → p.count_clusters ≤ c → get_next_cluster c p d ≡ none
  unfolding get_next_cluster
  get_next_cluster-out d c l = rw (let e : leb p.count_clusters c ≡ true = ground arith in e) refl

  pub set_next_cluster-out :
      (d : Disk) (c v : ℕ) → (c < 2) ⊎ (p.count_clusters ≤ c) → set_next_cluster c v p d ≡ none
  unfolding set_next_cluster
  set_next_cluster-out d c v h =
      rw (let e : (ltb c 2 || leb p.count_clusters c) ≡ true = ground arith in e) refl

-- The first of `n` clusters from `c` on whose entry is 0
abbrev pub first_free_cluster : ℕ → ℕ → (ℕ → ℕ) → Option ℕ
first_free_cluster zero c t = none
first_free_cluster (suc n) c t = if t c == 0 then some c else first_free_cluster n (c + 1) t

-- The allocation as the table's
abbrev pub taken : Option ℕ → (ℕ → ℕ) → ℕ → ℕ
taken none t = t
taken (some c) t = update c 0x0FFFFFFF t

standardise-zero : (v : ℕ) → (standardise chain_end v ≡ 0) ↔ (v ≡ 0)
standardise-zero v = ground arith

module _ {p : Partition} (f : IsFat p) where
  scan-found :
      (d d' : Disk) (n c : ℕ)
      → get_next_cluster c p d ≡ some 0
      → set_next_cluster c 0x0FFFFFFF p d ≡ some (true, d')
      → scan_clusters (suc n) c p d ≡ some (some c, d')
  unfolding scan_clusters palmyra_os.Files.Fat32.allocated
  scan-found d d' n c e g = rw (e, scan_clusters) (rw g refl)

  scan-used :
      (d : Disk) (n c k : ℕ)
      → get_next_cluster c p d ≡ some (suc k)
      → scan_clusters (suc n) c p d ≡ scan_clusters n (c + 1) p d
  unfolding scan_clusters
  scan-used d n c k e = rw (e, scan_clusters) refl

  scan-Represents :
      {t : ℕ → ℕ} {d : Disk}
      → Represents p t d
      → (n c : ℕ) → 2 ≤ c
      → c + n ≤ p.count_clusters
      → (d' : Disk) × (scan_clusters n c p d ≡ some (first_free_cluster n c t, d'))
        × Represents p (taken (first_free_cluster n c t) t) d'
  unfolding scan_clusters
  scan-Represents {t} {d} r zero c h l = (d, refl, r)
  scan-Represents {t} {d} r (suc n) c h l =
      let next = get_next_cluster-Represents f r c (omega arith) in
      elim (Bool-cases (t c == 0)) [
        | inl z ↦
            let marked = set_next_cluster-Represents f c 0x0FFFFFFF r h (omega arith) in
            let unused : standardise chain_end (t c) ≡ 0 = ground arith in
            (
              marked.0,
              rw z (scan-found d marked.0 n c (next ∙ ap some unused) marked.1),
              rw z marked.2,
            )
        | inr z ↦
            let k = used (t c) (ground arith) in
            let rest = scan-Represents r n (c + 1) (omega arith) (omega arith) in
            (rest.0, rw z (scan-used d n c k.0 (next ∙ ap some k.1) ∙ rest.1), rw z rest.2)
      ]
    where
      used : (v : ℕ) → v ≢ 0 → (k : ℕ) × (standardise chain_end v ≡ suc k)
      used v n = (standardise chain_end v - 1, ground arith)

  pub allocate_cluster-Represents :
      {t : ℕ → ℕ} {d : Disk}
      → Represents p t d
      → let found = first_free_cluster (p.count_clusters - p.root_cluster) p.root_cluster t in
        (d' : Disk) × (allocate_cluster p d ≡ some (found, d')) × Represents p (taken found t) d'
  unfolding allocate_cluster scan_clusters
  allocate_cluster-Represents {t} {d} r = elim (Bool-cases (leb p.root_cluster p.count_clusters)) [
    | inl h ↦
        scan-Represents r (p.count_clusters - p.root_cluster) p.root_cluster f.root_in_data
          (ground arith)
    | inr h ↦ rw (let e : p.count_clusters - p.root_cluster ≡ 0 = ground arith in e) (d, refl, r)
  ]
