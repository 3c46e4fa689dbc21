-- ===== src/Files/Fat32/Table.antt =====
-- The table as a map from clusters to entries, and when a disk holds one.
use palmyra_os.Prelude.{
  ℕ, zero, suc, ◌+◌, ◌*◌, ◌/◌, ◌%◌, ◌^◌, ◌≤◌, ◌<◌, ◌≡◌, ◌≢◌, inl, inr, refl, ap, ◌∙◌, true, ◌&&◌,
  some, arith, ◌==◌, if◌then◌else◌, Bool-cases,
}
use palmyra_os.Files.VirtualDisk.{
  Sector, Disk, is_valid_sector, read_sector, write_sector, written, get_uint32,
}
use palmyra_os.Files.Partition.{Partition}
use palmyra_os.Files.Fat32.{write_copies}
use palmyra_os.Files.Fat32.Entries.{IsFat, table_start, copy-lt, copies-le}

abbrev pub update : ℕ → ℕ → (ℕ → ℕ) → ℕ → ℕ
update c v t = λ x. if c == x then v else t x

-- The entry of a cluster in copy `k` of the table
abbrev pub entry_at : Partition → Disk → ℕ → ℕ → ℕ
entry_at p d k c =
    get_uint32 (d.sectors (table_start p + (k * p.fat_size + c / 128))) (4 * (c % 128)) % 2 ^ 28

-- The drive reads and writes the sectors of the copies.
pub record Works (p : Partition) (d : Disk) : Type 0 where
  pub reads :
      (i : ℕ)
      → i < p.count_fats * p.fat_size
      → (is_valid_sector (table_start p + i) d && d.reads (table_start p + i)) ≡ true
  pub writes :
      (i : ℕ)
      → i < p.count_fats * p.fat_size
      → (is_valid_sector (table_start p + i) d && d.writes (table_start p + i)) ≡ true

-- All copies hold the table `t`.
pub record Represents (p : Partition) (t : ℕ → ℕ) (d : Disk) : Type 0 where
  pub works : Works p d
  pub entries : (k c : ℕ) → k < p.count_fats → c < p.count_clusters → entry_at p d k c ≡ t c

-- Two disks with the same drive
pub record SameDrive (d d' : Disk) : Type 0 where
  pub reads : d'.reads ≡ d.reads
  pub writes : d'.writes ≡ d.writes
  pub start_sector : d'.start_sector ≡ d.start_sector
  pub count_sectors : d'.count_sectors ≡ d.count_sectors

pub Works-SameDrive : {p : Partition} {d d' : Disk} → SameDrive d d' → Works p d → Works p d'
unfolding is_valid_sector
Works-SameDrive e w = record {
  reads = λ i l. rw (e.reads, e.start_sector, e.count_sectors) (w.reads i l);
  writes = λ i l. rw (e.writes, e.start_sector, e.count_sectors) (w.writes i l);
}

pub read_sector-Works :
    {p : Partition} {d : Disk} (w : Works p d) (i : ℕ)
    → i < p.count_fats * p.fat_size
    → read_sector (table_start p + i) d ≡ some (d.sectors (table_start p + i))
unfolding read_sector
read_sector-Works w i l = rw (w.reads i l) refl

write_sector-Works :
    {p : Partition} {d : Disk} (w : Works p d) (s : Sector) (i : ℕ)
    → i < p.count_fats * p.fat_size
    → write_sector (table_start p + i) s d ≡ some (written (table_start p + i) s d)
unfolding write_sector
write_sector-Works w s i l = rw (w.writes i l) refl

-- The row `q` holds `s` in the copies from `k` on, and no other sector changed.
pub record Copied (p : Partition) (k m q : ℕ) (s : Sector) (d d' : Disk) : Type 0 where
  pub drive : SameDrive d d'
  pub same : (j : ℕ) → k ≤ j → j < k + m → d'.sectors (table_start p + (j * p.fat_size + q)) ≡ s
  pub other :
      (i : ℕ)
      → ((j : ℕ) → k ≤ j → j < k + m → i ≢ table_start p + (j * p.fat_size + q))
      → d'.sectors i ≡ d.sectors i

SameDrive-written :
    (i : ℕ) (s : Sector) {d d' : Disk} → SameDrive (written i s d) d' → SameDrive d d'
SameDrive-written i s e = record {
  reads = e.reads;
  writes = e.writes;
  start_sector = e.start_sector;
  count_sectors = e.count_sectors;
}

module _ (p : Partition) (f : IsFat p) (q : ℕ) (s : Sector) (l : q < p.fat_size) where
  abbrev place : ℕ → ℕ
  place k = table_start p + (k * p.fat_size + q)

  write_copies-one :
      (m k : ℕ) (d : Disk)
      → Works p d
      → k + suc m ≡ p.count_fats
      → write_copies (suc m) k (table_start p + q) s p d
        ≡ write_copies m (k + 1) (table_start p + q) s p (written (place k) s d)
  unfolding write_copies
  write_copies-one m k d w e =
      let inside : k * p.fat_size + q < p.count_fats * p.fat_size =
        copy-lt p.count_fats k q p.fat_size (omega arith) l in
      let at : (table_start p + q + k * p.fat_size) % 2 ^ 32 ≡ place k =
        omega (arith, f.below, inside) in
      rw (at, write_copies) (rw (write_sector-Works w s (k * p.fat_size + q) inside) refl)

  Works-written : (k : ℕ) (d : Disk) → Works p d → Works p (written (place k) s d)
  Works-written k d w =
      Works-SameDrive
        (record { reads = refl; writes = refl; start_sector = refl; count_sectors = refl }) w

  Copied-next :
      (m k : ℕ) {d d' : Disk}
      → Copied p (k + 1) m q s (written (place k) s d) d'
      → Copied p k (suc m) q s d d'
  Copied-next m k {d} {d'} c = record {
    drive = SameDrive-written (place k) s c.drive;
    same = λ j a b. elim (Bool-cases (j == k)) [
      | inl h ↦ rw (ap (λ x. d'.sectors (place x)) (let e : j ≡ k = ground arith in e)) (
          c.other (place k) (λ i a b. omega (arith, copies-le k i p.fat_size (omega arith)))
          ∙ ground arith)
      | inr h ↦ c.same j (ground arith) (omega arith)
    ];
    other = λ i n. c.other i (λ j a b. n j (omega arith) (omega arith)) ∙ ground (arith, n k);
  }

  pub Copied-write_copies :
      (m k : ℕ) (d : Disk)
      → Works p d
      → k + m ≡ p.count_fats
      → (d' : Disk) × (write_copies m k (table_start p + q) s p d ≡ (true, d'))
        × Copied p k m q s d d'
  unfolding write_copies
  Copied-write_copies zero k d w e = (
    d,
    refl,
    record {
      drive = record { reads = refl; writes = refl; start_sector = refl; count_sectors = refl };
      same = λ j a b. absurd (omega arith);
      other = λ i n. refl;
    },
  )
  Copied-write_copies (suc m) k d w e =
      let rest =
        Copied-write_copies m (k + 1) (written (place k) s d) (Works-written k d w) (omega arith) in
      (rest.0, write_copies-one m k d w e ∙ rest.1, Copied-next m k rest.2)
