-- ===== src/Files/Fat32/Chain.antt =====
-- `readClusterChain`, which keeps a sector of the table, against the version without it.
use palmyra_os.Prelude.{
  ℕ, zero, suc, ◌-◌, ◌/◌, ◌^◌, ◌≤◌, ◌<◌, ◌≡◌, ◌⊎◌, inl, inr, refl, ap, sym, ◌∙◌, Bool, true, false,
  ◌||◌, Option, none, some, List, [], ◌∷◌, ◌++◌, arith, ltb, leb, ◌==◌, if◌then◌else◌, Bool-cases,
  Option-cases,
}
use palmyra_os.Files.VirtualDisk.{Sector, Disk, read_sector}
use palmyra_os.Files.Partition.{Partition}
use palmyra_os.Files.Fat32.{
  chain_end, end_marker, parse_next_cluster, get_next_cluster, calculate_fat_offset, Walk, leave,
  go_on, find, chain_turn, chain_loop, max_iterations, read_cluster_chain, fat_sector, entry_offset,
  cached, turn_with, parse_read,
}
use palmyra_os.Files.Fat32.Entries.{IsFat, fat_sector_lem, row-lt, copy-lt}

-- The loop that asks for each next cluster, which the source keeps as a comment
abbrev pub plain_loop : ℕ → ℕ → List ℕ → Partition → Disk → Option (List ℕ)
plain_loop zero c cs p d = some cs
plain_loop (suc n) c cs p d = elim (ltb c chain_end) [
  | false ↦ some cs
  | true ↦ elim (find cs c || c == 0) [
    | true ↦ some cs
    | false ↦ elim (get_next_cluster c p d) [
      | none ↦ none
      | some next ↦ plain_loop n next (cs ++ (c ∷ [])) p d
    ]
  ]
]

abbrev pub plain_chain : ℕ → Partition → Disk → Option (List ℕ)
plain_chain start p d =
    if leb p.count_clusters start then none else plain_loop max_iterations start [] p d

-- Each entry is a cluster of the partition or marks an end.
abbrev pub IsClosed : Partition → Disk → Type 0
IsClosed p d =
    (c n : ℕ) → get_next_cluster c p d ≡ some n → (n < p.count_clusters) ⊎ (chain_end ≤ n)

module _ (p : Partition) (d : Disk) (f : IsFat p) (closed : IsClosed p d) where
  plain-zero : (n : ℕ) (cs : List ℕ) → plain_loop n 0 cs p d ≡ some cs
  plain-zero zero cs = refl
  plain-zero (suc n) cs = rw (or_true (find cs 0), plain_loop) refl
    where
      or_true : (b : Bool) → (b || true) ≡ true
      or_true true = refl
      or_true false = refl

  plain-end : (n : ℕ) (cs : List ℕ) → plain_loop n end_marker cs p d ≡ some cs
  plain-end zero cs = refl
  plain-end (suc n) cs = refl

  -- What is kept is what the disk holds.
  IsKept : Walk → Type 0
  IsKept w = (w.cached_sector ≡ 2 ^ 32 - 1) ⊎ (read_sector w.cached_sector d ≡ some w.sector_data)

  cached-IsKept :
      (w : Walk)
      → IsKept w
      → w.current < p.count_clusters
      → cached (fat_sector w.current p) w d ≡ read_sector (fat_sector w.current p) d
  unfolding IsKept cached
  cached-IsKept w k l = elim (Bool-cases (fat_sector w.current p == w.cached_sector)) [
    | inr h ↦ rw h refl
    | inl h ↦ elim k [
      | inl e ↦ absurd (
          ground (
            arith,
            fat_sector_lem p f w.current l,
            f.below,
            row-lt p f w.current l,
            copy-lt p.count_fats 0 (w.current / 128) p.fat_size f.some_copy
                (row-lt p f w.current l),
          ))
      | inr e ↦ rw h (
          sym e
          ∙ ap (λ s. read_sector s d)
              (let same : w.cached_sector ≡ fat_sector w.current p = ground arith in same))
    ]
  ]

  plain-step :
      (n c next : ℕ) (cs : List ℕ)
      → ltb c chain_end ≡ true
      → (find cs c || c == 0) ≡ false
      → get_next_cluster c p d ≡ some next
      → plain_loop (suc n) c cs p d ≡ plain_loop n next (cs ++ (c ∷ [])) p d
  plain-step n c next cs small new e = rw (small, plain_loop) (rw new (rw e refl))

  chain-leave :
      (n : ℕ) (w : Walk) (cs : List ℕ)
      → ltb w.current chain_end ≡ true
      → chain_turn w p d ≡ leave cs
      → chain_loop (suc n) w p d ≡ cs
  unfolding chain_loop
  chain-leave n w cs small e = rw (small, chain_loop) (rw e refl)

  chain-go_on :
      (n : ℕ) (w v : Walk)
      → ltb w.current chain_end ≡ true
      → chain_turn w p d ≡ go_on v
      → chain_loop (suc n) w p d ≡ chain_loop n v p d
  unfolding chain_loop
  chain-go_on n w v small e = rw (small, chain_loop) (rw e refl)

  turn-met :
      (w : Walk)
      → (find w.clusters w.current || w.current == 0) ≡ true
      → chain_turn w p d ≡ leave w.clusters
  unfolding chain_turn
  turn-met w met = rw met refl

  -- The sector read for a cluster
  abbrev row_of : Walk → Option Sector
  row_of w = read_sector (fat_sector w.current p) d

  abbrev met_next : Walk → List ℕ
  met_next w = w.clusters ++ (w.current ∷ [])

  turn-new :
      (w : Walk)
      → IsKept w
      → w.current < p.count_clusters
      → (find w.clusters w.current || w.current == 0) ≡ false
      → chain_turn w p d
        ≡ turn_with (row_of w) (fat_sector w.current p) (entry_offset w.current p) (met_next w) w p
  unfolding chain_turn calculate_fat_offset
  turn-new w k l new = rw (new, chain_turn) (rw (cached-IsKept w k l) refl)

  next-read :
      (w : Walk)
      → w.current < p.count_clusters
      → get_next_cluster w.current p d
        ≡ some (parse_read (row_of w) (entry_offset w.current p) w.current p)
  unfolding get_next_cluster calculate_fat_offset
  next-read w l = rw (let e : leb p.count_clusters w.current ≡ false = ground arith in e) refl

  turn_with-end :
      (w : Walk) (s : Sector)
      → (parse_next_cluster s (entry_offset w.current p) w.current p == end_marker) ≡ true
      → turn_with (some s) (fat_sector w.current p) (entry_offset w.current p) (met_next w) w p
        ≡ leave (met_next w)
  unfolding turn_with
  turn_with-end w s e = rw e refl

  abbrev moved : Walk → Sector → Walk
  moved w s = record {
    current = parse_next_cluster s (entry_offset w.current p) w.current p;
    clusters = met_next w;
    cached_sector = fat_sector w.current p;
    sector_data = s;
  }

  turn_with-next :
      (w : Walk) (s : Sector)
      → (parse_next_cluster s (entry_offset w.current p) w.current p == end_marker) ≡ false
      → turn_with (some s) (fat_sector w.current p) (entry_offset w.current p) (met_next w) w p
        ≡ go_on (moved w s)
  unfolding turn_with
  turn_with-next w s e = rw e refl

  chain_loop-plain :
      (n : ℕ) (w : Walk)
      → IsKept w
      → (w.current < p.count_clusters) ⊎ (chain_end ≤ w.current)
      → some (chain_loop n w p d) ≡ plain_loop n w.current w.clusters p d
  unfolding chain_loop turn_with parse_read IsKept
  chain_loop-plain zero w k r = refl
  chain_loop-plain (suc n) w k r = elim (Bool-cases (ltb w.current chain_end)) [
    | inr h ↦ rw (h, chain_loop) (rw (h, plain_loop) refl)
    | inl h ↦ elim (Bool-cases (find w.clusters w.current || w.current == 0)) [
      | inl met ↦
          ap some (chain-leave n w w.clusters h (turn-met w met))
          ∙ sym (rw (h, plain_loop) (rw met refl))
      | inr new ↦
          let l : w.current < p.count_clusters = ground (arith, r) in
          let turned = turn-new w k l new in
          let next = next-read w l in
          elim (Option-cases (row_of w)) [
            | inl e ↦
                ap some (
                  chain-leave n w (met_next w) h (
                    turned
                    ∙ ap
                        (λ o.
                          turn_with o (fat_sector w.current p) (entry_offset w.current p)
                            (met_next w) w p)
                        e))
                ∙ sym (
                    plain-step n w.current 0 w.clusters h new (
                      next ∙ ap (λ o. some (parse_read o (entry_offset w.current p) w.current p)) e)
                    ∙ plain-zero n (met_next w))
            | inr (s, e) ↦
                let t =
                  turned
                  ∙ ap
                      (λ o.
                        turn_with o (fat_sector w.current p) (entry_offset w.current p) (met_next w)
                          w p)
                      e in
                let g =
                  next ∙ ap (λ o. some (parse_read o (entry_offset w.current p) w.current p)) e in
                elim (Bool-cases
                  (parse_next_cluster s (entry_offset w.current p) w.current p == end_marker)) [
                    | inl z ↦
                        ap some (chain-leave n w (met_next w) h (t ∙ turn_with-end w s z))
                        ∙ sym (
                            plain-step n w.current _ w.clusters h new g
                            ∙ ap (λ c. plain_loop n c (met_next w) p d)
                                (let e : parse_next_cluster s (entry_offset w.current p) w.current p
                                      ≡ end_marker =
                                    ground arith in
                                  e)
                            ∙ plain-end n (met_next w))
                    | inr z ↦
                        ap some (chain-go_on n w (moved w s) h (t ∙ turn_with-next w s z))
                        ∙ chain_loop-plain n (moved w s) (inr e) (closed w.current _ g)
                        ∙ sym (plain-step n w.current _ w.clusters h new g)
                  ]
          ]
    ]
  ]

  -- `readClusterChain`, which keeps the sector of the table that it read last, answers what the
  -- version answers that asks `getNextCluster` for each cluster: the same chain, also when the
  -- drive fails or the chain has a loop, or a panic of both. The partition is FAT32 with sectors
  -- of 512 bytes, and each entry is a cluster of the partition or marks an end.
  pub read_cluster_chain-plain_chain :
      (unread : Sector) (start : ℕ) → read_cluster_chain unread start p d ≡ plain_chain start p d
  unfolding read_cluster_chain IsKept
  read_cluster_chain-plain_chain unread start = elim (Bool-cases (leb p.count_clusters start)) [
    | inl h ↦ rw h refl
    | inr h ↦ rw h (
        chain_loop-plain max_iterations
          (record {
            current = start;
            clusters = [];
            cached_sector = 2 ^ 32 - 1;
            sector_data = unread;
          })
          (inl refl) (inl (ground arith)))
  ]
