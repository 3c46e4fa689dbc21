-- ===== src/Files/Fat32/Free.antt =====
-- `freeClusterChain`: it ends, and it frees the clusters of the chain and no others.
use palmyra_os.Prelude.{
  ℕ, zero, suc, ◌+◌, ◌≤◌, ◌<◌, ◌≡◌, ◌≢◌, ◌⊎◌, inl, inr, refl, ap, sym, subst, ◌∙◌, true, false,
  ◌||◌, Option, none, some, arith, ltb, leb, ◌==◌, if◌then◌else◌, Bool-cases, ==→ne,
}
use palmyra_os.Files.VirtualDisk.{Disk}
use palmyra_os.Files.Partition.{Partition}
use palmyra_os.Files.Fat32.{
  chain_end, standardise, finished, free_round, free_loop, free_cluster_chain,
}
use palmyra_os.Files.Fat32.Entries.{IsFat}
use palmyra_os.Files.Fat32.Table.{update, Represents}
use palmyra_os.Files.Fat32.Refine.{get_next_cluster-Represents, set_next_cluster-Represents}

-- The clusters of the chain that starts at `c`
pub data From (t : ℕ → ℕ) (c : ℕ) : ℕ → Type 0 where
  start : From t c c
  onward : {x : ℕ} → From t c x → t x ≢ 0 → t x < chain_end → From t c (t x)

-- Each entry is free, a cluster of the partition, or an end.
abbrev pub IsClosedTable : Partition → (ℕ → ℕ) → Type 0
IsClosedTable p t =
    (x : ℕ)
    → x < p.count_clusters
    → (t x ≡ 0) ⊎ (((2 ≤ t x) × (t x < p.count_clusters)) ⊎ (chain_end ≤ t x))

-- The clusters of the chain are free, the other entries as before.
abbrev pub Freed : (t t' : ℕ → ℕ) → ℕ → Type 0
Freed t t' c = (x : ℕ) → (From t c x × (t' x ≡ 0)) ⊎ ((¬ From t c x) × (t' x ≡ t x))

-- How many of the first clusters are in use
abbrev used : ℕ → (ℕ → ℕ) → ℕ
used zero t = 0
used (suc k) t = used k t + (if t k == 0 then 0 else 1)

used-le : (k : ℕ) (t : ℕ → ℕ) → used k t ≤ k
used-le zero t = omega arith
used-le (suc k) t = ground (arith, used-le k t)

used-above : (k c : ℕ) (t : ℕ → ℕ) → k ≤ c → used k (update c 0 t) ≡ used k t
used-above zero c t h = refl
used-above (suc k) c t h = ground (arith, used-above k c t)

used-update : (k c : ℕ) (t : ℕ → ℕ) → c < k → t c ≢ 0 → suc (used k (update c 0 t)) ≡ used k t
used-update zero c t l h = absurd (omega arith)
used-update (suc k) c t l h = elim (Bool-cases (c == k)) [
  | inl e ↦ ground (arith, used-above k c t)
  | inr e ↦ ground (arith, used-update k c t)
]

module _ (t : ℕ → ℕ) (c : ℕ) (n : t c ≢ 0) (s : t c < chain_end) where
  -- The chain goes on behind its first cluster, also when that one is free.
  From-next : {x : ℕ} → From t (t c) x → From t c x
  From-next start = onward start n s
  From-next (onward r a b) = onward (From-next r) a b

  From-old : {x : ℕ} → From (update c 0 t) (t c) x → From t (t c) x
  From-old start = start
  From-old (onward {x} r a b) = elim (Bool-cases (c == x)) [
    | inl h ↦ absurd (a (ground arith))
    | inr h ↦
        let e : update c 0 t x ≡ t x = ground arith in
        rw e (onward (From-old r) (λ z. a (e ∙ z)) (omega (arith, e, b)))
  ]

  again : {x : ℕ} → x ≡ c → From (update c 0 t) (t c) (t x) ⊎ (t x ≡ c)
  again e = rw (ap t e) (inl start)

  From-new : {x : ℕ} → From t (t c) x → From (update c 0 t) (t c) x ⊎ (x ≡ c)
  From-new start = inl start
  From-new (onward {x} r a b) = elim (From-new r) [
    | inr e ↦ again e
    | inl q ↦ elim (Bool-cases (c == x)) [
      | inl h ↦ again (ground arith)
      | inr h ↦
          let e : update c 0 t x ≡ t x = ground arith in
          inl (
            subst (From (update c 0 t) (t c)) e
              (onward q (λ z. a (sym e ∙ z)) (omega (arith, e, b))))
    ]
  ]

  From-split : {x : ℕ} → From t c x → (x ≡ c) ⊎ From t (t c) x
  From-split start = inl refl
  From-split (onward {x} r a b) = elim (From-split r) [
    | inl e ↦ inr (rw (ap t e) start)
    | inr q ↦ inr (onward q a b)
  ]

  not_in_chain : {x : ℕ} → (c == x) ≡ false → ¬ From (update c 0 t) (t c) x → ¬ From t c x
  not_in_chain h n r = elim (From-split r) [
    | inl e ↦ ==→ne _ _ h (sym e)
    | inr q ↦ elim (From-new q) [ inl w ↦ n w | inr e ↦ ==→ne _ _ h (sym e) ]
  ]

  Freed-next : {t' : ℕ → ℕ} → Freed (update c 0 t) t' (t c) → Freed t t' c
  Freed-next {t'} g x = elim (Bool-cases (c == x)) [
    | inl h ↦
        let e : x ≡ c = ground arith in
        inl
          (subst (From t c) (sym e) start, elim (g x) [ inl w ↦ w.1 | inr w ↦ w.1 ∙ ground arith ])
    | inr h ↦ elim (g x) [
      | inl w ↦ inl (From-next (From-old w.0), w.1)
      | inr w ↦ inr (not_in_chain h w.0, w.1 ∙ ground arith)
    ]
  ]

-- A cluster whose entry leads nowhere is a chain by itself.
Freed-one : (t : ℕ → ℕ) (c : ℕ) → (t c ≡ 0) ⊎ (chain_end ≤ t c) → Freed t (update c 0 t) c
Freed-one t c h x = elim (Bool-cases (c == x)) [
  | inl e ↦ inl (subst (From t c) (let same : c ≡ x = ground arith in same) start, ground arith)
  | inr e ↦ inr (λ r. ==→ne _ _ e (sym (only r)), ground arith)
]
  where
    only : {y : ℕ} → From t c y → y ≡ c
    only start = refl
    only (onward {x} r a b) = absurd (ground (arith, ap t (only r), h, a, b))

-- Where a round goes on that met the entry `v`
abbrev next_in_chain : ℕ → Option ℕ
next_in_chain v =
    if standardise chain_end v == 0 || ltb 0x0FFFFFF7 (standardise chain_end v)
    then none
    else some (standardise chain_end v)

next-none : (v : ℕ) → (v ≡ 0) ⊎ (chain_end ≤ v) → next_in_chain v ≡ none
next-none v h = ground (arith, h)

next-some : (v : ℕ) → 2 ≤ v → v < chain_end → next_in_chain v ≡ some v
next-some v h l = ground arith

IsClosedTable-update :
    (p : Partition) {t : ℕ → ℕ} (c : ℕ) → IsClosedTable p t → IsClosedTable p (update c 0 t)
IsClosedTable-update p c k x l = elim (Bool-cases (c == x)) [
  | inl h ↦ inl (ground arith)
  | inr h ↦ rw h (k x l)
]

module _ {p : Partition} (f : IsFat p) where
  round-Represents :
      {t : ℕ → ℕ} {d : Disk} (c : ℕ)
      → Represents p t d
      → 2 ≤ c
      → c < p.count_clusters
      → (d' : Disk) × (free_round c p d ≡ some (next_in_chain (t c), d'))
        × Represents p (update c 0 t) d'
  unfolding free_round
  round-Represents c r h l =
      let next = get_next_cluster-Represents f r c l in
      let cleared = set_next_cluster-Represents f c 0 r h l in
      (cleared.0, rw (next, free_round) (rw cleared.1 refl), cleared.2)

  -- A round of the loop, as the entry tells it
  loop-stop :
      (d d' : Disk) (n c : ℕ)
      → c < chain_end
      → free_round c p d ≡ some (none, d')
      → free_loop (suc n) c p d ≡ finished d'
  unfolding free_loop
  loop-stop d d' n c h e =
      rw ((let s : ltb c chain_end ≡ true = ground arith in s), free_loop) (rw e refl)

  loop-on :
      (d d' : Disk) (n c next : ℕ)
      → c < chain_end
      → free_round c p d ≡ some (some next, d')
      → free_loop (suc n) c p d ≡ free_loop n next p d'
  unfolding free_loop
  loop-on d d' n c next h e =
      rw ((let s : ltb c chain_end ≡ true = ground arith in s), free_loop) (rw e refl)

  -- A run of the loop ends well.
  abbrev EndsFreed : ℕ → ℕ → (ℕ → ℕ) → Disk → Type 0
  EndsFreed n c t d =
      (d' : Disk) × (t' : ℕ → ℕ) × (free_loop n c p d ≡ finished d')
      × Represents p t' d'
      × Freed t t' c

  ends_here :
      (n c : ℕ) {t : ℕ → ℕ} {d : Disk}
      → Represents p t d
      → 2 ≤ c
      → c < p.count_clusters
      → (t c ≡ 0) ⊎ (chain_end ≤ t c)
      → EndsFreed (suc n) c t d
  ends_here n c {t} {d} r h l z =
      let round = round-Represents c r h l in
      (
        round.0,
        update c 0 t,
        loop-stop d round.0 n c (omega (arith, f.few))
            (round.1 ∙ ap (λ o. some (o, round.0)) (next-none (t c) z)),
        round.2,
        Freed-one t c z,
      )

  free_loop-Represents :
      (n c : ℕ) {t : ℕ → ℕ} {d : Disk}
      → Represents p t d
      → IsClosedTable p t
      → 2 ≤ c
      → c < p.count_clusters
      → used p.count_clusters t < n
      → EndsFreed n c t d
  free_loop-Represents zero c r k h l enough = absurd (omega arith)
  free_loop-Represents (suc n) c {t} {d} r k h l enough =
      let round = round-Represents c r h l in
      let small : c < chain_end = omega (arith, f.few) in
      elim (k c l) [
        | inl z ↦ ends_here n c r h l (inl z)
        | inr (inr z) ↦ ends_here n c r h l (inr z)
        | inr (inl z) ↦
            let short : t c < chain_end = omega (arith, f.few, z.1) in
            let used_one : t c ≢ 0 = ground (arith, z.0) in
            let rest =
              free_loop-Represents n (t c) round.2 (IsClosedTable-update p c k) z.0 z.1
                (omega (arith, used-update p.count_clusters c t l used_one)) in
            (
              rest.0,
              rest.1,
              loop-on d round.0 n c (t c) small
                    (round.1 ∙ ap (λ o. some (o, round.0)) (next-some (t c) z.0 short))
                  ∙ rest.2,
              rest.3,
              Freed-next t c used_one short rest.4,
            )
      ]

  -- `freeClusterChain` of a cluster of the partition ends, without a panic: afterwards all
  -- copies of the table hold a map in which the clusters of the chain that starts there are
  -- free and all other entries are as before, also if the chain has a loop. The tables hold a
  -- map before, in which each entry is free, a cluster of the partition or an end.
  pub free_cluster_chain_lem :
      {t : ℕ → ℕ} {d : Disk} (c : ℕ)
      → Represents p t d
      → IsClosedTable p t
      → 2 ≤ c
      → c < p.count_clusters
      → (d' : Disk) × (t' : ℕ → ℕ) × (free_cluster_chain c p d ≡ finished d')
        × Represents p t' d'
        × Freed t t' c
  unfolding free_cluster_chain
  free_cluster_chain_lem {t} {d} c r k h l =
      rw (let e : leb p.count_clusters c ≡ false = ground arith in e) (
        free_loop-Represents (p.count_clusters + 1) c r k h l
          (omega (arith, used-le p.count_clusters t)))
