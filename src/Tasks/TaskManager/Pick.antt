-- ===== src/Tasks/TaskManager/Pick.antt =====
-- Processes in the vector, and the search for the next ready one.
use palmyra_os.Prelude.{
  ℕ, zero, suc, ◌+◌, ◌-◌, ◌%◌, ◌≤◌, ◌<◌, ◌≡◌, ◌≢◌, ◌⊎◌, inl, inr, refl, ap, sym, ◌∙◌, Bool, true,
  false, Option, none, some, List, [], ◌∷◌, length, get_elem?, arith, ltb, if◌then◌else◌,
  Bool-cases, Option-cases, some_inj,
}
use native.Mathlib.Nat.{mod-eq_of_lt, mod-eq-sub-mod, mod-lt}
use palmyra_os.Tasks.TaskManager.{
  Process, is_ready, modify, kill, is_doomed, kill_terminated, find_ready,
}

pub length-modify :
    (i : ℕ) (g : Process → Process) (ps : List Process) → length (modify i g ps) ≡ length ps
length-modify i g [] = refl
length-modify zero g (q ∷ qs) = refl
length-modify (suc i) g (q ∷ qs) = ap suc (length-modify i g qs)

pub modify_same :
    (i : ℕ) (g : Process → Process) (ps : List Process) {q : Process}
    → get_elem? ps i ≡ some q
    → get_elem? (modify i g ps) i ≡ some (g q)
modify_same i g [] h = cc
modify_same zero g (q ∷ qs) h = ap (λ x. some (g x)) (some_inj h)
modify_same (suc i) g (q ∷ qs) h = modify_same i g qs h

pub modify_other :
    (i j : ℕ) (g : Process → Process) (ps : List Process)
    → i ≢ j
    → get_elem? (modify i g ps) j ≡ get_elem? ps j
modify_other i j g [] n = refl
modify_other zero zero g (q ∷ qs) n = absurd (n refl)
modify_other zero (suc j) g (q ∷ qs) n = refl
modify_other (suc i) zero g (q ∷ qs) n = refl
modify_other (suc i) (suc j) g (q ∷ qs) n = modify_other i j g qs (omega (arith, n))

-- Where a process of the changed vector comes from
pub modify_from :
    (i j : ℕ) (g : Process → Process) (ps : List Process) {r : Process}
    → get_elem? (modify i g ps) j ≡ some r
    → (q : Process) × (get_elem? ps j ≡ some q) × (((i ≡ j) × (r ≡ g q)) ⊎ ((i ≢ j) × (r ≡ q)))
modify_from i j g [] h = cc
modify_from zero zero g (q ∷ qs) h = (q, refl, inl (refl, sym (some_inj h)))
modify_from zero (suc j) g (q ∷ qs) {r} h = (r, h, inr (omega arith, refl))
modify_from (suc i) zero g (q ∷ qs) h = (q, refl, inr (omega arith, sym (some_inj h)))
modify_from (suc i) (suc j) g (q ∷ qs) h =
    let w = modify_from i j g qs h in
    (w.0, w.1, elim w.2 [ inl e ↦ inl (ap suc e.0, e.1) | inr e ↦ inr (omega (arith, e.0), e.1) ])

pub length-kill_terminated :
    (i c : ℕ) (ps : List Process) → length (kill_terminated i c ps) ≡ length ps
unfolding kill_terminated
length-kill_terminated i c [] = refl
length-kill_terminated i c (q ∷ qs) = ap suc (length-kill_terminated (i + 1) c qs)

pub kill_terminated_at :
    (i c j : ℕ) (ps : List Process) {q : Process}
    → get_elem? ps j ≡ some q
    → is_doomed (i + j) c q ≡ false
    → get_elem? (kill_terminated i c ps) j ≡ some q
unfolding kill_terminated
kill_terminated_at i c j [] h e = cc
kill_terminated_at i c zero (q ∷ qs) h e =
    ap (λ (b : Bool). some (if b then kill q else q)) (doomed_eq q (some_inj h) ∙ e) ∙ h
  where
    doomed_eq : (x : Process) {y : Process} → x ≡ y → is_doomed i c x ≡ is_doomed (i + zero) c y
    doomed_eq x e = rw (← e) (rw (let s : i + zero ≡ i = omega arith in s) refl)
kill_terminated_at i c (suc j) (q ∷ qs) h e =
    kill_terminated_at (i + 1) c j qs h (rw (let s : i + 1 + j ≡ i + suc j = omega arith in s) e)

pub kill_terminated_from :
    (i c j : ℕ) (ps : List Process) {r : Process}
    → get_elem? (kill_terminated i c ps) j ≡ some r
    → (q : Process) × (get_elem? ps j ≡ some q) × ((r ≡ kill q) ⊎ (r ≡ q))
unfolding kill_terminated
kill_terminated_from i c j [] h = cc
kill_terminated_from i c zero (q ∷ qs) {r} h = (
  q,
  refl,
  elim (Bool-cases (is_doomed i c q)) [
    | inl e ↦ inl (sym (some_inj h) ∙ rw e refl)
    | inr e ↦ inr (sym (some_inj h) ∙ rw e refl)
  ],
)
kill_terminated_from i c (suc j) (q ∷ qs) h = kill_terminated_from (i + 1) c j qs h

pub mod_once : (x s : ℕ) → x < s + s → x % s ≡ (if ltb x s then x else x - s)
mod_once x s h = elim (Bool-cases (ltb x s)) [
  | inl l ↦ rw l (mod-eq_of_lt (ground arith))
  | inr l ↦ rw l (mod-eq-sub-mod (ground arith) ∙ mod-eq_of_lt (ground arith))
]

-- The number that the search tries in round `o`
abbrev pub at_round : ℕ → ℕ → List Process → ℕ
at_round o current ps = (current + 1 + o) % length ps

find_ready-hit :
    (n i last current : ℕ) (ps : List Process) (r : Process)
    → get_elem? ps (at_round i current ps) ≡ some r
    → is_ready r.state ≡ true
    → find_ready (suc n) i last current ps ≡ at_round i current ps
unfolding find_ready
find_ready-hit n i last current ps r there on = rw (there, find_ready) (rw on refl)

find_ready-miss :
    (n i last current : ℕ) (ps : List Process)
    → ((r : Process) → get_elem? ps (at_round i current ps) ≡ some r → is_ready r.state ≡ false)
    → find_ready (suc n) i last current ps ≡ find_ready n (i + 1) (at_round i current ps) current ps
unfolding find_ready
find_ready-miss n i last current ps off =
    elim (Option-cases (get_elem? ps (at_round i current ps))) [
      | inl nobody ↦ rw (nobody, find_ready) refl
      | inr (r, there) ↦ rw (there, find_ready) (rw (off r there) refl)
    ]

ready_there :
    (o : Option Process)
    → ((s : Process) × (o ≡ some s) × (is_ready s.state ≡ true))
      ⊎ ((s : Process) → o ≡ some s → is_ready s.state ≡ false)
ready_there none = inr (λ s z. cc)
ready_there (some s) = elim (Bool-cases (is_ready s.state)) [
  | inl on ↦ inl (s, refl, on)
  | inr off ↦ inr (λ u z. ap (λ (x : Process). is_ready x.state) (sym (some_inj z)) ∙ off)
]

pub find_ready-lt :
    (n i last current : ℕ) (ps : List Process)
    → 0 < length ps
    → (last < length ps) ⊎ (0 < n)
    → find_ready n i last current ps < length ps
unfolding find_ready
find_ready-lt zero i last current ps some_there h = ground (arith, h)
find_ready-lt (suc n) i last current ps some_there h =
    let inside : at_round i current ps < length ps = mod-lt _ some_there in
    elim (ready_there (get_elem? ps (at_round i current ps))) [
      | inl (s, there, on) ↦ rw (find_ready-hit n i last current ps s there on) inside
      | inr off ↦
          rw (find_ready-miss n i last current ps off)
            (find_ready-lt n (i + 1) _ current ps some_there (inl inside))
    ]

-- A search that would meet a ready process in round `e` ends in a round up to that, at a ready
-- one.
pub find_ready-Met :
    (n i last current e : ℕ) (ps : List Process) {q : Process}
    → i ≤ e
    → e < i + n
    → get_elem? ps (at_round e current ps) ≡ some q
    → is_ready q.state ≡ true
    → (o : ℕ) × (o ≤ e)
      × (find_ready n i last current ps ≡ at_round o current ps)
      × (r : Process) × (get_elem? ps (at_round o current ps) ≡ some r)
      × (is_ready r.state ≡ true)
find_ready-Met zero i last current e ps lo hi h r = absurd (omega arith)
find_ready-Met (suc n) i last current e ps {q} lo hi h r =
    elim (ready_there (get_elem? ps (at_round i current ps))) [
      | inl (s, there, on) ↦ (i, lo, find_ready-hit n i last current ps s there on, s, there, on)
      | inr off ↦
          let later : i ≢ e = λ z.
            true_false (sym r ∙ off q (ap (λ x. get_elem? ps (at_round x current ps)) z ∙ h)) in
          let rest =
            find_ready-Met n (i + 1) (at_round i current ps) current e ps (omega (arith, later))
              (omega arith) h r in
          (rest.0, rest.1, find_ready-miss n i last current ps off ∙ rest.2, rest.3, rest.4, rest.5)
    ]
  where
    true_false : ¬ (true ≡ false)
    true_false z = cc
