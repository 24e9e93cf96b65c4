-- ===== src/Util/RwLock/Exclusion.antt =====
-- Under every interleaving `count` says who holds the lock, and a writer holds it alone.
use cat_la_project.Base.{
  ℕ, zero, suc, ◌+◌, ◌-◌, ◌^◌, ◌≤◌, ◌<◌, ◌≡◌, ◌≢◌, refl, ◌⊎◌, inl, inr, none, some, List, [], ◌∷◌,
  get_elem?, set, length, length-set, get_elem?-set_cases, arith, Option-cases,
}
use cat_la_project.Util.RwLock.{
  Thread, idle, reading, writing, loaded_read, loaded_write, Event, move, System, init, step, run,
}
use cat_la_project.Util.RwLock.Sums.{total, total-set, le-total, total-le, two-le-total}

abbrev pub reads : Thread → ℕ
reads reading = 1
reads _ = 0

abbrev pub writes : Thread → ℕ
writes writing = 1
writes _ = 0

-- What a thread has learnt about `count`.
abbrev pub IsLoaded : Thread → Type 0
IsLoaded (loaded_read t) = t ≢ 0
IsLoaded (loaded_write t) = t ≡ 1
IsLoaded _ = Unit {0}

-- No writer and `count` is one more than the readers, or one writer, no reader and `count` is 0.
abbrev pub Meaning : (count readers writers : ℕ) → Type 0
Meaning count readers writers =
    ((writers ≡ 0) × (count ≡ readers + 1)) ⊎ ((writers ≡ 1) × (readers ≡ 0) × (count ≡ 0))

pub record Inv (s : System) : Type 0 where
  pub few : length s.threads < 2 ^ 64 - 1
  pub meaning : Meaning s.count (total reads s.threads) (total writes s.threads)
  pub loaded : (i : ℕ) (t : Thread) → get_elem? s.threads i ≡ some t → IsLoaded t

-- The sums before and after a move, without the list.
module _ (r w r' w' : ℕ) where
  move-Meaning :
      (e : Event) (t t' : Thread) (c c' : ℕ)
      → move e t c ≡ some (t', c')
      → Meaning c r w
      → IsLoaded t
      → reads t ≤ r
      → writes t ≤ w
      → r' < 2 ^ 64 - 1
      → r' + reads t ≡ r + reads t'
      → w' + writes t ≡ w + writes t'
      → Meaning c' r' w'
  unfolding move
  move-Meaning e t t' c c' h m l hr hw few er ew = ground arith

move-IsLoaded : (e : Event) (t t' : Thread) (c c' : ℕ) → move e t c ≡ some (t', c') → IsLoaded t'
unfolding move
move-IsLoaded e t t' c c' h = ground arith

step-idle : (s : System) (i : ℕ) (e : Event) → get_elem? s.threads i ≡ none → step s i e ≡ s
unfolding step
step-idle s i e h = rw (h, step) refl

step-refused :
    (s : System) (i : ℕ) (e : Event) (t : Thread)
    → get_elem? s.threads i ≡ some t
    → move e t s.count ≡ none
    → step s i e ≡ s
unfolding step
step-refused s i e t h m = rw (h, step, m) refl

step-moved :
    (s : System) (i : ℕ) (e : Event) (t t' : Thread) (c : ℕ)
    → get_elem? s.threads i ≡ some t
    → move e t s.count ≡ some (t', c)
    → step s i e ≡ record { count = c; threads = set s.threads i t' }
unfolding step
step-moved s i e t t' c h m = rw (h, step, m) refl

reads-le : (t : Thread) → reads t ≤ 1
reads-le t = ground arith

moved-Inv :
    (s : System) (i : ℕ) (e : Event) (t t' : Thread) (c : ℕ)
    → Inv s
    → get_elem? s.threads i ≡ some t
    → move e t s.count ≡ some (t', c)
    → Inv (record { count = c; threads = set s.threads i t' })
moved-Inv s i e t t' c inv h m =
    let few : length (set s.threads i t') < 2 ^ 64 - 1 =
      omega (arith, inv.few, length-set s.threads i t') in
    record {
      few = few;
      meaning =
          move-Meaning _ _ _ _ e t t' s.count c m inv.meaning (inv.loaded i t h)
            (le-total reads s.threads i t h) (le-total writes s.threads i t h)
            (omega (arith, total-le reads reads-le (set s.threads i t')))
            (total-set reads s.threads i t t' h) (total-set writes s.threads i t t' h);
      loaded = λ j u hu. elim (get_elem?-set_cases s.threads i j t t' u h hu) [
        | inl (at, eq) ↦ rw eq (move-IsLoaded e t t' s.count c m)
        | inr (ne, old) ↦ inv.loaded j u old
      ];
    }

-- Every access of every thread keeps the invariant.
pub step-Inv : (s : System) (i : ℕ) (e : Event) → Inv s → Inv (step s i e)
step-Inv s i e inv = elim (Option-cases (get_elem? s.threads i)) [
  | inl none_there ↦ rw (step-idle s i e none_there) inv
  | inr (t, h) ↦ elim (Option-cases (move e t s.count)) [
    | inl refused ↦ rw (step-refused s i e t h refused) inv
    | inr ((t', c), m) ↦ rw (step-moved s i e t t' c h m) (moved-Inv s i e t t' c inv h m)
  ]
]

pub run-Inv : (s : System) (es : List (ℕ × Event)) → Inv s → Inv (run s es)
unfolding run
run-Inv s [] inv = inv
run-Inv s ((i, e) ∷ es) inv = run-Inv (step s i e) es (step-Inv s i e inv)

abbrev pub AllIdle : List Thread → Type 0
AllIdle [] = Unit {0}
AllIdle (t ∷ ts) = (t ≡ idle) × AllIdle ts

idle-total : (w : Thread → ℕ) (ts : List Thread) → w idle ≡ 0 → AllIdle ts → total w ts ≡ 0
unfolding total
idle-total w [] z h = refl
idle-total w (t ∷ ts) z h = rw h.0 (omega (arith, z, idle-total w ts z h.1))

idle-at : (ts : List Thread) (i : ℕ) (t : Thread) → AllIdle ts → get_elem? ts i ≡ some t → t ≡ idle
idle-at [] i t a h = absurd (cc)
idle-at (x ∷ xs) zero t a h = cc (a.0)
idle-at (x ∷ xs) (suc i) t a h = idle-at xs i t a.1 h

init-Inv : (ts : List Thread) → AllIdle ts → length ts < 2 ^ 64 - 1 → Inv (init ts)
unfolding init
init-Inv ts a few = record {
  few = few;
  meaning = inl (idle-total writes ts refl a, omega (arith, idle-total reads ts refl a));
  loaded = λ i t h. rw (idle-at ts i t a h) tt;
}

-- The threads that hold the lock.
abbrev pub Holds : System → ℕ → Thread → Type 0
Holds s i t = get_elem? s.threads i ≡ some t

module _ (ts : List Thread) (es : List (ℕ × Event)) (a : AllIdle ts)
    (few : length ts < 2 ^ 64 - 1) where
  -- In every interleaving of fewer than 2 ^ 64 - 1 threads that start outside the lock: while one
  -- thread writes, no other thread writes or reads.
  pub writer_alone :
      (i j : ℕ) (t : Thread)
      → Holds (run (init ts) es) i writing
      → Holds (run (init ts) es) j t
      → i ≢ j
      → (t ≢ writing) × (t ≢ reading)
  writer_alone i j t h k ne =
      let s = run (init ts) es in
      let inv = run-Inv (init ts) es (init-Inv ts a few) in
      (
        λ e.
            let k' : Holds s j writing = cc in
            omega (arith, inv.meaning, two-le-total writes s.threads i j writing writing h k' ne),
        λ e.
            let k' : Holds s j reading = cc in
            omega (
              arith,
              inv.meaning,
              le-total writes s.threads i writing h,
              le-total reads s.threads j reading k',
            ),
      )

  -- In every interleaving of fewer than 2 ^ 64 - 1 threads that start outside the lock, `count` is 0
  -- with one writer and no reader, or one more than the number of readers with no writer.
  pub count-Meaning :
      Meaning
        (run (init ts) es).count
        (total reads (run (init ts) es).threads)
        (total writes (run (init ts) es).threads)
  count-Meaning = (run-Inv (init ts) es (init-Inv ts a few)).meaning
