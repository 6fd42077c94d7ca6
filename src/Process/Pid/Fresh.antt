-- ===== src/Process/Pid/Fresh.antt =====
-- `get_pid` ends, with a number that no process has.
use os_labs.Common.{
  ℕ, zero, suc, ◌+◌, ◌*◌, ◌≤◌, ◌<◌, ◌≡◌, ◌≢◌, refl, ltb, leb, leb→le, leb→lt, ltb→lt, ltb→le,
  lt→leb, le→leb, Bool-cases, List, [], ◌∷◌, length, All, arith, ◌⊎◌, inl, inr, Run, ok,
}
use os_labs.Process.Pid.{PidState, Walk, done, again, walk, wrap, max_pid, resume, repeat, get_pid}
use os_labs.Process.Pid.Count.{Covered, Covered-length}
use os_labs.Process.Pid.Scan.{Apart, Walked, walk-Walked}

-- Between `last_pid` and `next_safe`, which are in range, no process has its number.
abbrev pub IsSafe : PidState → List ℕ → Type 0
IsSafe s pids =
    (1 ≤ s.last_pid)
    × (s.last_pid ≤ max_pid)
    × (s.next_safe ≤ max_pid)
    × All (λ p. (p ≤ s.last_pid) ⊎ (s.next_safe ≤ p)) pids

-- The number in `t` is new, and those up to `next_safe` are too.
abbrev pub IsFresh : PidState → List ℕ → Type 0
IsFresh t pids =
    (1 ≤ t.last_pid)
    × (t.last_pid < t.next_safe)
    × (t.next_safe ≤ max_pid)
    × Apart t.last_pid t.next_safe pids

abbrev Ends : Run PidState → List ℕ → Type 0
Ends r pids = (t : PidState) × (r ≡ ok t) × IsFresh t pids

clear-next : (l n : ℕ) (ps : List ℕ) → All (λ p. (p ≤ l) ⊎ (n ≤ p)) ps → Apart (suc l) n ps
clear-next l n [] a = tt
clear-next l n (p ∷ ps) (inl lo, a) = (inl (omega arith), clear-next l n ps a)
clear-next l n (p ∷ ps) (inr hi, a) = (inr hi, clear-next l n ps a)

-- a walk from the number `l`
abbrev from : ℕ → PidState
from l = record { last_pid = l; next_safe = max_pid }

Covered-join : (a b c : ℕ) (xs : List ℕ) → Covered a b xs → Covered b c xs → Covered a c xs
Covered-join a b c xs p q n lo hi = elim (Bool-cases (ltb n b)) [
  | inl e ↦ p n lo (ltb→lt n b e)
  | inr e ↦ q n (ltb→le n b e) hi
]

wrap-below : (l : ℕ) → l < max_pid → wrap l ≡ from l
unfolding wrap
wrap-below l h = rw (lt→leb max_pid l h) refl

wrap-end : (l : ℕ) → max_pid ≤ l → wrap l ≡ from 1
unfolding wrap
wrap-end l h = rw (le→leb max_pid l h) refl

-- What follows a walk from `l`: the end, a walk from a higher number, or one from 1.
after_walk :
    (pids : List ℕ) (fuel l : ℕ) (w : Walk)
    → 1 ≤ l
    → Walked (from l) pids w
    → ((k : ℕ) → l < k → k < max_pid → Covered l k pids → Ends (repeat fuel pids (from k)) pids)
    → (Covered l max_pid pids → Ends (repeat fuel pids (from 1)) pids)
    → Ends (resume (repeat fuel pids) w) pids
after_walk pids fuel l (done t) h (a, b, c, d) higher first = (t, refl, (omega arith, b, c, d))
after_walk pids fuel l (again t) h (k, a, b, c, e) higher first =
    elim (Bool-cases (leb max_pid k)) [
      | inl f ↦
          rw (e, wrap-end k (leb→le max_pid k f))
            (first (λ q lo hi. c q lo (omega (arith, leb→le max_pid k f))))
      | inr f ↦ rw (e, wrap-below k (leb→lt max_pid k f)) (higher k a (leb→lt max_pid k f) c)
    ]

module _ (pids : List ℕ) (few : suc (length pids) < max_pid) where
  -- All numbers from 1 to `l` are taken: one before the last is free.
  second_round :
      (fuel l : ℕ)
      → 1 ≤ l
      → l < max_pid
      → max_pid ≤ fuel + l
      → Covered 1 l pids
      → Ends (repeat fuel pids (from l)) pids
  unfolding repeat
  second_round zero l h k m c = absurd (omega arith)
  second_round (suc fuel) l h k m c =
      after_walk pids fuel l (walk pids (from l)) h (walk-Walked pids (from l) k)
        (λ j lo hi d.
          second_round fuel j (omega arith) hi (omega arith) (Covered-join 1 l j pids c d))
        (λ d. absurd (
          omega
            (arith, Covered-length max_pid pids (omega arith) (Covered-join 1 l max_pid pids c d))))

  first_round :
      (fuel l : ℕ)
      → 1 ≤ l
      → l < max_pid
      → max_pid * 2 ≤ fuel + l
      → Ends (repeat fuel pids (from l)) pids
  unfolding repeat
  first_round zero l h k m = absurd (omega arith)
  first_round (suc fuel) l h k m =
      after_walk pids fuel l (walk pids (from l)) h (walk-Walked pids (from l) k)
        (λ j lo hi d. first_round fuel j (omega arith) hi (omega arith))
        (λ d.
          second_round fuel 1 (omega arith) (omega arith) (omega arith)
            (λ q lo hi. absurd (omega arith)))

  get_pid-Ends :
      (fuel : ℕ) (s : PidState)
      → max_pid * 2 ≤ fuel
      → IsSafe s pids
      → Ends (get_pid fuel pids s) pids
  unfolding get_pid
  get_pid-Ends fuel s f (lo, hi, top, clear) = elim (Bool-cases (leb max_pid (suc s.last_pid))) [
    | inl e ↦ rw e (first_round fuel 1 (omega arith) (omega arith) (omega arith))
    | inr e ↦ elim (Bool-cases (leb s.next_safe (suc s.last_pid))) [
      | inl g ↦
          rw (e, g) (first_round fuel (suc s.last_pid) (omega arith) (leb→lt _ _ e) (omega arith))
      | inr g ↦
          rw (e, g)
            (
              record s { last_pid = suc s.last_pid },
              refl,
              (omega arith, leb→lt _ _ g, top, clear-next s.last_pid s.next_safe pids clear),
            )
    ]
  ]

Apart-ne : (l n : ℕ) (ps : List ℕ) → l < n → Apart l n ps → All (λ p. p ≢ l) ps
Apart-ne l n [] h a = tt
Apart-ne l n (p ∷ ps) h (inl lo, a) = (λ e. omega (arith, e), Apart-ne l n ps h a)
Apart-ne l n (p ∷ ps) h (inr hi, a) = (λ e. omega (arith, e), Apart-ne l n ps h a)

Apart-le : (l n : ℕ) (ps : List ℕ) → Apart l n ps → All (λ p. (p ≤ l) ⊎ (n ≤ p)) ps
Apart-le l n [] a = tt
Apart-le l n (p ∷ ps) (inl lo, a) = (inl (omega arith), Apart-le l n ps a)
Apart-le l n (p ∷ ps) (inr hi, a) = (inr hi, Apart-le l n ps a)

-- While fewer than max_pid - 1 processes have a number, from two variables such that no process has a
-- number between them, get_pid ends within two walks for each number there is. Its result is a number from 1
-- to max_pid - 1 that no process has, and with the new process no number between the variables is taken.
pub get_pid-fresh :
    (fuel : ℕ) (pids : List ℕ) (s : PidState)
    → suc (length pids) < max_pid
    → max_pid * 2 ≤ fuel
    → IsSafe s pids
    → (t : PidState) × (get_pid fuel pids s ≡ ok t)
      × (1 ≤ t.last_pid)
      × (t.last_pid < max_pid)
      × All (λ p. p ≢ t.last_pid) pids
      × IsSafe t (t.last_pid ∷ pids)
get_pid-fresh fuel pids s few f safe =
    let (t, e, (lo, next, top, a)) = get_pid-Ends pids few fuel s f safe in
    (
      t,
      e,
      lo,
      omega arith,
      Apart-ne t.last_pid t.next_safe pids next a,
      (lo, omega arith, top, (inl (omega arith), Apart-le t.last_pid t.next_safe pids a)),
    )
