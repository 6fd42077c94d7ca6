-- ===== src/Process/Pid/Scan.antt =====
-- One walk over the processes.
use mathlib.Core.List.{Memᴰ}
use os_labs.Common.{
  ℕ, suc, ◌≤◌, ◌<◌, ◌≡◌, ◌≢◌, refl, ◌&&◌, ◌==◌, ltb, leb, ltb→lt, ltb→le, leb→lt, ==_iff, ==→ne,
  Bool-cases, if◌then◌else◌, List, [], ◌∷◌, All, arith, ◌⊎◌, inl, inr,
}
use os_labs.Process.Pid.{PidState, Walk, done, again, walk, wrap}
use os_labs.Process.Pid.Count.{Covered}

-- No process has a number from `last` up to but not including `next`.
abbrev pub Apart : ℕ → ℕ → List ℕ → Type 0
Apart last next = All (λ p. (p < last) ⊎ (next ≤ p))

-- What a walk from `s` over `ps` gives: a number that none of `ps` has, or a higher one to go on with,
-- all those passed over being taken.
abbrev pub Walked : PidState → List ℕ → Walk → Type 0
Walked s ps (done t) =
    (s.last_pid ≤ t.last_pid)
    × (t.last_pid < t.next_safe)
    × (t.next_safe ≤ s.next_safe)
    × Apart t.last_pid t.next_safe ps
Walked s ps (again t) =
    (l : ℕ) × (s.last_pid < l) × (l ≤ s.next_safe) × Covered s.last_pid l ps × (t ≡ wrap l)

-- One more process in front, which is apart from what the walk over the others ends with.
Walked-skip :
    (s s' : PidState) (p : ℕ) (ps : List ℕ) (w : Walk)
    → s.last_pid ≡ s'.last_pid
    → s'.next_safe ≤ s.next_safe
    → (p < s'.last_pid) ⊎ (s'.next_safe ≤ p)
    → Walked s' ps w
    → Walked s (p ∷ ps) w
Walked-skip s s' p ps (done t) e n (inl lo) (a, b, c, d) =
    (omega arith, b, omega arith, (inl (omega arith), d))
Walked-skip s s' p ps (done t) e n (inr hi) (a, b, c, d) =
    (omega arith, b, omega arith, (inr (omega arith), d))
Walked-skip s s' p ps (again t) e n side (l, a, b, c, d) =
    (l, omega arith, omega arith, λ q lo hi. Memᴰ.tail (c q (omega arith) hi), d)

-- The number tried is taken by the process in front.
Covered-first : (l k p : ℕ) (ps : List ℕ) → p ≡ l → Covered (suc l) k ps → Covered l k (p ∷ ps)
Covered-first l k p ps e c q lo hi = elim (Bool-cases (q == p)) [
  | inl f ↦ Memᴰ.head ((==_iff q p).0 f)
  | inr f ↦ Memᴰ.tail (c q (omega (arith, ==→ne q p f)) hi)
]

Walked-pass :
    (s : PidState) (p : ℕ) (ps : List ℕ) (w : Walk)
    → p ≡ s.last_pid
    → Walked (record s { last_pid = suc s.last_pid }) ps w
    → Walked s (p ∷ ps) w
Walked-pass s p ps (done t) e (a, b, c, d) = (omega arith, b, c, (inl (omega arith), d))
Walked-pass s p ps (again t) e (l, a, b, c, d) =
    (l, omega arith, b, Covered-first s.last_pid l p ps e c, d)

module _ (p : ℕ) (ps : List ℕ) (s : PidState) (h : s.last_pid < s.next_safe) where
  -- A process that has the number tried: the next number is tried, by a new walk if it is not known
  -- to be free.
  passed-Walked :
      p ≡ s.last_pid
      → (suc s.last_pid < s.next_safe
          → Walked
              (record s { last_pid = suc s.last_pid })
              ps
              (walk ps (record s { last_pid = suc s.last_pid })))
      → Walked s (p ∷ ps) (
          if leb s.next_safe (suc s.last_pid)
          then again (wrap (suc s.last_pid))
          else walk ps (record s { last_pid = suc s.last_pid }))
  passed-Walked e later = elim (Bool-cases (leb s.next_safe (suc s.last_pid))) [
    | inl f ↦ rw f (
      suc s.last_pid,
      omega arith,
      h,
      Covered-first s.last_pid (suc s.last_pid) p ps e (λ q lo hi. absurd (omega arith)),
      refl,
    )
    | inr f ↦ rw f (Walked-pass s p ps _ e (later (leb→lt _ _ f)))
  ]

  -- A process that has another number.
  other-Walked :
      p ≢ s.last_pid
      → (s.last_pid < p
          → Walked (record s { next_safe = p }) ps (walk ps (record s { next_safe = p })))
      → Walked s ps (walk ps s)
      → Walked s (p ∷ ps) (
          if ltb s.last_pid p && ltb p s.next_safe
          then walk ps (record s { next_safe = p })
          else walk ps s)
  other-Walked n closer same = elim (Bool-cases (ltb s.last_pid p)) [
    | inl f ↦ elim (Bool-cases (ltb p s.next_safe)) [
      | inl g ↦
          rw (f, g)
            (Walked-skip s (record s { next_safe = p }) p ps _ refl
              (omega (arith, ltb→lt p s.next_safe g)) (inr (omega arith))
              (closer (ltb→lt s.last_pid p f)))
      | inr g ↦
          rw (f, g) (Walked-skip s s p ps _ refl (omega arith) (inr (ltb→le p s.next_safe g)) same)
    ]
    | inr f ↦ rw f (
        Walked-skip s s p ps _ refl (omega arith) (inl (omega (arith, ltb→le s.last_pid p f))) same)
  ]

pub walk-Walked : (ps : List ℕ) (s : PidState) → s.last_pid < s.next_safe → Walked s ps (walk ps s)
unfolding walk
walk-Walked [] s h = (omega arith, h, omega arith, tt)
walk-Walked (p ∷ ps) s h = elim (Bool-cases (p == s.last_pid)) [
  | inl e ↦ rw e (
      passed-Walked p ps s h ((==_iff p s.last_pid).0 e)
        (walk-Walked ps (record s { last_pid = suc s.last_pid })))
  | inr e ↦ rw e (
      other-Walked p ps s h (==→ne p s.last_pid e) (walk-Walked ps (record s { next_safe = p }))
        (walk-Walked ps s h))
]
