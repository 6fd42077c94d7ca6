-- ===== src/Process/Table/Members.antt =====
-- Members of a list, and what taking one out or choosing some leaves.
use mathlib.Core.List.{Memᴰ}
use mathlib.Core.List.Memᴰ
use os_labs.Common.{
  ℕ, suc, ◌≡◌, ◌≢◌, refl, sym, ap, ◌==◌, ==→ne, ==_ne, ==_refl, if◌then◌else◌, Bool-cases, inl, inr,
  List, [], ◌∷◌, ◌++◌, All, length,
}
use os_labs.Libs.ListEntry.Distinct.{◌∉◌}
use os_labs.Process.Table.{Proc, without, find_in, pids_of, pid_hashfn}

pub not_mem : (p : ℕ) (xs : List ℕ) → p ∉ xs → Memᴰ p xs → ⊥
not_mem p [] out m = Memᴰ.not-nil m
not_mem p (x ∷ xs) out m = elim (Memᴰ.cases_cons m) [
  | inl e ↦ out.0 (sym e)
  | inr t ↦ not_mem p xs out.1 t
]

pub mem-out : (p : ℕ) (xs : List ℕ) → (Memᴰ p xs → ⊥) → p ∉ xs
mem-out p [] n = tt
mem-out p (x ∷ xs) n = (λ e. n (Memᴰ.head (sym e)), mem-out p xs (λ m. n (Memᴰ.tail m)))

pub mem-split :
    (p : ℕ) (xs : List ℕ) → Memᴰ p xs → (ws : List ℕ) × (vs : List ℕ) × (xs ≡ ws ++ (p ∷ vs))
mem-split p [] m = absurd (Memᴰ.not-nil m)
mem-split p (x ∷ xs) m = elim (Memᴰ.cases_cons m) [
  | inl e ↦ ([], xs, ap (λ z. z ∷ xs) (sym e))
  | inr t ↦ let (ws, vs, e) = mem-split p xs t in (x ∷ ws, vs, ap (λ z. x ∷ z) e)
]

pub mem-middle : (p : ℕ) (ws vs : List ℕ) → Memᴰ p (ws ++ (p ∷ vs))
mem-middle p [] vs = Memᴰ.head refl
mem-middle p (w ∷ ws) vs = Memᴰ.tail (mem-middle p ws vs)

pub mem-insert : (x p : ℕ) (ws vs : List ℕ) → Memᴰ x (ws ++ vs) → Memᴰ x (ws ++ (p ∷ vs))
mem-insert x p [] vs m = Memᴰ.tail m
mem-insert x p (w ∷ ws) vs m = elim (Memᴰ.cases_cons m) [
  | inl e ↦ Memᴰ.head e
  | inr t ↦ Memᴰ.tail (mem-insert x p ws vs t)
]

pub mem-remove : (x p : ℕ) (ws vs : List ℕ) → x ≢ p → Memᴰ x (ws ++ (p ∷ vs)) → Memᴰ x (ws ++ vs)
mem-remove x p [] vs n m = elim (Memᴰ.cases_cons m) [ inl e ↦ absurd (n e) | inr t ↦ t ]
mem-remove x p (w ∷ ws) vs n m = elim (Memᴰ.cases_cons m) [
  | inl e ↦ Memᴰ.head e
  | inr t ↦ Memᴰ.tail (mem-remove x p ws vs n t)
]

-- `list_del` of an entry takes just it out.
pub without-middle : (p : ℕ) (ws vs : List ℕ) → p ∉ ws → without p (ws ++ (p ∷ vs)) ≡ ws ++ vs
unfolding without
without-middle p [] vs out = rw (==_refl p) refl
without-middle p (w ∷ ws) vs out = rw (==_ne w p out.0, without-middle p ws vs out.1) refl

-- the processes among `ps` whose number has the hash `b`
abbrev pub bucket : ℕ → (ℕ → Proc) → List ℕ → List ℕ
bucket b procs [] = []
bucket b procs (p ∷ ps) =
    if pid_hashfn (procs p).pid == b then p ∷ bucket b procs ps else bucket b procs ps

pub bucket-append :
    (b : ℕ) (procs : ℕ → Proc) (ws vs : List ℕ)
    → bucket b procs (ws ++ vs) ≡ bucket b procs ws ++ bucket b procs vs
bucket-append b procs [] vs = refl
bucket-append b procs (w ∷ ws) vs = elim (Bool-cases (pid_hashfn (procs w).pid == b)) [
  | inl e ↦ rw (e, bucket-append b procs ws vs) refl
  | inr e ↦ rw (e, bucket-append b procs ws vs) refl
]

pub bucket-out : (b : ℕ) (procs : ℕ → Proc) (p : ℕ) (ws : List ℕ) → p ∉ ws → p ∉ bucket b procs ws
bucket-out b procs p [] out = tt
bucket-out b procs p (w ∷ ws) out = elim (Bool-cases (pid_hashfn (procs w).pid == b)) [
  | inl e ↦ rw e (out.0, bucket-out b procs p ws out.1)
  | inr e ↦ rw e (bucket-out b procs p ws out.1)
]

-- Only the numbers count.
module _ (f g : ℕ → Proc) where
  pub bucket-same :
      (b : ℕ) (ps : List ℕ) → All (λ x. (f x).pid ≡ (g x).pid) ps → bucket b f ps ≡ bucket b g ps
  bucket-same b [] h = refl
  bucket-same b (p ∷ ps) h = rw (h.0, bucket-same b ps h.1) refl

  pub pids_of-same :
      (ps : List ℕ) → All (λ x. (f x).pid ≡ (g x).pid) ps → pids_of f ps ≡ pids_of g ps
  pids_of-same [] h = refl
  pids_of-same (p ∷ ps) h = rw (h.0, pids_of-same ps h.1) refl

pub length-pids_of : (f : ℕ → Proc) (ps : List ℕ) → length (pids_of f ps) ≡ length ps
length-pids_of f [] = refl
length-pids_of f (p ∷ ps) = ap suc (length-pids_of f ps)

pub pids_of-append :
    (f : ℕ → Proc) (ws vs : List ℕ) → pids_of f (ws ++ vs) ≡ pids_of f ws ++ pids_of f vs
pids_of-append f [] vs = refl
pids_of-append f (w ∷ ws) vs = ap (λ t. (f w).pid ∷ t) (pids_of-append f ws vs)

-- The bucket of its hash is enough to find a number.
pub find_in-bucket :
    (pid : ℕ) (procs : ℕ → Proc) (ps : List ℕ)
    → find_in pid procs (bucket (pid_hashfn pid) procs ps) ≡ find_in pid procs ps
unfolding find_in
find_in-bucket pid procs [] = refl
find_in-bucket pid procs (p ∷ ps) = elim (Bool-cases (pid_hashfn (procs p).pid == pid_hashfn pid)) [
  | inl e ↦ rw (e, find_in-bucket pid procs ps) refl
  | inr e ↦
      rw
        (
          e,
          ==_ne (procs p).pid pid (λ z. ==→ne _ _ e (ap pid_hashfn z)),
          find_in-bucket pid procs ps,
        )
        refl
]
