-- ===== src/Libs/Str/Move.antt =====
-- The routines that write blocks of memory.
use native.Mathlib.Decide.{ℕ_discrete}
use os_labs.Common.{
  ℕ, zero, suc, ◌+◌, ◌-◌, ◌≤◌, ◌<◌, ◌≡◌, ◌≢◌, ap, ◌∙◌, ◌⊎◌, inl, inr, ◌&&◌, arith, ltb, leb,
  if◌then◌else◌, Bool-cases, ltb→lt, ltb→le, sym,
}
use os_labs.Libs.Str.{Memory, store, memset, copy_up, copy_down, memmove, memcpy}

-- the bytes at `dst` hold what stood at `src`, and all others are as they were
abbrev pub moved : ℕ → ℕ → ℕ → Memory → ℕ → ℕ
moved dst src n m a = if leb dst a && ltb a (dst + n) then m (src + (a - dst)) else m a

store-ne : (m : Memory) (p v a : ℕ) → a ≢ p → store m p v a ≡ m a
unfolding store
store-ne m p v a h = ground arith

store-eq : (m : Memory) (p v a : ℕ) → a ≡ p → store m p v a ≡ v
unfolding store
store-eq m p v a h = ground arith

moved_in : (d s n : ℕ) (m : Memory) (a : ℕ) → d ≤ a → a < d + n → moved d s n m a ≡ m (s + (a - d))
moved_in d s n m a p q = ground arith

moved_out : (d s n : ℕ) (m : Memory) (a : ℕ) → (a < d) ⊎ (d + n ≤ a) → moved d s n m a ≡ m a
moved_out d s n m a o = ground arith

-- an address is outside a range, its first, or a later one in it
data Place (d n a : ℕ) : Type 0 where
  outside : (a < d) ⊎ (d + n ≤ a) → Place d n a
  inside : d ≤ a → a < d + n → Place d n a

place : (d n a : ℕ) → Place d n a
place d n a = elim (Bool-cases (ltb a d)) [
  | inl e ↦ outside (inl (ltb→lt a d e))
  | inr e ↦ elim (Bool-cases (ltb a (d + n))) [
    | inl f ↦ inside (ltb→le a d e) (ltb→lt a (d + n) f)
    | inr f ↦ outside (inr (ltb→le a (d + n) f))
  ]
]

-- One byte more at the front, written first.
moved-front :
    (n d s : ℕ) (m : Memory) (a : ℕ)
    → (d ≤ s) ⊎ (s + suc n ≤ d)
    → moved (d + 1) (s + 1) n (store m d (m s)) a ≡ moved d s (suc n) m a
moved-front n d s m a h = elim (place (d + 1) n a) [
  | inside p q ↦
      moved_in (d + 1) (s + 1) n (store m d (m s)) a p q
      ∙ store-ne m d (m s) (s + 1 + (a - (d + 1))) (λ e. omega (arith, h))
      ∙ ap m (omega arith)
      ∙ sym (moved_in d s (suc n) m a (omega arith) (omega arith))
  | outside o ↦ moved_out (d + 1) (s + 1) n (store m d (m s)) a o ∙ elim (ℕ_discrete a d) [
    | yes e ↦
        store-eq m d (m s) a e
        ∙ ap m (omega arith)
        ∙ sym (moved_in d s (suc n) m a (omega arith) (omega arith))
    | no e ↦ store-ne m d (m s) a e ∙ sym (moved_out d s (suc n) m a (omega arith))
  ]
]

-- One byte more at the end, written first.
moved-end :
    (n d s : ℕ) (m : Memory) (a : ℕ)
    → s ≤ d
    → moved d s n (store m (d + n) (m (s + n))) a ≡ moved d s (suc n) m a
moved-end n d s m a h = elim (place d n a) [
  | inside p q ↦
      moved_in d s n (store m (d + n) (m (s + n))) a p q
      ∙ store-ne m (d + n) (m (s + n)) (s + (a - d)) (λ e. omega arith)
      ∙ sym (moved_in d s (suc n) m a p (omega arith))
  | outside o ↦ moved_out d s n (store m (d + n) (m (s + n))) a o ∙ elim (ℕ_discrete a (d + n)) [
    | yes e ↦
        store-eq m (d + n) (m (s + n)) a e
        ∙ ap m (omega arith)
        ∙ sym (moved_in d s (suc n) m a (omega arith) (omega arith))
    | no e ↦ store-ne m (d + n) (m (s + n)) a e ∙ sym (moved_out d s (suc n) m a (omega arith))
  ]
]

copy_up-moved :
    (n d s : ℕ) (m : Memory) (a : ℕ) → (d ≤ s) ⊎ (s + n ≤ d) → copy_up d s n m a ≡ moved d s n m a
unfolding copy_up
copy_up-moved zero d s m a h = sym (moved_out d s 0 m a (ground arith))
copy_up-moved (suc n) d s m a h =
    copy_up-moved n (d + 1) (s + 1) (store m d (m s)) a (omega arith) ∙ moved-front n d s m a h

copy_down-moved :
    (n d s : ℕ) (m : Memory) (a : ℕ) → s ≤ d → copy_down (d + n) (s + n) n m a ≡ moved d s n m a
unfolding copy_down
copy_down-moved zero d s m a h = sym (moved_out d s 0 m a (ground arith))
copy_down-moved (suc n) d s m a h =
    let back : (k : ℕ) → k + suc n - 1 ≡ k + n = λ k. omega arith in
    rw (back d, back s)
      (copy_down-moved n d s (store m (d + n) (m (s + n))) a h ∙ moved-end n d s m a h)

-- `memmove` gives the n bytes of the destination what stood at the source before, however the two
-- overlap, and leaves every other byte as it was.
pub memmove-moved :
    (dst src n : ℕ) (m : Memory) (a : ℕ)
    → memmove dst src n m a ≡ (if leb dst a && ltb a (dst + n) then m (src + (a - dst)) else m a)
unfolding memmove
memmove-moved dst src n m a = elim (Bool-cases (ltb src dst && ltb dst (src + n))) [
  | inl e ↦ rw e (copy_down-moved n dst src m a (ground arith))
  | inr e ↦ rw e (copy_up-moved n dst src m a (ground arith))
]

-- `memcpy` leaves the memory as `memmove` does, where the destination does not begin inside the
-- source behind its first byte.
pub memcpy-memmove :
    (dst src n : ℕ) (m : Memory) (a : ℕ)
    → (dst ≤ src) ⊎ (src + n ≤ dst)
    → memcpy dst src n m a ≡ memmove dst src n m a
unfolding memcpy
memcpy-memmove dst src n m a h = copy_up-moved n dst src m a h ∙ sym (memmove-moved dst src n m a)

-- `memset` gives each of the n bytes from its address the value c and leaves every other byte as it
-- was.
pub memset-filled :
    (p c n : ℕ) (m : Memory) (a : ℕ)
    → memset p c n m a ≡ (if leb p a && ltb a (p + n) then c else m a)
unfolding memset store
memset-filled p c zero m a = ground arith
memset-filled p c (suc n) m a = ground (arith, memset-filled (p + 1) c n (store m p c) a)
