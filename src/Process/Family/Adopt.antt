-- ===== src/Process/Family/Adopt.antt =====
-- The children of a process that exits go to the init process, one after the other.
use os_labs.Common.{
  ℕ, ◌≡◌, ◌≢◌, refl, List, ◌∷◌, All, write_at-same, write_at-other, Bool-cases, ◌==◌, ==_iff, ==→ne,
  inl, inr,
}
use os_labs.Libs.ListEntry.Distinct.{◌∉◌, Distinct, ne_sym, All-map}
use os_labs.Process.Family.{Family, set_parent, set_cptr, link_first, hand_over}
use os_labs.Process.Family.Siblings.{Siblings, Kids, Siblings-frame}
use os_labs.Process.Family.Insert.{
  Siblings-apart, first-parent, with_kids, link_first-frame, link_first-Siblings,
}

-- All families are in order but that of `p`, whose children `xs` may begin with one that names `y`.
abbrev pub IsExiting : ℕ → Family → ℕ → List ℕ → Kids → Type 0
IsExiting p f y xs kids =
    Siblings f p y (f.cptr p) xs
    × Distinct xs
    × ((a : ℕ) → a ≢ p → Siblings f a 0 (f.cptr a) (kids a) × Distinct (kids a))

module _ (p q : ℕ) (pq : q ≢ p) (f : Family) (y c : ℕ) (xs : List ℕ) (kids : Kids)
    (inv : IsExiting p f y (c ∷ xs) kids) where
  -- the child `c` taken from `p`, and not yet among those of `q`
  abbrev taken : Family
  taken = set_parent c q (set_cptr p (f.optr c) f)

  abbrev given : Family
  given = link_first c q taken

  own : Siblings f p y (f.cptr p) (c ∷ xs)
  own = inv.0

  hand_over-link_first : hand_over p q f ≡ given
  unfolding hand_over link_first
  hand_over-link_first = rw own.0 refl

  taken-cptr : (a : ℕ) → a ≢ p → taken.cptr a ≡ f.cptr a
  taken-cptr a n = write_at-other f.cptr p (f.optr c) a n

  -- Processes other than `c` are as before.
  taken-same :
      (ws : List ℕ)
      → c ∉ ws
      → All
          (λ x.
            (taken.parent x ≡ f.parent x) × (taken.yptr x ≡ f.yptr x) × (taken.optr x ≡ f.optr x))
          ws
  taken-same ws out = All-map _ _ ws (λ x n. (write_at-other f.parent c q x n, refl, refl)) out

  c-apart : (a : ℕ) → a ≢ p → c ∉ kids a
  c-apart a n = Siblings-apart f a p 0 (f.cptr a) (kids a) c n own.2 (inv.2 a n).0

  taken-others : (a : ℕ) → a ≢ p → Siblings taken a 0 (taken.cptr a) (kids a)
  taken-others a n = rw (taken-cptr a n) (
      Siblings-frame f taken a 0 (f.cptr a) (kids a) (taken-same (kids a) (c-apart a n))
        (inv.2 a n).0)

  taken-own : Siblings taken p c (f.optr c) xs
  taken-own = Siblings-frame f taken p c (f.optr c) xs (taken-same xs inv.1.0) own.4

  -- the first child of `q`, if there is one, is not a child of another process
  first-apart :
      (a z d : ℕ) (ws : List ℕ)
      → a ≢ q
      → Siblings taken a z d ws
      → taken.cptr q ≢ 0
      → taken.cptr q ∉ ws
  first-apart a z d ws n s m =
      Siblings-apart taken a q z d ws (taken.cptr q) n
        (first-parent taken q 0 (taken.cptr q) (kids q) (taken-others q pq) m) s

  given-cptr : (a : ℕ) → a ≢ q → given.cptr a ≡ taken.cptr a
  unfolding link_first
  given-cptr a n = write_at-other taken.cptr q c a n

  given-cptr_first : given.cptr q ≡ c
  unfolding link_first
  given-cptr_first = write_at-same taken.cptr q c

  given-own : Siblings given p c (given.cptr p) xs
  given-own =
      rw (given-cptr p (ne_sym pq), write_at-same f.cptr p (f.optr c))
        (Siblings-frame taken given p c (f.optr c) xs
          (link_first-frame taken c q xs inv.1.0
            (first-apart p c (f.optr c) xs (ne_sym pq) taken-own))
          taken-own)

  given-first : Siblings given q 0 (given.cptr q) (c ∷ kids q)
  given-first = rw given-cptr_first (
      link_first-Siblings taken c q 0 (kids q) own.1 (c-apart q pq) (inv.2 q pq).1
        (write_at-same f.parent c q) (taken-others q pq))

  given-others : (a : ℕ) → a ≢ p → a ≢ q → Siblings given a 0 (given.cptr a) (kids a)
  given-others a n m = rw (given-cptr a m) (
      Siblings-frame taken given a 0 (taken.cptr a) (kids a)
        (link_first-frame taken c q (kids a) (c-apart a n)
          (first-apart a 0 (taken.cptr a) (kids a) m (taken-others a n)))
        (taken-others a n))

  pub hand_over-IsExiting : IsExiting p (hand_over p q f) c xs (with_kids q (c ∷ kids q) kids)
  hand_over-IsExiting = rw hand_over-link_first (
    given-own,
    inv.1.1,
    λ a n. elim (Bool-cases (a == q)) [
      | inl e ↦
          rw ((==_iff a q).0 e, write_at-same kids q (c ∷ kids q))
            (given-first, (c-apart q pq, (inv.2 q pq).1))
      | inr e ↦
          rw (write_at-other kids q (c ∷ kids q) a (==→ne a q e))
            (given-others a n (==→ne a q e), (inv.2 a n).1)
    ],
  )
