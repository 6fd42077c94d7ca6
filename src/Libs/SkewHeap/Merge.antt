-- ===== src/Libs/SkewHeap/Merge.antt =====
-- `skew_heap_merge` makes one heap of two.
use mathlib.Core.Path.{subst, subst₂}
use os_labs.Common.{
  ℕ, zero, suc, ◌+◌, ◌≤◌, ◌<◌, ◌≡◌, ◌≢◌, refl, sym, ◌∙◌, Bool, true, false, arith, ==_ne,
  Bool-cases, inl, inr, ok, ◌>>=◌,
}
use os_labs.Libs.SkewHeap.{Entries, on_top, skew_heap_merge}
use os_labs.Libs.SkewHeap.Tree.{Tree, leaf, node, size, occurs, At, Same, At-frame, root-occurs}
use os_labs.Libs.SkewHeap.Join.{joined, joined-Same, joined-At}

-- An entry that is not in a tree is none of those that are.
pub absent : (x : ℕ) (u : Tree) → occurs x u ≡ 0 → (c : ℕ) → 1 ≤ occurs c u → x ≢ c
absent x u none c k e = omega (arith, none, subst (λ z. 1 ≤ occurs z u) (sym e) k)

-- A child is not less than its parent.
module _ (less : ℕ → ℕ → Bool) where
  abbrev pub Above : ℕ → Tree → Type 0
  Above a leaf = Unit
  Above a (node c l r) = less c a ≡ false

  abbrev pub Ordered : Tree → Type 0
  Ordered leaf = Unit
  Ordered (node a l r) = Above a l × Above a r × Ordered l × Ordered r

  -- Of no two entries each is less than the other.
  abbrev pub IsAsymmetric : Type 0
  IsAsymmetric = (a b : ℕ) → less a b ≡ true → less b a ≡ false

  -- What merging the heaps `s` and `t` at `a` and `b` gives.
  abbrev pub Merged : ℕ → ℕ → ℕ → Entries → Tree → Tree → Type 0
  Merged fuel a b h s t =
      (p : ℕ) × (g : Entries) × (u : Tree) × (skew_heap_merge less fuel a b h ≡ ok (p, g))
      × (At g p u)
      × ((x : ℕ) → occurs x u ≡ occurs x s + occurs x t)
      × ((x : ℕ) → occurs x s + occurs x t ≡ 0 → Same h g x)
      × (IsAsymmetric → Ordered s → Ordered t → Ordered u)
      × ((c : ℕ) → Above c s → Above c t → Above c u)

  merge-left_empty :
      (fuel a b : ℕ) (h : Entries) → a ≡ 0 → skew_heap_merge less (suc fuel) a b h ≡ ok (b, h)
  unfolding skew_heap_merge
  merge-left_empty fuel a b h e = rw e refl

  merge-right_empty :
      (fuel a b : ℕ) (h : Entries)
      → a ≢ 0
      → b ≡ 0
      → skew_heap_merge less (suc fuel) a b h ≡ ok (a, h)
  unfolding skew_heap_merge
  merge-right_empty fuel a b h n e = rw (==_ne a 0 n, e) refl

  merge-less :
      (fuel a b : ℕ) (h : Entries)
      → a ≢ 0
      → b ≢ 0
      → less a b ≡ true
      → skew_heap_merge less (suc fuel) a b h
        ≡ (skew_heap_merge less fuel (h.right a) b h >>= λ r. ok (on_top a (h.left a) r))
  unfolding skew_heap_merge
  merge-less fuel a b h na nb e = rw (==_ne a 0 na, ==_ne b 0 nb, e) refl

  merge_not-less :
      (fuel a b : ℕ) (h : Entries)
      → a ≢ 0
      → b ≢ 0
      → less a b ≡ false
      → skew_heap_merge less (suc fuel) a b h
        ≡ (skew_heap_merge less fuel a (h.right b) h >>= λ r. ok (on_top b (h.left b) r))
  unfolding skew_heap_merge
  merge_not-less fuel a b h na nb e = rw (==_ne a 0 na, ==_ne b 0 nb, e) refl

  -- The entry `a` keeps its left part `l`, now on the right, on top of what was merged.
  top-Merged :
      (fuel p q a b c : ℕ) (h : Entries) (s t l r o : Tree)
      → (skew_heap_merge less (suc fuel) p q h
          ≡ (skew_heap_merge less fuel b c h >>= λ m. ok (on_top a (h.left a) m)))
      → At h a (node a l r)
      → ((x : ℕ) → occurs x (node a l r) + occurs x o ≤ 1)
      → ((x : ℕ) → occurs x s + occurs x t ≡ occurs x (node a l r) + occurs x o)
      → (IsAsymmetric → Ordered s → Ordered t → Ordered (node a l r) × Ordered o × Above a o)
      → ((d : ℕ) → Above d s → Above d t → less a d ≡ false)
      → Merged fuel b c h r o
      → Merged (suc fuel) p q h s t
  unfolding on_top
  top-Merged fuel p q a b c h s t l r o step at one parts order least
        (m, g, u, eq, mat, occ, same, ord, abv) =
      let kept : (x : ℕ) → 1 ≤ occurs x l → Same h g x = λ x k. same x (omega (arith, one x)) in
      (
        a,
        joined a m (h.left a) g,
        node a u l,
        step ∙ rw eq refl,
        joined-At a m (h.left a) g u l at.1 (λ x. omega (arith, occ x, one x)) mat
            (At-frame h g (h.left a) l (λ x. omega (arith, one x))
              (λ x k. ((kept x k).0, (kept x k).1)) (λ x k n. (kept x k).2) at.2)
            (λ n. (kept (h.left a) (root-occurs h (h.left a) l at.2 n)).2 ∙ at.4 n),
        λ x. omega (arith, occ x, parts x),
        λ x none.
            let old : Same h g x = same x (omega (arith, parts x)) in
            let new : Same g (joined a m (h.left a) g) x =
              joined-Same a m (h.left a) g x
                (absent x (node a l r) (omega (arith, parts x)) a
                  (root-occurs h a (node a l r) at at.1))
                (λ n. absent x u (omega (arith, parts x, occ x)) m (root-occurs g m u mat n)) in
            (new.0 ∙ old.0, new.1 ∙ old.1, new.2 ∙ old.2),
        λ asym os ot.
            let (on, oo, ao) = order asym os ot in (abv a on.1 ao, on.0, ord asym on.3 oo, on.2),
        least,
      )

  Merged-swap :
      (fuel a b : ℕ) (h : Entries) (s t : Tree) → Merged fuel a b h s t → Merged fuel a b h t s
  Merged-swap fuel a b h s t (p, g, u, eq, at, occ, same, ord, abv) = (
    p,
    g,
    u,
    eq,
    at,
    λ x. omega (arith, occ x),
    λ x e. same x (omega arith),
    λ asym ot os. ord asym os ot,
    λ c ct cs. abv c cs ct,
  )

  merge-nodes :
      (fuel x y : ℕ) (h : Entries) (l r k m : Tree)
      → At h x (node x l r)
      → At h y (node y k m)
      → ((z : ℕ) → occurs z (node x l r) + occurs z (node y k m) ≤ 1)
      → Merged fuel (h.right x) y h r (node y k m)
      → Merged fuel x (h.right y) h (node x l r) m
      → Merged (suc fuel) x y h (node x l r) (node y k m)
  merge-nodes fuel x y h l r k m sx sy one under_x under_y = elim (Bool-cases (less x y)) [
    | inl e ↦
        top-Merged fuel x y x (h.right x) y h (node x l r) (node y k m) l r (node y k m)
          (merge-less fuel x y h sx.1 sy.1 e) sx one (λ z. refl)
          (λ asym os ot. (os, ot, asym x y e)) (λ d p q. p) under_x
    | inr e ↦
        top-Merged fuel x y y x (h.right y) h (node x l r) (node y k m) k m (node x l r)
          (merge_not-less fuel x y h sx.1 sy.1 e) sy (λ z. omega (arith, one z)) (λ z. omega arith)
          (λ asym os ot. (ot, os, e)) (λ d p q. q)
          (Merged-swap fuel x (h.right y) h (node x l r) m under_y)
  ]

  -- If two addresses hold trees of entries that have no entry twice and none in common, and the nesting
  -- may be as deep as they have entries, and once more, then skew_heap_merge ends, for any comparison. It
  -- gives the address of a tree of just the entries of both, every child naming its parent, and changes no
  -- field of any other entry. What neither root was less than, the new one is not. If no child was less
  -- than its parent, and of no two entries the comparison says that each is less than the other, no child
  -- of the result is less than its parent.
  pub skew_heap_merge-Merged :
      (fuel a b : ℕ) (h : Entries) (s t : Tree)
      → size s + size t < fuel
      → At h a s
      → At h b t
      → ((x : ℕ) → occurs x s + occurs x t ≤ 1)
      → Merged fuel a b h s t
  skew_heap_merge-Merged zero a b h s t more sa tb one = absurd (omega arith)
  skew_heap_merge-Merged (suc fuel) a b h leaf t more sa tb one = (
    b,
    h,
    t,
    merge-left_empty fuel a b h sa,
    tb,
    λ x. omega arith,
    λ x e. (refl, refl, refl),
    λ asym os ot. ot,
    λ c cs ct. ct,
  )
  skew_heap_merge-Merged (suc fuel) a b h (node x l r) leaf more sa tb one = (
    a,
    h,
    node x l r,
    merge-right_empty fuel a b h (λ e. sa.1 (sym sa.0 ∙ e)) tb,
    sa,
    λ z. omega arith,
    λ z e. (refl, refl, refl),
    λ asym os ot. os,
    λ c cs ct. cs,
  )
  skew_heap_merge-Merged (suc fuel) a b h (node x l r) (node y k m) more sa tb one =
      let sx : At h x (node x l r) = (refl, sa.1, sa.2, sa.3, sa.4, sa.5) in
      let ty : At h y (node y k m) = (refl, tb.1, tb.2, tb.3, tb.4, tb.5) in
      subst₂ (λ p q. Merged (suc fuel) p q h (node x l r) (node y k m)) (sym sa.0) (sym tb.0)
        (merge-nodes fuel x y h l r k m sx ty one
          (skew_heap_merge-Merged fuel (h.right x) y h r (node y k m) (omega arith) sx.3 ty
            (λ z. omega (arith, one z)))
          (skew_heap_merge-Merged fuel x (h.right y) h (node x l r) m (omega arith) sx ty.3
            (λ z. omega (arith, one z))))
