-- ===== src/Libs/SkewHeap/Join.antt =====
-- An entry put on top of a heap and its own former left part.
use mathlib.Core.Path.{subst}
use os_labs.Common.{
  ℕ, ◌+◌, ◌≤◌, ◌≡◌, ◌≢◌, refl, sym, ap, ◌∙◌, arith, ◌==◌, ==_ne, ==→ne, Bool-cases, inl, inr,
  write_at, write_at-same, write_at-other,
}
use os_labs.Libs.SkewHeap.{Entries, set_parent, on_top}
use os_labs.Libs.SkewHeap.Tree.{Tree, node, occurs, At, Same, At-frame, root-occurs, below-ne}

set_parent-left : (l a : ℕ) (h : Entries) → (set_parent l a h).left ≡ h.left
unfolding set_parent
set_parent-left l a h = elim (Bool-cases (l == 0)) [ inl e ↦ rw e refl | inr e ↦ rw e refl ]

set_parent-right : (l a : ℕ) (h : Entries) → (set_parent l a h).right ≡ h.right
unfolding set_parent
set_parent-right l a h = elim (Bool-cases (l == 0)) [ inl e ↦ rw e refl | inr e ↦ rw e refl ]

set_parent-same : (l a : ℕ) (h : Entries) → l ≢ 0 → (set_parent l a h).parent l ≡ a
unfolding set_parent
set_parent-same l a h n = rw (==_ne l 0 n) (write_at-same h.parent l a)

set_parent-other :
    (l a : ℕ) (h : Entries) (x : ℕ) → (l ≢ 0 → x ≢ l) → (set_parent l a h).parent x ≡ h.parent x
unfolding set_parent
set_parent-other l a h x n = elim (Bool-cases (l == 0)) [
  | inl e ↦ rw e refl
  | inr e ↦ rw e (write_at-other h.parent l a x (n (==→ne l 0 e)))
]

apart_parts :
    (a : ℕ) (l r : Tree) (x : ℕ) → occurs x (node a l r) ≤ 1 → 1 ≤ occurs x l → 1 ≤ occurs x r → ⊥
apart_parts a l r x one p q = omega arith

module _ (a l r : ℕ) (g : Entries) where
  abbrev pub joined : Entries
  unfolding on_top
  joined = (on_top a r (l, g)).1

  joined-left : (x : ℕ) → joined.left x ≡ write_at g.left a l x
  unfolding on_top
  joined-left x =
      ap (λ f. f x)
        (set_parent-left l a
          (record g { left = write_at g.left a l; right = write_at g.right a r }))

  joined-right : (x : ℕ) → joined.right x ≡ write_at g.right a r x
  unfolding on_top
  joined-right x =
      ap (λ f. f x)
        (set_parent-right l a
          (record g { left = write_at g.left a l; right = write_at g.right a r }))

  joined-parent : (x : ℕ) → (l ≢ 0 → x ≢ l) → joined.parent x ≡ g.parent x
  unfolding on_top
  joined-parent x n =
      set_parent-other l a (record g { left = write_at g.left a l; right = write_at g.right a r }) x
        n

  pub joined-Same : (x : ℕ) → x ≢ a → (l ≢ 0 → x ≢ l) → Same g joined x
  joined-Same x na nl = (
    joined-left x ∙ write_at-other g.left a l x na,
    joined-right x ∙ write_at-other g.right a r x na,
    joined-parent x nl,
  )

  -- The children below `a` stay what they are.
  pub joined-At :
      (tl tr : Tree)
      → a ≢ 0
      → ((x : ℕ) → occurs x (node a tl tr) ≤ 1)
      → At g l tl
      → At g r tr
      → (r ≢ 0 → g.parent r ≡ a)
      → At joined a (node a tl tr)
  unfolding on_top
  joined-At tl tr n one lt rt up =
      let ne : (x : ℕ) → 1 ≤ occurs x tl + occurs x tr → x ≢ a =
        λ x k. below-ne a tl tr x (one x) k in
      let apart : (x : ℕ) → 1 ≤ occurs x tr → l ≢ 0 → x ≢ l = λ x k nl e.
        apart_parts a tl tr x (one x)
          (subst (λ c. 1 ≤ occurs c tl) (sym e) (root-occurs g l tl lt nl)) k in
      let left_lr : (x : ℕ)
          → 1 ≤ occurs x tl + occurs x tr
          → (joined.left x ≡ g.left x) × (joined.right x ≡ g.right x) =
        λ x k. (
          joined-left x ∙ write_at-other g.left a l x (ne x k),
          joined-right x ∙ write_at-other g.right a r x (ne x k),
        ) in
      (
        refl,
        n,
        rw (joined-left a, write_at-same g.left a l)
            (At-frame g joined l tl (λ x. omega (arith, one x)) (λ x k. left_lr x (omega arith))
              (λ x k nl. joined-parent x (λ _. nl)) lt),
        rw (joined-right a, write_at-same g.right a r)
            (At-frame g joined r tr (λ x. omega (arith, one x)) (λ x k. left_lr x (omega arith))
              (λ x k nr. joined-parent x (apart x k)) rt),
        rw (joined-left a, write_at-same g.left a l) (λ nl. set_parent-same l a _ nl),
        rw (joined-right a, write_at-same g.right a r)
            (λ nr. joined-parent r (apart r (root-occurs g r tr rt nr)) ∙ up nr),
      )
