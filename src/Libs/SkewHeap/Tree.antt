-- ===== src/Libs/SkewHeap/Tree.antt =====
-- The tree that the entries below an address form.
use os_labs.Common.{ℕ, suc, ◌+◌, ◌≤◌, ◌≡◌, ◌≢◌, ◌∙◌, arith, ◌==◌, if◌then◌else◌, ==_refl, ==_iff}
use os_labs.Libs.SkewHeap.{Entries}

pub data Tree : Type 0 where
  leaf : Tree
  node : ℕ → Tree → Tree → Tree

abbrev pub size : Tree → ℕ
size leaf = 0
size (node a l r) = suc (size l + size r)

-- how often an entry stands in a tree
abbrev pub occurs : ℕ → Tree → ℕ
occurs x leaf = 0
occurs x (node a l r) = (if x == a then 1 else 0) + (occurs x l + occurs x r)

-- The entries below `p` form the tree `t`, and the children name their parent.
abbrev pub At : Entries → ℕ → Tree → Type 0
At h p leaf = p ≡ 0
At h p (node a l r) =
    (p ≡ a)
    × (a ≢ 0)
    × (At h (h.left a) l)
    × (At h (h.right a) r)
    × (h.left a ≢ 0 → h.parent (h.left a) ≡ a)
    × (h.right a ≢ 0 → h.parent (h.right a) ≡ a)

pub root-occurs : (h : Entries) (p : ℕ) (t : Tree) → At h p t → p ≢ 0 → 1 ≤ occurs p t
root-occurs h p leaf at n = absurd (n at)
root-occurs h p (node a l r) at n = rw (at.0, ==_refl a) (omega arith)

-- The fields of the entry `x` are the same in both memories.
abbrev pub Same : Entries → Entries → ℕ → Type 0
Same h g x = (g.left x ≡ h.left x) × (g.right x ≡ h.right x) × (g.parent x ≡ h.parent x)

top-occurs : (a : ℕ) (l r : Tree) → 1 ≤ occurs a (node a l r)
top-occurs a l r = rw (==_refl a) (omega arith)

-- In a tree without repetition the entries below the root are not the root.
pub below-ne :
    (a : ℕ) (l r : Tree) (x : ℕ) → occurs x (node a l r) ≤ 1 → 1 ≤ occurs x l + occurs x r → x ≢ a
below-ne a l r x one k e =
    let again : occurs x (node a l r) ≡ suc (occurs x l + occurs x r) =
      rw ((==_iff x a).1 e) (omega arith) in
    omega (arith, again, one, k)

-- A memory that differs from the first only outside the tree and in the parent of its root has it, too.
pub At-frame :
    (h g : Entries) (p : ℕ) (t : Tree)
    → ((x : ℕ) → occurs x t ≤ 1)
    → ((x : ℕ) → 1 ≤ occurs x t → (g.left x ≡ h.left x) × (g.right x ≡ h.right x))
    → ((x : ℕ) → 1 ≤ occurs x t → x ≢ p → g.parent x ≡ h.parent x)
    → At h p t
    → At g p t
At-frame h g p leaf one lr up at = at
At-frame h g p (node a l r) one lr up at =
    let (el, er) = lr a (top-occurs a l r) in
    let other : (x : ℕ) → 1 ≤ occurs x l + occurs x r → x ≢ p =
      λ x k e. below-ne a l r x (one x) k (e ∙ at.0) in
    let same_up : (c : ℕ)
        → (c ≢ 0 → 1 ≤ occurs c l + occurs c r)
        → (c ≢ 0 → h.parent c ≡ a)
        → c ≢ 0
        → g.parent c ≡ a =
      λ c here old n. up c (omega (arith, here n)) (other c (here n)) ∙ old n in
    (
      at.0,
      at.1,
      rw el (
          At-frame h g (h.left a) l (λ x. omega (arith, one x)) (λ x k. lr x (omega arith))
            (λ x k n. up x (omega arith) (other x (omega arith))) at.2),
      rw er (
          At-frame h g (h.right a) r (λ x. omega (arith, one x)) (λ x k. lr x (omega arith))
            (λ x k n. up x (omega arith) (other x (omega arith))) at.3),
      rw el (same_up (h.left a) (λ n. omega (arith, root-occurs h (h.left a) l at.2 n)) at.4),
      rw er (same_up (h.right a) (λ n. omega (arith, root-occurs h (h.right a) r at.3 n)) at.5),
    )
