-- ===== src/Libs/SkewHeap/Insert.antt =====
-- `skew_heap_insert` adds one entry to a heap.
use os_labs.Common.{
  ℕ, ◌+◌, ◌≤◌, ◌<◌, ◌≡◌, ◌≢◌, refl, sym, ap, Bool, true, false, arith, ◌==◌, if◌then◌else◌,
  Bool-cases, inl, inr, ==_iff, ok, write_at-same, write_at-other,
}
use os_labs.Libs.SkewHeap.{Entries, skew_heap_init, skew_heap_insert}
use os_labs.Libs.SkewHeap.Tree.{Tree, leaf, node, size, occurs, At, At-frame}
use os_labs.Libs.SkewHeap.Merge.{Ordered, absent, skew_heap_merge-Merged}

init-other :
    (b : ℕ) (h : Entries) (a : ℕ) (s : Tree)
    → ((x : ℕ) → occurs x s ≤ 1)
    → occurs b s ≡ 0
    → At h a s
    → At (skew_heap_init b h) a s
unfolding skew_heap_init
init-other b h a s one out at =
    let ne : (x : ℕ) → 1 ≤ occurs x s → x ≢ b = λ x k e. absent b s out x k (sym e) in
    At-frame h (skew_heap_init b h) a s one
      (λ x k. (write_at-other h.left b 0 x (ne x k), write_at-other h.right b 0 x (ne x k)))
      (λ x k n. write_at-other h.parent b 0 x (ne x k)) at

init-new : (b : ℕ) (h : Entries) → b ≢ 0 → At (skew_heap_init b h) b (node b leaf leaf)
unfolding skew_heap_init
init-new b h n = (
  refl,
  n,
  write_at-same h.left b 0,
  write_at-same h.right b 0,
  λ k. absurd (k (write_at-same h.left b 0)),
  λ k. absurd (k (write_at-same h.right b 0)),
)

one_more :
    (b : ℕ) (s : Tree)
    → ((x : ℕ) → occurs x s ≤ 1)
    → occurs b s ≡ 0
    → (x : ℕ) → occurs x s + occurs x (node b leaf leaf) ≤ 1
one_more b s one out x = elim (Bool-cases (x == b)) [
  | inl e ↦ rw e (omega (arith, ap (λ c. occurs c s) ((==_iff x b).0 e), out))
  | inr e ↦ rw e (omega (arith, one x))
]

module _ (less : ℕ → ℕ → Bool) (asym : (a b : ℕ) → less a b ≡ true → less b a ≡ false) where
  -- If an address holds a tree without repetition, whatever the fields of a further entry are that is not
  -- NULL and not in it, and the nesting may be as deep as the tree has entries, and twice more, then
  -- skew_heap_insert ends and gives the address of a tree of the same entries and the new one, every child
  -- naming its parent, in which no child is less than its parent if none was, for a comparison that never
  -- says of two entries that each is less than the other.
  pub skew_heap_insert-Ordered :
      (fuel a b : ℕ) (h : Entries) (s : Tree)
      → size s + 1 < fuel
      → At h a s
      → ((x : ℕ) → occurs x s ≤ 1)
      → b ≢ 0
      → occurs b s ≡ 0
      → (p : ℕ) × (g : Entries) × (u : Tree) × (skew_heap_insert less fuel a b h ≡ ok (p, g))
        × (At g p u)
        × ((x : ℕ) → occurs x u ≡ occurs x s + (if x == b then 1 else 0))
        × (Ordered less s → Ordered less u)
  unfolding skew_heap_insert
  skew_heap_insert-Ordered fuel a b h s more at one nb out =
      let (p, g, u, eq, top, occ, same, ord, abv) =
        skew_heap_merge-Merged less fuel a b (skew_heap_init b h) s (node b leaf leaf)
          (omega (arith, more)) (init-other b h a s one out at) (init-new b h nb)
          (one_more b s one out) in
      (p, g, u, eq, top, λ x. omega (arith, occ x), λ os. ord asym os (tt, tt, tt, tt))
