-- ===== src/Libs/SkewHeap/Tests.antt =====
-- Entry 5 with the child 7, the heap of entry 6 alone, and a new entry 4; smaller addresses come first.
use os_labs.Common.{
  ℕ, ◌+◌, ◌≤◌, ◌≡◌, refl, true, false, arith, ◌==◌, ltb, if◌then◌else◌, ok, ◌>>=◌, write_at,
}
use os_labs.Libs.SkewHeap.{
  Entries, skew_heap_merge, skew_heap_insert, skew_heap_remove, replace, on_top, set_parent,
}
use os_labs.Libs.SkewHeap.Tree.{Tree, leaf, node, occurs, At}
use os_labs.Libs.SkewHeap.Merge.{Ordered, Merged, skew_heap_merge-Merged}
use os_labs.Libs.SkewHeap.Insert.{skew_heap_insert-Ordered}

abbrev entries : Entries
entries = record {
  parent = λ x. if x == 7 then 5 else 0;
  left = λ x. if x == 5 then 7 else 0;
  right = λ x. 0;
}

abbrev two : Tree
two = node 5 (node 7 leaf leaf) leaf

abbrev one : Tree
one = node 6 leaf leaf

two-At : At entries 5 two
two-At = (
  refl,
  λ e. omega (arith, e),
  (refl, λ e. omega (arith, e), refl, refl, λ n. absurd (n refl), λ n. absurd (n refl)),
  refl,
  λ n. refl,
  λ n. absurd (n refl),
)

one-At : At entries 6 one
one-At = (refl, λ e. omega (arith, e), refl, refl, λ n. absurd (n refl), λ n. absurd (n refl))

two-one_apart : (x : ℕ) → occurs x two + occurs x one ≤ 1
two-one_apart x = ground arith

two_single : (x : ℕ) → occurs x two ≤ 1
two_single x = ground arith

ltb_asym : (a b : ℕ) → ltb a b ≡ true → ltb b a ≡ false
ltb_asym a b h = ground arith

run_merge : (skew_heap_merge ltb 4 5 6 entries >>= λ r. ok (r.1.left 5)) ≡ ok 6
unfolding skew_heap_merge on_top set_parent write_at
run_merge = refl

-- 5 leaves, and its child is the heap that is left.
run_remove : (skew_heap_remove ltb 4 5 5 entries >>= λ r. ok r.0) ≡ ok 7
unfolding skew_heap_remove skew_heap_merge replace on_top set_parent write_at
run_remove = refl

skew_heap_merge-Merged_example : Merged ltb 4 5 6 entries two one
skew_heap_merge-Merged_example =
    skew_heap_merge-Merged ltb 4 5 6 entries two one (omega arith) two-At one-At two-one_apart

skew_heap_insert-Ordered_example :
    (p : ℕ) × (g : Entries) × (u : Tree) × (skew_heap_insert ltb 4 5 4 entries ≡ ok (p, g))
    × (At g p u)
    × ((x : ℕ) → occurs x u ≡ occurs x two + (if x == 4 then 1 else 0))
    × (Ordered ltb two → Ordered ltb u)
skew_heap_insert-Ordered_example =
    skew_heap_insert-Ordered ltb ltb_asym 4 5 4 entries two (omega arith) two-At two_single
      (λ e. omega (arith, e)) refl
