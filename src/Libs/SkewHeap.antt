-- ===== src/Libs/SkewHeap.antt =====
-- lab8/libs/skew_heap.h: a heap of entries that are linked to their parent and their children.
-- An address of an entry is a number and NULL is 0; `less a b` stands for `comp(a, b) == -1`.
pub mod Tree
pub mod Join
pub mod Merge
mod Tests
pub mod Insert
use os_labs.Common.{ℕ, zero, suc, Bool, ◌==◌, if◌then◌else◌, Run, ok, no_fuel, ◌>>=◌, write_at}

-- the fields of every entry
pub record Entries : Type 0 where
  pub parent : ℕ → ℕ
  pub left : ℕ → ℕ
  pub right : ℕ → ℕ

unfoldable pub skew_heap_init : ℕ → Entries → Entries
skew_heap_init a h = record {
  parent = write_at h.parent a 0;
  left = write_at h.left a 0;
  right = write_at h.right a 0;
}

-- `if (l) l->parent = a`
unfoldable pub set_parent : ℕ → ℕ → Entries → Entries
set_parent l a h = if l == 0 then h else record h { parent = write_at h.parent l a }

-- the entry `a` on top of `l` and `r`
unfoldable pub on_top : ℕ → ℕ → ℕ × Entries → ℕ × Entries
unfolding set_parent
on_top a r (l, h) =
    (a, set_parent l a (record h { left = write_at h.left a l; right = write_at h.right a r }))

module _ (less : ℕ → ℕ → Bool) where
  -- The calls are nested at most as deep as the first number says.
  unfoldable pub skew_heap_merge : ℕ → ℕ → ℕ → Entries → Run (ℕ × Entries)
  unfolding on_top
  skew_heap_merge zero a b h = no_fuel
  skew_heap_merge (suc fuel) a b h =
      let under_a = skew_heap_merge fuel (h.right a) b h in
      let under_b = skew_heap_merge fuel a (h.right b) h in
      if a == 0
      then ok (b, h)
      else (if b == 0
          then ok (a, h)
          else (if less a b
              then (under_a >>= (λ r. ok (on_top a (h.left a) r)))
              else (under_b >>= (λ r. ok (on_top b (h.left b) r)))))

  unfoldable pub skew_heap_insert : ℕ → ℕ → ℕ → Entries → Run (ℕ × Entries)
  unfolding skew_heap_init
  skew_heap_insert fuel a b h = skew_heap_merge fuel a b (skew_heap_init b h)

  -- the place of `b` under its parent `p`, or the whole heap, is given to `rep`
  unfoldable pub replace : ℕ → ℕ → ℕ → ℕ × Entries → ℕ × Entries
  unfolding set_parent
  replace a b p (rep, h) =
      let g = set_parent rep p h in
      if p == 0
      then (rep, g)
      else (if g.left p == b
          then (a, record g { left = write_at g.left p rep })
          else (a, record g { right = write_at g.right p rep }))

  unfoldable pub skew_heap_remove : ℕ → ℕ → ℕ → Entries → Run (ℕ × Entries)
  unfolding replace
  skew_heap_remove fuel a b h =
      skew_heap_merge fuel (h.left b) (h.right b) h >>= λ r. ok (replace a b (h.parent b) r)
