-- ===== src/Process/Family.antt =====
-- The pointers between a process, its parent, its children and its siblings, as
-- lab5/kern/process/proc.c sets them. A process is the address of its structure, and NULL is 0.
pub mod Siblings
pub mod Insert
pub mod Remove
pub mod Adopt
use os_labs.Common.{ℕ, zero, suc, ◌==◌, if◌then◌else◌, write_at}

-- the fields of every process
pub record Family : Type 0 where
  pub parent : ℕ → ℕ
  pub cptr : ℕ → ℕ
  pub yptr : ℕ → ℕ
  pub optr : ℕ → ℕ

abbrev pub set_parent : ℕ → ℕ → Family → Family
set_parent p v f = record f { parent = write_at f.parent p v }

abbrev pub set_cptr : ℕ → ℕ → Family → Family
set_cptr p v f = record f { cptr = write_at f.cptr p v }

abbrev pub set_yptr : ℕ → ℕ → Family → Family
set_yptr p v f = record f { yptr = write_at f.yptr p v }

abbrev pub set_optr : ℕ → ℕ → Family → Family
set_optr p v f = record f { optr = write_at f.optr p v }

-- `if (p != NULL) p->yptr = v`
unfoldable pub set_yptr_of : ℕ → ℕ → Family → Family
set_yptr_of p v f = record f { yptr = if p == 0 then f.yptr else write_at f.yptr p v }

-- `p` becomes the youngest child of `q`
unfoldable pub link_first : ℕ → ℕ → Family → Family
unfolding set_yptr_of
link_first p q f =
    let older = f.cptr q in set_cptr q p (set_yptr_of older p (set_optr p older (set_yptr p 0 f)))

-- the part of `set_links` on these fields
unfoldable pub set_relations : ℕ → Family → Family
unfolding link_first
set_relations p f = link_first p (f.parent p) f

-- the part of `remove_links` on these fields
unfoldable pub remove_relations : ℕ → Family → Family
unfolding set_yptr_of
remove_relations p f =
    let f' = set_yptr_of (f.optr p) (f.yptr p) f in
    let younger = f'.yptr p in
    record f' {
      cptr = if younger == 0 then write_at f'.cptr (f'.parent p) (f'.optr p) else f'.cptr;
      optr = if younger == 0 then f'.optr else write_at f'.optr younger (f'.optr p);
    }

-- one round of the loop in `do_exit`: the first child of `p` goes to `q`, which is the init process
unfoldable pub hand_over : ℕ → ℕ → Family → Family
unfolding set_yptr_of
hand_over p q f =
    let c = f.cptr p in
    let f' = set_yptr c 0 (set_cptr p (f.optr c) f) in
    let older = f'.cptr q in
    set_cptr q c (set_parent c q (set_yptr_of older c (set_optr c older f')))
