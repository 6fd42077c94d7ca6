-- ===== src/Process/Fork/Prepare.antt =====
-- A structure that is made ready for a new process does not disturb the table.
use mathlib.Core.Path.{subst}
use mathlib.Core.List.{Memᴰ}
use os_labs.Common.{
  ℕ, ◌≡◌, ◌≢◌, refl, ap, ◌∙◌, true, List, [], All, write_at, write_at-same, write_at-other,
  write_at_keeps, inl, inr, Bool-cases, ==_iff, ==→ne, ◌==◌,
}
use os_labs.Libs.ListEntry.Distinct.{◌∉◌, All-map}
use os_labs.Process.Family.{Family, set_parent}
use os_labs.Process.Family.Siblings.{Siblings, Kids, IsFamily, Siblings-frame}
use os_labs.Process.Table.{Proc, Table, is_zombie}
use os_labs.Process.Table.Members.{not_mem, mem-out}
use os_labs.Process.Table.Valid.{IsTable, IsTable-procs}
use os_labs.Process.Fork.{blank_family}

module _ {S : Type 0} (t : Table S) (kids : Kids) (p q : ℕ) (h : IsTable t kids)
    (out : p ∉ t.proc_list) (ni : p ≢ t.idleproc) where
  abbrev blank : Family
  blank = set_parent p q (blank_family p t.family)

  pub unlisted : (a : ℕ) → p ∉ kids a
  unlisted a = mem-out p (kids a) (λ m. not_mem p t.proc_list out (h.listed a p m))

  -- No child is `p`, so the children keep their pointers.
  blank-same :
      (xs : List ℕ)
      → p ∉ xs
      → All
          (λ x.
            (blank.parent x ≡ t.family.parent x)
            × (blank.yptr x ≡ t.family.yptr x)
            × (blank.optr x ≡ t.family.optr x))
          xs
  blank-same xs o =
      All-map _ _ xs
        (λ x n. (
          write_at-other (write_at t.family.parent p 0) p q x n
              ∙ write_at-other t.family.parent p 0 x n,
          write_at-other t.family.yptr p 0 x n,
          write_at-other t.family.optr p 0 x n,
        ))
        o

  blank-cptr :
      (a : ℕ)
      → Siblings blank a 0 (t.family.cptr a) (kids a)
      → Siblings blank a 0 (blank.cptr a) (kids a)
  blank-cptr a s = elim (Bool-cases (a == p)) [
    | inl e ↦ rw ((==_iff a p).0 e, write_at-same t.family.cptr p 0, h.childless p out ni) refl
    | inr e ↦ rw (write_at-other t.family.cptr p 0 a (==→ne a p e)) s
  ]

  blank-IsFamily : IsFamily blank kids
  blank-IsFamily a = (
    blank-cptr a (
        Siblings-frame t.family blank a 0 (t.family.cptr a) (kids a)
          (blank-same (kids a) (unlisted a)) (h.families a).0),
    (h.families a).1,
  )

  blank-owned : (x : ℕ) → Memᴰ x t.proc_list → Memᴰ x (kids (blank.parent x))
  blank-owned x m =
      let n : x ≢ p = λ e. not_mem p t.proc_list out (subst (λ z. Memᴰ z t.proc_list) e m) in
      rw
        (
          write_at-other (write_at t.family.parent p 0) p q x n,
          write_at-other t.family.parent p 0 x n,
        )
        (h.owned x m)

  -- the table with a structure `r` at `p`, its parent, and whatever the memory managers keep
  abbrev pub prepared : Proc → S → Table S
  prepared r s = record t {
    procs = write_at t.procs p r;
    family = set_parent p q (blank_family p t.family);
    below = s;
  }

  pub prepared-IsTable : (r : Proc) (s : S) → IsTable (prepared r s) kids
  prepared-IsTable r s =
      let old =
        IsTable-procs t kids (write_at t.procs p r)
          (All-map _ _ t.proc_list (λ x n. ap (λ v. v.pid) (write_at-other t.procs p r x n)) out)
          (λ x.
            write_at_keeps (λ c v. is_zombie v.state ≡ true → kids c ≡ []) t.procs p r x
              (λ e. h.childless p out ni) (h.zombies x))
          h in
      record {
        families = blank-IsFamily;
        listed = h.listed;
        owned = blank-owned;
        childless = h.childless;
        zombies = old.zombies;
        distinct = h.distinct;
        nonzero = h.nonzero;
        idle = h.idle;
        numbers = old.numbers;
        in_range = old.in_range;
        safe = old.safe;
        hashed = old.hashed;
        counted = h.counted;
      }
