-- ===== src/Process/Exit/Reap.antt =====
-- A zombie that is found leaves the table: `do_wait` from `found:` on.
use mathlib.Core.Path.{subst}
use mathlib.Core.List.{Memᴰ}
use os_labs.Common.{ℕ, ◌≡◌, ◌≢◌, refl, ap, ◌∙◌, true, ◌++◌, ==_ne, ok}
use os_labs.Libs.ListEntry.Distinct.{◌∉◌, Distinct, Distinct-remove}
use os_labs.Process.Family.Siblings.{Kids}
use os_labs.Process.Family.Insert.{with_kids}
use os_labs.Process.Family.{remove_relations}
use os_labs.Process.Table.{Memory, Table, is_zombie, without, unhash_proc, remove_links}
use os_labs.Process.Table.Members.{not_mem, mem-split, without-middle}
use os_labs.Process.Table.Valid.{IsTable, IsTable-below}
use os_labs.Process.Fork.{put_kstack}
use os_labs.Process.Exit.{reaped, reap}
use os_labs.Process.Exit.Remove.{out_before, removed_list, removed-IsTable}

-- What holds after the zombie `p` was taken out.
pub record IsReaped {S : Type 0} (t t' : Table S) (kids : Kids) (p : ℕ) : Type 0 where
  pub table : IsTable t' (with_kids (t.family.parent p) (without p (kids (t.family.parent p))) kids)
  pub list : t'.proc_list ≡ without p t.proc_list
  pub gone : p ∉ t'.proc_list
  pub procs : t'.procs ≡ t.procs
  pub parents : (x : ℕ) → t'.family.parent x ≡ t.family.parent x
  pub current : t'.current ≡ t.current

module _ {S : Type 0} (ops : Memory S) (t : Table S) (kids : Kids) (p : ℕ) (h : IsTable t kids)
    (m : Memᴰ p t.proc_list) (z : is_zombie (t.procs p).state ≡ true) where
  removed-IsReaped :
      (s : S) → IsReaped t (record (remove_links p (unhash_proc p t)) { below = s }) kids p
  unfolding unhash_proc remove_links remove_relations
  removed-IsReaped s =
      let q = t.family.parent p in
      let (ws, vs, here) = mem-split p (kids q) (h.owned p m) in
      let (ls, rs, placed) = mem-split p t.proc_list m in
      let apart : without p (kids q) ≡ ws ++ vs =
        ap (without p) here
        ∙ without-middle p ws vs (out_before ws p vs (subst Distinct here (h.families q).1)) in
      record {
        table = rw apart (
            IsTable-below (remove_links p (unhash_proc p t)) (with_kids q (ws ++ vs) kids) s
              (removed-IsTable t kids p h z ws vs here ls rs placed));
        list = refl;
        gone =
            rw (removed_list t kids p h z ws vs here ls rs placed)
              (Distinct-remove ls p rs (subst Distinct placed h.distinct)).0;
        procs = refl;
        parents = λ x. refl;
        current = refl;
      }

  -- It is taken out and freed, and its exit code is what it left.
  pub reap-IsReaped :
      p ≢ t.initproc
      → (t' : Table S) × (reap ops p t ≡ ok (reaped (t.procs p).exit_code, t'))
        × IsReaped t t' kids p
  unfolding reap put_kstack unhash_proc remove_links
  reap-IsReaped n =
      let ni : p ≢ t.idleproc =
        λ e. not_mem t.idleproc t.proc_list h.idle (subst (λ c. Memᴰ c t.proc_list) e m) in
      let s = ops.kfree p (ops.free_kstack (t.procs p).kstack t.below) in
      (
        record (remove_links p (unhash_proc p t)) { below = s },
        rw (==_ne p t.idleproc ni, ==_ne p t.initproc n) refl,
        removed-IsReaped s,
      )
