-- ===== src/Process/Exit/Remove.antt =====
-- A process without children taken out of the table: `unhash_proc` and `remove_links`.
use mathlib.Core.Path.{subst}
use mathlib.Core.List.{Memᴰ}
use mathlib.Core.List.Memᴰ
use os_labs.Common.{
  ℕ, suc, ◌≡◌, ◌≢◌, refl, sym, ap, ◌∙◌, true, List, [], ◌∷◌, ◌++◌, All, arith, write_at-same,
  write_at-other, write_at_keeps, inl, inr, Bool-cases, ==_iff, ==→ne, ==_ne, ==_refl, ◌==◌, length,
}
use os_labs.Libs.ListEntry.Distinct.{◌∉◌, Distinct, Distinct-remove, All-append, append-All, ne_sym}
use os_labs.Process.Family.{remove_relations}
use os_labs.Process.Family.Siblings.{Kids, Siblings-parent}
use os_labs.Process.Family.Insert.{with_kids}
use os_labs.Process.Family.Remove.{remove_relations-IsFamily}
use os_labs.Process.Table.{
  Proc, Table, is_zombie, pids_of, pid_hashfn, without, unhash_proc, remove_links,
}
use os_labs.Process.Table.Members.{
  not_mem, mem-middle, mem-insert, mem-remove, without-middle, bucket, bucket-append, bucket-out,
  pids_of-append,
}
use os_labs.Process.Table.Valid.{IsTable}

All-remove {κ} :
    (P : ℕ → Type κ) (ws : List ℕ) (p : ℕ) (vs : List ℕ) → All P (ws ++ (p ∷ vs)) → All P (ws ++ vs)
All-remove P ws p vs h = let (a, b) = All-append P ws (p ∷ vs) h in append-All P ws vs a b.1

pub All-mem {κ} : (P : ℕ → Type κ) (xs : List ℕ) → All P xs → (x : ℕ) → Memᴰ x xs → P x
All-mem P [] h x m = absurd (Memᴰ.not-nil m)
All-mem P (c ∷ xs) h x m = elim (Memᴰ.cases_cons m) [
  | inl e ↦ rw e h.0
  | inr k ↦ All-mem P xs h.1 x k
]

pub out_before : (ws : List ℕ) (p : ℕ) (vs : List ℕ) → Distinct (ws ++ (p ∷ vs)) → p ∉ ws
out_before ws p vs d = (All-append _ ws vs (Distinct-remove ws p vs d).0).0

out_or_in :
    (ws : List ℕ) (p : ℕ) (vs : List ℕ) (x : ℕ) → x ≢ p → x ∉ (ws ++ vs) → x ∉ (ws ++ (p ∷ vs))
out_or_in ws p vs x n o =
    let (a, b) = All-append (λ z. z ≢ x) ws vs o in append-All _ ws (p ∷ vs) a (ne_sym n, b)

length-middle :
    (ws : List ℕ) (p : ℕ) (vs : List ℕ) → length (ws ++ (p ∷ vs)) ≡ suc (length (ws ++ vs))
length-middle [] p vs = refl
length-middle (w ∷ ws) p vs = ap suc (length-middle ws p vs)

-- the bucket of a number that is taken out
bucket-without :
    (b : ℕ) (procs : ℕ → Proc) (ws : List ℕ) (p : ℕ) (vs : List ℕ)
    → p ∉ ws
    → pid_hashfn (procs p).pid ≡ b
    → without p (bucket b procs (ws ++ (p ∷ vs))) ≡ bucket b procs (ws ++ vs)
bucket-without b procs ws p vs out e =
    rw
      (
        bucket-append b procs ws (p ∷ vs),
        bucket-append b procs ws vs,
        e,
        ==_refl b,
        without-middle p (bucket b procs ws) (bucket b procs vs) (bucket-out b procs p ws out),
      )
      refl

bucket-others :
    (b : ℕ) (procs : ℕ → Proc) (ws : List ℕ) (p : ℕ) (vs : List ℕ)
    → pid_hashfn (procs p).pid ≢ b
    → bucket b procs (ws ++ (p ∷ vs)) ≡ bucket b procs (ws ++ vs)
bucket-others b procs ws p vs n =
    rw
      (
        bucket-append b procs ws (p ∷ vs),
        bucket-append b procs ws vs,
        ==_ne (pid_hashfn (procs p).pid) b n,
      )
      refl

module _ {S : Type 0} (t : Table S) (kids : Kids) (p : ℕ) (h : IsTable t kids)
    (z : is_zombie (t.procs p).state ≡ true) (ws vs : List ℕ)
    (here : kids (t.family.parent p) ≡ ws ++ (p ∷ vs)) (ls rs : List ℕ)
    (placed : t.proc_list ≡ ls ++ (p ∷ rs)) where
  abbrev q : ℕ
  q = t.family.parent p

  abbrev removed : Table S
  removed = remove_links p (unhash_proc p t)

  distinct : Distinct (ls ++ (p ∷ rs))
  distinct = subst Distinct placed h.distinct

  Distinct-kids : Distinct (ws ++ (p ∷ vs))
  Distinct-kids = subst Distinct here (h.families q).1

  names : pids_of t.procs t.proc_list ≡ pids_of t.procs ls ++ ((t.procs p).pid ∷ pids_of t.procs rs)
  names = ap (pids_of t.procs) placed ∙ pids_of-append t.procs ls (p ∷ rs)

  pub removed_list : removed.proc_list ≡ ls ++ rs
  unfolding remove_links unhash_proc
  removed_list = rw placed (without-middle p ls rs (out_before ls p rs distinct))

  removed_names : pids_of t.procs removed.proc_list ≡ pids_of t.procs ls ++ pids_of t.procs rs
  removed_names = ap (pids_of t.procs) removed_list ∙ pids_of-append t.procs ls rs

  has_child : {P : Type 0} → kids q ≡ [] → P
  has_child e =
      absurd (not_mem p [] tt (subst (λ xs. Memᴰ p xs) (sym here ∙ e) (mem-middle p ws vs)))

  other-in : (x : ℕ) → x ≢ p → Memᴰ x t.proc_list → Memᴰ x removed.proc_list
  other-in x n m = rw removed_list (mem-remove x p ls rs n (subst (λ xs. Memᴰ x xs) placed m))

  removed-listed : (a x : ℕ) → Memᴰ x (with_kids q (ws ++ vs) kids a) → Memᴰ x removed.proc_list
  removed-listed a x = elim (Bool-cases (a == q)) [
    | inl e ↦
        rw ((==_iff a q).0 e, write_at-same kids q (ws ++ vs))
          (λ m.
            other-in x
              (λ k.
                not_mem p (ws ++ vs) (Distinct-remove ws p vs Distinct-kids).0
                  (subst (λ c. Memᴰ c (ws ++ vs)) k m))
              (h.listed q x (rw here (mem-insert x p ws vs m))))
    | inr e ↦ rw (write_at-other kids q (ws ++ vs) a (==→ne a q e)) (λ m.
        other-in x
          (λ k. ==→ne a q e (
            sym (
              All-mem (λ c. t.family.parent c ≡ a) (kids a)
                (Siblings-parent t.family a 0 (t.family.cptr a) (kids a) (h.families a).0) p
                (subst (λ c. Memᴰ c (kids a)) k m))))
          (h.listed a x m))
  ]

  removed-owned :
      (x : ℕ) → Memᴰ x removed.proc_list → Memᴰ x (with_kids q (ws ++ vs) kids (t.family.parent x))
  removed-owned x m =
      let k : Memᴰ x (ls ++ rs) = subst (λ xs. Memᴰ x xs) removed_list m in
      let n : x ≢ p = λ e.
        not_mem p (ls ++ rs) (Distinct-remove ls p rs distinct).0
          (subst (λ c. Memᴰ c (ls ++ rs)) e k) in
      write_at_keeps (λ c ks. Memᴰ x (kids c) → Memᴰ x ks) kids q (ws ++ vs) (t.family.parent x)
        (λ i. mem-remove x p ws vs n (subst (λ xs. Memᴰ x xs) here i)) (λ i. i)
        (h.owned x (rw placed (mem-insert x p ls rs k)))

  removed-childless :
      (a : ℕ) → a ∉ removed.proc_list → a ≢ t.idleproc → with_kids q (ws ++ vs) kids a ≡ []
  removed-childless a o n =
      let none : kids a ≡ [] = elim (Bool-cases (a == p)) [
        | inl e ↦ rw ((==_iff a p).0 e) (h.zombies p z)
        | inr e ↦
            h.childless a
              (rw placed (out_or_in ls p rs a (==→ne a p e) (subst (λ xs. a ∉ xs) removed_list o)))
              n
      ] in
      write_at_keeps (λ c ks. kids c ≡ [] → ks ≡ []) kids q (ws ++ vs) a (λ e. has_child e) (λ e. e)
        none

  removed-hashed : (b : ℕ) → removed.hash_list b ≡ bucket b t.procs removed.proc_list
  unfolding remove_links unhash_proc
  removed-hashed b = elim (Bool-cases (pid_hashfn (t.procs p).pid == b)) [
    | inl e ↦
        let same : pid_hashfn (t.procs p).pid ≡ b = (==_iff _ _).0 e in
        rw
          (
            removed_list,
            same,
            write_at-same t.hash_list b (without p (t.hash_list b)),
            h.hashed b,
            placed,
          )
          (bucket-without b t.procs ls p rs (out_before ls p rs distinct) same)
    | inr e ↦
        rw
          (
            removed_list,
            write_at-other t.hash_list (pid_hashfn (t.procs p).pid)
                (without p (t.hash_list (pid_hashfn (t.procs p).pid))) b (ne_sym (==→ne _ _ e)),
            h.hashed b,
            placed,
          )
          (bucket-others b t.procs ls p rs (==→ne _ _ e))
  ]

  pub removed-IsTable : IsTable removed (with_kids q (ws ++ vs) kids)
  unfolding remove_links unhash_proc remove_relations
  removed-IsTable = record {
    families = remove_relations-IsFamily t.family kids p ws vs h.families here;
    listed = removed-listed;
    owned = removed-owned;
    childless = removed-childless;
    zombies = λ a e.
        write_at_keeps (λ c ks. kids c ≡ [] → ks ≡ []) kids q (ws ++ vs) a (λ g. has_child g)
          (λ g. g) (h.zombies a e);
    distinct = rw removed_list (Distinct-remove ls p rs distinct).1;
    nonzero = rw removed_list (All-remove _ ls p rs (subst (λ xs. 0 ∉ xs) placed h.nonzero));
    idle = rw removed_list (All-remove _ ls p rs (subst (λ xs. t.idleproc ∉ xs) placed h.idle));
    numbers =
        rw removed_names
          (Distinct-remove (pids_of t.procs ls) (t.procs p).pid (pids_of t.procs rs)
            (subst Distinct names h.numbers)).1;
    in_range = rw removed_names (
        All-remove _ (pids_of t.procs ls) (t.procs p).pid (pids_of t.procs rs)
          (subst (All _) names h.in_range));
    safe = (
      h.safe.0,
      h.safe.1,
      h.safe.2,
      rw removed_names (
          All-remove _ (pids_of t.procs ls) (t.procs p).pid (pids_of t.procs rs)
            (subst (All _) names h.safe.3)),
    );
    hashed = removed-hashed;
    counted = rw (removed_list, h.counted, placed, length-middle ls p rs) (omega arith);
  }
