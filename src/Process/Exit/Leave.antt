-- ===== src/Process/Exit/Leave.antt =====
-- The table when a process has gone: its children are with the init process, and it is a zombie.
use mathlib.Core.Path.{subst}
use mathlib.Core.List.{Memᴰ}
use mathlib.Core.List.Memᴰ
use os_labs.Common.{
  ℕ, ◌≡◌, ◌≢◌, refl, sym, ◌∙◌, true, false, List, [], ◌∷◌, All, ◌==◌, ◌⊎◌, Bool-cases, inl, inr,
  ==_iff, ==→ne, write_at-same, write_at-other,
}
use os_labs.Libs.ListEntry.Distinct.{◌∉◌, Distinct}
use os_labs.Process.Family.{Family}
use os_labs.Process.Family.Siblings.{Siblings, Kids, Siblings-parent}
use os_labs.Process.Family.Insert.{with_kids}
use os_labs.Process.Family.Adopt.{IsExiting}
use os_labs.Process.Table.{Proc, Table, is_zombie, pids_of}
use os_labs.Process.Table.Members.{not_mem, mem-out, bucket-same, pids_of-same}
use os_labs.Process.Table.Valid.{IsTable, All-of}
use os_labs.Process.Exit.Remove.{All-mem}
use os_labs.Process.Exit.Orphans.{rev_onto}
use os_labs.Process.Exit.Find.{false-true}

rev_onto-mem : (x : ℕ) (xs ys : List ℕ) → Memᴰ x (rev_onto xs ys) → Memᴰ x xs ⊎ Memᴰ x ys
rev_onto-mem x [] ys m = inr m
rev_onto-mem x (c ∷ xs) ys m = elim (rev_onto-mem x xs (c ∷ ys) m) [
  | inl k ↦ inl (Memᴰ.tail k)
  | inr k ↦ elim (Memᴰ.cases_cons k) [ inl e ↦ inl (Memᴰ.head e) | inr l ↦ inr l ]
]

mem-rev_onto : (x : ℕ) (xs ys : List ℕ) → Memᴰ x xs ⊎ Memᴰ x ys → Memᴰ x (rev_onto xs ys)
mem-rev_onto x [] ys (inl m) = absurd (Memᴰ.not-nil m)
mem-rev_onto x [] ys (inr m) = m
mem-rev_onto x (c ∷ xs) ys (inl m) = elim (Memᴰ.cases_cons m) [
  | inl e ↦ mem-rev_onto x xs (c ∷ ys) (inr (Memᴰ.head e))
  | inr k ↦ mem-rev_onto x xs (c ∷ ys) (inl k)
]
mem-rev_onto x (c ∷ xs) ys (inr m) = mem-rev_onto x xs (c ∷ ys) (inr (Memᴰ.tail m))

-- the children when `p` has handed its own over to `q`
abbrev pub exited_kids : ℕ → ℕ → Kids → Kids
exited_kids p q kids = with_kids p [] (with_kids q (rev_onto (kids p) (kids q)) kids)

module _ {S : Type 0} (t : Table S) (kids : Kids) (h : IsTable t kids) (p q : ℕ) (pq : q ≢ p)
    (here : Memᴰ p t.proc_list) (there : Memᴰ q t.proc_list ⊎ (q ≡ t.idleproc)) (f : Family)
    (ps : ℕ → Proc) (s : S)
    (ex : IsExiting p f 0 [] (with_kids q (rev_onto (kids p) (kids q)) kids))
    (given : (x : ℕ) → Memᴰ x (kids p) → f.parent x ≡ q)
    (kept : (x : ℕ) → x ∉ kids p → f.parent x ≡ t.family.parent x)
    (number : (x : ℕ) → (ps x).pid ≡ (t.procs x).pid) (alive : is_zombie (ps q).state ≡ false)
    (dead : (x : ℕ)
      → x ≢ p
      → is_zombie (ps x).state ≡ true
      → is_zombie (t.procs x).state ≡ true) where
  abbrev left_kids : Kids
  left_kids = exited_kids p q kids

  kids_own : left_kids p ≡ []
  kids_own = write_at-same (with_kids q (rev_onto (kids p) (kids q)) kids) p []

  kids_given : left_kids q ≡ rev_onto (kids p) (kids q)
  kids_given =
      write_at-other (with_kids q (rev_onto (kids p) (kids q)) kids) p [] q pq
      ∙ write_at-same kids q (rev_onto (kids p) (kids q))

  kids_others : (a : ℕ) → a ≢ p → a ≢ q → left_kids a ≡ kids a
  kids_others a n m =
      write_at-other (with_kids q (rev_onto (kids p) (kids q)) kids) p [] a n
      ∙ write_at-other kids q (rev_onto (kids p) (kids q)) a m

  -- by the three cases
  each {κ} :
      (P : ℕ → List ℕ → Type κ)
      → P p []
      → P q (rev_onto (kids p) (kids q))
      → ((a : ℕ) → a ≢ p → a ≢ q → P a (kids a))
      → (a : ℕ) → P a (left_kids a)
  each P own onto rest a = elim (Bool-cases (a == p)) [
    | inl e ↦ rw ((==_iff a p).0 e) (subst (P p) (sym kids_own) own)
    | inr e ↦ elim (Bool-cases (a == q)) [
      | inl g ↦ rw ((==_iff a q).0 g) (subst (P q) (sym kids_given) onto)
      | inr g ↦
          subst (P a) (sym (kids_others a (==→ne a p e) (==→ne a q g)))
            (rest a (==→ne a p e) (==→ne a q g))
    ]
  ]

  left-families : (a : ℕ) → Siblings f a 0 (f.cptr a) (left_kids a) × Distinct (left_kids a)
  left-families a = elim (Bool-cases (a == p)) [
    | inl e ↦
        rw ((==_iff a p).0 e)
          (subst (λ xs. Siblings f p 0 (f.cptr p) xs × Distinct xs) (sym kids_own) (ex.0, tt))
    | inr e ↦
        subst (λ xs. Siblings f a 0 (f.cptr a) xs × Distinct xs)
          (sym
            (write_at-other (with_kids q (rev_onto (kids p) (kids q)) kids) p [] a (==→ne a p e)))
          (ex.2 a (==→ne a p e))
  ]

  left-listed : (a x : ℕ) → Memᴰ x (left_kids a) → Memᴰ x t.proc_list
  left-listed a x =
      each (λ b ks. Memᴰ x ks → Memᴰ x t.proc_list) (λ m. absurd (Memᴰ.not-nil m))
        (λ m. elim (rev_onto-mem x (kids p) (kids q) m) [
          | inl k ↦ h.listed p x k
          | inr k ↦ h.listed q x k
        ])
        (λ b n o m. h.listed b x m) a

  own-parent : (x : ℕ) → Memᴰ x (kids p) → t.family.parent x ≡ p
  own-parent =
      All-mem (λ x. t.family.parent x ≡ p) (kids p)
        (Siblings-parent t.family p 0 (t.family.cptr p) (kids p) (h.families p).0)

  left-owned : (x : ℕ) → Memᴰ x t.proc_list → Memᴰ x (left_kids (f.parent x))
  left-owned x m = elim (Bool-cases (t.family.parent x == p)) [
    | inl e ↦
        let k : Memᴰ x (kids p) = subst (λ a. Memᴰ x (kids a)) ((==_iff _ _).0 e) (h.owned x m) in
        rw (given x k)
          (subst (λ xs. Memᴰ x xs) (sym kids_given) (mem-rev_onto x (kids p) (kids q) (inl k)))
    | inr e ↦ rw (kept x (mem-out x (kids p) (λ k. ==→ne _ _ e (own-parent x k)))) (
        each (λ b ks. b ≢ p → Memᴰ x (kids b) → Memᴰ x ks) (λ n k. absurd (n refl))
          (λ n k. mem-rev_onto x (kids p) (kids q) (inr k)) (λ b n o l k. k) (t.family.parent x)
          (==→ne _ _ e) (h.owned x m))
  ]

  names : All (λ x. (ps x).pid ≡ (t.procs x).pid) t.proc_list
  names = All-of _ t.proc_list number

  no_child : {P : Type 0} → q ∉ t.proc_list → q ≢ t.idleproc → P
  no_child o n = elim there [ inl m ↦ absurd (not_mem q t.proc_list o m) | inr e ↦ absurd (n e) ]

  pub left-IsTable : IsTable (record t { procs = ps; family = f; below = s }) (exited_kids p q kids)
  left-IsTable =
      let same : pids_of ps t.proc_list ≡ pids_of t.procs t.proc_list =
        pids_of-same ps t.procs t.proc_list names in
      record {
        families = left-families;
        listed = left-listed;
        owned = left-owned;
        childless =
            each (λ a ks. a ∉ t.proc_list → a ≢ t.idleproc → ks ≡ []) (λ o n. refl)
              (λ o n. no_child o n) (λ a m k o n. h.childless a o n);
        zombies =
            each (λ a ks. is_zombie (ps a).state ≡ true → ks ≡ []) (λ z. refl)
              (λ z. absurd (false-true (sym alive ∙ z))) (λ a m k z. h.zombies a (dead a m z));
        distinct = h.distinct;
        nonzero = h.nonzero;
        idle = h.idle;
        numbers = rw same h.numbers;
        in_range = rw same h.in_range;
        safe = rw same h.safe;
        hashed = λ b. h.hashed b ∙ sym (bucket-same ps t.procs b t.proc_list names);
        counted = h.counted;
      }
