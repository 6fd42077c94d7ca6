-- ===== src/Process/Exit/Find.antt =====
-- What the search of `do_wait` finds among the children of the process.
use mathlib.Core.Path.{subst}
use mathlib.Core.List.{Memᴰ}
use mathlib.Core.List.Memᴰ
use os_labs.Common.{
  ℕ, zero, suc, ◌≤◌, ◌≡◌, ◌≢◌, refl, sym, ap, ◌∙◌, Bool, true, false, some, List, [], ◌∷◌, arith,
  ◌⊎◌, inl, inr, Bool-cases, ==_iff, ==→ne, ==_ne, Option-cases, if_true, if_false, if◌then◌else◌,
  ◌==◌, length, ok,
}
use os_labs.Process.Family.Siblings.{Siblings, Kids, Siblings-parent}
use os_labs.Process.Table.{Proc, Table, is_zombie, find_proc}
use os_labs.Process.Table.Valid.{IsTable, find_proc-member, find_proc-found}
use os_labs.Process.Exit.{Search, found, haskid, nokid, end_of, search_children, search_pid, search}
use os_labs.Process.Exit.Remove.{All-mem}

pub false-true : ◌≡◌ {A = Bool} false true → ⊥
false-true e = cc

-- the first zombie of a list of children
abbrev pub first_zombie : (ℕ → Proc) → Bool → List ℕ → Search
first_zombie procs kid [] = end_of kid
first_zombie procs kid (x ∷ xs) =
    let rest = first_zombie procs true xs in if is_zombie (procs x).state then found x else rest

module _ {S : Type 0} where
  -- The loop over `optr` finds it.
  search_children-first_zombie :
      (t : Table S) (a y c : ℕ) (xs : List ℕ) (fuel : ℕ) (kid : Bool)
      → Siblings t.family a y c xs
      → length xs ≤ fuel
      → search_children fuel kid c t ≡ ok (first_zombie t.procs kid xs)
  unfolding search_children
  search_children-first_zombie t a y c [] zero kid s f = rw s refl
  search_children-first_zombie t a y c [] (suc fuel) kid s f = rw s refl
  search_children-first_zombie t a y c (x ∷ xs) zero kid s f = absurd (omega (arith, f))
  search_children-first_zombie t a y c (x ∷ xs) (suc fuel) kid (e, n, up, back, rest) f =
      elim (Bool-cases (is_zombie (t.procs x).state)) [
        | inl g ↦ rw (e, ==_ne x 0 n, g) refl
        | inr g ↦
            rw (e, ==_ne x 0 n, g)
              (search_children-first_zombie t a x (t.family.optr x) xs fuel true rest (omega arith))
      ]

  -- whether a call with the number `pid` is about the process `x`; 0 stands for any child
  abbrev pub IsMeant : ℕ → Table S → ℕ → Type 0
  IsMeant pid t x = (pid ≡ 0) ⊎ ((t.procs x).pid ≡ pid)

  -- What a search may find among the children `xs`.
  abbrev pub Finds : ℕ → Table S → List ℕ → Search → Type 0
  Finds pid t xs (found p) = Memᴰ p xs × IsMeant pid t p × (is_zombie (t.procs p).state ≡ true)
  Finds pid t xs haskid =
      ((p : ℕ) × Memᴰ p xs × IsMeant pid t p)
      × ((x : ℕ) → Memᴰ x xs → IsMeant pid t x → is_zombie (t.procs x).state ≡ false)
  Finds pid t xs nokid = (x : ℕ) → Memᴰ x xs → IsMeant pid t x → ⊥

  Finds-true :
      (t : Table S) (x : ℕ) (xs : List ℕ)
      → is_zombie (t.procs x).state ≡ false
      → ((y : ℕ) → Memᴰ y xs → is_zombie (t.procs y).state ≡ false)
      → Finds 0 t (x ∷ xs) haskid
  Finds-true t x xs e f = (
    (x, Memᴰ.head refl, inl refl),
    λ y m i. elim (Memᴰ.cases_cons m) [ inl g ↦ rw g e | inr k ↦ f y k ],
  )

  -- what `first_zombie` finds behind living children
  first_zombie-found :
      (t : Table S) (xs : List ℕ)
      → ((p : ℕ) × (first_zombie t.procs true xs ≡ found p)
          × Memᴰ p xs
          × (is_zombie (t.procs p).state ≡ true))
        ⊎ ((first_zombie t.procs true xs ≡ haskid)
            × ((y : ℕ) → Memᴰ y xs → is_zombie (t.procs y).state ≡ false))
  first_zombie-found t [] = inr (refl, λ y m. absurd (Memᴰ.not-nil m))
  first_zombie-found t (x ∷ xs) = elim (Bool-cases (is_zombie (t.procs x).state)) [
    | inl e ↦ inl (x, if_true _ _ e, Memᴰ.head refl, e)
    | inr e ↦ elim (first_zombie-found t xs) [
      | inl (p, r, m, z) ↦ inl (p, if_false _ _ e ∙ r, Memᴰ.tail m, z)
      | inr (r, f) ↦
          inr
            (if_false _ _ e ∙ r, λ y m. elim (Memᴰ.cases_cons m) [ inl g ↦ rw g e | inr k ↦ f y k ])
    ]
  ]

  first_zombie-Finds : (t : Table S) (xs : List ℕ) → Finds 0 t xs (first_zombie t.procs false xs)
  first_zombie-Finds t [] = λ x m i. Memᴰ.not-nil m
  first_zombie-Finds t (x ∷ xs) = elim (Bool-cases (is_zombie (t.procs x).state)) [
    | inl e ↦ rw e (Memᴰ.head refl, inl refl, e)
    | inr e ↦ elim (first_zombie-found t xs) [
      | inl (p, r, m, z) ↦ rw (e, r) (Memᴰ.tail m, inl refl, z)
      | inr (r, f) ↦ rw (e, r) (Finds-true t x xs e f)
    ]
  ]

  module _ (t : Table S) (kids : Kids) (h : IsTable t kids) where
    abbrev own : List ℕ
    own = kids t.current

    own-parent : (x : ℕ) → Memᴰ x own → t.family.parent x ≡ t.current
    own-parent =
        All-mem (λ x. t.family.parent x ≡ t.current) own
          (Siblings-parent t.family t.current 0 (t.family.cptr t.current) own
            (h.families t.current).0)

    meant-find_proc :
        (pid x : ℕ) → pid ≢ 0 → Memᴰ x own → IsMeant pid t x → find_proc pid t ≡ some x
    meant-find_proc pid x n m (inl e) = absurd (n e)
    meant-find_proc pid x n m (inr e) =
        subst (λ k. find_proc k t ≡ some x) e (find_proc-member t kids x h (h.listed t.current x m))

    -- The search finds a zombie among the children that the call is about if there is one, and knows
    -- whether there are such children.
    pub search-Finds :
        (pid fuel : ℕ)
        → length own ≤ fuel
        → (r : Search) × (search fuel pid t ≡ ok r) × Finds pid t own r
    unfolding search search_pid
    search-Finds pid fuel f = elim (Bool-cases (pid == 0)) [
      | inl e ↦
          rw
            (
              e,
              search_children-first_zombie t t.current 0 (t.family.cptr t.current) own fuel false
                  (h.families t.current).0 f,
              (==_iff pid 0).0 e,
            )
            (first_zombie t.procs false own, refl, first_zombie-Finds t own)
      | inr e ↦
          let n : pid ≢ 0 = ==→ne pid 0 e in
          elim (Option-cases (find_proc pid t)) [
            | inl g ↦ rw (e, g) (nokid, refl, λ x m i. cc (meant-find_proc pid x n m i, g))
            | inr (p, g) ↦
                let (m, named) = find_proc-found t kids pid p h g in
                let only : (x : ℕ) → Memᴰ x own → IsMeant pid t x → x ≡ p =
                  λ x k i. cc (meant-find_proc pid x n k i, g) in
                elim (Bool-cases (t.family.parent p == t.current)) [
                  | inl up ↦
                      let k : Memᴰ p own =
                        subst (λ a. Memᴰ p (kids a)) ((==_iff _ _).0 up) (h.owned p m) in
                      elim (Bool-cases (is_zombie (t.procs p).state)) [
                        | inl z ↦ rw (e, g, up, z) (found p, refl, (k, inr named, z))
                        | inr z ↦
                            rw (e, g, up, z)
                              (haskid, refl, ((p, k, inr named), λ x l i. rw (only x l i) z))
                      ]
                  | inr up ↦
                      rw (e, g, up)
                        (
                          nokid,
                          refl,
                          λ x k i.
                              ==→ne _ _ up (ap t.family.parent (sym (only x k i)) ∙ own-parent x k),
                        )
                ]
          ]
    ]
