-- ===== src/Mm/DefaultPmm/Reset.antt =====
-- The loops that reset the page descriptors of a block.
use native.Mathlib.Decide.{ℕ_discrete}
use os_labs.Common.{
  ℕ, zero, suc, ◌+◌, ◌≤◌, ◌<◌, ◌≡◌, refl, ap, ◌∙◌, ◌⊎◌, inl, inr, true, false, List, [], ◌∷◌, ◌++◌,
  arith, All, ok, ◌≢◌,
}
use os_labs.Mm.DefaultPmm.{Page, FreeArea, write_page, reset_used, reset_reserved}
use os_labs.Mm.DefaultPmm.Ring.{Ordered-bound}
use os_labs.Mm.DefaultPmm.Blocks.{Block, Ordered, IsHead}

-- What resetting the pages `p` to `p + n` leaves as it was.
pub record Kept (p n : ℕ) (s t : FreeArea) : Type 0 where
  pub links : t.links ≡ s.links
  pub nr_free : t.nr_free ≡ s.nr_free
  pub cleared :
      (q : ℕ)
      → p ≤ q
      → q < p + n
      → ((t.page q).ref ≡ 0) × ((t.page q).reserved ≡ false) × ((t.page q).is_property ≡ false)
  pub others : (q : ℕ) → (q < p) ⊎ (p + n ≤ q) → t.page q ≡ s.page q

write_page-ne : (f : ℕ → Page) (p q : ℕ) (v : Page) → q ≢ p → write_page f p v q ≡ f q
unfolding write_page
write_page-ne f p q v h = ground arith

abbrev pub Used : FreeArea → ℕ → ℕ → Type 0
Used s p n =
    (q : ℕ) → p ≤ q → q < p + n → ((s.page q).reserved ≡ false) × ((s.page q).is_property ≡ false)

write_page-eq : (f : ℕ → Page) (p : ℕ) (v : Page) → write_page f p v p ≡ v
unfolding write_page
write_page-eq f p v = ground arith

-- One page more at the front of a stretch that was reset.
Kept-step :
    (n p : ℕ) (v : Page) (s t : FreeArea)
    → (v.ref ≡ 0) × (v.reserved ≡ false) × (v.is_property ≡ false)
    → Kept (suc p) n (record s { page = write_page s.page p v }) t
    → Kept p (suc n) s t
Kept-step n p v s t new k = record {
  links = k.links;
  nr_free = k.nr_free;
  cleared = λ q a b. elim (ℕ_discrete q p) [
    | yes e ↦
        let same : t.page q ≡ v =
          k.others q (inl (omega arith))
          ∙ ap (write_page s.page p v) e
          ∙ write_page-eq s.page p v in
        rw same new
    | no e ↦ k.cleared q (omega arith) (omega arith)
  ];
  others =
      λ q o. k.others q (omega (arith, o)) ∙ write_page-ne s.page p q v (λ e. omega (arith, o));
}

-- Pages that are neither reserved nor heads of free blocks pass the checks.
pub reset_used-Kept :
    (n p : ℕ) (s : FreeArea)
    → Used s p n
    → (t : FreeArea) × (reset_used n p s ≡ ok t) × Kept p n s t
unfolding reset_used
reset_used-Kept zero p s u = (
  s,
  refl,
  record {
    links = refl;
    nr_free = refl;
    cleared = λ q a b. absurd (omega arith);
    others = λ q o. refl;
  },
)
reset_used-Kept (suc n) p s u =
    let v : Page = record (s.page p) { ref = 0; reserved = false; is_property = false } in
    let first = u p (omega arith) (omega arith) in
    let (t, e, k) =
      reset_used-Kept n (suc p) (record s { page = write_page s.page p v })
        λ q a b.
          rw (write_page-ne s.page p q v (λ e. omega arith)) (u q (omega arith) (omega arith)) in
    (t, rw (first.0, first.1) e, Kept-step n p v s t (refl, refl, refl) k)

abbrev pub Reserved : FreeArea → ℕ → ℕ → Type 0
Reserved s p n = (q : ℕ) → p ≤ q → q < p + n → (s.page q).reserved ≡ true

-- Pages that are reserved pass the check of `default_init_memmap`.
pub reset_reserved-Kept :
    (n p : ℕ) (s : FreeArea)
    → Reserved s p n
    → (t : FreeArea) × (reset_reserved n p s ≡ ok t) × Kept p n s t
unfolding reset_reserved
reset_reserved-Kept zero p s u = (
  s,
  refl,
  record {
    links = refl;
    nr_free = refl;
    cleared = λ q a b. absurd (omega arith);
    others = λ q o. refl;
  },
)
reset_reserved-Kept (suc n) p s u =
    let v : Page = record { ref = 0; reserved = false; is_property = false; property = 0 } in
    let (t, e, k) =
      reset_reserved-Kept n (suc p) (record s { page = write_page s.page p v })
        λ q a b.
          rw (write_page-ne s.page p q v (λ e. omega arith)) (u q (omega arith) (omega arith)) in
    (t, rw (u p (omega arith) (omega arith)) e, Kept-step n p v s t (refl, refl, refl) k)

-- Blocks outside the stretch keep their heads.
pub heads-Kept :
    (p n : ℕ) (s t : FreeArea) (xs : List Block)
    → Kept p n s t
    → All (λ (b : Block). (b.0 < p) ⊎ (p + n ≤ b.0)) xs
    → All (IsHead s.page) xs
    → All (IsHead t.page) xs
heads-Kept p n s t [] k o h = tt
heads-Kept p n s t (b ∷ xs) k o h = (rw (k.others b.0 o.0) h.0, heads-Kept p n s t xs k o.1 h.1)

-- In an ordered list the other blocks lie outside a block's pages.
pub Ordered-outside :
    (lo : ℕ) (pre : List Block) (b : Block) (post : List Block)
    → Ordered lo (pre ++ (b ∷ post))
    → All (λ (c : Block). (c.0 < b.0) ⊎ (b.0 + b.1 ≤ c.0)) (pre ++ post)
Ordered-outside lo [] b post o = later (b.0 + b.1) post o.2 (omega arith)
  where
    later :
        (k : ℕ) (xs : List Block)
        → Ordered k xs
        → b.0 + b.1 ≤ k
        → All (λ (c : Block). (c.0 < b.0) ⊎ (b.0 + b.1 ≤ c.0)) xs
    later k [] o h = tt
    later k (c ∷ xs) o h = (inr (omega arith), later (c.0 + c.1) xs o.2 (omega arith))
Ordered-outside lo (a ∷ pre) b post o = (
  inl (omega (arith, Ordered-bound (a.0 + a.1) pre b post o.2)),
  Ordered-outside (a.0 + a.1) pre b post o.2,
)
