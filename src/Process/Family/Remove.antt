-- ===== src/Process/Family/Remove.antt =====
-- A process leaves its siblings.
use mathlib.Core.Path.{subst}
use os_labs.Common.{
  ℕ, ◌≡◌, ◌≢◌, refl, sym, ◌∙◌, List, [], ◌∷◌, ◌++◌, All, write_at, write_at-same, write_at-other,
  Bool-cases, ◌==◌, ==_iff, ==→ne, inl, inr, if◌then◌else◌,
}
use os_labs.Libs.ListEntry.Distinct.{◌∉◌, Distinct, All-append, Distinct-tail, Distinct-remove}
use os_labs.Process.Family.{Family, remove_relations}
use os_labs.Process.Family.Siblings.{
  Siblings, Kids, IsFamily, Siblings-frame, Siblings-nonzero, Siblings-first, Siblings-behind,
  Siblings-younger, last-out, younger-parent,
}
use os_labs.Process.Family.Insert.{
  write_unless-other, write_unless-same, Siblings-apart, first-parent, with_kids,
}

-- What `remove_links` writes, when `p` is not its own older sibling.
module _ (f : Family) (p : ℕ) (single : f.optr p ≢ 0 → p ≢ f.optr p) where
  abbrev g : Family
  unfolding remove_relations
  g = remove_relations p f

  abbrev younger : ℕ → ℕ
  younger = if f.optr p == 0 then f.yptr else write_at f.yptr (f.optr p) (f.yptr p)

  younger_same : younger p ≡ f.yptr p
  younger_same = write_unless-other f.yptr (f.optr p) (f.yptr p) p single

  pub removed-yptr :
      (x : ℕ) → (f.optr p ≢ 0 → x ≢ f.optr p) → (remove_relations p f).yptr x ≡ f.yptr x
  unfolding remove_relations
  removed-yptr x n = write_unless-other f.yptr (f.optr p) (f.yptr p) x n

  pub removed-yptr_older : f.optr p ≢ 0 → (remove_relations p f).yptr (f.optr p) ≡ f.yptr p
  unfolding remove_relations
  removed-yptr_older n = write_unless-same f.yptr (f.optr p) (f.yptr p) n

  pub removed-optr :
      (x : ℕ) → (f.yptr p ≢ 0 → x ≢ f.yptr p) → (remove_relations p f).optr x ≡ f.optr x
  unfolding remove_relations
  removed-optr x n = rw younger_same (write_unless-other f.optr (f.yptr p) (f.optr p) x n)

  pub removed-optr_younger : f.yptr p ≢ 0 → (remove_relations p f).optr (f.yptr p) ≡ f.optr p
  unfolding remove_relations
  removed-optr_younger n = rw younger_same (write_unless-same f.optr (f.yptr p) (f.optr p) n)

  pub removed-cptr_first : f.yptr p ≡ 0 → (remove_relations p f).cptr (f.parent p) ≡ f.optr p
  unfolding remove_relations
  removed-cptr_first e = rw (younger_same, e) (write_at-same f.cptr (f.parent p) (f.optr p))

  pub removed-cptr :
      (x : ℕ) → (f.yptr p ≡ 0 → x ≢ f.parent p) → (remove_relations p f).cptr x ≡ f.cptr x
  unfolding remove_relations
  removed-cptr x n = elim (Bool-cases (f.yptr p == 0)) [
    | inl e ↦
        rw (younger_same, e)
          (write_at-other f.cptr (f.parent p) (f.optr p) x (n ((==_iff (f.yptr p) 0).0 e)))
    | inr e ↦ rw (younger_same, e) refl
  ]

  -- Processes that are not beside `p` keep their fields.
  removed-frame :
      (xs : List ℕ)
      → (f.optr p ≢ 0 → f.optr p ∉ xs)
      → (f.yptr p ≢ 0 → f.yptr p ∉ xs)
      → All
          (λ x.
            ((remove_relations p f).parent x ≡ f.parent x)
            × ((remove_relations p f).yptr x ≡ f.yptr x)
            × ((remove_relations p f).optr x ≡ f.optr x))
          xs
  unfolding remove_relations
  removed-frame [] o y = tt
  removed-frame (x ∷ xs) o y = (
    (refl, removed-yptr x (λ n. (o n).0), removed-optr x (λ n. (y n).0)),
    removed-frame xs (λ n. (o n).1) (λ n. (y n).1),
  )

  -- The processes behind `p` follow the one before it.
  removed-behind :
      (a : ℕ) (vs : List ℕ)
      → Distinct vs
      → (f.yptr p ≢ 0 → f.yptr p ∉ vs)
      → Siblings f a p (f.optr p) vs
      → Siblings (remove_relations p f) a (f.yptr p) (f.optr p) vs
  unfolding remove_relations
  removed-behind a [] d y s = s
  removed-behind a (v ∷ vs) d y (e, n, up, back, rest) = (
    e,
    n,
    up,
    subst (λ c. (remove_relations p f).yptr c ≡ f.yptr p) e
        (removed-yptr_older (λ z. n (sym e ∙ z))),
    rw (removed-optr v (λ m. (y m).0)) (
        Siblings-frame f (remove_relations p f) a v (f.optr v) vs
          (removed-frame vs (λ z. rw e d.0) (λ m. (y m).1)) rest),
  )

  pub removed-parent : (x : ℕ) → (remove_relations p f).parent x ≡ f.parent x
  unfolding remove_relations
  removed-parent x = refl

  -- `p` behind `w` and others
  removed-middle :
      (a y c w : ℕ) (ws vs : List ℕ)
      → Distinct (w ∷ ws ++ (p ∷ vs))
      → Siblings f a y c (w ∷ ws ++ (p ∷ vs))
      → Siblings (remove_relations p f) a y c (w ∷ ws ++ vs)
  removed-middle a y c w [] vs d (e, n, up, back, (e', n', up', back', rest)) =
      let next : (remove_relations p f).optr w ≡ f.optr p =
        subst (λ z. (remove_relations p f).optr z ≡ f.optr p) back'
          (removed-optr_younger (λ z. n (sym back' ∙ z))) in
      (
        e,
        n,
        removed-parent w ∙ up,
        removed-yptr w (Siblings-first f a p (f.optr p) vs w d.0.1 rest) ∙ back,
        rw next (
            subst (λ z. Siblings (remove_relations p f) a z (f.optr p) vs) back'
              (removed-behind a vs d.1.1 (λ z. rw back' d.0.1) rest)),
      )
  removed-middle a y c w (u ∷ ws) vs d (e, n, up, back, rest) =
      let tail = Siblings-behind f a w (f.optr w) (u ∷ ws) p vs rest in
      let out = All-append _ (u ∷ ws) (p ∷ vs) d.0 in
      let apart : w ≢ f.yptr p =
        λ z. last-out w u ws out.0 (z ∙ Siblings-younger f a w (f.optr w) u ws p vs rest) in
      (
        e,
        n,
        removed-parent w ∙ up,
        removed-yptr w (Siblings-first f a p (f.optr p) vs w out.1.1 tail) ∙ back,
        rw (removed-optr w (λ m. apart)) (removed-middle a w (f.optr w) u ws vs d.1 rest),
      )

  -- the children of the parent of `p`
  removed-own :
      (ws vs : List ℕ)
      → Distinct (ws ++ (p ∷ vs))
      → Siblings f (f.parent p) 0 (f.cptr (f.parent p)) (ws ++ (p ∷ vs))
      → Siblings
          (remove_relations p f)
          (f.parent p)
          0
          ((remove_relations p f).cptr (f.parent p))
          (ws ++ vs)
  removed-own [] vs d (e, n, up, back, rest) = rw (removed-cptr_first back) (
      subst (λ z. Siblings (remove_relations p f) (f.parent p) z (f.optr p) vs) back
        (removed-behind (f.parent p) vs d.1 (λ m. absurd (m back)) rest))
  removed-own (w ∷ ws) vs d s =
      let zero_out =
        All-append _ (w ∷ ws) (p ∷ vs)
          (Siblings-nonzero f (f.parent p) 0 (f.cptr (f.parent p)) (w ∷ ws ++ (p ∷ vs)) s) in
      let n : f.yptr p ≢ 0 = λ z.
        last-out 0 w ws zero_out.0
          (sym z ∙ Siblings-younger f (f.parent p) 0 (f.cptr (f.parent p)) w ws p vs s) in
      rw (removed-cptr (f.parent p) (λ z. absurd (n z)))
        (removed-middle (f.parent p) 0 (f.cptr (f.parent p)) w ws vs d s)

-- `remove_links` takes one process out of its parent's children, whatever its place among them, and
-- changes those of no other process.
module _ (f : Family) (kids : Kids) (p : ℕ) (ws vs : List ℕ) (fam : IsFamily f kids)
    (here : kids (f.parent p) ≡ ws ++ (p ∷ vs)) where
  abbrev q : ℕ
  q = f.parent p

  children : Siblings f q 0 (f.cptr q) (ws ++ (p ∷ vs))
  children = subst (Siblings f q 0 (f.cptr q)) here (fam q).0

  distinct : Distinct (ws ++ (p ∷ vs))
  distinct = subst Distinct here (fam q).1

  behind : Siblings f q p (f.optr p) vs
  behind = Siblings-behind f q 0 (f.cptr q) ws p vs children

  not_own : f.optr p ≢ 0 → p ≢ f.optr p
  not_own = Siblings-first f q p (f.optr p) vs p (Distinct-tail ws (p ∷ vs) distinct).0 behind

  -- the processes beside `p` are not among the children of another process
  beside-apart : (a x : ℕ) → a ≢ q → f.parent x ≡ q → x ∉ kids a
  beside-apart a x m up = Siblings-apart f a q 0 (f.cptr a) (kids a) x m up (fam a).0

  pub remove_relations-IsFamily : IsFamily (remove_relations p f) (with_kids q (ws ++ vs) kids)
  remove_relations-IsFamily a = elim (Bool-cases (a == q)) [
    | inl e ↦
        rw ((==_iff a q).0 e, write_at-same kids q (ws ++ vs))
          (removed-own f p not_own ws vs distinct children, (Distinct-remove ws p vs distinct).1)
    | inr e ↦
        let m : a ≢ q = ==→ne a q e in
        rw (removed-cptr f p not_own a (λ z. m), write_at-other kids q (ws ++ vs) a m)
          (
            Siblings-frame f (remove_relations p f) a 0 (f.cptr a) (kids a)
                (removed-frame f p not_own (kids a)
                  (λ z. beside-apart a (f.optr p) m (first-parent f q p (f.optr p) vs behind z))
                  (λ z.
                    beside-apart a (f.yptr p) m (younger-parent f q (f.cptr q) ws p vs children z)))
                (fam a).0,
            (fam a).1,
          )
  ]
