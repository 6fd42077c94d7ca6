-- ===== src/Process/Family/Insert.antt =====
-- A process comes to the front of its parent's children.
use mathlib.Core.Path.{subst}
use os_labs.Common.{
  ℕ, ◌≡◌, ◌≢◌, refl, sym, ap, ◌∙◌, List, [], ◌∷◌, All, write_at, write_at-same, write_at-other,
  Bool-cases, ◌==◌, ==_iff, ==→ne, ==_ne, inl, inr, if◌then◌else◌,
}
use os_labs.Libs.ListEntry.Distinct.{◌∉◌, Distinct, All-map}
use os_labs.Process.Family.{Family, link_first, set_relations}
use os_labs.Process.Family.Siblings.{
  Siblings, Kids, IsFamily, Siblings-frame, Siblings-parent, Siblings-first,
}

-- A field that is written at `o` unless `o` is NULL.
pub write_unless-other :
    (f : ℕ → ℕ) (o v x : ℕ) → (o ≢ 0 → x ≢ o) → (if o == 0 then f else write_at f o v) x ≡ f x
write_unless-other f o v x n = elim (Bool-cases (o == 0)) [
  | inl e ↦ rw e refl
  | inr e ↦ rw e (write_at-other f o v x (n (==→ne o 0 e)))
]

pub write_unless-same : (f : ℕ → ℕ) (o v : ℕ) → o ≢ 0 → (if o == 0 then f else write_at f o v) o ≡ v
write_unless-same f o v n = rw (==_ne o 0 n) (write_at-same f o v)

module _ (f : Family) (p q : ℕ) where
  link_first-yptr :
      (x : ℕ) → x ≢ p → (f.cptr q ≢ 0 → x ≢ f.cptr q) → (link_first p q f).yptr x ≡ f.yptr x
  unfolding link_first
  link_first-yptr x n o =
      write_unless-other (write_at f.yptr p 0) (f.cptr q) p x o ∙ write_at-other f.yptr p 0 x n

  link_first-optr : (x : ℕ) → x ≢ p → (link_first p q f).optr x ≡ f.optr x
  unfolding link_first
  link_first-optr x n = write_at-other f.optr p (f.cptr q) x n

  -- Processes that are neither `p` nor the former first child keep their fields.
  pub link_first-frame :
      (xs : List ℕ)
      → p ∉ xs
      → (f.cptr q ≢ 0 → f.cptr q ∉ xs)
      → All
          (λ x.
            ((link_first p q f).parent x ≡ f.parent x)
            × ((link_first p q f).yptr x ≡ f.yptr x)
            × ((link_first p q f).optr x ≡ f.optr x))
          xs
  unfolding link_first
  link_first-frame [] out o = tt
  link_first-frame (x ∷ xs) out o = (
    (refl, link_first-yptr x out.0 (λ n. (o n).0), link_first-optr x out.0),
    link_first-frame xs out.1 (λ n. (o n).1),
  )

  -- The former children follow the new one.
  older-Siblings :
      (y : ℕ) (xs : List ℕ)
      → p ∉ xs
      → Distinct xs
      → Siblings f q y (f.cptr q) xs
      → Siblings (link_first p q f) q p (f.cptr q) xs
  unfolding link_first
  older-Siblings y [] out d s = s
  older-Siblings y (x ∷ xs) out d (e, n, up, back, rest) = (
    e,
    n,
    up,
    subst (λ c. (link_first p q f).yptr c ≡ p) e
        (write_unless-same (write_at f.yptr p 0) (f.cptr q) p (λ z. n (sym e ∙ z))),
    rw (write_at-other f.optr p (f.cptr q) x out.0) (
        Siblings-frame f (link_first p q f) q x (f.optr x) xs
          (link_first-frame xs out.1 (λ z. rw e d.0)) rest),
  )

  -- The new child and the former ones.
  pub link_first-Siblings :
      (y : ℕ) (xs : List ℕ)
      → p ≢ 0
      → p ∉ xs
      → Distinct xs
      → f.parent p ≡ q
      → Siblings f q y (f.cptr q) xs
      → Siblings (link_first p q f) q 0 p (p ∷ xs)
  unfolding link_first
  link_first-Siblings y xs n out d up s = (
    refl,
    n,
    up,
    write_unless-other (write_at f.yptr p 0) (f.cptr q) p p
          (Siblings-first f q y (f.cptr q) xs p out s)
        ∙ write_at-same f.yptr p 0,
    rw (write_at-same f.optr p (f.cptr q)) (older-Siblings y xs out d s),
  )

-- Processes with different parents are different.
pub Siblings-apart :
    (f : Family) (a b y c : ℕ) (xs : List ℕ) (p : ℕ)
    → a ≢ b
    → f.parent p ≡ b
    → Siblings f a y c xs
    → p ∉ xs
Siblings-apart f a b y c xs p n up s =
    All-map _ _ xs (λ x h e. n (sym h ∙ ap f.parent e ∙ up)) (Siblings-parent f a y c xs s)

-- The first child, if there is one, has its parent.
pub first-parent :
    (f : Family) (a y c : ℕ) (xs : List ℕ) → Siblings f a y c xs → c ≢ 0 → f.parent c ≡ a
first-parent f a y c [] s n = absurd (n s)
first-parent f a y c (x ∷ xs) s n = ap f.parent s.0 ∙ s.2

-- the lists of children with those of `q` replaced
abbrev pub with_kids : ℕ → List ℕ → Kids → Kids
with_kids q xs kids = write_at kids q xs

module _ (f : Family) (kids : Kids) (p : ℕ) (n : p ≢ 0) (out : (a : ℕ) → p ∉ kids a)
    (fam : IsFamily f kids) where
  abbrev q : ℕ
  q = f.parent p

  -- the first child of the parent is not among the children of another process
  first-apart : (a : ℕ) → a ≢ q → f.cptr q ≢ 0 → f.cptr q ∉ kids a
  first-apart a m c =
      Siblings-apart f a q 0 (f.cptr a) (kids a) (f.cptr q) m
        (first-parent f q 0 (f.cptr q) (kids q) (fam q).0 c) (fam a).0

  -- `set_links` puts a process that is nobody's child yet in front of its parent's children, and changes
  -- those of no other process.
  pub set_relations-IsFamily :
      IsFamily (set_relations p f) (with_kids (f.parent p) (p ∷ kids (f.parent p)) kids)
  unfolding set_relations
  set_relations-IsFamily a = elim (Bool-cases (a == q)) [
    | inl e ↦
        rw ((==_iff a q).0 e, write_at-same f.cptr q p, write_at-same kids q (p ∷ kids q))
          (
            link_first-Siblings f p q 0 (kids q) n (out q) (fam q).1 refl (fam q).0,
            (out q, (fam q).1),
          )
    | inr e ↦
        let m : a ≢ q = ==→ne a q e in
        rw (write_at-other f.cptr q p a m, write_at-other kids q (p ∷ kids q) a m)
          (
            Siblings-frame f (set_relations p f) a 0 (f.cptr a) (kids a)
                (link_first-frame f p q (kids a) (out a) (first-apart a m)) (fam a).0,
            (fam a).1,
          )
  ]
