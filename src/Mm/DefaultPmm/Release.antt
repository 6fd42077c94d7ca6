-- ===== src/Mm/DefaultPmm/Release.antt =====
-- What giving a block back is meant to do to the list of free blocks: it takes its place in the order
-- of the addresses and is joined with the neighbours that it touches.
use os_labs.Common.{
  ◌+◌, ◌≤◌, ◌<◌, ◌≡◌, refl, ap, List, [], ◌∷◌, ◌++◌, ◌==◌, ltb, if◌then◌else◌, lt→ltb, le→ltb,
}
use os_labs.Mm.DefaultPmm.Blocks.{Block}
use os_labs.Mm.DefaultPmm.Join.{glue}
use os_labs.Mm.DefaultPmm.Insert.{Below}

unfoldable pub glue_both : Block → Block → Block → List Block
glue_both a b c = if a.0 + a.1 == b.0 then glue (a.0, a.1 + b.1) c else a ∷ glue b c

-- with `a` the last block passed
unfoldable pub settle : Block → Block → List Block → List Block
settle a b [] = glue a b
settle a b (c ∷ post) = if ltb b.0 c.0 then glue_both a b c ++ post else a ∷ settle c b post

unfoldable pub release : Block → List Block → List Block
release b [] = b ∷ []
release b (c ∷ post) = if ltb b.0 c.0 then glue b c ++ post else settle c b post

pub release-first :
    (b c : Block) (post : List Block) → b.0 < c.0 → release b (c ∷ post) ≡ glue b c ++ post
unfolding release
release-first b c post lt = rw (lt→ltb b.0 c.0 lt) refl

settle-between :
    (d b : Block) (pre : List Block) (a c : Block) (post : List Block)
    → Below b.0 pre
    → a.0 ≤ b.0
    → b.0 < c.0
    → settle d b (pre ++ (a ∷ c ∷ post)) ≡ d ∷ (pre ++ (glue_both a b c ++ post))
unfolding settle
settle-between d b [] a c post l la lt = rw (le→ltb b.0 a.0 la, lt→ltb b.0 c.0 lt) refl
settle-between d b (e ∷ pre) a c post l la lt =
    rw (le→ltb b.0 e.0 l.0) (ap (λ t. d ∷ t) (settle-between e b pre a c post l.1 la lt))

pub release-between :
    (b : Block) (pre : List Block) (a c : Block) (post : List Block)
    → Below b.0 pre
    → a.0 ≤ b.0
    → b.0 < c.0
    → release b (pre ++ (a ∷ c ∷ post)) ≡ pre ++ (glue_both a b c ++ post)
unfolding release settle
release-between b [] a c post l la lt = rw (le→ltb b.0 a.0 la, lt→ltb b.0 c.0 lt) refl
release-between b (d ∷ pre) a c post l la lt =
    rw (le→ltb b.0 d.0 l.0) (settle-between d b pre a c post l.1 la lt)
