-- ===== src/Dlist/Chains.antt =====
-- Parts of a chain of links, and distinct lists that are joined.
use guitar_tea.Common.{
  ◌≡◌, ◌≢◌, refl, true, false, List, [], ◌∷◌, ◌++◌, arith, has, Distinct, Disjoint, last_or,
  first_or, has-append,
}
use guitar_tea.Dlist.{Ptr, ListMem}
use guitar_tea.Dlist.Ring.{Chain, Chain-frame}
use guitar_tea.Dlist.Insert.{last_or-ne}

-- The links from `p` through `xs`, without the one that leaves the last of them.
abbrev pub Inner : ListMem → Ptr → List Ptr → Type 0
Inner m p [] = Unit
Inner m p (x ∷ xs) = (m.next p ≡ x) × (m.prev x ≡ p) × Inner m x xs

-- The links from the first of `ys` to `q`.
abbrev pub Tail : ListMem → List Ptr → Ptr → Type 0
Tail m [] q = Unit
Tail m (y ∷ ys) q = Chain m y ys q

module _ (m : ListMem) where
  pub Chain-parts :
      (p : Ptr) (xs ys : List Ptr) (q : Ptr) → Chain m p (xs ++ ys) q → Inner m p xs × Tail m ys q
  Chain-parts p [] [] q c = (tt, tt)
  Chain-parts p [] (y ∷ ys) q c = (tt, c.2)
  Chain-parts p (x ∷ xs) ys q c = let r = Chain-parts x xs ys q c.2 in ((c.0, c.1, r.0), r.1)

  pub Chain-link :
      (p : Ptr) (ys : List Ptr) (q : Ptr)
      → m.next p ≡ first_or ys q
      → m.prev (first_or ys q) ≡ p
      → Tail m ys q
      → Chain m p ys q
  Chain-link p [] q n v t = (n, v)
  Chain-link p (y ∷ ys) q n v t = (n, v, t)

  pub Chain-join :
      (p : Ptr) (xs ys : List Ptr) (q : Ptr)
      → Inner m p xs
      → Chain m (last_or p xs) ys q
      → Chain m p (xs ++ ys) q
  Chain-join p [] ys q i c = c
  Chain-join p (x ∷ xs) ys q i c = (i.0, i.1, Chain-join x xs ys q i.2 c)

  pub Inner-frame :
      (g : ListMem) (p : Ptr) (xs : List Ptr)
      → Inner m p xs
      → Distinct (p ∷ xs)
      → ((a : Ptr) → has a (p ∷ xs) ≡ true → a ≢ last_or p xs → g.next a ≡ m.next a)
      → ((a : Ptr) → has a xs ≡ true → g.prev a ≡ m.prev a)
      → Inner g p xs
  Inner-frame g p [] i d n v = tt
  Inner-frame g p (x ∷ xs) i d n v = (
    ground (arith, n p, last_or-ne p x xs),
    ground (arith, v x),
    Inner-frame g x xs i.2 d.1 (λ a h ne. n a (ground arith) ne) (λ a h. v a (ground arith)),
  )

  pub Tail-frame :
      (g : ListMem) (ys : List Ptr) (q : Ptr)
      → Tail m ys q
      → ((a : Ptr) → has a ys ≡ true → g.next a ≡ m.next a)
      → ((a : Ptr) → has a (ys ++ q ∷ []) ≡ true → a ≢ first_or ys q → g.prev a ≡ m.prev a)
      → Distinct (ys ++ q ∷ [])
      → Tail g ys q
  Tail-frame g [] q t n v d = tt
  Tail-frame g (y ∷ ys) q t n v d =
      Chain-frame m g y ys q t n (λ a h. v a (ground arith) (ground arith))

pub Distinct-left : (xs ys : List Ptr) → Distinct (xs ++ ys) → Distinct xs
Distinct-left [] ys d = tt
Distinct-left (x ∷ xs) ys d = (ground (arith, has-append x xs ys), Distinct-left xs ys d.1)

pub Distinct-right : (xs ys : List Ptr) → Distinct (xs ++ ys) → Distinct ys
Distinct-right [] ys d = d
Distinct-right (x ∷ xs) ys d = Distinct-right xs ys d.1

pub Distinct-snoc :
    (ys : List Ptr) (h : Ptr) → Distinct ys → has h ys ≡ false → Distinct (ys ++ h ∷ [])
Distinct-snoc [] h d o = (refl, tt)
Distinct-snoc (y ∷ ys) h d o =
    (ground (arith, has-append y ys (h ∷ [])), Distinct-snoc ys h d.1 (ground arith))

pub Distinct-append :
    (xs ys : List Ptr) → Distinct xs → Distinct ys → Disjoint xs ys → Distinct (xs ++ ys)
Distinct-append [] ys d e apart = e
Distinct-append (x ∷ xs) ys d e apart = (
  ground (arith, has-append x xs ys, apart x),
  Distinct-append xs ys d.1 e (λ a i. apart a (ground arith)),
)

pub Distinct-apart : (xs ys : List Ptr) → Distinct (xs ++ ys) → Disjoint xs ys
Distinct-apart [] ys d a i = cc
Distinct-apart (x ∷ xs) ys d a i = ground (arith, Distinct-apart xs ys d.1 a, has-append x xs ys)
