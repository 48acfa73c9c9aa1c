-- ===== src/Dlist/Ring.antt =====
-- What a list of user/comm/gt_list.h stands for: the entries that follow its head.
use guitar_tea.Common.{
  ◌≡◌, true, false, List, [], ◌∷◌, ◌++◌, arith, has, Distinct, Disjoint, last_or, first_or,
  has-append,
}
use guitar_tea.Dlist.{Ptr, ListMem, update}

pub update_self : (f : Ptr → Ptr) (p v : Ptr) → update f p v p ≡ v
update_self f p v = ground arith

-- From `p` the links lead through `xs` to `q`, and back.
abbrev pub Chain : ListMem → Ptr → List Ptr → Ptr → Type 0
Chain m p [] q = (m.next p ≡ q) × (m.prev q ≡ p)
Chain m p (x ∷ xs) q = (m.next p ≡ x) × (m.prev x ≡ p) × Chain m x xs q

abbrev pub AllMapped : ListMem → List Ptr → Type 0
AllMapped m xs = (a : Ptr) → has a xs ≡ true → m.mapped a ≡ true

-- `h` is the head of a well-formed circular list with the entries `xs`, in order.
pub record IsRing (m : ListMem) (h : Ptr) (xs : List Ptr) : Type 0 where
  pub mapped : AllMapped m (h ∷ xs)
  pub distinct : Distinct (h ∷ xs)
  pub chain : Chain m h xs h

-- `g` differs from `m` at most in the list heads at `xs`.
pub record SameOutside (xs : List Ptr) (m g : ListMem) : Type 0 where
  pub mapped : (a : Ptr) → g.mapped a ≡ m.mapped a
  pub next : (a : Ptr) → has a xs ≡ false → g.next a ≡ m.next a
  pub prev : (a : Ptr) → has a xs ≡ false → g.prev a ≡ m.prev a

module _ (m : ListMem) where
  -- A chain survives any change that spares the links which it is made of.
  pub Chain-frame :
      (g : ListMem) (p : Ptr) (xs : List Ptr) (q : Ptr)
      → Chain m p xs q
      → ((a : Ptr) → has a (p ∷ xs) ≡ true → g.next a ≡ m.next a)
      → ((a : Ptr) → has a (xs ++ q ∷ []) ≡ true → g.prev a ≡ m.prev a)
      → Chain g p xs q
  Chain-frame g p [] q c n v = ground (arith, n p, v q)
  Chain-frame g p (x ∷ xs) q c n v = (
    ground (arith, n p),
    ground (arith, v x),
    Chain-frame g x xs q c.2 (λ a i. n a (ground arith)) (λ a i. v a (ground arith)),
  )

  -- The first and the last link of a chain.
  pub Chain-next : (p : Ptr) (xs : List Ptr) (q : Ptr) → Chain m p xs q → m.next p ≡ first_or xs q
  Chain-next p [] q c = c.0
  Chain-next p (x ∷ xs) q c = c.0

  pub Chain-prev : (p : Ptr) (xs : List Ptr) (q : Ptr) → Chain m p xs q → m.prev q ≡ last_or p xs
  Chain-prev p [] q c = c.1
  Chain-prev p (x ∷ xs) q c = Chain-prev x xs q c.2

  pub Chain-append :
      (p : Ptr) (xs : List Ptr) (a : Ptr) (ys : List Ptr) (q : Ptr)
      → Chain m p xs a
      → Chain m a ys q
      → Chain m p (xs ++ a ∷ ys) q
  Chain-append p [] a ys q c d = (c.0, c.1, d)
  Chain-append p (x ∷ xs) a ys q c d = (c.0, c.1, Chain-append x xs a ys q c.2 d)

  pub Chain-split :
      (p : Ptr) (xs : List Ptr) (a : Ptr) (ys : List Ptr) (q : Ptr)
      → Chain m p (xs ++ a ∷ ys) q
      → Chain m p xs a × Chain m a ys q
  Chain-split p [] a ys q c = ((c.0, c.1), c.2)
  Chain-split p (x ∷ xs) a ys q c = let r = Chain-split x xs a ys q c.2 in ((c.0, c.1, r.0), r.1)

-- A list whose head and entries were not written is still that list.
pub IsRing-frame :
    {m g : ListMem} {h : Ptr} {xs ys : List Ptr}
    → IsRing m h xs
    → SameOutside ys m g
    → Disjoint (h ∷ xs) ys
    → IsRing g h xs
IsRing-frame {m} {g} {h} {xs} r same apart = record {
  mapped = λ a i. ground (arith, same.mapped a, r.mapped a);
  distinct = r.distinct;
  chain =
      Chain-frame m g h xs h r.chain (λ a i. same.next a (apart a i))
        (λ a i. same.prev a (apart a (ground (arith, has-append a xs (h ∷ [])))));
}

pub SameOutside-mono :
    {m g : ListMem} (xs ys : List Ptr)
    → SameOutside xs m g
    → ((a : Ptr) → has a xs ≡ true → has a ys ≡ true)
    → SameOutside ys m g
SameOutside-mono xs ys same sub = record {
  mapped = same.mapped;
  next = λ a i. same.next a (ground (arith, sub a));
  prev = λ a i. same.prev a (ground (arith, sub a));
}

pub has-first_or : (xs : List Ptr) (q : Ptr) → has (first_or xs q) (q ∷ xs) ≡ true
has-first_or [] q = ground arith
has-first_or (x ∷ xs) q = ground arith
