-- ===== src/Dlist/Remove.antt =====
-- `list_del` and `list_del_init` of user/comm/gt_list.h.
use guitar_tea.Common.{
  ◌≡◌, refl, true, false, none, some, List, [], ◌∷◌, ◌++◌, arith, has, Distinct, last_or, first_or,
  has-append, has-last_or,
}
use guitar_tea.Common.State.{Ensures}
use guitar_tea.Dlist.{
  Ptr, ListMem, update, list_poison1, list_poison2, list_del_between, list_del, list_del_init,
}
use guitar_tea.Dlist.Ring.{
  Chain, IsRing, SameOutside, IsRing-frame, Chain-frame, Chain-next, Chain-prev, Chain-split,
  has-first_or,
}
use guitar_tea.Dlist.Insert.{first_or-ne, last_or-ne}

-- The memory after `__list_del`, and after a write of both fields of one list head.
abbrev pub unlinked : (l n : Ptr) → ListMem → ListMem
unlinked l n m = record m { next = update m.next l n; prev = update m.prev n l }

abbrev pub put : (x n v : Ptr) → ListMem → ListMem
put x n v m = record m { next = update m.next x n; prev = update m.prev x v }

pub list_del_between-run :
    (m : ListMem) (l n : Ptr)
    → m.mapped l ≡ true
    → m.mapped n ≡ true
    → list_del_between l n m ≡ some (tt, unlinked l n m)
unfolding list_del_between
list_del_between-run m l n i j = rw (j, i)

list_del-fault :
    (g : ListMem) (x : Ptr) {p : Ptr}
    → g.mapped x ≡ true
    → g.next x ≡ p
    → g.mapped p ≡ false
    → list_del x g ≡ none
unfolding list_del
list_del-fault g x i e bad = rw (i, i, e, bad)

module _ (m : ListMem) (x q : Ptr) where
  Chain-unlinked :
      (p : Ptr) (xs ys : List Ptr)
      → Chain m p (xs ++ x ∷ ys) q
      → Distinct (p ∷ xs ++ x ∷ ys)
      → has q (xs ++ x ∷ ys) ≡ false
      → Chain (unlinked (last_or p xs) (first_or ys q) m) p (xs ++ ys) q
  Chain-unlinked p [] [] c d o = ground arith
  Chain-unlinked p [] (y ∷ ys) c d o = (
    ground arith,
    ground arith,
    Chain-frame m (unlinked p y m) y ys q (c.2).2 (λ a i. ground arith)
        (λ a i. ground (arith, has-append a ys (q ∷ []))),
  )
  Chain-unlinked p (z ∷ zs) ys c d o = (
    ground (arith, last_or-ne p z zs, has-append p zs (x ∷ ys)),
    ground (arith, first_or-ne z ys q, has-append z zs (x ∷ ys)),
    Chain-unlinked z zs ys c.2 d.1 (ground arith),
  )

Distinct-remove : (x : Ptr) (xs ys : List Ptr) → Distinct (xs ++ x ∷ ys) → Distinct (xs ++ ys)
Distinct-remove x [] ys d = d.1
Distinct-remove x (z ∷ zs) ys d =
    (ground (arith, has-append z zs (x ∷ ys), has-append z zs ys), Distinct-remove x zs ys d.1)

pub not-mem-rest : (x : Ptr) (xs ys : List Ptr) → Distinct (xs ++ x ∷ ys) → has x (xs ++ ys) ≡ false
not-mem-rest x [] ys d = d.0
not-mem-rest x (z ∷ zs) ys d = ground (arith, not-mem-rest x zs ys d.1, has-append z zs (x ∷ ys))

pub put-SameOutside : (m : ListMem) (x n v : Ptr) → SameOutside (x ∷ []) m (put x n v m)
put-SameOutside m x n v = record {
  mapped = λ a. refl;
  next = λ a i. ground arith;
  prev = λ a i. ground arith;
}

-- A list head that points to itself is an empty list.
pub singleton-IsRing : (m : ListMem) (x : Ptr) → m.mapped x ≡ true → IsRing (put x x x m) x []
singleton-IsRing m x here = record {
  mapped = λ a i. ground arith;
  distinct = (refl, tt);
  chain = ground arith;
}

module _ {m : ListMem} {h : Ptr} (x : Ptr) (xs ys : List Ptr) (r : IsRing m h (xs ++ x ∷ ys)) where
  abbrev pub around : ListMem
  around = unlinked (last_or h xs) (first_or ys h) m

  -- `__list_del` of the neighbours of an entry takes the entry out.
  pub unlinked-IsRing : IsRing around h (xs ++ ys)
  unlinked-IsRing = record {
    mapped = λ a i. ground (arith, r.mapped a, has-append a xs ys, has-append a xs (x ∷ ys));
    distinct = (
      ground (arith, has-append h xs ys, has-append h xs (x ∷ ys), r.distinct.0),
      Distinct-remove x xs ys r.distinct.1,
    );
    chain = Chain-unlinked m x h h xs ys r.chain r.distinct r.distinct.0;
  }

  pub unlinked-SameOutside : SameOutside (h ∷ xs ++ x ∷ ys) m around
  unlinked-SameOutside = record {
    mapped = λ a. refl;
    next = λ a i. ground (arith, last_or-ne a h xs, has-append a xs (x ∷ ys));
    prev = λ a i. ground (arith, first_or-ne a ys h, has-append a xs (x ∷ ys));
  }

  pub entry-mapped : m.mapped x ≡ true
  entry-mapped = r.mapped x (ground (arith, has-append x xs (x ∷ ys)))

  pub left-mapped : m.mapped (last_or h xs) ≡ true
  left-mapped =
      r.mapped (last_or h xs)
        (ground (arith, has-last_or h xs, has-append (last_or h xs) xs (x ∷ ys)))

  pub right-mapped : m.mapped (first_or ys h) ≡ true
  right-mapped =
      r.mapped (first_or ys h)
        (ground (arith, has-first_or ys h, has-append (first_or ys h) xs (x ∷ ys)))

  pub prev-eq-last_or : m.prev x ≡ last_or h xs
  prev-eq-last_or = Chain-prev m h xs x (Chain-split m h xs x ys h r.chain).0

  pub next-eq-first_or : m.next x ≡ first_or ys h
  next-eq-first_or = Chain-next m x ys h (Chain-split m h xs x ys h r.chain).1

  -- The entry is outside of the list that is left, so that what is written to it does not matter.
  pub put-IsRing : (n v : Ptr) → IsRing (put x n v around) h (xs ++ ys)
  put-IsRing n v =
      IsRing-frame unlinked-IsRing (put-SameOutside around x n v)
        (λ a i. ground (arith, not-mem-rest x (h ∷ xs) ys r.distinct))

  put-around-SameOutside : (n v : Ptr) → SameOutside (h ∷ xs ++ x ∷ ys) m (put x n v around)
  put-around-SameOutside n v = record {
    mapped = λ a. refl;
    next = λ a i. ground (arith, unlinked-SameOutside.next a, has-append a xs (x ∷ ys));
    prev = λ a i. ground (arith, unlinked-SameOutside.prev a, has-append a xs (x ∷ ys));
  }

  list_del-run : list_del x m ≡ some (tt, put x list_poison1 list_poison2 around)
  unfolding list_del
  list_del-run = rw (
    entry-mapped, prev-eq-last_or, entry-mapped, next-eq-first_or, right-mapped, left-mapped,
    entry-mapped, entry-mapped,
  )

  list_del_init-run : list_del_init x m ≡ some (tt, put x x x around)
  unfolding list_del_init
  list_del_init-run = rw (
    entry-mapped, prev-eq-last_or, entry-mapped, next-eq-first_or, right-mapped, left-mapped,
    entry-mapped, entry-mapped,
  )

  -- `list_del` of an entry of a well-formed list takes exactly that entry out, poisons it, and
  -- writes to nothing but the head and the entries of that list.
  pub list_del-remove : Ensures (list_del x m) (λ _ g.
      IsRing g h (xs ++ ys)
      × (g.next x ≡ list_poison1)
      × (g.prev x ≡ list_poison2)
      × SameOutside (h ∷ xs ++ x ∷ ys) m g)
  list_del-remove = rw list_del-run (
    put-IsRing list_poison1 list_poison2,
    ground arith,
    ground arith,
    put-around-SameOutside list_poison1 list_poison2,
  )

  -- For an entry of a well-formed list, `list_del_init` takes it out and leaves it as the head of an
  -- empty list of its own, and writes no list head outside of the list.
  pub list_del_init-remove :
      Ensures
        (list_del_init x m)
        (λ _ g. IsRing g h (xs ++ ys) × IsRing g x [] × SameOutside (h ∷ xs ++ x ∷ ys) m g)
  list_del_init-remove =
      rw list_del_init-run
        (put-IsRing x x, singleton-IsRing around x entry-mapped, put-around-SameOutside x x)

  -- After `list_del` of an entry of a well-formed list, a second `list_del` of that entry goes through the poison, and faults where no list head is
  -- mapped at that address.
  pub list_del_twice :
      m.mapped list_poison1 ≡ false → Ensures (list_del x m) (λ _ g. list_del x g ≡ none)
  list_del_twice bad =
      rw list_del-run
        (list_del-fault (put x list_poison1 list_poison2 around) x entry-mapped (ground arith) bad)
