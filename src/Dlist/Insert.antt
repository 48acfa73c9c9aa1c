-- ===== src/Dlist/Insert.antt =====
-- `INIT_LIST_HEAD`, `list_add` and `list_add_tail` of user/comm/gt_list.h.
use guitar_tea.Common.{
  ◌≡◌, ◌≢◌, refl, true, false, some, List, [], ◌∷◌, ◌++◌, arith, has, Distinct, last_or, first_or,
  has-append, has-last_or,
}
use mathlib.Core.List.{append-nil}
use guitar_tea.Common.State.{Ensures}
use guitar_tea.Dlist.{Ptr, ListMem, update, list_add_between, list_add, list_add_tail}
use guitar_tea.Dlist.Ring.{
  Chain, IsRing, SameOutside, Chain-frame, Chain-next, Chain-prev, SameOutside-mono, has-first_or,
}

-- The memory after `__list_add`.
abbrev pub linked : (x l n : Ptr) → ListMem → ListMem
linked x l n m = record m {
  next = update (update m.next x n) l x;
  prev = update (update m.prev n x) x l;
}

pub list_add_between-run :
    (m : ListMem) (x l n : Ptr)
    → m.mapped x ≡ true
    → m.mapped l ≡ true
    → m.mapped n ≡ true
    → list_add_between x l n m ≡ some (tt, linked x l n m)
unfolding list_add_between
list_add_between-run m x l n i j k = rw (k, i, i, j)

pub first_or-ne : (z : Ptr) (ys : List Ptr) (q : Ptr) → has z ys ≡ false → z ≢ q → z ≢ first_or ys q
first_or-ne z [] q out ne = ne
first_or-ne z (y ∷ ys) q out ne = ground arith

pub last_or-ne : (z p : Ptr) (xs : List Ptr) → has z (p ∷ xs) ≡ false → z ≢ last_or p xs
last_or-ne z p xs out e = ground (arith, has-last_or p xs)

module _ (m : ListMem) (x q : Ptr) where
  Chain-linked :
      (p : Ptr) (xs ys : List Ptr)
      → Chain m p (xs ++ ys) q
      → Distinct (p ∷ xs ++ ys)
      → has q (xs ++ ys) ≡ false
      → has x (p ∷ xs ++ ys) ≡ false
      → x ≢ q
      → Chain (linked x (last_or p xs) (first_or ys q) m) p (xs ++ x ∷ ys) q
  Chain-linked p [] [] c d o f ne = ground arith
  Chain-linked p [] (y ∷ ys) c d o f ne = (
    ground arith,
    ground arith,
    (
      ground arith,
      ground arith,
      Chain-frame m (linked x p y m) y ys q c.2 (λ a i. ground arith)
          (λ a i. ground (arith, has-append a ys (q ∷ []))),
    ),
  )
  Chain-linked p (z ∷ zs) ys c d o f ne = (
    ground (arith, last_or-ne p z zs, has-append p zs ys),
    ground (arith, first_or-ne z ys q, has-append z zs ys),
    Chain-linked z zs ys c.2 d.1 (ground arith) (ground arith) ne,
  )

Distinct-insert :
    (x : Ptr) (xs ys : List Ptr)
    → Distinct (xs ++ ys)
    → has x (xs ++ ys) ≡ false
    → Distinct (xs ++ x ∷ ys)
Distinct-insert x [] ys d f = (f, d)
Distinct-insert x (z ∷ zs) ys d f = (
  ground (arith, has-append z zs (x ∷ ys), has-append z zs ys),
  Distinct-insert x zs ys d.1 (ground arith),
)

module _ {m : ListMem} {h : Ptr} (x : Ptr) (xs ys : List Ptr) (r : IsRing m h (xs ++ ys)) where
  -- `__list_add` between two neighbours of a list puts the new entry between them.
  pub linked-IsRing :
      m.mapped x ≡ true
      → has x (h ∷ xs ++ ys) ≡ false
      → IsRing (linked x (last_or h xs) (first_or ys h) m) h (xs ++ x ∷ ys)
  linked-IsRing here out = record {
    mapped = λ a i. ground (arith, r.mapped a, has-append a xs ys, has-append a xs (x ∷ ys), here);
    distinct = (
      ground (arith, has-append h xs ys, has-append h xs (x ∷ ys), r.distinct.0),
      Distinct-insert x xs ys r.distinct.1 (ground arith),
    );
    chain = Chain-linked m x h h xs ys r.chain r.distinct r.distinct.0 out (ground arith);
  }

  pub last-mapped : m.mapped (last_or h xs) ≡ true
  last-mapped =
      ground (arith, r.mapped (last_or h xs), has-last_or h xs, has-append (last_or h xs) xs ys)

pub linked-SameOutside :
    (m : ListMem) (x l n : Ptr) → SameOutside (x ∷ l ∷ n ∷ []) m (linked x l n m)
linked-SameOutside m x l n = record {
  mapped = λ a. refl;
  next = λ a i. ground arith;
  prev = λ a i. ground arith;
}

-- What inserting `x` into the list of `h` with the entries `old` achieves.
abbrev pub Inserted : ListMem → (h x : Ptr) → (old new : List Ptr) → Unit {0} → ListMem → Type 0
Inserted m h x old new _ g = IsRing g h new × SameOutside (x ∷ h ∷ old) m g

pub list_add-eq :
    (m : ListMem) (x h : Ptr)
    → m.mapped h ≡ true
    → list_add x h m ≡ list_add_between x h (m.next h) m
unfolding list_add
list_add-eq m x h i = rw i

list_add_tail-eq :
    (m : ListMem) (x h : Ptr)
    → m.mapped h ≡ true
    → list_add_tail x h m ≡ list_add_between x (m.prev h) h m
unfolding list_add_tail
list_add_tail-eq m x h i = rw i

module _ {m : ListMem} {h : Ptr} {xs : List Ptr} (x : Ptr) (r : IsRing m h xs) where
  head-mapped : m.mapped h ≡ true
  head-mapped = r.mapped h (ground arith)

  first-mapped : m.mapped (first_or xs h) ≡ true
  first-mapped = r.mapped (first_or xs h) (ground (arith, has-first_or xs h))

  -- On a well-formed list, an entry that is not in it comes to stand at the front; no list head
  -- but the new entry, the head and the entries of the list is written.
  pub list_add-cons :
      m.mapped x ≡ true
      → has x (h ∷ xs) ≡ false
      → Ensures (list_add x h m) (Inserted m h x xs (x ∷ xs))
  list_add-cons here out =
      rw
        (
          list_add-eq m x h head-mapped,
          Chain-next m h xs h r.chain,
          list_add_between-run m x h (first_or xs h) here head-mapped first-mapped,
        )
        (
          linked-IsRing x [] xs r here out,
          SameOutside-mono _ _ (linked-SameOutside m x h (first_or xs h))
              (λ a i. ground (arith, has-first_or xs h)),
        )

  -- On a well-formed list, an entry that is not in it comes, by `list_add_tail`, to stand at the
  -- back; no list head but the new entry, the head and the entries of the list is written.
  pub list_add_tail-append :
      m.mapped x ≡ true
      → has x (h ∷ xs) ≡ false
      → Ensures (list_add_tail x h m) (Inserted m h x xs (xs ++ x ∷ []))
  list_add_tail-append here out =
      let r' : IsRing m h (xs ++ []) = rw append-nil r in
      rw
        (
          list_add_tail-eq m x h head-mapped,
          Chain-prev m h xs h r.chain,
          list_add_between-run m x (last_or h xs) h here (last-mapped x xs [] r') head-mapped,
        )
        (
          linked-IsRing x xs [] r' here (rw append-nil out),
          SameOutside-mono _ _ (linked-SameOutside m x (last_or h xs) h)
              (λ a i. ground (arith, has-last_or h xs)),
        )
