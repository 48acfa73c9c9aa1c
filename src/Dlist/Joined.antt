-- ===== src/Dlist/Joined.antt =====
-- `__list_splice` of user/comm/gt_list.h: the list that it makes of two.
use guitar_tea.Common.{
  ◌≡◌, true, false, some, List, [], ◌∷◌, ◌++◌, arith, has, Distinct, Disjoint, last_or, first_or,
  has-append, has-last_or, ◌==◌,
}
use mathlib.Core.List.{append-nil}
use guitar_tea.Dlist.{Ptr, ListMem, update, list_splice_between}
use guitar_tea.Dlist.Ring.{IsRing, IsRing-frame, Chain-prev, has-first_or}
use guitar_tea.Dlist.Insert.{first_or-ne, last_or-ne}
use guitar_tea.Dlist.Remove.{put, put-SameOutside, singleton-IsRing}
use guitar_tea.Dlist.Chains.{
  Inner, Tail, Chain-parts, Chain-link, Chain-join, Inner-frame, Tail-frame, Distinct-left,
  Distinct-right, Distinct-snoc, Distinct-append, Distinct-apart,
}

-- The memory after `__list_splice` of a list that runs from `f` to `e`.
abbrev pub spliced : (f e l n : Ptr) → ListMem → ListMem
spliced f e l n m = record m {
  next = update (update m.next l f) e n;
  prev = update (update m.prev f l) n e;
}

module _ {m : ListMem} {h k : Ptr} (z : Ptr) (zs xs ys : List Ptr) (r : IsRing m h (xs ++ ys))
    (s : IsRing m k (z ∷ zs)) (apart : Disjoint (h ∷ xs ++ ys) (k ∷ z ∷ zs)) where
  abbrev pub l : Ptr
  l = last_or h xs

  abbrev pub n : Ptr
  n = first_or ys h

  abbrev pub e : Ptr
  e = last_or z zs

  abbrev pub joined : ListMem
  joined = spliced z e l n m

  l-mem : has l (h ∷ xs ++ ys) ≡ true
  l-mem = ground (arith, has-last_or h xs, has-append l xs ys)

  n-mem : has n (h ∷ xs ++ ys) ≡ true
  n-mem = ground (arith, has-first_or ys h, has-append n xs ys)

  front : Inner joined h xs
  front =
      Inner-frame m joined h xs (Chain-parts m h xs ys h r.chain).0
        (Distinct-left (h ∷ xs) ys r.distinct)
        (λ a i ne. ground (arith, apart a, has-append a xs ys, has-last_or z zs))
        (λ a i. ground (
          arith,
          apart a,
          has-append a xs ys,
          first_or-ne a ys h,
          r.distinct.0,
          Distinct-apart xs ys r.distinct.1 a i,
        ))

  middle : Inner joined z zs
  middle =
      Inner-frame m joined z zs (Chain-parts m z zs [] k (rw append-nil s.chain.2)).0 s.distinct.1
        (λ a i ne. ground (arith, apart l l-mem))
        (λ a i. ground (arith, apart n n-mem, s.distinct.1))

  back : Tail joined ys h
  back =
      Tail-frame m joined ys h (Chain-parts m h xs ys h r.chain).1
        (λ a i. ground (
          arith,
          apart a,
          has-append a xs ys,
          has-last_or z zs,
          last_or-ne a h xs,
          r.distinct.0,
          Distinct-apart xs ys r.distinct.1 a,
        ))
        (λ a i ne. ground (arith, apart a, has-append a xs ys, has-append a ys (h ∷ [])))
        (Distinct-snoc ys h (Distinct-right xs ys r.distinct.1)
          (ground (arith, has-append h xs ys, r.distinct.0)))

  Distinct-joined : Distinct (h ∷ xs ++ (z ∷ zs ++ ys))
  Distinct-joined = (
    ground (
      arith,
      has-append h xs (z ∷ zs ++ ys),
      has-append h xs ys,
      has-append h zs ys,
      r.distinct.0,
      apart h,
    ),
    Distinct-append xs (z ∷ zs ++ ys) (Distinct-left xs ys r.distinct.1)
        (Distinct-append (z ∷ zs) ys s.distinct.1 (Distinct-right xs ys r.distinct.1)
          (λ a i. ground (arith, apart a, has-append a xs ys)))
        (λ a i. ground (
          arith,
          apart a,
          has-append a xs ys,
          has-append a zs ys,
          Distinct-apart xs ys r.distinct.1 a,
        )),
  )

  pub joined-IsRing : IsRing joined h (xs ++ (z ∷ zs ++ ys))
  joined-IsRing = record {
    mapped = λ a i. ground (
      arith,
      r.mapped a,
      s.mapped a,
      has-append a xs (z ∷ zs ++ ys),
      has-append a zs ys,
      has-append a xs ys,
    );
    distinct = Distinct-joined;
    chain = Chain-join joined h xs (z ∷ zs ++ ys) h front (
      ground (arith, apart l l-mem, has-last_or z zs),
      ground (arith, apart n n-mem),
      Chain-join joined z zs ys h middle
          (Chain-link joined e ys h (ground arith) (ground arith) back),
    );
  }

  pub list_splice_between-run : list_splice_between k l n m ≡ some (tt, joined)
  unfolding list_splice_between
  list_splice_between-run = rw (
    s.mapped k (ground arith),
    s.chain.0,
    s.mapped k (ground arith),
    Chain-prev m k (z ∷ zs) k s.chain,
    s.mapped z (ground arith),
    r.mapped l l-mem,
    s.mapped e (ground (arith, has-last_or z zs)),
    r.mapped n n-mem,
  )

  pub not_empty : (m.next k == k) ≡ false
  not_empty = ground (arith, s.chain.0, s.distinct.0)

  pub joined-k-IsRing :
      IsRing (put k k k joined) h (xs ++ (z ∷ zs ++ ys)) × IsRing (put k k k joined) k []
  joined-k-IsRing = (
    IsRing-frame joined-IsRing (put-SameOutside joined k k k) (λ a i. ground (
      arith,
      apart k,
      s.distinct.0,
      has-append k xs (z ∷ zs ++ ys),
      has-append k zs ys,
      has-append k xs ys,
    )),
    singleton-IsRing joined k (s.mapped k (ground arith)),
  )
