-- ===== src/Poller/Population/Links.antt =====
-- How the lists of all pollers change where user/core/gt_poller.c creates or destroys one event.
use guitar_tea.Common.{
  ◌≡◌, ◌≢◌, ap, sym, ◌∙◌, ◌⊎◌, inl, inr, Bool, true, Option, none, some, arith, ==_self,
}
use mathlib.Core.Path.{subst, fun_ext}
use mathlib.Core.Option.{some-injective, none-ne-some}
use native.Mathlib.Decide.{ℕ_discrete}
use guitar_tea.Dlist.{Ptr, ListMem}
use guitar_tea.Poller.{ge_list, elist}
use guitar_tea.Poller.Population.{LinksTo, AtMostOne, Sound, set_owner}

ge_list-inj : (a b : Ptr) → ge_list a ≡ ge_list b → a ≡ b
unfolding ge_list
ge_list-inj a b e = omega arith

pub elist-inj : (a b : Ptr) → elist a ≡ elist b → a ≡ b
unfolding elist
elist-inj a b e = omega arith

-- The lists after a new event was linked to the head of a poller: both lead to each other.
pub record Attached (m m' : ListMem) (x e : Ptr) : Type 0 where
  pub mapped_new : m'.mapped x ≡ true
  pub mapped : (a : Ptr) → a ≢ x → m'.mapped a ≡ m.mapped a
  pub forth : LinksTo m' e x
  pub back : LinksTo m' x e
  pub next : (a : Ptr) → a ≢ x → a ≢ e → m'.next a ≡ m.next a
  pub prev : (a : Ptr) → a ≢ x → a ≢ e → m'.prev a ≡ m.prev a

-- The lists after the list head of an event was taken out and its memory given back: the head of the
-- poller is on its own.
pub record Detached (m m' : ListMem) (x e : Ptr) : Type 0 where
  pub mapped : (a : Ptr) → a ≢ x → m'.mapped a ≡ m.mapped a
  pub alone : LinksTo m' e e
  pub next : (a : Ptr) → a ≢ x → a ≢ e → m'.next a ≡ m.next a
  pub prev : (a : Ptr) → a ≢ x → a ≢ e → m'.prev a ≡ m.prev a

module _ (owner : Ptr → Option Ptr) (ge : Ptr) (o : Option Ptr) where
  pub set_owner-same : set_owner owner ge o ge ≡ o
  set_owner-same = rw (==_self ge)

  pub set_owner-other : (a : Ptr) → a ≢ ge → set_owner owner ge o a ≡ owner a
  set_owner-other a ne = ground arith

  -- An event with an owner after the change is the changed one, or another one as before.
  pub set_owner-cases :
      (a gp : Ptr)
      → set_owner owner ge o a ≡ some gp
      → ((a ≡ ge) × (o ≡ some gp)) ⊎ ((a ≢ ge) × (owner a ≡ some gp))
  set_owner-cases a gp e = elim (ℕ_discrete a ge) [
    | yes q ↦ inl (q, sym set_owner-same ∙ ap (set_owner owner ge o) (sym q) ∙ e)
    | no n ↦ inr (n, sym (set_owner-other a n) ∙ e)
  ]

pub Sound-owner :
    {is_poller : Ptr → Bool} {m : ListMem} {owner owner' : Ptr → Option Ptr}
    → ((a : Ptr) → owner a ≡ owner' a)
    → Sound is_poller m owner
    → Sound is_poller m owner'
Sound-owner {is_poller} {m} same sound = subst (Sound is_poller m) (fun_ext same) sound

module _ {is_poller : Ptr → Bool} {m m' : ListMem} {owner : Ptr → Option Ptr}
    (sound : Sound is_poller m owner) (ge gp : Ptr) where
  open sound use {poller_mapped, event_mapped, owned, links, apart, heads}

  -- The links of another event stay: it is neither the changed one nor a head.
  module _ (poller : is_poller gp ≡ true)
      (same : (a : Ptr) → a ≢ ge_list ge → m'.mapped a ≡ m.mapped a)
      (next : (a : Ptr) → a ≢ ge_list ge → a ≢ elist gp → m'.next a ≡ m.next a)
      (prev : (a : Ptr) → a ≢ ge_list ge → a ≢ elist gp → m'.prev a ≡ m.prev a) where
    links_kept : (a hp : Ptr) → a ≢ ge → owner a ≡ some hp → LinksTo m' (ge_list a) (elist hp)
    links_kept a hp n e =
        let out : ge_list a ≢ ge_list ge = λ q. n (ge_list-inj a ge q) in
        let off = apart a hp gp e poller in
        record {
          next = next (ge_list a) out off ∙ (links a hp e).next;
          prev = prev (ge_list a) out off ∙ (links a hp e).prev;
        }

    heads_kept :
        (o : Option Ptr)
        → ((hp : Ptr) → is_poller hp ≡ true → ge_list ge ≢ elist hp)
        → ((a hp : Ptr) → owner a ≡ some hp → hp ≢ gp → a ≢ ge)
        → (hp : Ptr) → hp ≢ gp
        → is_poller hp ≡ true
        → AtMostOne m' (set_owner owner ge o) hp
    heads_kept o free other hp n p =
        let off : elist hp ≢ elist gp = λ q. n (elist-inj hp gp q) in
        let out : elist hp ≢ ge_list ge = λ q. free hp p (sym q) in
        let forth = next (elist hp) out off in
        let back = prev (elist hp) out off in
        elim (heads hp p) [
          | inl l ↦ inl (record { next = forth ∙ l.next; prev = back ∙ l.prev })
          | inr (a, mine, l) ↦ inr (
            a,
            set_owner-other owner ge o a (other a hp mine n) ∙ mine,
            record { next = forth ∙ l.next; prev = back ∙ l.prev },
          )
        ]

  pub Attached-Sound :
      is_poller gp ≡ true
      → owner ge ≡ none
      → ((hp : Ptr) → is_poller hp ≡ true → ge_list ge ≢ elist hp)
      → Attached m m' (ge_list ge) (elist gp)
      → Sound is_poller m' (set_owner owner ge (some gp))
  Attached-Sound poller absent free at = record {
    poller_mapped = λ hp p. at.mapped (elist hp) (λ e. free hp p (sym e)) ∙ poller_mapped hp p;
    event_mapped = λ a hp e. elim (set_owner-cases owner ge (some gp) a hp e) [
      | inl (q, _) ↦ ap (λ b. m'.mapped (ge_list b)) q ∙ at.mapped_new
      | inr (n, e) ↦ at.mapped (ge_list a) (λ q. n (ge_list-inj a ge q)) ∙ event_mapped a hp e
    ];
    owned = λ a hp e. elim (set_owner-cases owner ge (some gp) a hp e) [
      | inl (_, q) ↦ ap is_poller (sym (some-injective _ _ q)) ∙ poller
      | inr (_, e) ↦ owned a hp e
    ];
    links = λ a hp e. elim (set_owner-cases owner ge (some gp) a hp e) [
      | inl (q, r) ↦ rw (q, sym (some-injective _ _ r)) at.back
      | inr (n, e) ↦ links_kept poller at.mapped at.next at.prev a hp n e
    ];
    apart = λ a hp kp e p. elim (set_owner-cases owner ge (some gp) a hp e) [
      | inl (q, _) ↦ rw q (free kp p)
      | inr (_, e) ↦ apart a hp kp e p
    ];
    heads = λ hp p. elim (ℕ_discrete hp gp) [
      | yes q ↦ rw q (inr (ge, set_owner-same owner ge (some gp), at.forth))
      | no n ↦
          heads_kept poller at.mapped at.next at.prev (some gp) free
            (λ a hp' mine _. λ q. none-ne-some _ (sym absent ∙ ap owner (sym q) ∙ mine)) hp n p
    ];
  }

  pub Detached-Sound :
      owner ge ≡ some gp
      → Detached m m' (ge_list ge) (elist gp)
      → Sound is_poller m' (set_owner owner ge none)
  Detached-Sound mine dt =
      let poller = owned ge gp mine in
      record {
        poller_mapped =
            λ hp p. dt.mapped (elist hp) (λ e. apart ge gp hp mine p (sym e)) ∙ poller_mapped hp p;
        event_mapped = λ a hp e. elim (set_owner-cases owner ge none a hp e) [
          | inl (_, r) ↦ absurd (none-ne-some _ r)
          | inr (n, e) ↦ dt.mapped (ge_list a) (λ q. n (ge_list-inj a ge q)) ∙ event_mapped a hp e
        ];
        owned = λ a hp e. elim (set_owner-cases owner ge none a hp e) [
          | inl (_, r) ↦ absurd (none-ne-some _ r)
          | inr (_, e) ↦ owned a hp e
        ];
        links = λ a hp e. elim (set_owner-cases owner ge none a hp e) [
          | inl (_, r) ↦ absurd (none-ne-some _ r)
          | inr (n, e) ↦ links_kept poller dt.mapped dt.next dt.prev a hp n e
        ];
        apart = λ a hp kp e p. elim (set_owner-cases owner ge none a hp e) [
          | inl (_, r) ↦ absurd (none-ne-some _ r)
          | inr (_, e) ↦ apart a hp kp e p
        ];
        heads = λ hp p. elim (ℕ_discrete hp gp) [
          | yes q ↦ rw q (inl dt.alone)
          | no n ↦
              heads_kept poller dt.mapped dt.next dt.prev none (λ kp p. apart ge gp kp mine p)
                (λ a hp' yours ne. λ q. ne (some-injective _ _ (sym yours ∙ ap owner q ∙ mine))) hp
                n p
        ];
      }
