-- ===== src/Poller/Population.antt =====
-- All event sources and pollers of the process (user/core/gt_poller.c) at once: how the lists of the
-- pollers and the list heads in the events hang together.
pub mod Links
pub mod Init
pub mod Create
pub mod Unlink
pub mod Destroy
pub mod Handlers
pub mod Accept
pub mod Run
pub mod Notices
pub mod Loop
pub mod Sample
mod Tests
use guitar_tea.Common.{
  ℕ, ◌+◌, ◌<◌, ◌≡◌, ◌≢◌, refl, ap, sym, ◌∙◌, ◌⊎◌, inl, inr, Bool, true, false, Option, none, some,
  List, [], ◌∷◌, arith, ==_self, ◌==◌, if◌then◌else◌,
}
use mathlib.Core.Path.{subst, fun_ext}
use native.Mathlib.Decide.{ℕ_discrete}
use mathlib.Core.Option.{some-injective, none-ne-some}
use guitar_tea.Dlist.{Ptr, ListMem, update, list_poison1, list_poison2}
use guitar_tea.Dlist.Ring.{IsRing, SameOutside}
use guitar_tea.Common.Int.{ℤ}
use guitar_tea.Os.{Os, World, Call, GtEvent}
use guitar_tea.Poller.{ge_list, elist}

-- The poller of an event, where the event is allocated.
abbrev pub poller_of : Option GtEvent → Option Ptr
poller_of none = none
poller_of (some g) = some g.gpoller

abbrev pub owners : {K : Type 0} → World K → Ptr → Option Ptr
owners w ge = poller_of (w.event ge)

-- Every event but that at `ge` is as it was.
abbrev pub OthersKept : {K : Type 0} → Ptr → World K → World K → Type 0
OthersKept ge w t = (a : Ptr) → a ≢ ge → t.event a ≡ w.event a

-- Every event is still there as it was.
abbrev pub Survive : {K : Type 0} → World K → World K → Type 0
Survive w t = (a : Ptr) (g : GtEvent) → w.event a ≡ some g → t.event a ≡ some g

-- Both links of the list head at `a` lead to `b`.
pub record LinksTo (m : ListMem) (a b : Ptr) : Type 0 where
  pub next : m.next a ≡ b
  pub prev : m.prev a ≡ b

-- The list of the poller is empty, or has one event, which belongs to the poller.
abbrev pub AtMostOne : ListMem → (Ptr → Option Ptr) → Ptr → Type 0
AtMostOne m owner gp =
    LinksTo m (elist gp) (elist gp)
    ⊎ ((ge : Ptr) × (owner ge ≡ some gp) × LinksTo m (elist gp) (ge_list ge))

-- `is_poller` tells where the pollers of the process stand.
pub record Sound (is_poller : Ptr → Bool) (m : ListMem) (owner : Ptr → Option Ptr) : Type 0 where
  pub poller_mapped : (gp : Ptr) → is_poller gp ≡ true → m.mapped (elist gp) ≡ true
  pub event_mapped : (ge gp : Ptr) → owner ge ≡ some gp → m.mapped (ge_list ge) ≡ true
  pub owned : (ge gp : Ptr) → owner ge ≡ some gp → is_poller gp ≡ true
  pub links : (ge gp : Ptr) → owner ge ≡ some gp → LinksTo m (ge_list ge) (elist gp)
  pub apart : (ge gp hp : Ptr) → owner ge ≡ some gp → is_poller hp ≡ true → ge_list ge ≢ elist hp
  pub heads : (gp : Ptr) → is_poller gp ≡ true → AtMostOne m owner gp

-- What a change of some owner or none does.
abbrev pub set_owner : (Ptr → Option Ptr) → Ptr → Option Ptr → Ptr → Option Ptr
set_owner owner ge o a = if a == ge then o else owner a

-- What malloc(3), free(3) and the calls of the kernel say of the memory of the process: `live` are the
-- blocks that were given out and not given back, `static` the bytes of the global objects.
pub record Heap (os : Os) : Type 0 where
  pub live : os.Kernel → Ptr → Bool
  pub static : Ptr → Bool
  pub malloc_new :
      (size : ℕ) (k : os.Kernel)
      → (os.malloc size k).0 ≢ 0
      → (live k (os.malloc size k).0 ≡ false)
        × (live (os.malloc size k).1 (os.malloc size k).0 ≡ true)
  pub malloc_apart :
      (size : ℕ) (k : os.Kernel) (offset : ℕ)
      → (os.malloc size k).0 ≢ 0
      → offset < size
      → static ((os.malloc size k).0 + offset) ≡ false
  pub malloc_keeps :
      (size : ℕ) (k : os.Kernel) (a : Ptr) → live k a ≡ true → live (os.malloc size k).1 a ≡ true
  pub free_keeps :
      (p : Ptr) (k : os.Kernel) (a : Ptr) → a ≢ p → live k a ≡ true → live (os.free p k) a ≡ true
  pub answer_keeps :
      (c : Call) (k : os.Kernel) (a : Ptr) → live k a ≡ true → live (os.answer c k).1 a ≡ true
  pub wait_keeps :
      (epfd : ℤ) (maxevents timeout : ℕ) (k : os.Kernel) (a : Ptr)
      → live k a ≡ true
      → live (os.epoll_wait epfd maxevents timeout k).1 a ≡ true
  pub read_keeps :
      (fd : ℤ) (count : ℕ) (k : os.Kernel) (a : Ptr)
      → live k a ≡ true
      → live (os.read fd count k).2 a ≡ true

module _ {os : Os} (heap : Heap os) where
  -- The lists are sound, the pollers are global objects, and the events blocks that are given out.
  pub record Healthy (is_poller : Ptr → Bool) (w : World os.Kernel) : Type 0 where
    pub sound : Sound is_poller w.lists (owners w)
    pub poller_static : (gp : Ptr) → is_poller gp ≡ true → heap.static (elist gp) ≡ true
    pub event_apart : (ge gp : Ptr) → owners w ge ≡ some gp → heap.static (ge_list ge) ≡ false
    pub event_live : (ge gp : Ptr) → owners w ge ≡ some gp → heap.live w.kernel ge ≡ true
