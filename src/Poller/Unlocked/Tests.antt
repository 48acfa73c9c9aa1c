-- ===== src/Poller/Unlocked/Tests.antt =====
-- Two threads at the list of one poller, turn by turn.
use guitar_tea.Common.{◌≡◌, ◌==◌, refl, Bool, true, false, List, [], ◌∷◌, arith, if◌then◌else◌}
use guitar_tea.Common.State.{Ensures}
use guitar_tea.Dlist.{ListMem, list_poison1, list_poison2}
use guitar_tea.Poller.Population.{LinksTo}
use guitar_tea.Poller.Unlocked.{done, interleave, list_add_steps, list_del_steps}
use guitar_tea.Poller.Unlocked.Positions.{Between, HeadNext, HeadPrev}
use guitar_tea.Poller.Unlocked.Safe.{interleave-Between}

-- The head of the poller at 10 and the event at 20 in its list; the new event is at 30.
abbrev one_event : ListMem
one_event = record {
  mapped = λ a. true;
  next = λ a. if a == 10 then 20 else if a == 20 then 10 else a;
  prev = λ a. if a == 10 then 20 else if a == 20 then 10 else a;
}

abbrev turns : List Bool
turns = false ∷ false ∷ false ∷ true ∷ true ∷ true ∷ true ∷ true ∷ false ∷ false ∷ false ∷ []

-- In these turns the links of the head come to disagree: forwards the list is empty, and backwards it
-- has the new event.
torn :
    Ensures
      (interleave turns (list_add_steps 10 30, list_del_steps 20) one_event)
      (λ ps t. (t.next 10 ≡ 10) × (t.prev 10 ≡ 30))
unfolding interleave
torn = (refl, refl)

interleave-Between_example :
    Ensures (interleave turns (list_add_steps 10 30, list_del_steps 20) one_event) (λ ps t.
      (ps.0 ≡ done)
      × (ps.1 ≡ done)
      × LinksTo t 30 10
      × HeadNext 30 20 10 one_event t
      × HeadPrev 30 20 10 one_event t
      × (t.next 20 ≡ list_poison1)
      × (t.prev 20 ≡ list_poison2)
      × Between 30 20 10 one_event t)
interleave-Between_example =
    interleave-Between 30 20 10 one_event refl refl refl (ground arith) (ground arith)
      (ground arith) refl (record { next = refl; prev = refl }) turns (omega arith) (omega arith)
