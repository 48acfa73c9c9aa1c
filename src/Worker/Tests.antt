-- ===== src/Worker/Tests.antt =====
-- The creation of the threads of user/core/gt_worker.c on a kernel that allows every call, and their
-- numbers.
use guitar_tea.Common.{◌≡◌, refl, true, none, [], ◌∷◌, ◌+◌}
use guitar_tea.Common.Int.{gt_ok, gt_error}
use guitar_tea.Os.{Os}
use guitar_tea.Os.Sample.{sample_os, sample_world}
use guitar_tea.Worker.{gt_create_pthread}
use guitar_tea.Worker.Tid.{no_tid, gettid_calls, gettid_calls-map}
use guitar_tea.Worker.Creation.{
  make_calls, business_calls, MakesCalls, gt_create_pthread-make_calls,
}

abbrev allowing : Os
allowing = sample_os gt_ok gt_error 0 104 700

all_made : (make_calls allowing (business_calls 2000) []).0 ≡ true
unfolding make_calls
all_made = refl

gt_create_pthread-make_calls_example :
    MakesCalls allowing
      (business_calls 2000)
      (sample_world [] none)
      (gt_create_pthread allowing 2000 (sample_world [] none))
gt_create_pthread-make_calls_example =
    gt_create_pthread-make_calls allowing 2000 (sample_world [] none)

-- In the parent, twice, and then in a child.
gettid_calls-map_example :
    gettid_calls (λ pid. pid + 1) (100 ∷ 100 ∷ 200 ∷ []) no_tid ≡ 101 ∷ 101 ∷ 201 ∷ []
gettid_calls-map_example = gettid_calls-map (λ pid. pid + 1) (100 ∷ 100 ∷ 200 ∷ [])
