-- ===== src/Tests/Counter.antt =====
-- The budget counter on one envelope: src/routeweiler/budgets/_draw.py and _reaper.py.
use routeweiler_python_sdk.Prelude.{◌≡◌, refl, some, true, arith, find?}
use routeweiler_python_sdk.Prelude.Int.{pos, ◌+ℤ◌, ◌-ℤ◌, ◌≤ℤ◌, int_laws}
use routeweiler_python_sdk.Budgets.Errors.{ok, err, budget_exceeded}
use routeweiler_python_sdk.Budgets.Receipts.{issue, verify_against_envelope}
use routeweiler_python_sdk.Budgets.Keystore.{load}
use routeweiler_python_sdk.Budgets.Draw.{
  has_id, new_draw, reserved_sum, settled_sum, draw_sync, reserve, finish, roll_back, confirm_sync,
  reap_sync, unsigned,
}
use routeweiler_python_sdk.Budgets.Draw.Sums.{committed}
use routeweiler_python_sdk.Budgets.Draw.Cases.{with_draw}
use routeweiler_python_sdk.Budgets.Draw.Cap.{draw_sync-le-cap, draw_sync_exceeds}
use routeweiler_python_sdk.Budgets.Draw.Replay.{draw_sync_again}
use routeweiler_python_sdk.Budgets.Draw.Lifecycle.{reap_sync_lem}
use routeweiler_python_sdk.Budgets.Draw.Sound.{Sound}
use routeweiler_python_sdk.Budgets.Draw.Runs.{Run, start, and_then, confirm, reap, Run-Sound}
use routeweiler_python_sdk.Tests.{
  ed, envelope, files, request, large, empty, row, one_draw, one_rolled_back,
}

draw_sync-empty :
    (draw_sync ed true files 5 "draw" request empty).0
    ≡ ok (issue ed "private" (unsigned envelope row))
unfolding draw_sync reserve finish load verify_against_envelope issue ◌-ℤ◌ ◌+ℤ◌ reserved_sum
    settled_sum
draw_sync-empty = refl

draw_sync-le-cap_example :
    ((draw_sync ed true files 5 "draw" request empty).1
      ≡ with_draw (new_draw 5 "draw" request) empty)
    × (reserved_sum "env" (draw_sync ed true files 5 "draw" request empty).1
          +ℤ settled_sum "env" (draw_sync ed true files 5 "draw" request empty).1
        ≤ℤ pos 100)
draw_sync-le-cap_example =
    draw_sync-le-cap ed true files 5 "draw" request envelope empty refl refl draw_sync-empty

empty-over : ¬ (reserved_sum "env" empty +ℤ settled_sum "env" empty +ℤ pos 120 ≤ℤ pos 100)
unfolding reserved_sum settled_sum ◌+ℤ◌
empty-over = omega arith

draw_sync_exceeds_example : draw_sync ed true files 5 "draw" large empty ≡ (
  err (
      budget_exceeded "env"
        (pos 120)
        (pos 100 -ℤ reserved_sum "env" empty -ℤ settled_sum "env" empty)),
  empty,
)
draw_sync_exceeds_example =
    draw_sync_exceeds ed true files 5 "draw" large envelope empty refl refl (omega arith) refl
      empty-over

draw_sync_again_example :
    draw_sync ed true files 9 "other" large (draw_sync ed true files 5 "draw" request empty).1 ≡ (
      ok (issue ed "private" (unsigned envelope row)),
      (draw_sync ed true files 5 "draw" request empty).1,
    )
draw_sync_again_example =
    draw_sync_again ed true files 5 9 "draw" "other" request large envelope empty refl refl
      (omega arith) refl refl draw_sync-empty

reap_sync_lem_example :
    (find? (has_id "draw") (reap_sync 100_000_000 one_draw).1.draws ≡ some (roll_back row))
    × ((reap_sync 100_000_000 (reap_sync 100_000_000 one_draw).1).0 ≡ 0)
reap_sync_lem_example = reap_sync_lem 100_000_000 "draw" row one_draw refl

one_draw-Sound : Sound envelope one_draw
unfolding committed
one_draw-Sound = record {
  found = refl;
  distinct = (refl, tt);
  nonneg = (omega arith, tt);
  within = omega int_laws;
}

-- The row is confirmed, and the reaper runs.
confirmed_and_reaped :
    Run ed true files one_draw (reap_sync 100_000_000 (confirm_sync 7 "draw" (pos 40) one_draw).1).1
confirmed_and_reaped =
    and_then (and_then start (confirm 7 "draw" row one_draw refl refl))
      (reap 100_000_000 (confirm_sync 7 "draw" (pos 40) one_draw).1)

Run-Sound_example :
    Sound envelope (reap_sync 100_000_000 (confirm_sync 7 "draw" (pos 40) one_draw).1).1
    × (reserved_sum "env" (reap_sync 100_000_000 (confirm_sync 7 "draw" (pos 40) one_draw).1).1
          +ℤ settled_sum "env" (reap_sync 100_000_000 (confirm_sync 7 "draw" (pos 40) one_draw).1).1
        ≤ℤ pos 100)
Run-Sound_example = Run-Sound envelope one_draw-Sound confirmed_and_reaped

one_rolled_back-Sound : Sound envelope one_rolled_back
unfolding committed
one_rolled_back-Sound = record {
  found = refl;
  distinct = (refl, tt);
  nonneg = (omega arith, tt);
  within = omega int_laws;
}
