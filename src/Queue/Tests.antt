-- ===== src/Queue/Tests.antt =====
-- The bounded queue on concrete input.
use sky_flow.Base.{ℕ, [], ◌∷◌, ◌≡◌, refl, some, arith}
use sky_flow.Queue.{FixedQueue, push, push_all, snapshot_latest_first, pop, latest, back}
use sky_flow.Queue.Laws.{Fits, snapshot-push_all, pop-latest-snapshot}

abbrev three : FixedQueue ℕ
three = record { list = 7 ∷ []; size = 3 }

three-Fits : Fits three
three-Fits = record { positive = omega arith; bounded = omega arith }

snapshot-push_all_example :
    snapshot_latest_first (push_all three (1 ∷ 2 ∷ 3 ∷ 4 ∷ [])) ≡ 4 ∷ 3 ∷ 2 ∷ []
unfolding snapshot_latest_first
snapshot-push_all_example = (snapshot-push_all three (1 ∷ 2 ∷ 3 ∷ 4 ∷ []) three-Fits).0

pop-latest-snapshot_example : (pop (push three 8)).0 ≡ some 7
unfolding snapshot_latest_first push back
pop-latest-snapshot_example = (pop-latest-snapshot (push three 8)).0

latest_test : latest (push_all three (1 ∷ 2 ∷ [])) ≡ some 2
unfolding latest push_all push
latest_test = refl
