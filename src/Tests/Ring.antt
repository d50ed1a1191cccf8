-- ===== src/Tests/Ring.antt =====
-- Runs of the ring buffer.
use elara.Prelude.{ℕ, ◌≡◌, [], ◌∷◌}
use elara.RingBuffer.{new, push_all, snapshot}
use elara.RingBuffer.History.{snapshot-push_all}

snapshot-push_all_example :
    snapshot {A = ℕ} (push_all (1 ∷ 2 ∷ 3 ∷ 4 ∷ []) (new 0 3)) ≡ 2 ∷ 3 ∷ 4 ∷ []
snapshot-push_all_example = snapshot-push_all 0 3 (1 ∷ 2 ∷ 3 ∷ 4 ∷ [])
