-- ===== src/Pose/Examples.antt =====
-- The pose server with a client that goes away, evaluated.
use axrb.Common.{ℕ, ◌≤◌, ◌≡◌, ◌↔◌, refl, Bool, true, false, Option, some, List, [], ◌∷◌, arith}
use axrb.Pose.Server.{
  serve_with_producer, accept_clients, after_client, and_frames, send_frames, and_first, has_more,
}
use axrb.Pose.Order.{produced, poses_in_order}

abbrev number : ℕ → ℕ
number n = n

-- The first client takes two frames and goes away at the third, and the second takes the third.
abbrev two_clients : List (Option (List Bool))
two_clients = some (true ∷ true ∷ false ∷ []) ∷ some (true ∷ []) ∷ []

poses_in_order_example :
    (count : ℕ) × ((serve_with_producer number true 3 two_clients).0 ≡ produced number count 0)
    × (count ≤ 3)
    × (((serve_with_producer number true 3 two_clients).1 ≡ some 0) ↔ (count ≡ 3))
poses_in_order_example = poses_in_order number 3 two_clients (omega arith) (omega arith)

two_clients_served : serve_with_producer number true 3 two_clients ≡ (0 ∷ 1 ∷ 2 ∷ [], some 0)
unfolding serve_with_producer accept_clients after_client and_frames send_frames and_first has_more
two_clients_served = refl
