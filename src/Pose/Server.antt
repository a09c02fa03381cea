-- ===== src/Pose/Server.antt =====
-- TcpPoseServer::serve_with_producer of protocol/transport_tcp.cpp. A run is the list of what `accept`
-- gives: a client, or `none` where it fails. A client is what `send_all` answers, frame by frame.
use axrb.Common.{
  ℕ, ◌+◌, u64, Bool, ◌&&◌, ◌||◌, not, Option, none, some, List, [], ◌∷◌, ◌++◌, ltb, leb, ◌==◌,
  if◌then◌else◌,
}

-- How the loop over one client ends: with the limit reached, with the client gone, or not yet.
pub data ClientEnd : Type 0 where
  limit_reached gone sending : ClientEnd

unfoldable pub has_more : ℕ → ℕ → Bool
has_more max_frames sequence = max_frames == 0 || ltb sequence max_frames

module _ {A : Type 0} (producer : ℕ → A) where
  -- The frames that were sent whole, the next sequence number, and the end.
  abbrev pub Sent : Type 0
  Sent = List A × ℕ × ClientEnd

  unfoldable pub and_first : A → Sent → Sent
  and_first frame (frames, sequence, outcome) = (frame ∷ frames, sequence, outcome)

  -- The inner loop.
  unfoldable pub send_frames : ℕ → ℕ → List Bool → Sent
  unfolding has_more and_first
  send_frames max_frames sequence [] =
      if has_more max_frames sequence
      then ([], sequence, sending)
      else ([], sequence, limit_reached)
  send_frames max_frames sequence (taken ∷ sends) =
      let next =
        and_first (producer sequence) (send_frames max_frames (u64 (sequence + 1)) sends) in
      if not (has_more max_frames sequence)
      then ([], sequence, limit_reached)
      else if not taken
      then ([], sequence, gone)
      else next

  -- The exit code, or `none` where the server still sends or waits for a client.
  abbrev pub ServedPoses : Type 0
  ServedPoses = List A × Option ℕ

  unfoldable pub and_frames : List A → ServedPoses → ServedPoses
  and_frames frames (more, exit) = (frames ++ more, exit)

  -- What follows the inner loop: the test of the limit, and else the next client.
  unfoldable pub after_client : ℕ → Sent → ServedPoses → ServedPoses
  unfolding and_frames
  after_client max_frames (frames, sequence, sending) next = (frames, none)
  after_client max_frames (frames, sequence, outcome) next =
      if not (max_frames == 0) && leb max_frames sequence
      then (frames, some 0)
      else and_frames frames next

  -- The outer loop.
  unfoldable pub accept_clients : ℕ → ℕ → List (Option (List Bool)) → ServedPoses
  unfolding has_more send_frames after_client
  accept_clients max_frames sequence [] =
      if has_more max_frames sequence then ([], none) else ([], some 0)
  accept_clients max_frames sequence (none ∷ clients) =
      if has_more max_frames sequence then ([], some 1) else ([], some 0)
  accept_clients max_frames sequence (some sends ∷ clients) =
      let sent = send_frames max_frames sequence sends in
      let served = after_client max_frames sent (accept_clients max_frames sent.1 clients) in
      if has_more max_frames sequence then served else ([], some 0)

  -- `ready`: the socket library is there, and the socket was made, bound and set to listen.
  unfoldable pub serve_with_producer : Bool → ℕ → List (Option (List Bool)) → ServedPoses
  unfolding accept_clients
  serve_with_producer ready max_frames clients =
      if ready then accept_clients max_frames 0 clients else ([], some 1)
