-- ===== src/Pose/Client/Schedule.antt =====
-- How often PoseClient of android-runtime/pose_client.cpp tries to connect while nobody answers.
use Prim.Native.String.{String}
use axrb.Common.{
  ℕ, suc, ◌+◌, ◌-◌, ◌/◌, ◌≤◌, ◌≡◌, refl, ◌∙◌, Bool, true, false, not, ◌&&◌, none, List, [], ◌∷◌,
  length, ltb, ltb→lt, if◌then◌else◌, arith, Bool-cases, inl, inr,
}
use axrb.Pose.Client.{
  PoseClient, has_env, BrokerAnswers, query_pose_broker, k_candidate_hosts, connect_first,
  ensure_connected, CallAnswers, HostAnswer, latest_pose_frame,
}

-- The broker gives no pose, and no host can be connected to.
abbrev pub IsUnreachable : CallAnswers → Type 0
IsUnreachable a =
    ((has_env a.broker.env
        && (a.broker.resolver && (a.broker.uri && (a.broker.cursor && a.broker.moved_to_first))))
      ≡ false)
    × (connect_first a.hosts k_candidate_hosts ≡ none)

abbrev pub AllUnreachable : List CallAnswers → Type 0
AllUnreachable [] = Unit {0}
AllUnreachable (a ∷ calls) = IsUnreachable a × AllUnreachable calls

-- Calls one after the other: how often the hosts were tried, whether all calls returned, and the client.
pub poll_poses : List CallAnswers → PoseClient → ℕ × Bool × PoseClient
poll_poses [] c = (0, true, c)
poll_poses (a ∷ calls) c =
    let (returned, tried, c') = latest_pose_frame a c in
    let (tries, all, c'') = poll_poses calls c' in
    ((if tried then suc tries else tries), returned && all, c'')

broker_silent :
    (a : BrokerAnswers) (c : PoseClient)
    → (has_env a.env && (a.resolver && (a.uri && (a.cursor && a.moved_to_first)))) ≡ false
    → let (found, c') = query_pose_broker a c in
      (found ≡ false)
      × (c'.retry_countdown ≡ c.retry_countdown)
      × (c'.socket_open ≡ c.socket_open)
      × (c'.latest ≡ c.latest)
unfolding query_pose_broker
broker_silent a c h = ground arith

no_connection :
    (answer : String → HostAnswer) (c : PoseClient)
    → connect_first answer k_candidate_hosts ≡ none
    → c.socket_open ≡ false
    → let (connected, tried, c') = ensure_connected answer c in
      (connected ≡ false)
      × (tried ≡ not (ltb 0 c.retry_countdown))
      × (c'.retry_countdown ≡ (if ltb 0 c.retry_countdown then c.retry_countdown - 1 else 90))
      × (c'.socket_open ≡ false)
      × (c'.latest ≡ c.latest)
unfolding ensure_connected
no_connection answer c h closed = rw h (ground arith)

unreachable_call :
    (a : CallAnswers) (c : PoseClient)
    → IsUnreachable a
    → c.socket_open ≡ false
    → let (returned, tried, c') = latest_pose_frame a c in
      (returned ≡ true)
      × (tried ≡ not (ltb 0 c.retry_countdown))
      × (c'.retry_countdown ≡ (if ltb 0 c.retry_countdown then c.retry_countdown - 1 else 90))
      × (c'.socket_open ≡ false)
      × (c'.latest ≡ c.latest)
unfolding latest_pose_frame
unreachable_call a c h closed =
    let (silent, retry, open_, kept) = broker_silent a.broker c h.0 in
    let c1 = (query_pose_broker a.broker c).1 in
    let (none_, tried, retry', open', kept') = no_connection a.hosts c1 h.1 (open_ ∙ closed) in
    rw (silent, none_) (refl, rw retry at tried, rw retry at retry', open', kept' ∙ kept)

not_below : (a b : ℕ) → ltb a b ≡ false → b ≤ a
not_below a b h = ground arith

-- From a client without a connection, while the broker gives no pose and no host can be connected to:
-- every call returns and leaves the client the pose that it had, and n calls try the hosts
-- (n + 90 - countdown) / 91 times, rounded down: once in 91 calls.
pub retry_schedule :
    (calls : List CallAnswers) (c : PoseClient)
    → AllUnreachable calls
    → c.socket_open ≡ false
    → c.retry_countdown ≤ 90
    → let (tries, all, c') = poll_poses calls c in
      (tries ≡ (length calls + (90 - c.retry_countdown)) / 91)
      × (all ≡ true)
      × (c'.latest ≡ c.latest)
unfolding poll_poses
retry_schedule [] c h closed low = (omega arith, refl, refl)
retry_schedule (a ∷ calls) c h closed low =
    let (returned, tried, retry, open', kept) = unreachable_call a c h.0 closed in
    let c1 = (latest_pose_frame a c).2 in
    let (tries, all, kept') = retry_schedule calls c1 h.1 open' (ground arith) in
    elim (Bool-cases (ltb 0 c.retry_countdown)) [
      | inl counting ↦
          rw (tried, counting, returned)
            (omega (arith, ltb→lt _ _ counting, tries, rw counting at retry), all, kept' ∙ kept)
      | inr over ↦
          rw (tried, over, returned)
            (omega (arith, tries, rw over at retry, not_below _ _ over), all, kept' ∙ kept)
    ]
