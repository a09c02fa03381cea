-- ===== src/Runtime/Events.antt =====
-- The order of the events that xrPollEvent of android-runtime/session.cpp delivers.
use axrb.Common.{
  ℕ, Bool, ◌≡◌, refl, sym, ap, ◌∙◌, ◌⊎◌, inl, inr, Option, none, some, List, [], ◌∷◌, ◌++◌, arith,
  append_assoc, append-nil, Bool-cases,
}
use axrb.Xr.{
  has_type, Handle, SessionState, Typed, unknown, idle, ready, synchronized, visible, focused,
  stopping, loss_pending, exiting, success,
}
use axrb.Xr.StructureType.{type_event_data_buffer}
use axrb.Runtime.{Runtime, Reply, is_valid_instance, queue_session_state}
use axrb.Runtime.Session.{
  pop_event, SessionCreateInfo, SessionBeginInfo, SessionStateChanged, create_session,
  begin_session, end_session, poll_event,
}
use axrb.Runtime.Calls.{
  AllCalls, Call, creates_instance, creates_session, destroys_session, begins_session, ends_session,
  polls_event, step, run,
}
use axrb.Runtime.Lifecycle.{HasSettled, step-SameSession}

-- The cycle that a session goes through, entered from `unknown`.
abbrev pub next_state : SessionState → SessionState
next_state unknown = idle
next_state idle = ready
next_state ready = synchronized
next_state synchronized = visible
next_state visible = focused
next_state focused = stopping
next_state stopping = idle
next_state loss_pending = exiting
next_state exiting = exiting

-- The events are the successive states of the cycle after `s`, and the last is `t`.
abbrev pub Cycle : SessionState → List SessionState → SessionState → Type 0
Cycle s [] t = s ≡ t
Cycle s (e ∷ es) t = (e ≡ next_state s) × Cycle e es t

Cycle-snoc :
    (s : SessionState) (es : List SessionState) (t u : SessionState)
    → Cycle s es t
    → u ≡ next_state t
    → Cycle s (es ++ u ∷ []) u
Cycle-snoc s [] t u h e = (e ∙ ap next_state (sym h), refl)
Cycle-snoc s (x ∷ es) t u h e = (h.0, Cycle-snoc x es t u h.1 e)

-- What a call of xrPollEvent delivers.
abbrev event_state : Option SessionStateChanged → List SessionState
event_state none = []
event_state (some e) = e.state ∷ []

unfoldable pub delivered : Runtime → Call → List SessionState
delivered r (polls_event instance data_ now) = event_state (poll_event instance data_ now r).1
delivered r _ = []

unfoldable pub all_delivered : Runtime → List Call → List SessionState
unfolding delivered
all_delivered r [] = []
all_delivered r (c ∷ cs) = delivered r c ++ all_delivered (step r c) cs

-- The calls of one session: the client neither makes a session or an instance nor destroys one.
abbrev pub IsWithin : Call → Type 0
IsWithin (creates_instance info out) = ⊥
IsWithin (creates_session instance info out) = ⊥
IsWithin (destroys_session session) = ⊥
IsWithin _ = Unit {0}

-- What was delivered and what waits follow the cycle up to the present state.
record InCycle (seen : List SessionState) (r : Runtime) : Type 0 where
  follows : Cycle unknown (seen ++ r.pending_session_events) r.session_state
  settled : HasSettled r

queue-Cycle :
    (seen : List SessionState) (r : Runtime) (s : SessionState)
    → Cycle unknown (seen ++ r.pending_session_events) r.session_state
    → s ≡ next_state r.session_state
    → Cycle unknown
        (seen ++ (queue_session_state s r).pending_session_events)
        (queue_session_state s r).session_state
unfolding queue_session_state
queue-Cycle seen r s h e =
    rw (← append_assoc seen r.pending_session_events (s ∷ []))
      (Cycle-snoc unknown (seen ++ r.pending_session_events) r.session_state s h e)

begin_session_cases {ℓ} :
    (P : Runtime → Type ℓ) (session : Handle) (info : Option SessionBeginInfo) (r : Runtime)
    → P r
    → (r.session_state ≡ ready
        → P (
            queue_session_state focused
              (queue_session_state visible (queue_session_state synchronized r))))
    → P (begin_session session info r).1
unfolding begin_session
begin_session_cases P session none r refused begun = ground arith
begin_session_cases P session (some info) r refused begun = ground arith

end_session_cases {ℓ} :
    (P : Runtime → Type ℓ) (session : Handle) (r : Runtime)
    → HasSettled r
    → P r
    → (r.session_state ≡ focused
        → P (queue_session_state ready (queue_session_state idle (queue_session_state stopping r))))
    → P (end_session session r).1
unfolding end_session
end_session_cases P session r h refused ended = ground arith

begin-InCycle :
    (seen : List SessionState) (r : Runtime)
    → InCycle seen r
    → r.session_state ≡ ready
    → InCycle seen (
        queue_session_state focused
          (queue_session_state visible (queue_session_state synchronized r)))
begin-InCycle seen r v e = record {
  follows =
      queue-Cycle seen _ focused
        (queue-Cycle seen _ visible (queue-Cycle seen r synchronized v.follows (rw e))
          (unfold queue_session_state in refl))
        (unfold queue_session_state in refl);
  settled = unfold queue_session_state in inr (inr refl);
}

end-InCycle :
    (seen : List SessionState) (r : Runtime)
    → InCycle seen r
    → r.session_state ≡ focused
    → InCycle seen
        (queue_session_state ready (queue_session_state idle (queue_session_state stopping r)))
end-InCycle seen r v e = record {
  follows =
      queue-Cycle seen _ ready
        (queue-Cycle seen _ idle (queue-Cycle seen r stopping v.follows (rw e))
          (unfold queue_session_state in refl))
        (unfold queue_session_state in refl);
  settled = unfold queue_session_state in inr (inl refl);
}

-- A poll takes the oldest event, or takes none.
abbrev pub Polled : Runtime → List SessionState → Reply SessionStateChanged → Type 0
Polled r events reply =
    ((reply.1 ≡ none) × (reply.2 ≡ r))
    ⊎ ((e : SessionStateChanged) × (rest : List SessionState) × (events ≡ e.state ∷ rest)
        × (reply.1 ≡ some e)
        × (reply.2 ≡ record r { pending_session_events = rest }))

pop_event-Polled :
    (events : List SessionState) (now : ℕ) (r : Runtime) → Polled r events (pop_event events now r)
unfolding pop_event
pop_event-Polled [] now r = inl (refl, refl)
pop_event-Polled (s ∷ rest) now r = inr (_, rest, refl, refl, refl)

poll_event-Polled :
    (instance : Handle) (data_ : Typed) (now : ℕ) (r : Runtime)
    → Polled r r.pending_session_events (poll_event instance data_ now r)
unfolding poll_event
poll_event-Polled instance data_ now r = elim (Bool-cases (is_valid_instance instance)) [
  | inr wrong ↦ rw wrong (inl (refl, refl))
  | inl good ↦ elim (Bool-cases (has_type data_ type_event_data_buffer)) [
    | inr wrong ↦ rw (good, wrong) (inl (refl, refl))
    | inl typed ↦ rw (good, typed) (pop_event-Polled r.pending_session_events now r)
  ]
]

pop-InCycle :
    (seen : List SessionState) (instance : Handle) (data_ : Typed) (now : ℕ) (r : Runtime)
    → InCycle seen r
    → InCycle
        (seen ++ event_state (poll_event instance data_ now r).1)
        (poll_event instance data_ now r).2
pop-InCycle seen instance data_ now r v = elim (poll_event-Polled instance data_ now r) [
  | inl (out, same) ↦ rw (out, same, append-nil) v
  | inr (e, rest, events, out, next) ↦
      rw (out, next)
        (record {
          follows = rw (append_assoc seen (e.state ∷ []) rest) (rw events at v.follows);
          settled = v.settled;
        })
]

step-InCycle :
    (seen : List SessionState) (r : Runtime) (c : Call)
    → IsWithin c
    → InCycle seen r
    → InCycle (seen ++ delivered r c) (step r c)
unfolding step delivered
step-InCycle seen r (creates_instance info out) w v = absurd w
step-InCycle seen r (creates_session instance info out) w v = absurd w
step-InCycle seen r (destroys_session session) w v = absurd w
step-InCycle seen r (begins_session session info) w v =
    rw append-nil (begin_session_cases (InCycle seen) session info r v (begin-InCycle seen r v))
step-InCycle seen r (ends_session session) w v =
    rw append-nil (end_session_cases (InCycle seen) session r v.settled v (end-InCycle seen r v))
step-InCycle seen r (polls_event instance data_ now) w v = pop-InCycle seen instance data_ now r v
step-InCycle seen r c w v = rw append-nil (record {
  follows = rw ((step-SameSession r c tt).state, (step-SameSession r c tt).events) v.follows;
  settled = rw (step-SameSession r c tt).state v.settled;
})

run-InCycle :
    (seen : List SessionState) (r : Runtime) (cs : List Call)
    → AllCalls IsWithin cs
    → InCycle seen r
    → InCycle (seen ++ all_delivered r cs) (run r cs)
unfolding all_delivered run
run-InCycle seen r [] w v = rw append-nil v
run-InCycle seen r (c ∷ cs) w v =
    rw (← append_assoc seen (delivered r c) (all_delivered (step r c) cs))
      (run-InCycle (seen ++ delivered r c) (step r c) cs w.1 (step-InCycle seen r c w.0 v))

create_session-InCycle :
    (instance : Handle) (info : Option SessionCreateInfo) (out : Bool) (r : Runtime)
    → (create_session instance info out r).0 ≡ success
    → InCycle [] (create_session instance info out r).2
unfolding create_session
create_session-InCycle instance none out r e = ground arith
create_session-InCycle instance (some info) out r e = ground arith

-- After a successful xrCreateSession and any calls of that session, valid or not: the events that
-- xrPollEvent delivered, in order, followed by those that wait, are the successive states idle,
-- ready, synchronized, visible, focused, stopping, idle and so on, and the last is the current one.
pub session_events_lem :
    (instance : Handle) (info : Option SessionCreateInfo) (out : Bool) (r : Runtime)
    (cs : List Call)
    → (create_session instance info out r).0 ≡ success
    → AllCalls IsWithin cs
    → let r' = (create_session instance info out r).2 in
      Cycle unknown
        (all_delivered r' cs ++ (run r' cs).pending_session_events)
        (run r' cs).session_state
session_events_lem instance info out r cs e w =
    (run-InCycle [] _ cs w (create_session-InCycle instance info out r e)).follows
