-- ===== src/Gpu/Ownership.antt =====
-- protocol/gpu_transport.cpp: what becomes of the file descriptors that a client passes.
use axrb.Common.{
  ℕ, ◌+◌, ◌≡◌, ◌≢◌, refl, sym, ap, ◌∙◌, u32, true, false, List, [], ◌∷◌, ◌++◌, append_assoc,
  append-nil, take, arith, Bool-cases, ◌⊎◌, inl, inr,
}
use axrb.Gpu.Server.{
  Message, GpuFrame, recv_descriptor_with_fds, continues, then_served, serve_messages,
  descriptor_size,
}

abbrev pub passed : List Message → List ℕ
passed [] = []
passed (m ∷ ms) = m.rights ++ passed ms

abbrev pub delivered_fds : List GpuFrame → List ℕ
delivered_fds [] = []
delivered_fds (frame ∷ frames) = frame.1 ++ delivered_fds frames

-- A message of which `recvmsg` fails, or which ends the stream or is short, passes no file descriptors.
abbrev pub IsRegular : Message → Type 0
IsRegular m = (m.rights ≡ []) ⊎ ((m.received ≡ descriptor_size) × (m.failed ≡ false))

abbrev pub AllRegular : List Message → Type 0
AllRegular [] = Unit {0}
AllRegular (m ∷ ms) = IsRegular m × AllRegular ms

recv-rights : (m : Message) → IsRegular m → (recv_descriptor_with_fds m).1 ≡ m.rights
unfolding recv_descriptor_with_fds
recv-rights m (inl none_) = ground arith
recv-rights m (inr (whole, fine)) = ground arith

-- Every file descriptor that comes with the messages that the server reads from a client is handed to
-- the callback or closed, once and in order, where only whole messages pass any.
pub fds_accounted :
    (max_frames frames : ℕ) (messages : List Message)
    → AllRegular messages
    → passed (take (serve_messages max_frames frames messages).consumed messages)
      ≡ delivered_fds (serve_messages max_frames frames messages).delivered
        ++ (serve_messages max_frames frames messages).closed
unfolding serve_messages then_served
fds_accounted max_frames frames [] r = refl
fds_accounted max_frames frames (m ∷ ms) r =
    let owned = recv-rights m r.0 in
    elim (Bool-cases (continues max_frames frames)) [
      | inr stop ↦ rw stop refl
      | inl more ↦ elim (Bool-cases (recv_descriptor_with_fds m).0) [
        | inr refused ↦ rw (more, refused, owned, append-nil) refl
        | inl good ↦
            rw (more, good, owned)
              (ap (λ fds. m.rights ++ fds) (fds_accounted max_frames (u32 (frames + 1)) ms r.1)
                ∙ sym (append_assoc m.rights _ _))
      ]
    ]

recv_short : (m : Message) → m.received ≢ descriptor_size → recv_descriptor_with_fds m ≡ (false, [])
unfolding recv_descriptor_with_fds
recv_short m short = ground arith

-- Messages that are all accepted.
abbrev pub AllGood : List Message → Type 0
AllGood [] = Unit {0}
AllGood (m ∷ ms) = ((recv_descriptor_with_fds m).0 ≡ true) × AllGood ms

good-rights :
    (m : Message)
    → (recv_descriptor_with_fds m).0 ≡ true
    → (recv_descriptor_with_fds m).1 ≡ m.rights
unfolding recv_descriptor_with_fds
good-rights m good = ground arith

unlimited : (frames : ℕ) → continues 0 frames ≡ true
unfolding continues
unlimited frames = refl

-- The flaw: the file descriptors of a message that is not whole are not closed, although `recvmsg` has
-- opened them. Where a client sends messages that are accepted and then one that is not whole, what
-- came in with the messages that a server without a limit reads is what it hands to the callback, what
-- it closes, and the file descriptors of that last message on top.
pub short_message_leaks :
    (frames : ℕ) (messages : List Message) (m : Message) (more : List Message)
    → AllGood messages
    → m.received ≢ descriptor_size
    → let s = serve_messages 0 frames (messages ++ m ∷ more) in
      passed (take s.consumed (messages ++ m ∷ more))
      ≡ (delivered_fds s.delivered ++ s.closed) ++ m.rights
unfolding serve_messages then_served
short_message_leaks frames [] m more good short =
    rw (unlimited frames, recv_short m short) (append-nil m.rights)
short_message_leaks frames (g ∷ gs) m more good short =
    rw (unlimited frames, good.0, good-rights g good.0)
      (ap (λ fds. g.rights ++ fds) (short_message_leaks (u32 (frames + 1)) gs m more good.1 short)
        ∙ sym (append_assoc g.rights _ m.rights)
        ∙ ap (λ fds. fds ++ m.rights) (sym (append_assoc g.rights _ _)))
