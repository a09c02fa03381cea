-- ===== src/Pose/Order.antt =====
-- TcpPoseServer of protocol/transport_tcp.cpp: which frames are sent, over all its clients.
use axrb.Common.{
  ℕ, zero, suc, ◌+◌, ◌^◌, ◌≤◌, ◌<◌, ◌≡◌, ◌↔◌, refl, ap, ◌∙◌, u64, Bool, true, false, ◌&&◌, not,
  Option, none, some, List, [], ◌∷◌, ◌++◌, leb, ◌==◌, arith, inl, inr, Bool-cases,
}
use axrb.Pose.Server.{
  ClientEnd, limit_reached, gone, sending, has_more, Sent, and_first, send_frames, ServedPoses,
  and_frames, after_client, accept_clients, serve_with_producer,
}

-- The frames of `n` sequence numbers in a row.
abbrev pub produced : {A : Type 0} → (ℕ → A) → ℕ → ℕ → List A
produced producer zero sequence = []
produced producer (suc n) sequence = producer sequence ∷ produced producer n (sequence + 1)

module _ {A : Type 0} (producer : ℕ → A) where
  produced-append :
      (n m sequence : ℕ)
      → produced producer n sequence ++ produced producer m (sequence + n)
        ≡ produced producer (n + m) sequence
  produced-append zero m sequence =
      ap (λ k. produced producer m k) {y = sequence} (omega arith)
      ∙ ap (λ k. produced producer k sequence) (omega arith)
  produced-append (suc n) m sequence =
      ap (λ fs. producer sequence ∷ fs)
        (ap (λ k. produced producer n (sequence + 1) ++ produced producer m k) (omega arith)
          ∙ produced-append n m (sequence + 1))
      ∙ ap (λ k. produced producer k sequence) {x = suc (n + m)} (omega arith)

  -- One client gets the frames of sequence numbers in a row, up to the limit.
  record InRow (max_frames sequence : ℕ) (sent : Sent producer) : Type 0 where
    count : ℕ
    frames : sent.0 ≡ produced producer count sequence
    next : sent.1 ≡ sequence + count
    below : sent.1 ≤ max_frames
    full : (sent.2 ≡ limit_reached) ↔ (sent.1 ≡ max_frames)

  InRow-nothing :
      (max_frames sequence : ℕ) (outcome : ClientEnd)
      → sequence ≤ max_frames
      → (outcome ≡ limit_reached) ↔ (sequence ≡ max_frames)
      → InRow max_frames sequence ([], sequence, outcome)
  InRow-nothing max_frames sequence outcome h full = record {
    count = 0;
    frames = refl;
    next = omega arith;
    below = h;
    full = full;
  }

  InRow-and_first :
      (max_frames sequence : ℕ) (sent : Sent producer)
      → InRow max_frames (sequence + 1) sent
      → InRow max_frames sequence (and_first producer (producer sequence) sent)
  unfolding and_first
  InRow-and_first max_frames sequence (frames, next, outcome) v = record {
    count = suc v.count;
    frames = ap (λ fs. producer sequence ∷ fs) v.frames;
    next = omega (arith, v.next);
    below = v.below;
    full = v.full;
  }

  send_frames-InRow :
      (max_frames sequence : ℕ) (sends : List Bool)
      → 0 < max_frames
      → max_frames < 2 ^ 64
      → sequence ≤ max_frames
      → InRow max_frames sequence (send_frames producer max_frames sequence sends)
  unfolding send_frames
  send_frames-InRow max_frames sequence [] p b h =
      elim (Bool-cases (has_more max_frames sequence)) [
        | inl more ↦
            rw more (InRow-nothing max_frames sequence _ h (unfold has_more in ground arith))
        | inr stop ↦
            rw stop (InRow-nothing max_frames sequence _ h (unfold has_more in ground arith))
      ]
  send_frames-InRow max_frames sequence (false ∷ sends) p b h =
      elim (Bool-cases (has_more max_frames sequence)) [
        | inl more ↦
            rw more (InRow-nothing max_frames sequence _ h (unfold has_more in ground arith))
        | inr stop ↦
            rw stop (InRow-nothing max_frames sequence _ h (unfold has_more in ground arith))
      ]
  send_frames-InRow max_frames sequence (true ∷ sends) p b h =
      elim (Bool-cases (has_more max_frames sequence)) [
        | inl more ↦
            let low : sequence < max_frames = unfold has_more in ground arith in
            let step : u64 (sequence + 1) ≡ sequence + 1 = omega arith in
            rw (more, step)
              (InRow-and_first max_frames sequence _
                (send_frames-InRow max_frames (sequence + 1) sends p b (omega arith)))
        | inr stop ↦
            rw stop (InRow-nothing max_frames sequence _ h (unfold has_more in ground arith))
      ]

  -- All clients together, from the sequence number on.
  record AllInRow (max_frames sequence : ℕ) (served : ServedPoses producer) : Type 0 where
    count : ℕ
    frames : served.0 ≡ produced producer count sequence
    below : sequence + count ≤ max_frames
    full : (served.1 ≡ some 0) ↔ (sequence + count ≡ max_frames)

  AllInRow-nothing :
      (max_frames sequence : ℕ) (exit : Option ℕ)
      → sequence ≤ max_frames
      → (exit ≡ some 0) ↔ (sequence ≡ max_frames)
      → AllInRow max_frames sequence ([], exit)
  AllInRow-nothing max_frames sequence exit h full = record {
    count = 0;
    frames = refl;
    below = omega arith;
    full = (λ e. omega (arith, full.0 e), λ e. full.1 (omega arith));
  }

  AllInRow-and_frames :
      (max_frames sequence : ℕ) (sent : Sent producer) (next : ServedPoses producer)
      → InRow max_frames sequence sent
      → AllInRow max_frames sent.1 next
      → AllInRow max_frames sequence (and_frames producer sent.0 next)
  unfolding and_frames
  AllInRow-and_frames max_frames sequence (frames, middle, outcome) (more, exit) v w = record {
    count = v.count + w.count;
    frames =
        ap (λ fs. fs ++ more) v.frames
        ∙ ap (λ fs. produced producer v.count sequence ++ fs)
            (w.frames ∙ ap (λ k. produced producer w.count k) v.next)
        ∙ produced-append v.count w.count sequence;
    below = omega (arith, w.below, v.next);
    full = (λ e. omega (arith, w.full.0 e, v.next), λ e. w.full.1 (omega (arith, v.next)));
  }

  -- A client that is the last.
  AllInRow-last :
      (max_frames sequence : ℕ) (sent : Sent producer) (exit : Option ℕ)
      → InRow max_frames sequence sent
      → (exit ≡ some 0) ↔ (sent.1 ≡ max_frames)
      → AllInRow max_frames sequence (sent.0, exit)
  AllInRow-last max_frames sequence sent exit v full = record {
    count = v.count;
    frames = v.frames;
    below = omega (arith, v.below, v.next);
    full = (λ e. omega (arith, full.0 e, v.next), λ e. full.1 (omega (arith, v.next)));
  }

  after_client-AllInRow :
      (max_frames sequence : ℕ) (sent : Sent producer) (next : ServedPoses producer)
      → 0 < max_frames
      → InRow max_frames sequence sent
      → AllInRow max_frames sent.1 next
      → AllInRow max_frames sequence (after_client producer max_frames sent next)
  unfolding after_client
  after_client-AllInRow max_frames sequence (frames, middle, sending) next p v w =
      AllInRow-last max_frames sequence (frames, middle, sending) none v
        (λ e. absurd (cc e), λ e. absurd (cc (v.full.1 e)))
  after_client-AllInRow max_frames sequence (frames, middle, limit_reached) next p v w =
      let done : (not (max_frames == 0) && leb max_frames middle) ≡ true = ground (arith, v.full) in
      rw done (
        AllInRow-last max_frames sequence (frames, middle, limit_reached) (some 0) v
          (λ e. v.full.0 refl, λ e. refl))
  after_client-AllInRow max_frames sequence (frames, middle, gone) next p v w =
      let open_ : (not (max_frames == 0) && leb max_frames middle) ≡ false =
        ground (arith, v.full, v.below) in
      rw open_ (AllInRow-and_frames max_frames sequence (frames, middle, gone) next v w)

  accept_clients-AllInRow :
      (max_frames sequence : ℕ) (clients : List (Option (List Bool)))
      → 0 < max_frames
      → max_frames < 2 ^ 64
      → sequence ≤ max_frames
      → AllInRow max_frames sequence (accept_clients producer max_frames sequence clients)
  unfolding accept_clients
  accept_clients-AllInRow max_frames sequence [] p b h =
      elim (Bool-cases (has_more max_frames sequence)) [
        | inl more ↦
            rw more (AllInRow-nothing max_frames sequence _ h (unfold has_more in ground arith))
        | inr stop ↦
            rw stop (AllInRow-nothing max_frames sequence _ h (unfold has_more in ground arith))
      ]
  accept_clients-AllInRow max_frames sequence (none ∷ clients) p b h =
      elim (Bool-cases (has_more max_frames sequence)) [
        | inl more ↦
            rw more (AllInRow-nothing max_frames sequence _ h (unfold has_more in ground arith))
        | inr stop ↦
            rw stop (AllInRow-nothing max_frames sequence _ h (unfold has_more in ground arith))
      ]
  accept_clients-AllInRow max_frames sequence (some sends ∷ clients) p b h =
      let v = send_frames-InRow max_frames sequence sends p b h in
      elim (Bool-cases (has_more max_frames sequence)) [
        | inl more ↦ rw more (
            after_client-AllInRow max_frames sequence _ _ p v (
              accept_clients-AllInRow max_frames (send_frames producer max_frames sequence sends).1
                clients p b v.below))
        | inr stop ↦
            rw stop (AllInRow-nothing max_frames sequence _ h (unfold has_more in ground arith))
      ]

-- A server with a limit sends over all its clients the frames of the sequence numbers from 0 on, each
-- once and in order, at most as many as the limit, whichever clients go away; it returns 0 exactly when
-- it has sent that many.
pub poses_in_order :
    {A : Type 0} (producer : ℕ → A) (max_frames : ℕ) (clients : List (Option (List Bool)))
    → 0 < max_frames
    → max_frames < 2 ^ 64
    → (count : ℕ) × ((serve_with_producer producer true max_frames clients).0
        ≡ produced producer count 0)
      × (count ≤ max_frames)
      × (((serve_with_producer producer true max_frames clients).1 ≡ some 0) ↔ (count ≡ max_frames))
unfolding serve_with_producer
poses_in_order producer max_frames clients p b =
    let v = accept_clients-AllInRow producer max_frames 0 clients p b (omega arith) in
    (
      v.count,
      v.frames,
      omega (arith, v.below),
      (λ e. omega (arith, v.full.0 e), λ e. v.full.1 (omega arith)),
    )
