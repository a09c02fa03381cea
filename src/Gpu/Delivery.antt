-- ===== src/Gpu/Delivery.antt =====
-- protocol/gpu_transport.cpp: which frames the server hands on, and that what a sender sends arrives.
use axrb.Common.{
  ℕ, zero, suc, ◌+◌, ◌-◌, ◌≤◌, ◌<◌, ◌^◌, ◌≡◌, refl, sym, ap, ◌∙◌, u32, true, false, not, ◌&&◌,
  Option, none, some, List, [], ◌∷◌, ◌++◌, map, length, length-append, take, leb, ◌==◌,
  if◌then◌else◌, arith, Bool-cases, inl, inr,
}
use axrb.Gpu.Server.{
  GpuFrameDescriptor, Message, GpuFrame, recv_descriptor_with_fds, continues, then_served,
  serve_messages, descriptor_size, validate_descriptor,
}
use axrb.Gpu.Service.{
  GpuClient, after_gpu_client, accept_gpu_clients, ListenAnswers, GpuSent, bad_path, serve_end,
  serve_gpu, send_gpu_frame_descriptor,
}

-- The frames of a client up to the first message that is refused.
abbrev pub good_frames : List Message → List GpuFrame
good_frames [] = []
good_frames (m ∷ ms) =
    let rest = good_frames ms in
    if (recv_descriptor_with_fds m).0
    then (m.descriptor, (recv_descriptor_with_fds m).1) ∷ rest
    else []

abbrev pub offered : List GpuClient → List GpuFrame
offered [] = []
offered (none ∷ clients) = offered clients
offered (some (client_fd, messages) ∷ clients) = good_frames messages ++ offered clients

take-nil {ℓ} : {A : Type ℓ} (n : ℕ) → take {A = A} n [] ≡ []
take-nil zero = refl
take-nil (suc n) = refl

take-append {ℓ} :
    {A : Type ℓ} (n : ℕ) (xs ys : List A) → take n (xs ++ ys) ≡ take n xs ++ take (n - length xs) ys
take-append {A = A} n [] ys =
    let whole : n - 0 ≡ n = omega arith in rw (take-nil {A = A} n, whole) refl
take-append zero (x ∷ xs) ys =
    let none_left : 0 - suc (length xs) ≡ 0 = omega arith in rw none_left refl
take-append (suc n) (x ∷ xs) ys =
    let less : suc n - suc (length xs) ≡ n - length xs = omega arith in
    rw less (ap (λ zs. x ∷ zs) (take-append n xs ys))

enough-append :
    (n : ℕ) (xs ys : List GpuFrame) → leb (n - length xs) (length ys) ≡ leb n (length (xs ++ ys))
enough-append n xs ys = ground (arith, length-append xs ys)

continues_zero :
    (max_frames frames : ℕ)
    → 0 < max_frames
    → max_frames ≤ frames
    → continues max_frames frames ≡ false
unfolding continues
continues_zero max_frames frames limit h = ground arith

continues_suc : (max_frames frames : ℕ) → frames < max_frames → continues max_frames frames ≡ true
unfolding continues
continues_suc max_frames frames h = ground arith

module _ (max_frames : ℕ) (limit : 0 < max_frames) (word : max_frames < 2 ^ 32) where
  -- `left` frames are left of the limit.
  messages_limited :
      (left frames : ℕ) (messages : List Message)
      → frames + left ≡ max_frames
      → ((serve_messages max_frames frames messages).delivered ≡ take left (good_frames messages))
        × ((serve_messages max_frames frames messages).frames
              + (left - length (good_frames messages))
            ≡ max_frames)
  unfolding serve_messages then_served
  messages_limited left frames [] e = (sym (take-nil left), omega arith)
  messages_limited zero frames (m ∷ ms) e =
      rw (continues_zero max_frames frames limit (omega arith)) (refl, omega arith)
  messages_limited (suc left) frames (m ∷ ms) e =
      let more = continues_suc max_frames frames (omega arith) in
      elim (Bool-cases (recv_descriptor_with_fds m).0) [
        | inr bad ↦ rw (more, bad) (refl, omega arith)
        | inl good ↦
            let below : u32 (frames + 1) ≡ frames + 1 = omega arith in
            let rest = messages_limited left (frames + 1) ms (omega arith) in
            rw (more, good, below)
              (
                ap (λ fs. (m.descriptor, (recv_descriptor_with_fds m).1) ∷ fs) rest.0,
                omega (arith, rest.1),
              )
      ]

  clients_limited :
      (left frames : ℕ) (clients : List GpuClient)
      → frames + left ≡ max_frames
      → ((accept_gpu_clients max_frames frames clients).delivered ≡ take left (offered clients))
        × ((accept_gpu_clients max_frames frames clients).ended
            ≡ leb left (length (offered clients)))
  unfolding accept_gpu_clients after_gpu_client
  clients_limited zero frames [] e =
      rw (continues_zero max_frames frames limit (omega arith)) (refl, refl)
  clients_limited (suc left) frames [] e =
      rw (continues_suc max_frames frames (omega arith)) (refl, ground arith)
  clients_limited zero frames (none ∷ clients) e =
      rw (continues_zero max_frames frames limit (omega arith)) (refl, ground arith)
  clients_limited (suc left) frames (none ∷ clients) e =
      rw (continues_suc max_frames frames (omega arith))
        (clients_limited (suc left) frames clients e)
  clients_limited zero frames (some (client_fd, messages) ∷ clients) e =
      rw (continues_zero max_frames frames limit (omega arith)) (refl, ground arith)
  clients_limited (suc left) frames (some (client_fd, messages) ∷ clients) e =
      let first = messages_limited (suc left) frames messages e in
      let rest =
        clients_limited (suc left - length (good_frames messages))
          (serve_messages max_frames frames messages).frames clients first.1 in
      rw (continues_suc max_frames frames (omega arith)) (
        rw (first.0, rest.0)
            (sym (take-append (suc left) (good_frames messages) (offered clients))),
        rest.1 ∙ enough-append (suc left) (good_frames messages) (offered clients),
      )

messages_unlimited :
    (frames : ℕ) (messages : List Message)
    → (serve_messages 0 frames messages).delivered ≡ good_frames messages
unfolding serve_messages then_served continues
messages_unlimited frames [] = refl
messages_unlimited frames (m ∷ ms) = elim (Bool-cases (recv_descriptor_with_fds m).0) [
  | inl good ↦ rw good (
      ap (λ fs. (m.descriptor, (recv_descriptor_with_fds m).1) ∷ fs)
        (messages_unlimited (u32 (frames + 1)) ms))
  | inr bad ↦ rw bad refl
]

clients_unlimited :
    (frames : ℕ) (clients : List GpuClient)
    → ((accept_gpu_clients 0 frames clients).delivered ≡ offered clients)
      × ((accept_gpu_clients 0 frames clients).ended ≡ false)
unfolding accept_gpu_clients after_gpu_client continues
clients_unlimited frames [] = (refl, refl)
clients_unlimited frames (none ∷ clients) = clients_unlimited frames clients
clients_unlimited frames (some (client_fd, messages) ∷ clients) =
    let rest = clients_unlimited (serve_messages 0 frames messages).frames clients in
    rw (messages_unlimited frames messages, rest.0) (refl, rest.1)

abbrev pub ready : ℕ → ListenAnswers
ready server_fd = record { server_fd = some server_fd; bound = true; listens = true }

-- What the limit lets through: 0 is no limit.
abbrev pub within : ℕ → List GpuFrame → List GpuFrame
within max_frames frames = if max_frames == 0 then frames else take max_frames frames

-- With a path that can be bound and listened on, the server hands the frames of its clients to the
-- callback in the order in which they come, those of each client up to the first message that is
-- refused, and as many as the limit. It returns, with code 0, exactly when there is a limit and it is
-- reached, and waits otherwise; a client that is refused ends no other.
pub serve_gpu_lem :
    (path : List ℕ) (max_frames server_fd : ℕ) (clients : List GpuClient)
    → bad_path (some path) ≡ false
    → max_frames < 2 ^ 32
    → let out = serve_gpu (some path) max_frames (ready server_fd) clients in
      (out.delivered ≡ within max_frames (offered clients))
      × (out.exit ≡ (
          if not (max_frames == 0) && leb max_frames (length (offered clients))
          then some 0
          else none))
unfolding serve_gpu serve_end
serve_gpu_lem path zero server_fd clients fine word =
    let all = clients_unlimited 0 clients in rw (fine, all.1) (all.0, refl)
serve_gpu_lem path (suc n) server_fd clients fine word =
    let served = clients_limited (suc n) (omega arith) word (suc n) 0 clients (omega arith) in
    let bounded : (suc n == 0) ≡ false = ground arith in
    rw (fine, bounded)
      (elim (Bool-cases (leb (suc n) (length (offered clients)))) [
        | inl enough ↦ rw (served.1, enough) (served.0, refl)
        | inr short ↦ rw (served.1, short) (served.0, refl)
      ])

-- One call of the sender, and the socket and the file descriptors that the server gets for it.
pub record Sending : Type 0 where
  pub descriptor : GpuFrameDescriptor
  pub fds : List ℕ
  pub socket_fd : ℕ
  pub client_fd : ℕ
  pub installed : List ℕ

abbrev pub sent_ok : List ℕ → Sending → GpuSent
sent_ok path s =
    send_gpu_frame_descriptor (some path) s.descriptor (some s.fds) s.descriptor.fd_count
      (record { socket_fd = some s.socket_fd; connected = true; sent = descriptor_size })

-- The kernel passes a message on whole, and opens as many file descriptors as it was given.
abbrev pub as_client : Sending → Option GpuFrame → GpuClient
as_client s none = some (s.client_fd, [])
as_client s (some (descriptor, fds)) = some (
  s.client_fd,
  record {
    failed = false;
    received = descriptor_size;
    descriptor = descriptor;
    rights = take (length fds) s.installed;
  }
      ∷ [],
)

-- What is sent passes the server's checks.
pub record IsWellFormed (s : Sending) : Type 0 where
  pub valid : validate_descriptor s.descriptor s.descriptor.fd_count ≡ true
  pub as_many : length s.fds ≡ s.descriptor.fd_count
  pub opened : length s.installed ≡ s.descriptor.fd_count

abbrev pub AllWellFormed : List Sending → Type 0
AllWellFormed [] = Unit {0}
AllWellFormed (s ∷ ss) = IsWellFormed s × AllWellFormed ss

take-length {ℓ} : {A : Type ℓ} (n : ℕ) (xs : List A) → length xs ≡ n → take n xs ≡ xs
take-length zero [] e = refl
take-length zero (x ∷ xs) e = absurd (omega arith)
take-length (suc n) [] e = refl
take-length (suc n) (x ∷ xs) e = ap (λ ys. x ∷ ys) (take-length n xs (omega arith))

valid_count :
    (d : GpuFrameDescriptor)
    → validate_descriptor d d.fd_count ≡ true
    → (0 < d.fd_count) × (d.fd_count ≤ 4)
unfolding validate_descriptor
valid_count d h = ground arith

sent_whole :
    (path : List ℕ) (s : Sending)
    → bad_path (some path) ≡ false
    → IsWellFormed s
    → sent_ok path s ≡ (true, some (s.descriptor, s.fds), s.socket_fd ∷ [])
unfolding send_gpu_frame_descriptor bad_path
sent_whole path s fine ok =
    let count = valid_count s.descriptor ok.valid in
    rw (take-length s.descriptor.fd_count s.fds ok.as_many) (ground arith)

received_whole :
    (path : List ℕ) (s : Sending) (clients : List GpuClient)
    → bad_path (some path) ≡ false
    → IsWellFormed s
    → offered (as_client s (sent_ok path s).1 ∷ clients)
      ≡ (s.descriptor, s.installed) ∷ offered clients
unfolding recv_descriptor_with_fds
received_whole path s clients fine ok =
    let count = valid_count s.descriptor ok.valid in
    let all_opened = take-length (length s.fds) s.installed (ok.opened ∙ sym ok.as_many) in
    let counted : u32 (length s.installed) ≡ s.descriptor.fd_count = omega (arith, ok.opened) in
    rw (sent_whole path s fine ok, all_opened, counted, ok.valid) refl

all_offered :
    (path : List ℕ) (sends : List Sending)
    → bad_path (some path) ≡ false
    → AllWellFormed sends
    → offered (map (λ s. as_client s (sent_ok path s).1) sends)
      ≡ map (λ s. (s.descriptor, s.installed)) sends
all_offered path [] fine ok = refl
all_offered path (s ∷ ss) fine ok =
    received_whole path s (map (λ s. as_client s (sent_ok path s).1) ss) fine ok.0
    ∙ ap (λ fs. (s.descriptor, s.installed) ∷ fs) (all_offered path ss fine ok.1)

-- A server without a limit, on a path that the server and the senders share, hands every frame that
-- passes the checks and is sent by a call of its own to the callback, once and in order: the descriptor
-- as it was sent, with the file descriptors that the kernel opened for those of the sender, where the
-- sender's count is the descriptor's.
pub sends_served :
    (path : List ℕ) (server_fd : ℕ) (sends : List Sending)
    → bad_path (some path) ≡ false
    → AllWellFormed sends
    → (serve_gpu
        (some path)
        0
        (ready server_fd)
        (map (λ s. as_client s (sent_ok path s).1) sends)).delivered
      ≡ map (λ s. (s.descriptor, s.installed)) sends
sends_served path server_fd sends fine ok =
    (serve_gpu_lem path 0 server_fd (map (λ s. as_client s (sent_ok path s).1) sends) fine
      (omega arith)).0
    ∙ all_offered path sends fine ok
