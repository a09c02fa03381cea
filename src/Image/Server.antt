-- ===== src/Image/Server.antt =====
-- TcpImageServer::serve_with_callback of protocol/image_transport.cpp. A run is the list of what
-- `accept` gives: a connection, or `none` where it fails.
use axrb.Common.{
  ℕ, zero, suc, ◌+◌, u32, Bool, true, false, ◌||◌, Option, none, some, List, [], ◌∷◌, ◌++◌, length,
  ltb, ◌==◌, if◌then◌else◌,
}
use axrb.Image.Header.{ImageFrameHeader, read_image_header, valid_image_header, image_header_size}
use axrb.Image.Stream.{Connection, Received, recv_all, bytes_of}

abbrev pub ImageFrame : Type 0
ImageFrame = ImageFrameHeader × List ℕ

unfoldable pub takes_more : ℕ → ℕ → Bool
takes_more max_frames received_frames = max_frames == 0 || ltb received_frames max_frames

payload_of : ImageFrameHeader → Received → Option (ImageFrame × Connection)
payload_of h none = none
payload_of h (some (payload, rest)) = some ((h, payload), rest)

unfoldable pub after_header : Received → Option (ImageFrame × Connection)
unfolding payload_of
after_header none = none
after_header (some (bytes, rest)) =
    let h = read_image_header bytes in
    elim (valid_image_header h) [
      | true ↦ payload_of h (recv_all h.payload_size rest)
      | false ↦ none
    ]

-- One round of the inner loop: `none` where the client is dropped.
unfoldable pub recv_image : Connection → Option (ImageFrame × Connection)
unfolding after_header
recv_image connection = after_header (recv_all image_header_size connection)

unfoldable pub one_more : ImageFrame → List ImageFrame × ℕ → List ImageFrame × ℕ
one_more frame (frames, count) = (frame ∷ frames, count)

-- The inner loop, with the frames that go to the callback and the count after it. A round takes 64
-- bytes at least, so a round for each byte is enough.
unfoldable pub serve_client : ℕ → ℕ → ℕ → Connection → List ImageFrame × ℕ
unfolding takes_more one_more
serve_client zero max_frames count connection = ([], count)
serve_client (suc fuel) max_frames count connection = elim (takes_more max_frames count) [
  | false ↦ ([], count)
  | true ↦ elim (recv_image connection) [
    | none ↦ ([], count)
    | some (frame, rest) ↦ one_more frame (serve_client fuel max_frames (u32 (count + 1)) rest)
  ]
]

-- The exit code, or `none` where the server waits for another client.
abbrev pub Served : Type 0
Served = List ImageFrame × Option ℕ

before_served : List ImageFrame → Served → Served
before_served frames (more, exit) = (frames ++ more, exit)

-- The outer loop.
unfoldable pub serve_clients : ℕ → ℕ → List (Option Connection) → Served
unfolding takes_more before_served
serve_clients max_frames count [] = if takes_more max_frames count then ([], none) else ([], some 0)
serve_clients max_frames count (none ∷ clients) =
    if takes_more max_frames count then ([], some 1) else ([], some 0)
serve_clients max_frames count (some connection ∷ clients) =
    let (frames, count') =
      serve_client (length (bytes_of connection) + 1) max_frames count connection in
    let served = before_served frames (serve_clients max_frames count' clients) in
    if takes_more max_frames count then served else ([], some 0)

-- `ready`: the socket library is there, and the socket was made, bound and set to listen.
unfoldable pub serve_with_callback : Bool → ℕ → List (Option Connection) → Served
unfolding serve_clients
serve_with_callback ready max_frames clients =
    if ready then serve_clients max_frames 0 clients else ([], some 1)
