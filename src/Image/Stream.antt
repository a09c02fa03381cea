-- ===== src/Image/Stream.antt =====
-- recv_all of protocol/image_transport.cpp on a connection. A connection is the fragments that wait,
-- each of which `recv` gives in one call, or in part where fewer bytes are asked for; when none
-- is left, or an empty one comes, `recv` returns 0 or less.
use axrb.Common.{
  ℕ, zero, suc, ◌-◌, Option, none, some, List, [], ◌∷◌, ◌++◌, length, take, drop, leb,
  if◌then◌else◌,
}

abbrev pub Connection : Type 0
Connection = List (List ℕ)

abbrev pub Received : Type 0
Received = Option (List ℕ × Connection)

unfoldable pub before_rest : List ℕ → Received → Received
before_rest first none = none
before_rest first (some (bytes, rest)) = some (first ++ bytes, rest)

-- `none` is the return of false.
unfoldable pub recv_all : ℕ → Connection → Received
unfolding before_rest
recv_all zero connection = some ([], connection)
recv_all (suc n) [] = none
recv_all (suc n) ([] ∷ connection) = none
recv_all (suc n) ((b ∷ bs) ∷ connection) =
    let fragment = b ∷ bs in
    let whole = before_rest fragment (recv_all (suc n - length fragment) connection) in
    if leb (length fragment) (suc n)
    then whole
    else some (take (suc n) fragment, drop (suc n) fragment ∷ connection)

-- All the bytes that wait.
abbrev pub bytes_of : Connection → List ℕ
bytes_of [] = []
bytes_of (fragment ∷ connection) = fragment ++ bytes_of connection
