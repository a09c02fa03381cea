-- ===== src/Gpu/UniqueFd.antt =====
-- UniqueFd of protocol/gpu_transport.cpp, and programs that use several of them. A negative file
-- descriptor is `none`.
use axrb.Common.{
  ℕ, Bool, true, ◌&&◌, Option, none, some, List, [], ◌∷◌, ◌++◌, length, get_or, set, ltb, ◌==◌,
  if◌then◌else◌,
}

abbrev pub UniqueFd : Type 0
UniqueFd = Option ℕ

abbrev pub fd_list : UniqueFd → List ℕ
fd_list none = []
fd_list (some fd) = fd ∷ []

-- What is given to the caller, and what is left.
unfoldable pub release : UniqueFd → Option ℕ × UniqueFd
release this = (this, none)

-- What is left, and what is closed.
unfoldable pub reset : UniqueFd → Option ℕ → UniqueFd × List ℕ
reset this fd = (fd, fd_list this)

-- The variables of a program, what is closed and what was released, and what was ever taken over.
pub record FdState : Type 0 where
  pub variables : List UniqueFd
  pub closed : List ℕ
  pub released : List ℕ
  pub taken : List ℕ

pub data FdCall : Type 0 where
  -- UniqueFd(fd), in a new variable
  constructs : Option ℕ → FdCall
  -- UniqueFd(std::move(i)), in a new variable
  moves : ℕ → FdCall
  -- i = std::move(j)
  assigns : ℕ → ℕ → FdCall
  releases : ℕ → FdCall
  resets : ℕ → Option ℕ → FdCall
  -- The variable goes out of scope.
  destroys : ℕ → FdCall

-- `variables[i].reset(fd)`
unfoldable pub reset_at : ℕ → Option ℕ → FdState → FdState
unfolding reset
reset_at i fd s =
    let (left, gone) = reset (get_or s.variables i none) fd in
    record s { variables = set s.variables i left; closed = s.closed ++ gone }

-- `variables[i].release()`, of which the caller keeps the result.
unfoldable pub release_at : ℕ → FdState → Option ℕ × FdState
unfolding release
release_at i s =
    let (fd, left) = release (get_or s.variables i none) in
    (fd, record s { variables = set s.variables i left })

-- Whether the variables that a call names are among the first `n`.
unfoldable pub in_scope : FdCall → ℕ → Bool
in_scope (constructs fd) n = true
in_scope (moves i) n = ltb i n
in_scope (assigns i j) n = ltb i n && ltb j n
in_scope (releases i) n = ltb i n
in_scope (resets i fd) n = ltb i n
in_scope (destroys i) n = ltb i n

unfoldable pub fd_call : FdState → FdCall → FdState
unfolding reset_at release_at
fd_call s (constructs fd) = record s {
  variables = s.variables ++ fd ∷ [];
  taken = s.taken ++ fd_list fd;
}
fd_call s (moves i) =
    let (fd, after) = release_at i s in record after { variables = after.variables ++ fd ∷ [] }
fd_call s (assigns i j) =
    let (fd, after) = release_at j s in if i == j then s else reset_at i fd after
fd_call s (releases i) =
    let (fd, after) = release_at i s in record after { released = after.released ++ fd_list fd }
fd_call s (resets i fd) = reset_at i fd (record s { taken = s.taken ++ fd_list fd })
fd_call s (destroys i) = reset_at i none s

-- A call that names a variable that is not there is no call of a program.
unfoldable pub fd_step : FdState → FdCall → FdState
unfolding in_scope fd_call
fd_step s c = if in_scope c (length s.variables) then fd_call s c else s

unfoldable pub fd_run : FdState → List FdCall → FdState
unfolding fd_step
fd_run s [] = s
fd_run s (c ∷ cs) = fd_run (fd_step s c) cs

abbrev pub no_fds : FdState
no_fds = record { variables = []; closed = []; released = []; taken = [] }
