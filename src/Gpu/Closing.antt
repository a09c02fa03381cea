-- ===== src/Gpu/Closing.antt =====
-- protocol/gpu_transport.cpp: what a program of UniqueFd variables closes.
use axrb.Common.{
  ℕ, zero, suc, ◌+◌, ◌<◌, ◌≡◌, refl, ap, true, ◌&&◌, Option, none, some, List, [], ◌∷◌, ◌++◌,
  length, get_or, set, ltb, ltb→lt, ◌==◌, if◌then◌else◌, arith, Bool-cases, inl, inr,
}
use axrb.Gpu.UniqueFd.{
  UniqueFd, fd_list, FdState, FdCall, constructs, moves, assigns, releases, resets, destroys,
  release, reset, reset_at, release_at, in_scope, fd_call, fd_step, fd_run, no_fds,
}

abbrev pub count : ℕ → List ℕ → ℕ
count x [] = 0
count x (y ∷ ys) = (if x == y then 1 else 0) + count x ys

-- What the variables hold.
abbrev pub held : List UniqueFd → List ℕ
held [] = []
held (this ∷ rest) = fd_list this ++ held rest

count-append : (x : ℕ) (ys zs : List ℕ) → count x (ys ++ zs) ≡ count x ys + count x zs
count-append x [] zs = omega arith
count-append x (y ∷ ys) zs = omega (arith, count-append x ys zs)

held-append :
    (x : ℕ) (vs : List UniqueFd) (fd : Option ℕ)
    → count x (held (vs ++ fd ∷ [])) ≡ count x (held vs) + count x (fd_list fd)
held-append x [] none = refl
held-append x [] (some fd) = omega arith
held-append x (v ∷ vs) fd = omega (
  arith,
  count-append x (fd_list v) (held (vs ++ fd ∷ [])),
  count-append x (fd_list v) (held vs),
  held-append x vs fd,
)

-- What a variable held goes, and what it is given comes.
held-set :
    (x : ℕ) (vs : List UniqueFd) (i : ℕ) (fd : Option ℕ)
    → i < length vs
    → count x (held (set vs i fd)) + count x (fd_list (get_or vs i none))
      ≡ count x (held vs) + count x (fd_list fd)
held-set x [] i fd h = absurd (omega arith)
held-set x (v ∷ vs) zero fd h =
    omega (arith, count-append x (fd_list v) (held vs), count-append x (fd_list fd) (held vs))
held-set x (v ∷ vs) (suc i) fd h = omega (
  arith,
  count-append x (fd_list v) (held (set vs i fd)),
  count-append x (fd_list v) (held vs),
  held-set x vs i fd (omega arith),
)

length-set : (vs : List UniqueFd) (i : ℕ) (fd : Option ℕ) → length (set vs i fd) ≡ length vs
length-set [] i fd = refl
length-set (v ∷ vs) zero fd = refl
length-set (v ∷ vs) (suc i) fd = ap suc (length-set vs i fd)

abbrev pub Accounted : ℕ → FdState → Type 0
Accounted x s = count x s.closed + count x s.released + count x (held s.variables) ≡ count x s.taken

reset_at-Accounted :
    (x : ℕ) (i : ℕ) (fd : Option ℕ) (s : FdState)
    → i < length s.variables
    → count x s.closed + count x s.released + count x (held s.variables) + count x (fd_list fd)
      ≡ count x s.taken
    → Accounted x (reset_at i fd s)
unfolding reset_at reset
reset_at-Accounted x i fd s low h = omega (
  arith,
  h,
  held-set x s.variables i fd low,
  count-append x s.closed (fd_list (get_or s.variables i none)),
)

release_at_lem :
    (x : ℕ) (i : ℕ) (s : FdState)
    → i < length s.variables
    → count x (held (release_at i s).1.variables) + count x (fd_list (release_at i s).0)
      ≡ count x (held s.variables)
unfolding release_at release
release_at_lem x i s low = omega (arith, held-set x s.variables i none low)

both_in_scope : (i j n : ℕ) → (ltb i n && ltb j n) ≡ true → (i < n) × (j < n)
both_in_scope i j n h = ground arith

fd_call-Accounted :
    (x : ℕ) (s : FdState) (c : FdCall)
    → in_scope c (length s.variables) ≡ true
    → Accounted x s
    → Accounted x (fd_call s c)
unfolding fd_call in_scope release_at release
fd_call-Accounted x s (constructs fd) scope h =
    omega (arith, h, count-append x s.taken (fd_list fd), held-append x s.variables fd)
fd_call-Accounted x s (moves i) scope h = omega (
  arith,
  h,
  held-append x (set s.variables i none) (get_or s.variables i none),
  held-set x s.variables i none (ltb→lt i _ scope),
)
fd_call-Accounted x s (assigns i j) scope h =
    let lows = both_in_scope i j (length s.variables) scope in
    elim (Bool-cases (i == j)) [
      | inl same ↦ rw same h
      | inr other ↦ rw other (
          reset_at-Accounted x i (get_or s.variables j none) (release_at j s).1
            (omega (arith, lows.0, length-set s.variables j none))
            (omega (arith, h, held-set x s.variables j none lows.1)))
    ]
fd_call-Accounted x s (releases i) scope h = omega (
  arith,
  h,
  count-append x s.released (fd_list (get_or s.variables i none)),
  held-set x s.variables i none (ltb→lt i _ scope),
)
fd_call-Accounted x s (resets i fd) scope h =
    reset_at-Accounted x i fd _ (ltb→lt i _ scope)
      (omega (arith, h, count-append x s.taken (fd_list fd)))
fd_call-Accounted x s (destroys i) scope h =
    reset_at-Accounted x i none s (ltb→lt i _ scope) (omega (arith, h))

fd_step-Accounted : (x : ℕ) (s : FdState) (c : FdCall) → Accounted x s → Accounted x (fd_step s c)
unfolding fd_step
fd_step-Accounted x s c h = elim (Bool-cases (in_scope c (length s.variables))) [
  | inl scope ↦ rw scope (fd_call-Accounted x s c scope h)
  | inr out ↦ rw out h
]

run-Accounted : (x : ℕ) (s : FdState) (cs : List FdCall) → Accounted x s → Accounted x (fd_run s cs)
unfolding fd_run
run-Accounted x s [] h = h
run-Accounted x s (c ∷ cs) h = run-Accounted x (fd_step s c) cs (fd_step-Accounted x s c h)

-- Whatever a program does with its UniqueFd variables, the file descriptors that they took over are
-- those that were closed, those that were released, and those that a variable holds: each number comes
-- among these as often as it was taken over.
pub fds_closed_once : (x : ℕ) (cs : List FdCall) → Accounted x (fd_run no_fds cs)
fds_closed_once x cs = run-Accounted x no_fds cs refl
