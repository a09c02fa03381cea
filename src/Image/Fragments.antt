-- ===== src/Image/Fragments.antt =====
-- recv_all of protocol/image_transport.cpp does not depend on how the bytes are cut into fragments.
use axrb.Common.{
  ℕ, zero, suc, ◌-◌, ◌≤◌, ◌<◌, ◌≡◌, refl, sym, ap, ◌∙◌, none, some, List, [], ◌∷◌, ◌++◌, length,
  length-append, length-drop, take, drop, leb, arith, ◌⊎◌, inl, inr, Bool-cases,
}
use axrb.Image.Stream.{Connection, Received, recv_all, before_rest, bytes_of}

-- No fragment is empty, as `recv` never gives an empty one before the end of the stream.
abbrev pub NoEmpty : Connection → Type 0
NoEmpty [] = Unit {0}
NoEmpty (fragment ∷ connection) = (0 < length fragment) × NoEmpty connection

pub take-append-long :
    (n : ℕ) (xs ys : List ℕ) → length xs ≤ n → take n (xs ++ ys) ≡ xs ++ take (n - length xs) ys
take-append-long n [] ys h = ap (λ k. take k ys) (omega arith)
take-append-long zero (x ∷ xs) ys h = absurd (omega arith)
take-append-long (suc n) (x ∷ xs) ys h =
    ap (λ zs. x ∷ zs)
      (take-append-long n xs ys (omega arith) ∙ ap (λ k. xs ++ take k ys) (omega arith))

pub drop-append-long :
    (n : ℕ) (xs ys : List ℕ) → length xs ≤ n → drop n (xs ++ ys) ≡ drop (n - length xs) ys
drop-append-long n [] ys h = ap (λ k. drop k ys) (omega arith)
drop-append-long zero (x ∷ xs) ys h = absurd (omega arith)
drop-append-long (suc n) (x ∷ xs) ys h =
    drop-append-long n xs ys (omega arith) ∙ ap (λ k. drop k ys) (omega arith)

pub take-append-short : (n : ℕ) (xs ys : List ℕ) → n ≤ length xs → take n (xs ++ ys) ≡ take n xs
take-append-short zero xs ys h = refl
take-append-short (suc n) [] ys h = absurd (omega arith)
take-append-short (suc n) (x ∷ xs) ys h =
    ap (λ zs. x ∷ zs) (take-append-short n xs ys (omega arith))

drop-append-short : (n : ℕ) (xs ys : List ℕ) → n ≤ length xs → drop n (xs ++ ys) ≡ drop n xs ++ ys
drop-append-short zero xs ys h = refl
drop-append-short (suc n) [] ys h = absurd (omega arith)
drop-append-short (suc n) (x ∷ xs) ys h = drop-append-short n xs ys (omega arith)

-- What a read of `n` bytes gives: the first `n` of all that wait, or nothing where there are fewer.
abbrev pub ReadsFirst : ℕ → List ℕ → Received → Type 0
ReadsFirst n bytes got =
    ((rest : Connection) × (n ≤ length bytes)
      × (got ≡ some (take n bytes, rest))
      × (bytes_of rest ≡ drop n bytes)
      × NoEmpty rest)
    ⊎ ((length bytes < n) × (got ≡ none))

add_fragment :
    (n : ℕ) (fragment bytes : List ℕ) (got : Received)
    → length fragment ≤ n
    → ReadsFirst (n - length fragment) bytes got
    → ReadsFirst n (fragment ++ bytes) (before_rest fragment got)
unfolding before_rest
add_fragment n fragment bytes got h (inr (short, none_)) =
    inr (omega (arith, length-append fragment bytes), rw none_ refl)
add_fragment n fragment bytes got h (inl (rest, enough, got_, left, full)) = inl (
  rest,
  omega (arith, length-append fragment bytes),
  rw (got_, take-append-long n fragment bytes h) refl,
  left ∙ sym (drop-append-long n fragment bytes h),
  full,
)

-- Where no fragment is empty, recv_all gives the first `n` bytes of all that wait and leaves the rest
-- in order, and fails exactly when there are fewer, however the bytes are cut into fragments.
pub recv_all_lem :
    (n : ℕ) (connection : Connection)
    → NoEmpty connection
    → ReadsFirst n (bytes_of connection) (recv_all n connection)
unfolding recv_all
recv_all_lem zero connection e = inl (connection, omega arith, refl, refl, e)
recv_all_lem (suc n) [] e = inr (omega arith, refl)
recv_all_lem (suc n) ([] ∷ connection) e = absurd (omega (arith, e.0))
recv_all_lem (suc n) ((b ∷ bs) ∷ connection) e =
    let ih = recv_all_lem (suc n - length (b ∷ bs)) connection e.1 in
    elim (Bool-cases (leb (length (b ∷ bs)) (suc n))) [
      | inl whole ↦
          rw whole (add_fragment (suc n) (b ∷ bs) (bytes_of connection) _ (ground arith) ih)
      | inr part ↦
          let h : suc n < length (b ∷ bs) = ground arith in
          rw part (
            inl (
              drop (suc n) (b ∷ bs) ∷ connection,
              omega (arith, length-append (b ∷ bs) (bytes_of connection)),
              rw (take-append-short (suc n) (b ∷ bs) (bytes_of connection) (omega arith)) refl,
              sym (drop-append-short (suc n) (b ∷ bs) (bytes_of connection) (omega arith)),
              (omega (arith, length-drop (suc n) (b ∷ bs)), e.1),
            ))
    ]
