-- ===== src/Video/Marks.antt =====
-- The loop that counts the bytes of a chunk which had not come before.
use axrb.Common.{
  ℕ, zero, suc, ◌+◌, ◌^◌, ◌≤◌, ◌<◌, ◌≡◌, ◌≢◌, refl, Bool, ◌&&◌, ◌||◌, not, List, [], ◌∷◌, length,
  get_or, replicate, set, length-set, get_or-set, get_or_default, arith, ◌==◌, ltb, leb,
  if◌then◌else◌,
}
use axrb.Video.Receiver.{mark_byte, mark_chunk}

-- How many bytes have come.
abbrev pub marked : List ℕ → ℕ
marked [] = 0
marked (m ∷ ms) = (if m == 0 then 0 else 1) + marked ms

pub marked-le-length : (ms : List ℕ) → marked ms ≤ length ms
marked-le-length [] = omega arith
marked-le-length (m ∷ ms) = ground (arith, marked-le-length ms)

pub marked-replicate : (n : ℕ) → marked (replicate n 0) ≡ 0
marked-replicate zero = refl
marked-replicate (suc n) = ground (arith, marked-replicate n)

-- All bytes have come when their number is that of the frame.
pub marked_all : (ms : List ℕ) (j : ℕ) → marked ms ≡ length ms → j < length ms → get_or ms j 0 ≢ 0
marked_all [] j e h = elim h [ ]
marked_all (m ∷ ms) zero e h = ground (arith, marked-le-length ms)
marked_all (m ∷ ms) (suc j) e h = ground (arith, marked-le-length ms, marked_all ms j)

marked-set :
    (ms : List ℕ) (i : ℕ)
    → i < length ms
    → marked (set ms i 1) ≡ (if get_or ms i 1 == 0 then marked ms + 1 else marked ms)
marked-set [] i h = elim h [ ]
marked-set (m ∷ ms) zero h = ground arith
marked-set (m ∷ ms) (suc i) h = ground (arith, marked-set ms i)

abbrev pub in_range : ℕ → ℕ → ℕ → Bool
in_range i n j = leb i j && ltb j (i + n)

abbrev pub is_marked : List ℕ → ℕ → Bool
is_marked ms j = not (get_or ms j 0 == 0)

-- What the loop over `n` bytes from `i` on leaves.
pub record Marks (n i : ℕ) (ms : List ℕ) (out : List ℕ × ℕ) : Type 0 where
  pub size : length out.0 ≡ length ms
  pub count : out.1 ≡ marked out.0
  pub marks : (j : ℕ) → is_marked out.0 j ≡ (is_marked ms j || in_range i n j)

mark_byte-Marks :
    (i : ℕ) (ms : List ℕ) (c : ℕ)
    → i < length ms
    → length ms < 2 ^ 32
    → c ≡ marked ms
    → Marks 1 i ms (mark_byte i (ms, c))
unfolding mark_byte
mark_byte-Marks i ms c h b e = record {
  size = ground (arith, length-set ms i 1);
  count = ground (arith, marked-set ms i, length-set ms i 1, marked-le-length (set ms i 1));
  marks = λ j. ground (arith, get_or-set ms i j 1 0, get_or_default ms i 1 0);
}

mark_chunk_zero : (i : ℕ) (ms : List ℕ) (c : ℕ) → c ≡ marked ms → Marks 0 i ms (ms, c)
mark_chunk_zero i ms c e = record { size = refl; count = e; marks = λ j. ground arith }

Marks-suc :
    (n i : ℕ) (ms : List ℕ) (mid out : List ℕ × ℕ)
    → Marks 1 i ms mid
    → Marks n (i + 1) mid.0 out
    → Marks (suc n) i ms out
Marks-suc n i ms mid out a b = record {
  size = omega (arith, a.size, b.size);
  count = b.count;
  marks = λ j. ground (arith, a.marks j, b.marks j);
}

pub mark_chunk-Marks :
    (n i : ℕ) (ms : List ℕ) (c : ℕ)
    → i + n ≤ length ms
    → length ms < 2 ^ 32
    → c ≡ marked ms
    → Marks n i ms (mark_chunk n i (ms, c))
unfolding mark_chunk
mark_chunk-Marks zero i ms c h b e = mark_chunk_zero i ms c e
mark_chunk-Marks (suc n) i ms c h b e =
    let (ms', c') = mark_byte i (ms, c) in
    let one = mark_byte-Marks i ms c (omega arith) b e in
    Marks-suc n i ms (ms', c') _ one
      (mark_chunk-Marks n (i + 1) ms' c' (omega (arith, one.size)) (omega (arith, one.size))
        one.count)
