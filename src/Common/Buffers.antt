-- ===== src/Common/Buffers.antt =====
-- Byte buffers: what reading at an index gives after a write, and equality from all indexes.
use axrb.Common.Tests.{ltb, leb, ◌==◌, if◌then◌else◌}
use axrb.Common.Lists.{length, get_elem?, get_or, take, drop, replicate, set, overwrite}
use Prim.Native.Nat.{ℕ, zero, suc, ◌+◌, ◌-◌, ◌≤◌, ◌<◌}
use mathlib.Core.Path.{◌≡◌, refl, ap, ap₂}
use mathlib.Core.Bool.{◌&&◌}
use mathlib.Core.Option.{some}
use mathlib.Core.Logic.{◌⊎◌}
use mathlib.Core.List.{List, [], ◌∷◌}
use native.Mathlib.Omega.{arith}

module _ {ℓ} {A : Type ℓ} where
  pub length-set : (xs : List A) (i : ℕ) (v : A) → length (set xs i v) ≡ length xs
  length-set [] i v = refl
  length-set (x ∷ xs) zero v = refl
  length-set (x ∷ xs) (suc i) v = ap suc (length-set xs i v)

  pub get_or-set :
      (xs : List A) (i j : ℕ) (v d : A)
      → i < length xs
      → get_or (set xs i v) j d ≡ (if j == i then v else get_or xs j d)
  get_or-set [] i j v d h = elim h [ ]
  get_or-set (x ∷ xs) zero zero v d h = refl
  get_or-set (x ∷ xs) zero (suc j) v d h = ground arith
  get_or-set (x ∷ xs) (suc i) zero v d h = ground arith
  get_or-set (x ∷ xs) (suc i) (suc j) v d h = ground (arith, get_or-set xs i j v d)

  -- In bounds the default does not matter.
  pub get_or_default :
      (xs : List A) (i : ℕ) (d e : A) → i < length xs → get_or xs i d ≡ get_or xs i e
  get_or_default [] i d e h = elim h [ ]
  get_or_default (x ∷ xs) zero d e h = refl
  get_or_default (x ∷ xs) (suc i) d e h = get_or_default xs i d e (omega arith)

  pub length-overwrite :
      (xs : List A) (i : ℕ) (ys : List A) → length (overwrite xs i ys) ≡ length xs
  length-overwrite [] i ys = refl
  length-overwrite (x ∷ xs) zero [] = refl
  length-overwrite (x ∷ xs) zero (y ∷ ys) = ap suc (length-overwrite xs zero ys)
  length-overwrite (x ∷ xs) (suc i) ys = ap suc (length-overwrite xs i ys)

  pub get_or-drop :
      (n : ℕ) (xs : List A) (j : ℕ) (d : A) → get_or (drop n xs) j d ≡ get_or xs (n + j) d
  get_or-drop zero xs j d = ap (λ k. get_or xs k d) (omega arith)
  get_or-drop (suc n) [] j d = refl
  get_or-drop (suc n) (x ∷ xs) j d = ground (arith, get_or-drop n xs j d)

  pub get_elem?-drop :
      (n : ℕ) (xs : List A) (j : ℕ) → get_elem? (drop n xs) j ≡ get_elem? xs (n + j)
  get_elem?-drop zero xs j = ap (get_elem? xs) (omega arith)
  get_elem?-drop (suc n) [] j = refl
  get_elem?-drop (suc n) (x ∷ xs) j = ground (arith, get_elem?-drop n xs j)

  pub get_or-take :
      (n : ℕ) (xs : List A) (j : ℕ) (d : A) → j < n → get_or (take n xs) j d ≡ get_or xs j d
  get_or-take zero xs j d h = elim h [ ]
  get_or-take (suc n) [] j d h = refl
  get_or-take (suc n) (x ∷ xs) zero d h = refl
  get_or-take (suc n) (x ∷ xs) (suc j) d h = get_or-take n xs j d (omega arith)

  pub get_or-replicate : (n : ℕ) (a : A) (j : ℕ) → get_or (replicate n a) j a ≡ a
  get_or-replicate zero a j = refl
  get_or-replicate (suc n) a zero = refl
  get_or-replicate (suc n) a (suc j) = get_or-replicate n a j

  pub get_elem?-get_or :
      (xs : List A) (i : ℕ) (d : A) → i < length xs → get_elem? xs i ≡ some (get_or xs i d)
  get_elem?-get_or [] i d h = elim h [ ]
  get_elem?-get_or (x ∷ xs) zero d h = refl
  get_elem?-get_or (x ∷ xs) (suc i) d h = get_elem?-get_or xs i d (omega arith)

  -- Lists of one length with the same entries are equal.
  pub eq_of_get_or :
      (xs ys : List A) (d : A)
      → length xs ≡ length ys
      → ((j : ℕ) → j < length ys → get_or xs j d ≡ get_or ys j d)
      → xs ≡ ys
  eq_of_get_or [] [] d e h = refl
  eq_of_get_or [] (y ∷ ys) d e h = absurd (omega arith)
  eq_of_get_or (x ∷ xs) [] d e h = absurd (omega arith)
  eq_of_get_or (x ∷ xs) (y ∷ ys) d e h =
      ap₂ ◌∷◌ (h 0 (omega arith))
        (eq_of_get_or xs ys d (omega arith) (λ j p. h (suc j) (omega arith)))

module _ {A : Type 0} where
  pub get_or-overwrite :
      (xs : List A) (i : ℕ) (ys : List A) (j : ℕ) (d : A)
      → i + length ys ≤ length xs
      → get_or (overwrite xs i ys) j d
        ≡ (if leb i j && ltb j (i + length ys) then get_or ys (j - i) d else get_or xs j d)
  get_or-overwrite [] zero [] j d h = ground arith
  get_or-overwrite [] zero (y ∷ ys) j d h = absurd (omega arith)
  get_or-overwrite [] (suc i) ys j d h = absurd (omega arith)
  get_or-overwrite (x ∷ xs) zero [] j d h = ground arith
  get_or-overwrite (x ∷ xs) zero (y ∷ ys) zero d h = ground arith
  get_or-overwrite (x ∷ xs) zero (y ∷ ys) (suc j) d h =
      ground (arith, get_or-overwrite xs zero ys j d)
  get_or-overwrite (x ∷ xs) (suc i) ys zero d h = ground arith
  get_or-overwrite (x ∷ xs) (suc i) ys (suc j) d h = ground (arith, get_or-overwrite xs i ys j d)

  pub overwrite_other :
      (xs : List A) (i : ℕ) (ys : List A) (j : ℕ) (d : A)
      → i + length ys ≤ length xs
      → (j < i) ⊎ (i + length ys ≤ j)
      → get_or (overwrite xs i ys) j d ≡ get_or xs j d
  overwrite_other xs i ys j d h away = ground (arith, get_or-overwrite xs i ys j d)

  pub overwrite_same :
      (xs : List A) (i : ℕ) (ys : List A) (k : ℕ) (d : A)
      → i + length ys ≤ length xs
      → k < length ys
      → get_or (overwrite xs i ys) (i + k) d ≡ get_or ys k d
  overwrite_same xs i ys k d h lt =
      let back : i + k - i ≡ k = omega arith in
      ground (arith, get_or-overwrite xs i ys (i + k) d, ap (λ m. get_or ys m d) back)
