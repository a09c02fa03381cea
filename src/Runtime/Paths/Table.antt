-- ===== src/Runtime/Paths/Table.antt =====
-- Lemmas on the table of path records.
use axrb.Common.{
  ℕ, zero, suc, ◌+◌, ◌≤◌, ◌<◌, ◌≡◌, inl, inr, refl, ap, true, none, some, List, [], ◌∷◌, ◌++◌,
  length, take, arith, Bool-cases,
}
use axrb.Runtime.{PathRecord}
use axrb.Runtime.Path.{same_text, path_text, find_text}

pub same_text→eq : (a b : List ℕ) → same_text a b ≡ true → a ≡ b
unfolding same_text
same_text→eq [] [] h = refl
same_text→eq [] (y ∷ b) h = cc
same_text→eq (x ∷ a) [] h = cc
same_text→eq (x ∷ a) (y ∷ b) h = ground (arith, same_text→eq a b)

same_text_refl : (a : List ℕ) → same_text a a ≡ true
unfolding same_text
same_text_refl [] = refl
same_text_refl (x ∷ a) = ground (arith, same_text_refl a)

-- The paths count up from `k`.
abbrev pub Numbered : ℕ → List PathRecord → Type 0
Numbered k [] = Unit {0}
Numbered k (x ∷ xs) = (x.path ≡ k) × Numbered (suc k) xs

pub Numbered-snoc :
    (k : ℕ) (xs : List PathRecord) (x : PathRecord)
    → Numbered k xs
    → x.path ≡ k + length xs
    → Numbered k (xs ++ x ∷ [])
Numbered-snoc k [] x h e = (omega arith, tt)
Numbered-snoc k (y ∷ xs) x h e = (h.0, Numbered-snoc (suc k) xs x h.1 (omega arith))

-- A path that the search finds has the text that was asked for.
pub find_text_sound :
    (k : ℕ) (xs : List PathRecord) (text : List ℕ) (p : ℕ)
    → Numbered k xs
    → find_text xs text ≡ some p
    → (k ≤ p) × (p < k + length xs) × (path_text xs p ≡ text)
unfolding find_text path_text
find_text_sound k [] text p h e = cc
find_text_sound k (x ∷ xs) text p h e =
    ground (arith, same_text→eq text x.text, find_text_sound (suc k) xs text p h.1)

pub path_text-append_new :
    (k : ℕ) (xs : List PathRecord) (x : PathRecord) (p : ℕ)
    → Numbered k xs
    → x.path ≡ p
    → k + length xs ≤ p
    → path_text (xs ++ x ∷ []) p ≡ x.text
unfolding path_text
path_text-append_new k [] x p h e l = ground arith
path_text-append_new k (y ∷ xs) x p h e l =
    ground (arith, path_text-append_new (suc k) xs x p h.1 e)

pub path_text-append :
    (k : ℕ) (xs ys : List PathRecord) (p : ℕ)
    → Numbered k xs
    → k ≤ p
    → p < k + length xs
    → path_text (xs ++ ys) p ≡ path_text xs p
unfolding path_text
path_text-append k [] ys p h a b = absurd (omega arith)
path_text-append k (x ∷ xs) ys p h a b = ground (arith, path_text-append (suc k) xs ys p h.1)

pub find_text-append :
    (xs ys : List PathRecord) (text : List ℕ) (p : ℕ)
    → find_text xs text ≡ some p
    → find_text (xs ++ ys) text ≡ some p
unfolding find_text
find_text-append [] ys text p e = cc
find_text-append (x ∷ xs) ys text p e = ground (arith, find_text-append xs ys text p)

pub find_text-append_new :
    (xs : List PathRecord) (x : PathRecord) (text : List ℕ)
    → find_text xs text ≡ none
    → x.text ≡ text
    → find_text (xs ++ x ∷ []) text ≡ some x.path
unfolding find_text
find_text-append_new [] x text e t = ground (arith, same_text_refl text)
find_text-append_new (y ∷ xs) x text e t = ground (arith, find_text-append_new xs x text)

pub take_all : (n : ℕ) (xs : List ℕ) → length xs ≤ n → take n xs ≡ xs
take_all zero [] h = refl
take_all zero (x ∷ xs) h = absurd (omega arith)
take_all (suc n) [] h = refl
take_all (suc n) (x ∷ xs) h = ap (λ t. x ∷ t) (take_all n xs (omega arith))

-- Every text fits its array of 128 bytes with a terminator.
abbrev pub AllShort : List PathRecord → Type 0
AllShort [] = Unit {0}
AllShort (x ∷ xs) = (length x.text ≤ 127) × AllShort xs

pub AllShort-snoc :
    (xs : List PathRecord) (x : PathRecord)
    → AllShort xs
    → length x.text ≤ 127
    → AllShort (xs ++ x ∷ [])
AllShort-snoc [] x h l = (l, tt)
AllShort-snoc (y ∷ xs) x h l = (h.0, AllShort-snoc xs x h.1 l)

-- So the search never finds a longer text.
pub find_text_long :
    (xs : List PathRecord) (text : List ℕ)
    → AllShort xs
    → 127 < length text
    → find_text xs text ≡ none
unfolding find_text
find_text_long [] text h l = refl
find_text_long (x ∷ xs) text h l = elim (Bool-cases (same_text text x.text)) [
  | inl same ↦ absurd (omega (arith, ap length (same_text→eq text x.text same)))
  | inr other ↦ rw other (find_text_long xs text h.1 l)
]
