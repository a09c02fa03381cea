-- ===== src/Video/Table.antt =====
-- The map from frame ids to assemblies: lookups after each operation, and the eviction loop.
use axrb.Common.{
  ℕ, zero, suc, ◌+◌, ◌≤◌, ◌<◌, ◌≡◌, ◌≢◌, refl, subst, ==_iff, none, some, ◌⊎◌, inl, inr, [], ◌∷◌,
  length, arith, ◌==◌, ltb, if◌then◌else◌, Bool-cases, ltb→lt,
}
use axrb.Video.Receiver.{FrameAssembly, Frames, find_frame, store, erase, oldest, evict_once, evict}

-- A property of each entry.
abbrev pub AllFrames {ℓ} : (ℕ → FrameAssembly → Type ℓ) → Frames → Type ℓ
AllFrames P [] = Unit
AllFrames P ((k, a) ∷ rest) = P k a × AllFrames P rest

-- No key twice.
abbrev pub Distinct : Frames → Type 0
Distinct [] = Unit {0}
Distinct ((k, a) ∷ rest) = (find_frame k rest ≡ none) × Distinct rest

module _ (P : ℕ → FrameAssembly → Type 0) where
  pub AllFrames-find :
      (id : ℕ) (frames : Frames) (a : FrameAssembly)
      → AllFrames P frames
      → find_frame id frames ≡ some a
      → P id a
  unfolding find_frame
  AllFrames-find id [] a h e = absurd (cc e)
  AllFrames-find id ((k, b) ∷ rest) a h e = elim (Bool-cases (k == id)) [
    | inl same ↦
        let here : b ≡ a = cc (rw same at e) in
        subst (λ j. P j a) ((==_iff k id).0 same) (subst (P k) here h.0)
    | inr other ↦ AllFrames-find id rest a h.1 (rw other at e)
  ]

  pub AllFrames-erase :
      (id : ℕ) (frames : Frames) → AllFrames P frames → AllFrames P (erase id frames)
  unfolding erase
  AllFrames-erase id [] h = h
  AllFrames-erase id ((k, b) ∷ rest) h = elim (Bool-cases (k == id)) [
    | inl same ↦ rw same h.1
    | inr other ↦ rw other (h.0, AllFrames-erase id rest h.1)
  ]

  pub AllFrames-store :
      (id : ℕ) (a : FrameAssembly) (frames : Frames)
      → AllFrames P frames
      → P id a
      → AllFrames P (store id a frames)
  unfolding store
  AllFrames-store id a [] h p = (p, tt)
  AllFrames-store id a ((k, b) ∷ rest) h p = elim (Bool-cases (k == id)) [
    | inl same ↦ rw same (p, h.1)
    | inr other ↦ rw other (h.0, AllFrames-store id a rest h.1 p)
  ]

pub find_frame-store :
    (id j : ℕ) (a : FrameAssembly) (frames : Frames)
    → find_frame j (store id a frames) ≡ (if id == j then some a else find_frame j frames)
unfolding find_frame store
find_frame-store id j a [] = refl
find_frame-store id j a ((k, b) ∷ rest) = ground (arith, find_frame-store id j a rest)

pub find_frame-erase :
    (id j : ℕ) (frames : Frames)
    → Distinct frames
    → find_frame j (erase id frames) ≡ (if id == j then none else find_frame j frames)
unfolding find_frame erase
find_frame-erase id j [] d = ground arith
find_frame-erase id j ((k, b) ∷ rest) d = ground (arith, find_frame-erase id j rest d.1)

find_frame-erase-none :
    (id j : ℕ) (frames : Frames)
    → find_frame j frames ≡ none
    → find_frame j (erase id frames) ≡ none
unfolding find_frame erase
find_frame-erase-none id j [] e = refl
find_frame-erase-none id j ((k, b) ∷ rest) e = ground (arith, find_frame-erase-none id j rest)

pub Distinct-erase : (id : ℕ) (frames : Frames) → Distinct frames → Distinct (erase id frames)
unfolding erase
Distinct-erase id [] d = d
Distinct-erase id ((k, b) ∷ rest) d = elim (Bool-cases (k == id)) [
  | inl same ↦ rw same d.1
  | inr other ↦ rw other (find_frame-erase-none id k rest d.0, Distinct-erase id rest d.1)
]

pub Distinct-store :
    (id : ℕ) (a : FrameAssembly) (frames : Frames) → Distinct frames → Distinct (store id a frames)
unfolding store
Distinct-store id a [] d = (unfold find_frame in refl, tt)
Distinct-store id a ((k, b) ∷ rest) d = elim (Bool-cases (k == id)) [
  | inl same ↦ rw same (subst (λ j. find_frame j rest ≡ none) ((==_iff k id).0 same) d.0, d.1)
  | inr other ↦
      rw other (ground (arith, find_frame-store id k a rest), Distinct-store id a rest d.1)
]

pub length-store :
    (id : ℕ) (a : FrameAssembly) (frames : Frames) → length (store id a frames) ≤ length frames + 1
unfolding store
length-store id a [] = omega arith
length-store id a ((k, b) ∷ rest) = ground (arith, length-store id a rest)

pub length-erase-le : (id : ℕ) (frames : Frames) → length (erase id frames) ≤ length frames
unfolding erase
length-erase-le id [] = omega arith
length-erase-le id ((k, b) ∷ rest) = ground (arith, length-erase-le id rest)

-- Erasing a key that is there takes one entry away.
length-erase :
    (id : ℕ) (frames : Frames)
    → find_frame id frames ≢ none
    → length (erase id frames) + 1 ≡ length frames
unfolding find_frame erase
length-erase id [] h = absurd (h refl)
length-erase id ((k, b) ∷ rest) h = ground (arith, length-erase id rest)

-- The loop of `min_element` ends at a key of the map, or where it began.
oldest_found :
    (best : ℕ) (frames : Frames)
    → (find_frame (oldest best frames) frames ≢ none) ⊎ (oldest best frames ≡ best)
unfolding find_frame oldest
oldest_found best [] = inr refl
oldest_found best ((k, a) ∷ rest) =
    ground (arith, oldest_found (if ltb k best then k else best) rest)

-- No key is below it.
abbrev pub AllKeysFrom : ℕ → Frames → Type 0
AllKeysFrom n = AllFrames (λ k a. n ≤ k)

pub oldest_least :
    (best : ℕ) (frames : Frames)
    → (oldest best frames ≤ best) × AllKeysFrom (oldest best frames) frames
unfolding oldest
oldest_least best [] = (omega arith, tt)
oldest_least best ((k, a) ∷ rest) =
    let ih = oldest_least (if ltb k best then k else best) rest in
    (ground arith, (ground arith, ih.1))

find_frame-oldest :
    (k : ℕ) (a : FrameAssembly) (rest : Frames) → find_frame (oldest k rest) ((k, a) ∷ rest) ≢ none
unfolding find_frame
find_frame-oldest k a rest = ground (arith, oldest_found k rest)

length-evict_once :
    (frames : Frames) → 0 < length frames → length (evict_once frames) + 1 ≡ length frames
unfolding evict_once
length-evict_once [] h = elim h [ ]
length-evict_once ((k, a) ∷ rest) h =
    length-erase (oldest k rest) ((k, a) ∷ rest) (find_frame-oldest k a rest)

-- The loop ends by its test.
pub length-evict : (n : ℕ) (frames : Frames) → length frames ≤ 8 + n → length (evict n frames) ≤ 8
unfolding evict
length-evict zero frames h = omega arith
length-evict (suc n) frames h = elim (Bool-cases (ltb 8 (length frames))) [
  | inl more ↦
      rw (more, evict)
        (length-evict n (evict_once frames)
          (omega (arith, ltb→lt 8 (length frames) more, length-evict_once frames)))
  | inr few ↦ rw (few, evict) (ground arith)
]

-- What erasing keeps, the loop keeps.
pub evict_induction {ℓ} :
    (P : Frames → Type ℓ)
    → ((id : ℕ) (frames : Frames) → P frames → P (erase id frames))
    → (n : ℕ) (frames : Frames) → P frames
    → P (evict n frames)
unfolding evict
evict_induction P keep zero frames h = h
evict_induction P keep (suc n) [] h = h
evict_induction P keep (suc n) ((k, a) ∷ rest) h =
    elim (Bool-cases (ltb 8 (length ((k, a) ∷ rest)))) [
      | inl more ↦ rw (more, evict) (evict_induction P keep n _ (unfold evict_once in keep _ _ h))
      | inr few ↦ rw (few, evict) h
    ]

-- Eight frames or fewer are left alone.
pub evict_few : (n : ℕ) (frames : Frames) → length frames ≤ 8 → evict n frames ≡ frames
unfolding evict
evict_few zero frames h = refl
evict_few (suc n) frames h = elim (Bool-cases (ltb 8 (length frames))) [
  | inl more ↦ absurd (omega (arith, ltb→lt 8 (length frames) more))
  | inr few ↦ rw (few, evict)
]

-- What is evicted is an entry of the map, and no entry has a lower frame id.
pub evict_once_oldest :
    (frames : Frames)
    → 0 < length frames
    → (id : ℕ) × (evict_once frames ≡ erase id frames)
      × (find_frame id frames ≢ none)
      × AllKeysFrom id frames
unfolding evict_once
evict_once_oldest [] h = elim h [ ]
evict_once_oldest ((k, a) ∷ rest) h =
    (oldest k rest, refl, find_frame-oldest k a rest, oldest_least k rest)

-- A frame that is stored and erased at once leaves only what was there.
pub AllFrames-erase-store :
    (P : ℕ → FrameAssembly → Type 0) (id : ℕ) (a : FrameAssembly) (frames : Frames)
    → AllFrames P frames
    → AllFrames P (erase id (store id a frames))
unfolding erase store
AllFrames-erase-store P id a [] h = rw ((==_iff id id).1 refl) tt
AllFrames-erase-store P id a ((k, b) ∷ rest) h = elim (Bool-cases (k == id)) [
  | inl same ↦ rw (same, (==_iff id id).1 refl) h.1
  | inr other ↦ rw (other, other) (h.0, AllFrames-erase-store P id a rest h.1)
]

pub length-erase-store :
    (id : ℕ) (a : FrameAssembly) (frames : Frames)
    → length (erase id (store id a frames)) ≤ length frames
unfolding erase store
length-erase-store id a [] = ground arith
length-erase-store id a ((k, b) ∷ rest) = ground (arith, length-erase-store id a rest)
