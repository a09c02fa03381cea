-- ===== src/Host/Arguments.antt =====
-- Which numbers OpenXrHost::run of host-bridge/openxr_host.cpp takes from its command line.
use axrb.Common.{
  ℕ, ◌+◌, ◌-◌, ◌*◌, ◌^◌, ◌<◌, ◌≤◌, ◌≡◌, ◌≢◌, refl, ap, sym, ◌∙◌, ◌↔◌, Bool, true, not, Option, none,
  some, List, [], ◌∷◌, leb, if◌then◌else◌, arith, Bool-cases, inl, inr,
}
use axrb.Host.Run.{
  FromChars, invalid_argument, result_out_of_range, parsed, is_digit, scan_digits, from_chars,
  whole_text, parse_u32, parse_u16, at_most_65535,
}

-- One or more digits, and nothing else.
abbrev pub AllDigits : List ℕ → Type 0
AllDigits [] = Unit {0}
AllDigits (c ∷ text) = (is_digit c ≡ true) × AllDigits text

-- The number that digits spell behind `n`.
abbrev pub value : List ℕ → ℕ → ℕ
value [] n = n
value (c ∷ text) n = value text (n * 10 + (c - b'0'))

-- The text is digits, at least one, that spell `n`.
pub record Spells (text : List ℕ) (n : ℕ) : Type 0 where
  pub some_digit : text ≢ []
  pub digits : AllDigits text
  pub spelled : value text 0 ≡ n

scan_all : (text : List ℕ) (n : ℕ) → AllDigits text → scan_digits text n ≡ (value text n, [])
unfolding scan_digits
scan_all [] n all = refl
scan_all (c ∷ text) n all = rw all.0 (scan_all text _ all.1)

scan_sound :
    (text : List ℕ) (n : ℕ)
    → (scan_digits text n).1 ≡ []
    → AllDigits text × ((scan_digits text n).0 ≡ value text n)
unfolding scan_digits
scan_sound [] n e = (tt, refl)
scan_sound (c ∷ text) n e = elim (Bool-cases (is_digit c)) [
  | inl digit ↦
      let (all, same) = scan_sound text (n * 10 + (c - b'0')) (rw digit at e) in
      ((digit, all), rw digit same)
  | inr other ↦ absurd (cc (rw other at e))
]

whole_parsed : (r : FromChars) (n : ℕ) → whole_text r ≡ some n → r ≡ parsed n []
unfolding whole_text
whole_parsed invalid_argument n e = absurd (cc e)
whole_parsed result_out_of_range n e = absurd (cc e)
whole_parsed (parsed m []) n e = cc
whole_parsed (parsed m (c ∷ rest)) n e = absurd (cc e)

in_range :
    (digit : Bool) (m n : ℕ) (rest : List ℕ)
    → (if not digit
        then invalid_argument
        else if leb (2 ^ 32) m
        then result_out_of_range
        else parsed m rest)
      ≡ parsed n []
    → (m ≡ n) × (rest ≡ []) × (m < 2 ^ 32)
in_range digit m n rest e = (ground arith, ground arith, ground arith)

whole_parsed_some : (n : ℕ) → whole_text (parsed n []) ≡ some n
unfolding whole_text
whole_parsed_some n = refl

from_chars_sound :
    (text : List ℕ) (n : ℕ) → from_chars text ≡ parsed n [] → Spells text n × (n < 2 ^ 32)
unfolding from_chars
from_chars_sound [] n e = absurd (cc e)
from_chars_sound (c ∷ text) n e =
    let (m, rest) = scan_digits (c ∷ text) 0 in
    let whole : (m ≡ n) × (rest ≡ []) × (m < 2 ^ 32) = in_range (is_digit c) m n rest e in
    let (all, same) = scan_sound (c ∷ text) 0 whole.1 in
    (
      record { some_digit = λ p. cc; digits = all; spelled = sym same ∙ whole.0 },
      omega (arith, whole),
    )

from_chars_complete :
    (text : List ℕ) (n : ℕ) → Spells text n → n < 2 ^ 32 → from_chars text ≡ parsed n []
unfolding from_chars
from_chars_complete [] n s lt = absurd (s.some_digit refl)
from_chars_complete (c ∷ text) n s lt =
    rw (scan_all (c ∷ text) 0 s.digits, s.digits.0, s.spelled) (ground arith)

parse_u32_iff : (text : List ℕ) (n : ℕ) → (parse_u32 text ≡ some n) ↔ (Spells text n × (n < 2 ^ 32))
unfolding parse_u32
parse_u32_iff text n = (
  λ e. from_chars_sound text n (whole_parsed (from_chars text) n e),
  λ s. ap whole_text (from_chars_complete text n s.0 s.1) ∙ whole_parsed_some n,
)

at_most_some : (o : Option ℕ) (n : ℕ) → (at_most_65535 o ≡ some n) ↔ ((o ≡ some n) × (n ≤ 65535))
unfolding at_most_65535
at_most_some none n = (λ e. absurd (cc e), λ h. absurd (cc h.0))
at_most_some (some m) n = (λ e. (ground arith, ground arith), λ h. ground (arith, h.0, h.1))

-- A text is taken for a number exactly when it is one digit or more, and nothing else, that spell a
-- number below 2^32, and for a port at most 65535, and then for this number.
pub parse_iff :
    (text : List ℕ) (n : ℕ)
    → ((parse_u32 text ≡ some n) ↔ (Spells text n × (n < 2 ^ 32)))
      × ((parse_u16 text ≡ some n) ↔ (Spells text n × (n ≤ 65535)))
unfolding parse_u16 parse_u32
parse_iff text n = (
  parse_u32_iff text n,
  (
    λ e.
        let (parsed_, small) = (at_most_some (parse_u32 text) n).0 e in
        (((parse_u32_iff text n).0 parsed_).0, small),
    λ s.
        (at_most_some (parse_u32 text) n).1
          ((parse_u32_iff text n).1 (s.0, omega (arith, s.1)), s.1),
  ),
)
