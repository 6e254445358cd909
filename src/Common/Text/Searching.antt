-- ===== src/Common/Text/Searching.antt =====
-- The tests on text decide the equality of texts, and whether one stands in the other.
use dtp_discovery_agent.Common.{
  ℕ, ◌≡◌, refl, ap, inl, inr, true, false, List, [], ◌∷◌, ◌++◌, arith, ==_iff, Bool-cases,
}
use dtp_discovery_agent.Common.Text.{begins, codes_eq, has_text}

pub codes_eq_sound : (xs ys : List ℕ) → codes_eq xs ys ≡ true → xs ≡ ys
codes_eq_sound [] [] e = refl
codes_eq_sound [] (y ∷ ys) e = cc
codes_eq_sound (x ∷ xs) [] e = cc
codes_eq_sound (x ∷ xs) (y ∷ ys) e = ground (arith, codes_eq_sound xs ys)

pub codes_eq_refl : (xs : List ℕ) → codes_eq xs xs ≡ true
codes_eq_refl [] = refl
codes_eq_refl (x ∷ xs) = ground (arith, codes_eq_refl xs)

begins_sound : (p xs : List ℕ) → begins p xs ≡ true → (after : List ℕ) × (xs ≡ p ++ after)
begins_sound [] xs e = (xs, refl)
begins_sound (p ∷ ps) [] e = cc
begins_sound (p ∷ ps) (x ∷ xs) e =
    let (after, q) = begins_sound ps xs (ground arith) in
    let same : p ≡ x = (==_iff p x).0 (ground arith) in (after, cc)

begins-append : (p after : List ℕ) → begins p (p ++ after) ≡ true
begins-append [] after = refl
begins-append (p ∷ ps) after = ground (arith, begins-append ps after)

-- The first text stands somewhere in the second.
abbrev pub IsIn : List ℕ → List ℕ → Type 0
IsIn p xs = (before : List ℕ) × (after : List ℕ) × (xs ≡ before ++ p ++ after)

pub has_text_sound : (p xs : List ℕ) → has_text p xs ≡ true → IsIn p xs
has_text_sound p [] e = elim (Bool-cases (begins p [])) [
  | inl b ↦ let (after, q) = begins_sound p [] b in ([], after, q)
  | inr b ↦ absurd (let f : false ≡ true = ground arith in cc)
]
has_text_sound p (x ∷ xs) e = elim (Bool-cases (begins p (x ∷ xs))) [
  | inl b ↦ let (after, q) = begins_sound p (x ∷ xs) b in ([], after, q)
  | inr b ↦
      let (before, after, q) = has_text_sound p xs (ground arith) in
      (x ∷ before, after, ap (λ t. x ∷ t) q)
]

has_text-append : (p before after : List ℕ) → has_text p (before ++ p ++ after) ≡ true
has_text-append p (x ∷ before) after = ground (arith, has_text-append p before after)
has_text-append [] [] [] = refl
has_text-append [] [] (x ∷ after) = refl
has_text-append (p ∷ ps) [] after = ground (arith, begins-append ps after)

pub has_text_complete : (p xs : List ℕ) → IsIn p xs → has_text p xs ≡ true
has_text_complete p xs (before, after, e) = rw e (has_text-append p before after)
