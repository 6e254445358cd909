-- ===== src/Common/Text/Splitting.antt =====
-- Cutting a text at a separator, and putting the pieces together again.
use Prim.Native.Nat.{ℕ}
use Prim.Native.Char.{Char, code}
use mathlib.Core.Path.{◌≡◌, refl}
use mathlib.Core.Bool.{true, false}
use mathlib.Core.List.{List, [], ◌∷◌, ◌++◌}
use mathlib.Core.Logic.{inl, inr}
use native.Mathlib.Omega.{arith}
use dtp_discovery_agent.Common.Tests.{◌==◌, Bool-cases}
use dtp_discovery_agent.Common.Lists.{All}
use dtp_discovery_agent.Common.Text.{split_runes, on_first}

-- No character of the piece is the separator.
abbrev pub IsFree : ℕ → List Char → Type 0
IsFree n p = All (λ (c : Char). (code c == n) ≡ false) p

on_first-IsFree :
    (n : ℕ) (c : Char) (ps : List (List Char))
    → (code c == n) ≡ false
    → All (IsFree n) ps
    → All (IsFree n) (on_first c ps)
on_first-IsFree n c [] h hs = ((h, tt), tt)
on_first-IsFree n c (p ∷ ps) h hs = ((h, hs.0), hs.1)

pub split_runes-IsFree : (n : ℕ) (cs : List Char) → All (IsFree n) (split_runes n cs)
split_runes-IsFree n [] = (tt, tt)
split_runes-IsFree n (c ∷ cs) =
    let rest = split_runes-IsFree n cs in
    elim (Bool-cases (code c == n)) [
      | inl e ↦ rw e (tt, rest)
      | inr e ↦ rw e (on_first-IsFree n c (split_runes n cs) e rest)
    ]

pub split_runes-free : (n : ℕ) (p : List Char) → IsFree n p → split_runes n p ≡ p ∷ []
split_runes-free n [] h = refl
split_runes-free n (c ∷ cs) h = rw (h.0, split_runes-free n cs h.1) refl

pub split_runes-append :
    (sep : Char) (p rest : List Char)
    → IsFree (code sep) p
    → split_runes (code sep) (p ++ sep ∷ rest) ≡ p ∷ split_runes (code sep) rest
split_runes-append sep [] rest h = let e : (code sep == code sep) ≡ true = ground arith in rw e refl
split_runes-append sep (c ∷ cs) rest h = rw (h.0, split_runes-append sep cs rest h.1) refl
