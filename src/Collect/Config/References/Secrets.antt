-- ===== src/Collect/Config/References/Secrets.antt =====
-- What withoutPins leaves of a PKCS#11 URI, read again as a token library reads it.
use dtp_discovery_agent.Common.{
  ℕ, String, ◌≡◌, refl, ap, ◌∙◌, ◌⊎◌, inl, inr, true, false, not, ◌||◌, Option, none, some, List,
  [], ◌∷◌, Bool-cases, Option-cases, All, arith,
}
use Prim.Native.Char.{Char, code}
use dtp_discovery_agent.Common.Text.{
  split_runes, cut_runes, of_runes, codes, codes_eq, lower, trim_space, has_text,
}
use dtp_discovery_agent.Common.Text.Searching.{
  IsIn, codes_eq_sound, has_text_sound, has_text_complete,
}
use dtp_discovery_agent.Common.Text.Splitting.{
  IsFree, split_runes-IsFree, split_runes-free, split_runes-append,
}
use dtp_discovery_agent.Collect.Config.References.{
  join_runes, is_pin, is_public, is_kept, kept, without_pins,
}

pub split_runes-join_runes :
    (sep : Char) (p : List Char) (ps : List (List Char))
    → All (IsFree (code sep)) (p ∷ ps)
    → split_runes (code sep) (join_runes sep (p ∷ ps)) ≡ p ∷ ps
unfolding join_runes
split_runes-join_runes sep p [] h = split_runes-free (code sep) p h.0
split_runes-join_runes sep p (q ∷ ps) h =
    split_runes-append sep p (join_runes sep (q ∷ ps)) h.0
    ∙ ap (λ t. p ∷ t) (split_runes-join_runes sep q ps h.1)

-- The pieces of an empty text, where there are none.
abbrev pub or_empty : List (List Char) → List (List Char)
or_empty [] = [] ∷ []
or_empty (p ∷ ps) = p ∷ ps

module _ (path_unescape : String → Option String) where
  kept-IsFree :
      (n : ℕ) (ps : List (List Char)) → All (IsFree n) ps → All (IsFree n) (kept path_unescape ps)
  unfolding kept
  kept-IsFree n [] h = tt
  kept-IsFree n (p ∷ ps) h =
      let rest = kept-IsFree n ps h.1 in
      elim (Bool-cases (is_kept path_unescape p)) [
        | inl e ↦ rw (kept, e) (h.0, rest)
        | inr e ↦ rw (kept, e) rest
      ]

  abbrev pub IsPinName : List ℕ → Type 0
  IsPinName name = (name ≡ codes "pin-value") ⊎ (name ≡ codes "pin-source")

  abbrev pub name_of : List Char → String
  name_of attr = of_runes (cut_runes b'=' attr).0

  -- An attribute gives a PIN away: its name, which stands before the first `=`, decodes to
  -- pin-value or pin-source, in any case and between spaces; or it does not decode and mentions
  -- a pin.
  abbrev pub NamesPin : List Char → Type 0
  NamesPin attr =
      ((decoded : String) × (path_unescape (name_of attr) ≡ some decoded)
        × IsPinName (lower (trim_space decoded)))
      ⊎ ((path_unescape (name_of attr) ≡ none)
          × IsIn (codes "pin") (lower (trim_space (name_of attr))))

  -- The second list is the first without its empty attributes and those that give a PIN away.
  pub data Stripped : List (List Char) → List (List Char) → Type 0 where
    stripped : Stripped [] []
    drop_empty : {ps qs : List (List Char)} → Stripped ps qs → Stripped ([] ∷ ps) qs
    drop_pin :
        {p : List Char} {ps qs : List (List Char)}
        → NamesPin p
        → Stripped ps qs
        → Stripped (p ∷ ps) qs
    keep :
        {p : List Char} {ps qs : List (List Char)}
        → ¬ (p ≡ [])
        → ¬ NamesPin p
        → Stripped ps qs
        → Stripped (p ∷ ps) (p ∷ qs)

  is_pin_sound : (name : List ℕ) → is_pin path_unescape name ≡ true → IsPinName name
  is_pin_sound name e = elim (Bool-cases (codes_eq name (codes "pin-value"))) [
    | inl q ↦ inl (codes_eq_sound name (codes "pin-value") q)
    | inr q ↦ inr (codes_eq_sound name (codes "pin-source") (rw q at e))
  ]

  is_pin_complete : (name : List ℕ) → IsPinName name → is_pin path_unescape name ≡ true
  is_pin_complete name (inl e) = rw e refl
  is_pin_complete name (inr e) = rw e refl

  PinName-IsIn : (name : List ℕ) → IsPinName name → IsIn (codes "pin") name
  PinName-IsIn name (inl e) = ([], codes "-value", e)
  PinName-IsIn name (inr e) = ([], codes "-source", e)

  is_public-pin : (attr : List Char) → is_public path_unescape attr ≡ false → NamesPin attr
  unfolding is_public
  is_public-pin attr e =
      let name = name_of attr in
      elim (Option-cases (path_unescape name)) [
        | inl q ↦
            let read = lower (trim_space name) in
            let gone : not (has_text (codes "pin") read || is_pin path_unescape read) ≡ false =
              rw (is_public, q) at e in
            inr (
              q,
              elim (Bool-cases (has_text (codes "pin") read)) [
                | inl h ↦ has_text_sound (codes "pin") read h
                | inr h ↦ PinName-IsIn read (is_pin_sound read (ground arith))
              ],
            )
        | inr (decoded, q) ↦
            let read = lower (trim_space decoded) in
            let gone : not (is_pin path_unescape read) ≡ false = rw (is_public, q) at e in
            inl (decoded, q, is_pin_sound read (ground arith))
      ]

  pin-is_public : (attr : List Char) → is_public path_unescape attr ≡ true → ¬ NamesPin attr
  unfolding is_public
  pin-is_public attr e (inl (decoded, q, pin)) =
      let read = lower (trim_space decoded) in
      let gone : not (is_pin path_unescape read) ≡ true = rw (is_public, q) at e in
      let found = is_pin_complete read pin in absurd (let f : false ≡ true = rw found at gone in cc)
  pin-is_public attr e (inr (q, pin)) =
      let read = lower (trim_space (name_of attr)) in
      let gone : not (has_text (codes "pin") read || is_pin path_unescape read) ≡ true =
        rw (is_public, q) at e in
      let found = has_text_complete (codes "pin") read pin in
      absurd (let f : false ≡ true = rw found at gone in cc)

  kept-Stripped : (ps : List (List Char)) → Stripped ps (kept path_unescape ps)
  unfolding kept
  kept-Stripped [] = stripped
  kept-Stripped ([] ∷ ps) = drop_empty (kept-Stripped ps)
  kept-Stripped ((c ∷ cs) ∷ ps) = elim (Bool-cases (is_public path_unescape (c ∷ cs))) [
    | inl e ↦ rw (kept, e) (keep (λ q. absurd cc) (pin-is_public (c ∷ cs) e) (kept-Stripped ps))
    | inr e ↦ rw (kept, e) (drop_pin (is_public-pin (c ∷ cs) e) (kept-Stripped ps))
  ]

  split_runes-join_kept :
      (sep : Char) (ps : List (List Char))
      → All (IsFree (code sep)) ps
      → split_runes (code sep) (join_runes sep ps) ≡ or_empty ps
  unfolding join_runes
  split_runes-join_kept sep [] h = refl
  split_runes-join_kept sep (p ∷ ps) h = split_runes-join_runes sep p ps h

  -- Cut again at its separator, what withoutPins returns has just the attributes of its input that
  -- are not empty and give no PIN away, in their order: those whose name, percent-decoded, trimmed
  -- and in lower case, is neither pin-value nor pin-source, or does not decode and has no "pin".
  pub split_runes-without_pins :
      (sep : Char) (part : List Char)
      → (attrs : List (List Char)) × (split_runes (code sep) (without_pins path_unescape sep part)
          ≡ or_empty attrs)
        × Stripped (split_runes (code sep) part) attrs
  unfolding without_pins
  split_runes-without_pins sep part =
      let pieces = split_runes (code sep) part in
      (
        kept path_unescape pieces,
        split_runes-join_kept sep (kept path_unescape pieces)
            (kept-IsFree (code sep) pieces (split_runes-IsFree (code sep) part)),
        kept-Stripped pieces,
      )
