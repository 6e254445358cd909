-- ===== src/Collect/Apache/Fields.antt =====
-- The arguments of a directive, each bare or in quotes, are read back by apacheFields.
use dtp_discovery_agent.Common.{
  ℕ, String, ◌≡◌, refl, sym, ap, ◌∙◌, Bool, true, false, ◌||◌, Option, none, some, List, [], ◌∷◌,
  ◌++◌, map, append-nil, append_assoc, arith, ◌==◌, if◌then◌else◌, All,
}
use Prim.Native.Char.{Char, code}
use dtp_discovery_agent.Common.Text.{of_runes, runes-of_runes}
use dtp_discovery_agent.Collect.Apache.{Fielder, flushed, field_step, fields_from, apache_fields}

abbrev pub is_quote : Char → Bool
is_quote c = code c == b'"' || code c == b'\''

abbrev pub is_gap : Char → Bool
is_gap c = code c == b' ' || code c == b'\t'

abbrev pub IsBare : Char → Type 0
IsBare c = (is_quote c ≡ false) × (is_gap c ≡ false)

abbrev pub IsOther : Char → Char → Type 0
IsOther q c = (code c == code q) ≡ false

-- An argument as it is written: bare, or within a quote.
pub data Written : Type 0 where
  bare : Char → List Char → Written
  quoted : Char → List Char → Written

abbrev pub value : Written → String
value (bare c cs) = of_runes (c ∷ cs)
value (quoted q cs) = of_runes cs

abbrev pub IsWritten : Written → Type 0
IsWritten (bare c cs) = IsBare c × All IsBare cs
IsWritten (quoted q cs) = (is_quote q ≡ true) × All (IsOther q) cs

abbrev pub put : Written → List Char
put (bare c cs) = c ∷ cs
put (quoted q cs) = q ∷ (cs ++ q ∷ [])

-- The arguments on a line, a gap behind each.
abbrev pub put_all : Char → List Written → List Char
put_all gap [] = []
put_all gap (w ∷ ws) = put w ++ gap ∷ put_all gap ws

abbrev at : Option ℕ → Bool → List Char → Fielder
at quote started current = record { quote = quote; started = started; current = current }

fields_from-step :
    (quote : Option ℕ) (started : Bool) (current : List Char) (c : Char) (cs : List Char)
    {f : Fielder} {out : List String}
    → field_step quote started current c ≡ (f, out)
    → fields_from (at quote started current) (c ∷ cs) ≡ out ++ fields_from f cs
unfolding fields_from
fields_from-step quote started current c cs e = rw e refl

bare_step :
    (started : Bool) (current : List Char) (c : Char)
    → IsBare c
    → field_step none started current c ≡ (at none true (current ++ c ∷ []), [])
unfolding field_step
bare_step started current c (q, g) = rw (field_step, q) (rw g refl)

gap_step :
    (started : Bool) (current : List Char) (c : Char)
    → is_quote c ≡ false
    → is_gap c ≡ true
    → field_step none started current c
      ≡ (at none false (if started then [] else current), flushed started current)
unfolding field_step
gap_step started current c q g = rw (field_step, q) (rw g refl)

opening_step :
    (current : List Char) (c : Char)
    → is_quote c ≡ true
    → field_step none false current c ≡ (at (some (code c)) true current, [])
unfolding field_step
opening_step current c q = rw (field_step, q) refl

inner_step :
    (q : Char) (current : List Char) (c : Char)
    → IsOther q c
    → field_step (some (code q)) true current c ≡ (at (some (code q)) true (current ++ c ∷ []), [])
unfolding field_step
inner_step q current c h = rw (field_step, h) refl

closing_step :
    (q : Char) (current : List Char)
    → field_step (some (code q)) true current q ≡ (at none true current, [])
unfolding field_step
closing_step q current = let e : (code q == code q) ≡ true = ground arith in rw (field_step, e) refl

-- The rest of a bare argument.
fields_from-bare :
    (cs rest : List Char) (current : List Char)
    → All IsBare cs
    → fields_from (at none true current) (cs ++ rest)
      ≡ fields_from (at none true (current ++ cs)) rest
fields_from-bare [] rest current h =
    ap (λ t. fields_from (at none true t) rest) (sym (append-nil current))
fields_from-bare (c ∷ cs) rest current h =
    fields_from-step none true current c (cs ++ rest) (bare_step true current c h.0)
    ∙ fields_from-bare cs rest (current ++ c ∷ []) h.1
    ∙ ap (λ t. fields_from (at none true t) rest) (append_assoc current (c ∷ []) cs)

-- The rest of a quoted one, its closing quote included.
fields_from-quoted :
    (q : Char) (cs rest : List Char) (current : List Char)
    → All (IsOther q) cs
    → fields_from (at (some (code q)) true current) (cs ++ q ∷ rest)
      ≡ fields_from (at none true (current ++ cs)) rest
fields_from-quoted q [] rest current h =
    fields_from-step (some (code q)) true current q rest (closing_step q current)
    ∙ ap (λ t. fields_from (at none true t) rest) (sym (append-nil current))
fields_from-quoted q (c ∷ cs) rest current h =
    fields_from-step (some (code q)) true current c (cs ++ q ∷ rest) (inner_step q current c h.0)
    ∙ fields_from-quoted q cs rest (current ++ c ∷ []) h.1
    ∙ ap (λ t. fields_from (at none true t) rest) (append_assoc current (c ∷ []) cs)

-- One written argument, up to the gap behind it.
fields_from-put :
    (w : Written) (rest : List Char)
    → IsWritten w
    → (cs : List Char) × (of_runes cs ≡ value w)
      × (fields_from (at none false []) (put w ++ rest) ≡ fields_from (at none true cs) rest)
fields_from-put (bare c cs) rest (h, hs) = (
  c ∷ cs,
  refl,
  fields_from-step none false [] c (cs ++ rest) (bare_step false [] c h)
      ∙ fields_from-bare cs rest (c ∷ []) hs,
)
fields_from-put (quoted q cs) rest (h, hs) = (
  cs,
  refl,
  ap (λ t. fields_from (at none false []) (q ∷ t)) (append_assoc cs (q ∷ []) rest)
      ∙ fields_from-step none false [] q (cs ++ q ∷ rest) (opening_step [] q h)
      ∙ fields_from-quoted q cs rest [] hs,
)

fields_from-put_all :
    (gap : Char) (ws : List Written)
    → is_quote gap ≡ false
    → is_gap gap ≡ true
    → All IsWritten ws
    → fields_from (at none false []) (put_all gap ws) ≡ map value ws
unfolding fields_from
fields_from-put_all gap [] n g h = refl
fields_from-put_all gap (w ∷ ws) n g h =
    let (cs, v, e) = fields_from-put w (gap ∷ put_all gap ws) h.0 in
    let own = fields_from-put_all gap ws n g h.1 in
    e
    ∙ fields_from-step none true cs gap (put_all gap ws) (gap_step true cs gap n g)
    ∙ ap (λ t. t ∷ fields_from (at none false []) (put_all gap ws)) v
    ∙ ap (λ t. value w ∷ t) own

-- Arguments written one behind the other, with a space or a tab behind each, bare where they are not
-- empty and hold neither quote, space nor tab, or else within a quote of either kind that they do
-- not hold, empty ones included, are what apacheFields reads.
pub apache_fields-put_all :
    (gap : Char) (ws : List Written)
    → is_quote gap ≡ false
    → is_gap gap ≡ true
    → All IsWritten ws
    → apache_fields (of_runes (put_all gap ws)) ≡ map value ws
unfolding apache_fields
apache_fields-put_all gap ws n g h =
    rw (apache_fields, runes-of_runes (put_all gap ws)) (fields_from-put_all gap ws n g h)
