-- ===== src/Collect/Nginx/Lexing.antt =====
-- What the tokens of a configuration are: written out with every word in quotes, they are read back.
use dtp_discovery_agent.Common.{
  String, ◌≡◌, refl, sym, ap, ◌∙◌, ◌≢◌, inl, inr, true, false, List, [], ◌∷◌, ◌++◌, append-nil,
  append_assoc, arith, ◌==◌, if◌then◌else◌, Bool-cases, All,
}
use Prim.Native.Char.{Char, code}
use dtp_discovery_agent.Common.Text.{runes, of_runes, runes-of_runes, of_runes-runes}
use dtp_discovery_agent.Collect.Nginx.{
  Token, word, semicolon, open_brace, close_brace, Mode, plain, quoted, escaped, Lexer,
  needs_escaping, plainly, step_plain, step_quoted, step, tokenize_from, tokenize,
}

-- A backslash before each character that it escapes.
abbrev pub escape : List Char → List Char
escape [] = []
escape (c ∷ cs) =
    let rest = escape cs in if needs_escaping (code c) then "\\" ∷ c ∷ rest else c ∷ rest

abbrev pub print : List Token → List Char
print [] = []
print (word w ∷ ts) = "\"" ∷ (escape (runes w) ++ "\"" ∷ " " ∷ print ts)
print (semicolon ∷ ts) = ";" ∷ print ts
print (open_brace ∷ ts) = "{" ∷ print ts
print (close_brace ∷ ts) = "}" ∷ print ts

abbrev pub IsWordy : Token → Type 0
IsWordy (word w) = w ≢ ""
IsWordy t = Unit

abbrev in_quotes : List Char → Lexer
in_quotes current = record { mode = quoted 34; current = current }

quoted_step :
    (current : List Char) (c : Char) (cs : List Char)
    → needs_escaping (code c) ≡ false
    → step (quoted 34) cs current c ≡ (in_quotes (current ++ c ∷ []), [])
unfolding step step_quoted needs_escaping
quoted_step current c cs h =
    let a : (code c == b'\\') ≡ false = ground arith in
    let b : (code c == b'"') ≡ false = ground arith in rw (step_quoted, a) (rw b refl)

tokenize_from-step :
    (m : Mode) (current : List Char) (c : Char) (cs : List Char) {l : Lexer} {out : List Token}
    → step m cs current c ≡ (l, out)
    → tokenize_from (record { mode = m; current = current }) (c ∷ cs) ≡ out ++ tokenize_from l cs
unfolding tokenize_from
tokenize_from-step m current c cs e = rw e refl

backslash_step :
    (current : List Char) (c : Char) (cs : List Char)
    → needs_escaping (code c) ≡ true
    → step (quoted 34) (c ∷ cs) current "\\" ≡ (record { mode = escaped 34; current = current }, [])
unfolding step step_quoted
backslash_step current c cs h = rw (step_quoted, h) refl

closing_step :
    (current : List Char) (cs : List Char)
    → step (quoted 34) cs current "\"" ≡ (plainly current, [])
unfolding step step_quoted
closing_step current cs = refl

tokenize_from-escape :
    (current cs rest : List Char)
    → tokenize_from (in_quotes current) (escape cs ++ "\"" ∷ rest)
      ≡ tokenize_from (plainly (current ++ cs)) rest
unfolding step
tokenize_from-escape current [] rest =
    tokenize_from-step (quoted 34) current "\"" rest (closing_step current rest)
    ∙ ap (λ t. tokenize_from (plainly t) rest) (sym (append-nil current))
tokenize_from-escape current (c ∷ cs) rest = elim (Bool-cases (needs_escaping (code c))) [
  | inl e ↦ rw e (
      tokenize_from-step (quoted 34) current "\\" (c ∷ (escape cs ++ "\"" ∷ rest))
        (backslash_step current c (escape cs ++ "\"" ∷ rest) e)
      ∙ tokenize_from-step (escaped 34) current c (escape cs ++ "\"" ∷ rest) refl
      ∙ tokenize_from-escape (current ++ c ∷ []) cs rest
      ∙ ap (λ t. tokenize_from (plainly t) rest) (append_assoc current (c ∷ []) cs))
  | inr e ↦ rw e (
      tokenize_from-step (quoted 34) current c (escape cs ++ "\"" ∷ rest)
        (quoted_step current c (escape cs ++ "\"" ∷ rest) e)
      ∙ tokenize_from-escape (current ++ c ∷ []) cs rest
      ∙ ap (λ t. tokenize_from (plainly t) rest) (append_assoc current (c ∷ []) cs))
]

word_end :
    (w : String) (rest : List Char)
    → w ≢ ""
    → tokenize_from (plainly (runes w)) (" " ∷ rest) ≡ word w ∷ tokenize_from (plainly []) rest
unfolding step step_plain
word_end String.[] rest h = absurd (h refl)
word_end (String.◌∷◌ c s) rest h =
    tokenize_from-step plain (runes (String.◌∷◌ c s)) " " rest refl
    ∙ ap (λ t. word t ∷ tokenize_from (plainly []) rest) (of_runes-runes (String.◌∷◌ c s))

tokenize_from-print :
    (ts : List Token) → All IsWordy ts → tokenize_from (plainly []) (print ts) ≡ ts
unfolding tokenize_from step step_plain
tokenize_from-print [] h = refl
tokenize_from-print (word w ∷ ts) h =
    let after = escape (runes w) ++ "\"" ∷ " " ∷ print ts in
    tokenize_from-step plain [] "\"" after refl
    ∙ tokenize_from-escape [] (runes w) (" " ∷ print ts)
    ∙ word_end w (print ts) h.0
    ∙ ap (λ t. word w ∷ t) (tokenize_from-print ts h.1)
tokenize_from-print (semicolon ∷ ts) h = ap (λ t. semicolon ∷ t) (tokenize_from-print ts h.1)
tokenize_from-print (open_brace ∷ ts) h = ap (λ t. open_brace ∷ t) (tokenize_from-print ts h.1)
tokenize_from-print (close_brace ∷ ts) h = ap (λ t. close_brace ∷ t) (tokenize_from-print ts h.1)

-- Tokens whose words are not empty, written with each word in double quotes and a backslash before
-- quotes, backslashes and dollars, are what nginxTokenize reads back, whatever the words hold.
pub tokenize-print : (ts : List Token) → All IsWordy ts → tokenize (of_runes (print ts)) ≡ ts
unfolding tokenize
tokenize-print ts h = rw (tokenize, runes-of_runes (print ts)) (tokenize_from-print ts h)
