-- ===== src/Common/Text.antt =====
-- The functions of Go's package strings that the code uses, on a text's characters. A Go string of
-- a configuration file is taken for its characters: the code reads it rune by rune.
pub mod Splitting
pub mod Searching
use Prim.Native.Nat.{ℕ, zero, suc, ◌+◌, ◌-◌}
use Prim.Native.Char.{Char, code}
use Prim.Native.String
use Prim.Native.String.{String}
use mathlib.Core.Path.{◌≡◌, refl, sym, ap, ◌∙◌}
use mathlib.Core.Bool.{Bool, true, false, not, ◌&&◌, ◌||◌}
use mathlib.Core.Option.{Option, none, some}
use mathlib.Core.List.{List, [], ◌∷◌, ◌++◌, map, reverse}
use dtp_discovery_agent.Common.Tests.{ltb, leb, ◌==◌, if◌then◌else◌}
use dtp_discovery_agent.Common.Lists.{length, drop}

-- the characters of a text, and the text of characters, as a strings.Builder makes it
abbrev pub runes : String → List Char
runes String.[] = []
runes (String.◌∷◌ c s) = c ∷ runes s

abbrev pub of_runes : List Char → String
of_runes [] = String.[]
of_runes (c ∷ cs) = String.◌∷◌ c (of_runes cs)

pub runes-of_runes : (cs : List Char) → runes (of_runes cs) ≡ cs
runes-of_runes [] = refl
runes-of_runes (c ∷ cs) = ap (λ t. c ∷ t) (runes-of_runes cs)

pub of_runes-runes : (s : String) → of_runes (runes s) ≡ s
of_runes-runes String.[] = refl
of_runes-runes (String.◌∷◌ c s) = ap (λ t. String.◌∷◌ c t) (of_runes-runes s)

abbrev pub codes : String → List ℕ
codes s = map code (runes s)

-- `xs` begins with the first list
abbrev pub begins : List ℕ → List ℕ → Bool
begins [] xs = true
begins (p ∷ ps) [] = false
begins (p ∷ ps) (x ∷ xs) = (p == x) && begins ps xs

abbrev pub codes_eq : List ℕ → List ℕ → Bool
codes_eq [] [] = true
codes_eq [] (y ∷ ys) = false
codes_eq (x ∷ xs) [] = false
codes_eq (x ∷ xs) (y ∷ ys) = (x == y) && codes_eq xs ys

-- HasPrefix and TrimPrefix
abbrev pub has_prefix : String → String → Bool
has_prefix s p = begins (codes p) (codes s)

abbrev pub trim_prefix : String → String → String
trim_prefix s p = if has_prefix s p then of_runes (drop (length (runes p)) (runes s)) else s

-- HasSuffix and TrimSuffix, of a suffix of one character
abbrev pub drop_last : Char → List Char → List Char
drop_last c [] = []
drop_last c (d ∷ cs) = c ∷ drop_last d cs

abbrev pub ends_in : ℕ → List Char → Bool
ends_in n [] = false
ends_in n (c ∷ []) = code c == n
ends_in n (c ∷ d ∷ cs) = ends_in n (d ∷ cs)

abbrev pub without_last : List Char → List Char
without_last [] = []
without_last (c ∷ cs) = drop_last c cs

abbrev pub trim_suffix : ℕ → List Char → List Char
trim_suffix n cs = if ends_in n cs then without_last cs else cs

-- unicode.IsSpace
abbrev pub is_space : ℕ → Bool
is_space n =
    (leb 9 n && leb n 13)
    || n == 32
    || n == 133
    || n == 160
    || n == 5760
    || (leb 8192 n && leb n 8202)
    || n == 8232
    || n == 8233
    || n == 8239
    || n == 8287
    || n == 12288

abbrev pub skip_spaces : List Char → List Char
skip_spaces [] = []
skip_spaces (c ∷ cs) = let rest = skip_spaces cs in if is_space (code c) then rest else c ∷ cs

-- TrimSpace
abbrev pub trim_runes : List Char → List Char
trim_runes cs = reverse (skip_spaces (reverse (skip_spaces cs)))

abbrev pub trim_space : String → String
trim_space s = of_runes (trim_runes (runes s))

-- Split at a character: the pieces between its occurrences, one more than there are of them.
abbrev pub on_first : Char → List (List Char) → List (List Char)
on_first c [] = (c ∷ []) ∷ []
on_first c (p ∷ ps) = (c ∷ p) ∷ ps

abbrev pub split_runes : ℕ → List Char → List (List Char)
split_runes sep [] = [] ∷ []
split_runes sep (c ∷ cs) =
    let rest = split_runes sep cs in if code c == sep then [] ∷ rest else on_first c rest

abbrev pub split : ℕ → String → List String
split sep s = map of_runes (split_runes sep (runes s))

-- Join with a separator
abbrev pub join : String → List String → String
join sep [] = ""
join sep (x ∷ []) = x
join sep (x ∷ y ∷ ys) = String.◌++◌ x (String.◌++◌ sep (join sep (y ∷ ys)))

-- Fields: the pieces between runs of spaces
abbrev pub nonempty : List (List Char) → List (List Char)
nonempty [] = []
nonempty ([] ∷ ps) = nonempty ps
nonempty ((c ∷ p) ∷ ps) = (c ∷ p) ∷ nonempty ps

abbrev pub split_spaces : List Char → List (List Char)
split_spaces [] = [] ∷ []
split_spaces (c ∷ cs) =
    let rest = split_spaces cs in if is_space (code c) then [] ∷ rest else on_first c rest

abbrev pub fields : String → List String
fields s = map of_runes (nonempty (split_spaces (runes s)))

-- ToLower, where the result is only compared with ASCII: the characters whose lower case is ASCII
-- are A to Z, U+0130 and the Kelvin sign.
abbrev pub lower_code : ℕ → ℕ
lower_code n =
    if leb 65 n && leb n 90 then n + 32 else if n == 304 then 105 else if n == 8490 then 107 else n

abbrev pub lower : String → List ℕ
lower s = map lower_code (codes s)

-- ToUpper, where the result is only compared with ASCII
abbrev pub upper_code : ℕ → ℕ
upper_code n =
    if leb 97 n && leb n 122 then n - 32 else if n == 305 then 73 else if n == 383 then 83 else n

abbrev pub upper : String → List ℕ
upper s = map upper_code (codes s)

-- HasSuffix
abbrev pub ends_with : List ℕ → List ℕ → Bool
ends_with p xs = begins (reverse p) (reverse xs)

-- EqualFold with an ASCII text in lower case: U+017F folds to s, the Kelvin sign to k.
abbrev pub fold_code : ℕ → ℕ
fold_code n =
    if leb 65 n && leb n 90 then n + 32 else if n == 383 then 115 else if n == 8490 then 107 else n

abbrev pub equal_fold : String → String → Bool
equal_fold s low = codes_eq (map fold_code (codes s)) (codes low)

-- Index, as the position among the characters
abbrev pub index_of : List ℕ → List ℕ → Option ℕ
index_of p [] = if begins p [] then some 0 else none
index_of p (x ∷ xs) =
    let later : Option ℕ = elim (index_of p xs) [ none ↦ none | some i ↦ some (suc i) ] in
    if begins p (x ∷ xs) then some 0 else later

abbrev pub has_text : List ℕ → List ℕ → Bool
has_text p xs = elim (index_of p xs) [ none ↦ false | some i ↦ true ]

-- ContainsAny
abbrev pub any_of : List ℕ → ℕ → Bool
any_of [] n = false
any_of (x ∷ xs) n = x == n || any_of xs n

abbrev pub contains_any : List Char → List ℕ → Bool
contains_any [] ns = false
contains_any (c ∷ cs) ns = any_of ns (code c) || contains_any cs ns

-- Cut at a character: what stands before its first occurrence and after it, if it occurs
abbrev pub cut_runes : ℕ → List Char → List Char × Option (List Char)
cut_runes sep [] = ([], none)
cut_runes sep (c ∷ cs) =
    let (before, after) = cut_runes sep cs in
    if code c == sep then ([], some cs) else (c ∷ before, after)
