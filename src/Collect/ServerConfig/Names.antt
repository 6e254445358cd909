-- ===== src/Collect/ServerConfig/Names.antt =====
-- The names that ServerNamesFrom hands to the listeners.
use dtp_discovery_agent.Common.{
  String, ◌≡◌, refl, ap, ◌∙◌, Bool, true, false, not, ◌&&◌, ◌||◌, List, [], ◌∷◌, ◌++◌, inl, inr,
  arith, str_eq, eq_iff, contains, if◌then◌else◌, Bool-cases,
}
use dtp_discovery_agent.Common.Text.{runes, codes, contains_any, fields}
use dtp_discovery_agent.Common.Sorting.{insert_by, sort_by, string_le, sort_strings}
use dtp_discovery_agent.Collect.Result.{Observation, Result}
use dtp_discovery_agent.Collect.Config.Reader.{source_server_config}
use dtp_discovery_agent.Collect.ServerConfig.{
  at_key, add_server_name, add_server_names, names_of, names_from, server_names_from,
}

-- a name that SNI can carry
unfoldable pub is_sni : String → Bool
is_sni n = not (str_eq n "" || (str_eq n "_" || contains_any (runes n) (codes "*~^$ ")))

abbrev pub observation_mentions : String → Observation → Bool
observation_mentions n o =
    contains (fields (at_key o.binding "server_names")) n
    || str_eq (at_key o.binding "server_name") n

abbrev pub any_mentions : String → List Observation → Bool
any_mentions n [] = false
any_mentions n (o ∷ os) = observation_mentions n o || any_mentions n os

-- whether a site of a configuration is recorded with this name
abbrev pub mentioned : String → List Result → Bool
mentioned n [] = false
mentioned n (r ∷ rs) =
    (str_eq r.source source_server_config && any_mentions n r.observations) || mentioned n rs

contains-append :
    (xs : List String) (x n : String) → contains (xs ++ x ∷ []) n ≡ contains xs n || str_eq x n
contains-append [] x n = ground arith
contains-append (y ∷ ys) x n = ground (arith, contains-append ys x n)

contains-insert_by :
    (x : String) (xs : List String) (n : String)
    → contains (insert_by string_le x xs) n ≡ str_eq x n || contains xs n
unfolding insert_by
contains-insert_by x [] n = refl
contains-insert_by x (y ∷ ys) n = elim (Bool-cases (string_le x y)) [
  | inl e ↦ rw (insert_by, e) refl
  | inr e ↦ let own = contains-insert_by x ys n in rw (insert_by, e) (ground arith)
]

contains-sort_strings :
    (xs : List String) (n : String) → contains (sort_strings xs) n ≡ contains xs n
unfolding sort_by
contains-sort_strings [] n = refl
contains-sort_strings (x ∷ xs) n =
    contains-insert_by x (sort_strings xs) n
    ∙ ap (λ t. str_eq x n || t) (contains-sort_strings xs n)

same : (f : String → Bool) (a n : String) → str_eq a n ≡ true → f a ≡ f n
same f a n e = ap f ((eq_iff a n).0 e)

spread :
    (known sni listed named later : Bool)
    → (((known || (sni && listed)) || (sni && named)) || (sni && later))
      ≡ (known || (sni && ((listed || named) || later)))
spread known sni listed named later = ground arith

regroup : (b c d e : Bool) → (b || (c || (d || e))) ≡ (d || not (not (b || (c || e))))
regroup b c d e = ground arith

add_server_name_lem :
    (names : List String) (a : String)
    → add_server_name names a
      ≡ (if contains names a || not (is_sni a) then names else names ++ a ∷ [])
unfolding add_server_name is_sni
add_server_name_lem names a =
    ap (λ t. if t then names else names ++ a ∷ [])
      (regroup (str_eq a "") (str_eq a "_") (contains names a)
        (contains_any (runes a) (codes "*~^$ ")))

contains-add_server_name :
    (names : List String) (a n : String)
    → contains (add_server_name names a) n ≡ contains names n || (is_sni n && str_eq a n)
contains-add_server_name names a n = elim (Bool-cases (str_eq a n)) [
  | inl e ↦
      let known = same (contains names) a n e in
      let sni = same is_sni a n e in
      elim (Bool-cases (contains names a || not (is_sni a))) [
        | inl q ↦ rw (add_server_name_lem names a, q) (ground arith)
        | inr q ↦
            rw (add_server_name_lem names a, q) (rw (contains-append names a n) (ground arith))
      ]
  | inr e ↦ elim (Bool-cases (contains names a || not (is_sni a))) [
    | inl q ↦ rw (add_server_name_lem names a, q) (ground arith)
    | inr q ↦ rw (add_server_name_lem names a, q) (rw (contains-append names a n) (ground arith))
  ]
]

contains-add_server_names :
    (names ns : List String) (n : String)
    → contains (add_server_names names ns) n ≡ contains names n || (is_sni n && contains ns n)
unfolding add_server_names
contains-add_server_names names [] n = ground arith
contains-add_server_names names (a ∷ ns) n =
    let own = contains-add_server_names (add_server_name names a) ns n in
    let added = contains-add_server_name names a n in
    own ∙ ap (λ t. t || (is_sni n && contains ns n)) added ∙ ground arith

contains-names_of :
    (os : List Observation) (names : List String) (n : String)
    → contains (names_of os names) n ≡ contains names n || (is_sni n && any_mentions n os)
unfolding names_of
contains-names_of [] names n = ground arith
contains-names_of (o ∷ os) names n =
    let listed = add_server_names names (fields (at_key o.binding "server_names")) in
    let name = at_key o.binding "server_name" in
    contains-names_of os (add_server_name listed name) n
    ∙ ap (λ t. t || (is_sni n && any_mentions n os))
        (contains-add_server_name listed name n
          ∙ ap (λ t. t || (is_sni n && str_eq name n))
              (contains-add_server_names names (fields (at_key o.binding "server_names")) n))
    ∙ spread (contains names n) (is_sni n) (contains (fields (at_key o.binding "server_names")) n)
        (str_eq name n) (any_mentions n os)

contains-names_from :
    (rs : List Result) (names : List String) (n : String)
    → contains (names_from rs names) n ≡ contains names n || (is_sni n && mentioned n rs)
unfolding names_from
contains-names_from [] names n = ground arith
contains-names_from (r ∷ rs) names n = elim (Bool-cases (str_eq r.source source_server_config)) [
  | inl e ↦
      let own = contains-names_from rs (names_of r.observations names) n in
      let here = contains-names_of r.observations names n in
      rw (names_from, e) (own ∙ ap (λ t. t || (is_sni n && mentioned n rs)) here ∙ ground arith)
  | inr e ↦ rw (names_from, e) (contains-names_from rs names n)
]

-- A name is among those that ServerNamesFrom returns exactly if it is one that SNI can carry, not
-- empty, not "_", and with none of * ~ ^ $ and space in it, and some observation of the server
-- configurations' collector has it as its server_name or as a word of its server_names.
pub contains-server_names_from :
    (results : List Result) (n : String)
    → contains (server_names_from results) n ≡ is_sni n && mentioned n results
unfolding server_names_from
contains-server_names_from results n =
    contains-sort_strings (names_from results []) n ∙ contains-names_from results [] n
