-- ===== src/Parse/Chain/Indexing.antt =====
-- NewStore: the index holds each certificate of the input once, by its DER, up to the limit.
use dtp_discovery_agent.Common.{
  ℕ, String, ◌≤◌, ◌≡◌, ◌≢◌, refl, Bool, true, false, Option, none, some, List, [], ◌∷◌, ◌++◌, ◌||◌,
  arith, ◌==◌, All, All-append, Option-cases, Bool-cases, inl, inr, length, length-append, str_eq,
  eq_iff,
}
use dtp_discovery_agent.Parse.Certificate.{World, may_issue}
use dtp_discovery_agent.Parse.Chain.{
  Index, has, update, insert, add_certificate, add_all, empty_index, new_store,
  max_certificates_per_store,
}
use dtp_discovery_agent.Parse.Chain.Links.{IsIndexed}

abbrev pub Distinct : List ℕ → Type 0
Distinct [] = Unit
Distinct (p ∷ ps) = (has ps p ≡ false) × Distinct ps

has-append : (ps : List ℕ) (q p : ℕ) → has (ps ++ q ∷ []) p ≡ has ps p || q == p
has-append [] q p = ground arith
has-append (x ∷ ps) q p = ground (arith, has-append ps q p)

Distinct-append : (ps : List ℕ) (q : ℕ) → Distinct ps → has ps q ≡ false → Distinct (ps ++ q ∷ [])
Distinct-append [] q d h = (refl, tt)
Distinct-append (p ∷ ps) q d h =
    (ground (arith, has-append ps q p), Distinct-append ps q d.1 (ground arith))

module _ (w : World) where
  open w use {certificate}

  -- each item is the one copy of its DER
  abbrev pub IsCanonical : (String → Option ℕ) → List ℕ → Type 0
  IsCanonical canonical = All (λ p. canonical (certificate p).raw ≡ some p)

  pub record IsWellFormed (x : Index) : Type 0 where
    pub indexed : IsIndexed w x
    pub copies : IsCanonical x.canonical x.all
    pub distinct : Distinct x.all
    pub held :
        (j : String) (q : ℕ)
        → x.canonical j ≡ some q
        → (has x.all q ≡ true) × ((certificate q).raw ≡ j)
    pub bounded : length x.all ≤ max_certificates_per_store

  IsCanonical-update :
      (canonical : String → Option ℕ) (ps : List ℕ) (q : ℕ)
      → canonical (certificate q).raw ≡ none
      → IsCanonical canonical ps
      → IsCanonical (update canonical (certificate q).raw (some q)) ps
  IsCanonical-update canonical [] q e h = tt
  IsCanonical-update canonical (p ∷ ps) q e h = (
    ground (arith, eq_iff (certificate q).raw (certificate p).raw),
    IsCanonical-update canonical ps q e h.1,
  )

  absent :
      (canonical : String → Option ℕ) (ps : List ℕ) (q : ℕ)
      → canonical (certificate q).raw ≡ none
      → IsCanonical canonical ps
      → has ps q ≡ false
  absent canonical [] q e h = refl
  absent canonical (p ∷ ps) q e h = ground (arith, absent canonical ps q e h.1)

  insert-IsIndexed : (p : ℕ) (x : Index) → IsIndexed w x → IsIndexed w (insert w p x)
  unfolding insert
  insert-IsIndexed p x h n = elim (Bool-cases (may_issue (certificate p))) [
    | inl m ↦ rw m (elim (Bool-cases (str_eq (certificate p).raw_subject n)) [
      | inl e ↦
          let same = (eq_iff (certificate p).raw_subject n).0 e in
          rw e (rw same (All-append _ (x.by_subject n) (p ∷ []) (h n) ((same, m), tt)))
      | inr e ↦ rw e (h n)
    ])
    | inr m ↦ rw m (h n)
  ]

  insert-IsWellFormed :
      (p : ℕ) (x : Index)
      → x.canonical (certificate p).raw ≡ none
      → (length x.all == max_certificates_per_store) ≡ false
      → IsWellFormed x
      → IsWellFormed (insert w p x)
  unfolding insert
  insert-IsWellFormed p x new room h = record {
    indexed = insert-IsIndexed p x h.indexed;
    copies =
        All-append _ x.all (p ∷ []) (IsCanonical-update x.canonical x.all p new h.copies)
          (ground (arith, eq_iff (certificate p).raw (certificate p).raw), tt);
    distinct = Distinct-append x.all p h.distinct (absent x.canonical x.all p new h.copies);
    held = λ j q e. ground (arith, eq_iff (certificate p).raw j, has-append x.all p q, h.held j q);
    bounded = ground (arith, length-append x.all (p ∷ []), h.bounded);
  }

  add_certificate-IsWellFormed :
      (c : Option ℕ) (x : Index) (cut : Bool)
      → IsWellFormed x
      → IsWellFormed (add_certificate w c (x, cut)).0
  unfolding add_certificate
  add_certificate-IsWellFormed none x cut h = h
  add_certificate-IsWellFormed (some p) x cut h =
      elim (Option-cases (x.canonical (certificate p).raw)) [
        | inl e ↦
            rw (e, add_certificate)
              (elim (Bool-cases (length x.all == max_certificates_per_store)) [
                | inl full ↦ rw full h
                | inr room ↦ rw room (insert-IsWellFormed p x e room h)
              ])
        | inr (q, e) ↦ rw (e, add_certificate) h
      ]

  add_all-IsWellFormed :
      (cs : List (Option ℕ)) (x : Index) (cut : Bool)
      → IsWellFormed x
      → IsWellFormed (add_all w cs (x, cut)).0
  unfolding add_all
  add_all-IsWellFormed [] x cut h = h
  add_all-IsWellFormed (c ∷ cs) x cut h =
      let (x', cut') = add_certificate w c (x, cut) in
      add_all-IsWellFormed cs x' cut' (add_certificate-IsWellFormed c x cut h)

  -- Whatever the input, a new store's index names as issuers only certificates that may issue and
  -- bear the name, holds one copy of each DER and no certificate twice, finds by a DER only a
  -- certificate it holds with that DER, and has at most `max_certificates_per_store` of them.
  pub new_store-IsWellFormed :
      (now left polls : ℕ) (certs issuers : List (Option ℕ))
      → IsWellFormed (new_store w now left polls certs issuers).index
  unfolding new_store
  new_store-IsWellFormed now left polls certs issuers =
      let (x, cut) = add_all w certs (empty_index now, false) in
      let h = add_all-IsWellFormed certs (empty_index now) false (record {
        indexed = λ n. tt;
        copies = tt;
        distinct = tt;
        held = λ j q e. cc;
        bounded = omega arith;
      }) in
      add_all-IsWellFormed issuers (record x { ours = length x.all }) cut
        (record {
          indexed = h.indexed;
          copies = h.copies;
          distinct = h.distinct;
          held = h.held;
          bounded = h.bounded;
        })

  -- the index has a copy of it
  abbrev pub IsKnown : Index → Option ℕ → Type 0
  IsKnown x none = Unit
  IsKnown x (some p) = x.canonical (certificate p).raw ≢ none

  -- what the index knows stays known, and a truncation stays said
  record Grows (x : Index) (cut : Bool) (y : Index) (cut' : Bool) : Type 0 where
    known : (j : String) → x.canonical j ≢ none → y.canonical j ≢ none
    said : cut' ≡ false → cut ≡ false

  add_certificate-Grows :
      (c : Option ℕ) (x : Index) (cut : Bool)
      → Grows x cut (add_certificate w c (x, cut)).0 (add_certificate w c (x, cut)).1
  unfolding add_certificate insert
  add_certificate-Grows none x cut = record { known = λ j h. h; said = λ h. h }
  add_certificate-Grows (some p) x cut = record {
    known = λ j h e. ground arith;
    said = λ h. ground arith;
  }

  add_all-Grows :
      (cs : List (Option ℕ)) (x : Index) (cut : Bool)
      → Grows x cut (add_all w cs (x, cut)).0 (add_all w cs (x, cut)).1
  unfolding add_all
  add_all-Grows [] x cut = record { known = λ j h. h; said = λ h. h }
  add_all-Grows (c ∷ cs) x cut =
      let (x', cut') = add_certificate w c (x, cut) in
      let first = add_certificate-Grows c x cut in
      let later = add_all-Grows cs x' cut' in
      record {
        known = λ j h. later.known j (first.known j h);
        said = λ h. first.said (later.said h);
      }

  add_certificate-IsKnown :
      (c : Option ℕ) (x : Index) (cut : Bool)
      → (add_certificate w c (x, cut)).1 ≡ false
      → IsKnown (add_certificate w c (x, cut)).0 c
  unfolding add_certificate insert
  add_certificate-IsKnown none x cut h = tt
  add_certificate-IsKnown (some p) x cut h =
      λ e. ground (arith, eq_iff (certificate p).raw (certificate p).raw)

  IsKnown-Grows :
      (c : Option ℕ) (x : Index) (cut : Bool) (y : Index) (cut' : Bool)
      → Grows x cut y cut'
      → IsKnown x c
      → IsKnown y c
  IsKnown-Grows none x cut y cut' g h = tt
  IsKnown-Grows (some p) x cut y cut' g h = g.known (certificate p).raw h

  add_all-IsKnown :
      (cs : List (Option ℕ)) (x : Index) (cut : Bool)
      → (add_all w cs (x, cut)).1 ≡ false
      → All (IsKnown (add_all w cs (x, cut)).0) cs
  unfolding add_all
  add_all-IsKnown [] x cut h = tt
  add_all-IsKnown (c ∷ cs) x cut h =
      let (x', cut') = add_certificate w c (x, cut) in
      let later = add_all-Grows cs x' cut' in
      (
        IsKnown-Grows c x' cut' (add_all w cs (x', cut')).0 (add_all w cs (x', cut')).1 later
            (add_certificate-IsKnown c x cut (later.said h)),
        add_all-IsKnown cs x' cut' h,
      )

  All-Grows :
      (cs : List (Option ℕ)) (x : Index) (cut : Bool) (y : Index) (cut' : Bool)
      → Grows x cut y cut'
      → All (IsKnown x) cs
      → All (IsKnown y) cs
  All-Grows [] x cut y cut' g h = tt
  All-Grows (c ∷ cs) x cut y cut' g h =
      (IsKnown-Grows c x cut y cut' g h.0, All-Grows cs x cut y cut' g h.1)

  -- A new store that does not say it was truncated has a copy of every certificate it was given,
  -- of the input and of the extra issuers.
  pub new_store_complete :
      (now left polls : ℕ) (certs issuers : List (Option ℕ))
      → (new_store w now left polls certs issuers).work.short.truncated ≡ false
      → All (IsKnown (new_store w now left polls certs issuers).index) certs
        × All (IsKnown (new_store w now left polls certs issuers).index) issuers
  unfolding new_store
  new_store_complete now left polls certs issuers h =
      let (x, cut) = add_all w certs (empty_index now, false) in
      let x' : Index = record x { ours = length x.all } in
      let (y, cut') = add_all w issuers (x', cut) in
      let g = add_all-Grows issuers x' cut in
      (
        All-Grows certs x' cut y cut' g (add_all-IsKnown certs (empty_index now) false (g.said h)),
        add_all-IsKnown issuers x' cut h,
      )
