-- ===== src/Parse/Chain/Filing.antt =====
-- The maps of NewStore's index, read off the certificates it holds and those off its input: the
-- same index, built without a map.
use dtp_discovery_agent.Common.{
  ℕ, String, ◌≡◌, refl, ap, ◌∙◌, Bool, false, ◌&&◌, Option, none, some, List, [], ◌∷◌, ◌++◌, arith,
  ◌==◌, Option-cases, Bool-cases, inl, inr, length, append-nil, str_eq, eq_iff, if◌then◌else◌,
}
use mathlib.Core.Path.{fun_ext}
use dtp_discovery_agent.Parse.Certificate.{World, may_issue}
use dtp_discovery_agent.Parse.Chain.{
  Index, update, insert, add_certificate, add_all, empty_index, new_store,
  max_certificates_per_store,
}

module _ (w : World) where
  open w use {certificate}

  -- the certificate of a list with this DER
  unfoldable pub copy_in : List ℕ → String → Option ℕ
  copy_in [] der = none
  copy_in (p ∷ ps) der =
      let rest = copy_in ps der in if str_eq (certificate p).raw der then some p else rest

  -- those of a list that bear a name and may issue
  unfoldable pub issuers_in : List ℕ → String → List ℕ
  issuers_in [] name = []
  issuers_in (p ∷ ps) name =
      let rest = issuers_in ps name in
      if may_issue (certificate p) && str_eq (certificate p).raw_subject name
      then p ∷ rest
      else rest

  -- those of a list that name this issuer
  unfoldable pub issued_in : List ℕ → String → List ℕ
  issued_in [] name = []
  issued_in (p ∷ ps) name =
      let rest = issued_in ps name in
      if str_eq (certificate p).raw_issuer name then p ∷ rest else rest

  -- the index of the certificates of a list, of which the first `ours` are no extra issuers
  abbrev pub filed : ℕ → ℕ → List ℕ → Index
  filed now ours ps = record {
    now = now;
    all = ps;
    ours = ours;
    canonical = copy_in ps;
    by_subject = issuers_in ps;
    by_issuer = issued_in ps;
  }

  -- A list with one more of the input, unless its DER is there or the list is full.
  unfoldable pub joined_by : List ℕ → Option ℕ → List ℕ
  joined_by ps none = ps
  joined_by ps (some p) = elim (copy_in ps (certificate p).raw) [
    | some _ ↦ ps
    | none ↦ if length ps == max_certificates_per_store then ps else ps ++ p ∷ []
  ]

  -- The first copy of each DER of an input, behind those of a list, as far as the limit allows.
  unfoldable pub gathered : List ℕ → List (Option ℕ) → List ℕ
  gathered ps [] = ps
  gathered ps (c ∷ cs) = gathered (joined_by ps c) cs

  copy_in-append :
      (ps : List ℕ) (p : ℕ)
      → copy_in ps (certificate p).raw ≡ none
      → (der : String)
      → update (copy_in ps) (certificate p).raw (some p) der ≡ copy_in (ps ++ p ∷ []) der
  unfolding copy_in
  copy_in-append [] p e der = refl
  copy_in-append (q ∷ ps) p e der = ground (
    arith,
    copy_in-append ps p (ground arith) der,
    eq_iff (certificate q).raw der,
    eq_iff (certificate p).raw der,
    eq_iff (certificate q).raw (certificate p).raw,
  )

  issuers_in-append :
      (ps : List ℕ) (p : ℕ) (name : String)
      → issuers_in (ps ++ p ∷ []) name
        ≡ issuers_in ps name
          ++ (if may_issue (certificate p) && str_eq (certificate p).raw_subject name
              then p ∷ []
              else [])
  unfolding issuers_in
  issuers_in-append [] p name = refl
  issuers_in-append (q ∷ ps) p name = ground (arith, issuers_in-append ps p name)

  issued_in-append :
      (ps : List ℕ) (p : ℕ) (name : String)
      → issued_in (ps ++ p ∷ []) name
        ≡ issued_in ps name ++ (if str_eq (certificate p).raw_issuer name then p ∷ [] else [])
  unfolding issued_in
  issued_in-append [] p name = refl
  issued_in-append (q ∷ ps) p name = ground (arith, issued_in-append ps p name)

  issuers_in-insert :
      (ps : List ℕ) (p : ℕ) (name : String)
      → (if may_issue (certificate p)
            then update
                (issuers_in ps)
                (certificate p).raw_subject
                (issuers_in ps (certificate p).raw_subject ++ p ∷ [])
            else issuers_in ps)
          name
        ≡ issuers_in (ps ++ p ∷ []) name
  issuers_in-insert ps p name = ground (
    arith,
    issuers_in-append ps p name,
    append-nil (issuers_in ps name),
    eq_iff (certificate p).raw_subject name,
  )

  issued_in-insert :
      (ps : List ℕ) (p : ℕ) (name : String)
      → update
          (issued_in ps)
          (certificate p).raw_issuer
          (issued_in ps (certificate p).raw_issuer ++ p ∷ [])
          name
        ≡ issued_in (ps ++ p ∷ []) name
  issued_in-insert ps p name = ground (
    arith,
    issued_in-append ps p name,
    append-nil (issued_in ps name),
    eq_iff (certificate p).raw_issuer name,
  )

  filed-insert :
      (now ours : ℕ) (ps : List ℕ) (p : ℕ)
      → copy_in ps (certificate p).raw ≡ none
      → insert w p (filed now ours ps) ≡ filed now ours (ps ++ p ∷ [])
  unfolding insert
  filed-insert now ours ps p new =
      let c = fun_ext (copy_in-append ps p new) in
      let subject = (certificate p).raw_subject in
      let issuer = (certificate p).raw_issuer in
      let grown =
        if may_issue (certificate p)
        then update (issuers_in ps) subject (issuers_in ps subject ++ p ∷ [])
        else issuers_in ps in
      let s : grown ≡ issuers_in (ps ++ p ∷ []) = fun_ext (λ name. issuers_in-insert ps p name) in
      let i : update (issued_in ps) issuer (issued_in ps issuer ++ p ∷ [])
          ≡ issued_in (ps ++ p ∷ []) =
        fun_ext (λ name. issued_in-insert ps p name) in
      λ k. record {
        now = now;
        all = ps ++ p ∷ [];
        ours = ours;
        canonical = c k;
        by_subject = s k;
        by_issuer = i k;
      }

  filed-add_certificate :
      (now ours : ℕ) (ps : List ℕ) (c : Option ℕ) (cut : Bool)
      → (add_certificate w c (filed now ours ps, cut)).0 ≡ filed now ours (joined_by ps c)
  unfolding add_certificate joined_by
  filed-add_certificate now ours ps none cut = refl
  filed-add_certificate now ours ps (some p) cut =
      elim (Option-cases (copy_in ps (certificate p).raw)) [
        | inl e ↦ elim (Bool-cases (length ps == max_certificates_per_store)) [
          | inl full ↦ rw (add_certificate, joined_by, e, full) refl
          | inr room ↦ rw (add_certificate, joined_by, e, room) (filed-insert now ours ps p e)
        ]
        | inr (q, e) ↦ rw (add_certificate, joined_by, e) refl
      ]

  filed-add_all :
      (now ours : ℕ) (ps : List ℕ) (cs : List (Option ℕ)) (cut : Bool)
      → (add_all w cs (filed now ours ps, cut)).0 ≡ filed now ours (gathered ps cs)
  unfolding add_all gathered
  filed-add_all now ours ps [] cut = refl
  filed-add_all now ours ps (c ∷ cs) cut =
      let cut' = (add_certificate w c (filed now ours ps, cut)).1 in
      ap (λ x. (add_all w cs (x, cut')).0) (filed-add_certificate now ours ps c cut)
      ∙ filed-add_all now ours (joined_by ps c) cs cut'

  -- the index of an input and the extra issuers
  abbrev pub filing : ℕ → List (Option ℕ) → List (Option ℕ) → Index
  filing now certs issuers =
      let ours = gathered [] certs in filed now (length ours) (gathered ours issuers)

  -- NewStore's index is the one that is read off the lists.
  pub new_store-filing :
      (now left polls : ℕ) (certs issuers : List (Option ℕ))
      → (new_store w now left polls certs issuers).index ≡ filing now certs issuers
  unfolding new_store copy_in issuers_in issued_in
  new_store-filing now left polls certs issuers =
      let (x, cut) = add_all w certs (empty_index now, false) in
      let first : x ≡ filed now 0 (gathered [] certs) = filed-add_all now 0 [] certs false in
      ap (λ y. (add_all w issuers (record y { ours = length y.all }, cut)).0) first
      ∙ filed-add_all now (length (gathered [] certs)) (gathered [] certs) issuers cut
