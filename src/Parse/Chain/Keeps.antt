-- ===== src/Parse/Chain/Keeps.antt =====
-- A predicate on `Work` that `signed` and the flag writes keep is kept by the whole walk.
use dtp_discovery_agent.Common.{
  ℕ, zero, suc, ◌+◌, Bool, true, false, Option, none, List, [], ◌∷◌, ◌++◌, ◌==◌, str_eq, length,
  if◌then◌else◌, Option-cases, Bool-cases, inl, inr, take,
}
use dtp_discovery_agent.Parse.Certificate.{World, may_issue}
use dtp_discovery_agent.Parse.Chain.{
  Work, Index, LeafWithChain, signed, self_signed, consider, weigh, scan, issuer_of, next_link,
  climb, chain_for, canonical_of, any_child, issued_another, is_issuer, leaves_from, has,
  max_chain_depth, max_leaves_per_store, Store, leaves,
}

pub record IsStable (w : World) (P : Work → Type 0) : Type 0 where
  pub signed_keeps : (child issuer : ℕ) (s : Work) → P s → P (signed w child issuer s).1
  pub deep_keeps : (s : Work) → P s → P (record s { short = record s.short { too_deep = true } })
  pub cut_keeps : (s : Work) → P s → P (record s { short = record s.short { truncated = true } })
  pub poll_keeps : (s : Work) → P s → P (record s { polls = s.polls + 1 })
  pub stop_keeps :
      (s : Work)
      → P s
      → P (record s { polls = s.polls + 1; short = record s.short { interrupted = true } })

-- both branches of a test keep it
if_keeps :
    {A : Type 0} (P : Work → Type 0) (b : Bool) (x y : A × Work)
    → P x.1
    → P y.1
    → P (if b then x else y).1
if_keeps P true x y p q = p
if_keeps P false x y p q = q

module _ (w : World) (P : Work → Type 0) (k : IsStable w P) where
  open w use {certificate, cancelled}
  open k use {signed_keeps, deep_keeps, cut_keeps, poll_keeps, stop_keeps}

  pub self_signed_keeps : (p : ℕ) (s : Work) → P s → P (self_signed w p s).1
  unfolding self_signed
  self_signed_keeps p s h =
      if_keeps P (str_eq (certificate p).raw_subject (certificate p).raw_issuer) _ _
        (signed_keeps p p s h) h

  weigh_keeps :
      (now : ℕ) (best : Option (ℕ × ℕ)) (ca : ℕ) (s : Work) → P s → P (weigh w now best ca s).1
  unfolding weigh
  weigh_keeps now best ca s h = self_signed_keeps ca s h

  pub consider_keeps :
      (now cert : ℕ) (visited : List ℕ) (best : Option (ℕ × ℕ)) (ca : ℕ) (s : Work)
      → P s
      → P (consider w now cert visited best ca s).1
  unfolding consider
  consider_keeps now cert visited best ca s h =
      let h' = signed_keeps cert ca s h in
      if_keeps P (has visited ca) _ _ h (
        if_keeps P (signed w cert ca s).0 _ _ (weigh_keeps now best ca (signed w cert ca s).1 h')
          h')

  pub scan_keeps :
      (now cert : ℕ) (visited : List ℕ) (best : Option (ℕ × ℕ)) (cas : List ℕ) (s : Work)
      → P s
      → P (scan w now cert visited best cas s).1
  unfolding scan
  scan_keeps now cert visited best [] s h = h
  scan_keeps now cert visited best (ca ∷ cas) s h =
      let (best', s') = consider w now cert visited best ca s in
      scan_keeps now cert visited best' cas s' (consider_keeps now cert visited best ca s h)

  pub issuer_of_keeps :
      (x : Index) (cert : ℕ) (visited : List ℕ) (s : Work)
      → P s
      → P (issuer_of w x cert visited s).1
  unfolding issuer_of
  issuer_of_keeps x cert visited s h = scan_keeps x.now cert visited none _ s h

  pub next_link_keeps :
      (x : Index) (visited : List ℕ) (current : ℕ) (s : Work)
      → P s
      → P (next_link w x visited current s).1
  unfolding next_link
  next_link_keeps x visited current s h =
      let h' = self_signed_keeps current s h in
      if_keeps P (self_signed w current s).0 _ _ h'
        (issuer_of_keeps x current visited (self_signed w current s).1 h')

  pub climb_keeps :
      (room : ℕ) (x : Index) (visited : List ℕ) (current : ℕ) (s : Work)
      → P s
      → P (climb w room x visited current s).1
  unfolding climb
  climb_keeps zero x visited current s h =
      let h' = next_link_keeps x visited current s h in
      elim (Option-cases (next_link w x visited current s).0) [
        | inl e ↦ rw (e, climb) h'
        | inr (p, e) ↦ rw (e, climb) (deep_keeps _ h')
      ]
  climb_keeps (suc room) x visited current s h =
      let h' = next_link_keeps x visited current s h in
      elim (Option-cases (next_link w x visited current s).0) [
        | inl e ↦ rw (e, climb) h'
        | inr (p, e) ↦ rw (e, climb) (climb_keeps room x (p ∷ visited) p _ h')
      ]

  pub chain_for_keeps : (x : Index) (p : ℕ) (s : Work) → P s → P (chain_for w x p s).1
  unfolding chain_for
  chain_for_keeps x p s h = climb_keeps max_chain_depth x _ (canonical_of w x p) s h

  pub any_child_keeps :
      (cert : ℕ) (children : List ℕ) (s : Work) → P s → P (any_child w cert children s).1
  unfolding any_child
  any_child_keeps cert [] s h = h
  any_child_keeps cert (child ∷ rest) s h =
      let h' = if_keeps P (child == cert) (false, s) _ h (signed_keeps child cert s h) in
      elim (Bool-cases (if child == cert then (false, s) else signed w child cert s).0) [
        | inl e ↦ rw (e, any_child) h'
        | inr e ↦ rw (e, any_child) (any_child_keeps cert rest _ h')
      ]

  pub issued_another_keeps :
      (x : Index) (cert : ℕ) (s : Work) → P s → P (issued_another w x cert s).1
  unfolding issued_another
  issued_another_keeps x cert s h =
      if_keeps P (may_issue (certificate cert)) _ _ (any_child_keeps cert _ s h) h

  pub is_issuer_keeps : (x : Index) (cert : ℕ) (s : Work) → P s → P (is_issuer w x cert s).1
  unfolding is_issuer
  is_issuer_keeps x cert s h =
      if_keeps P (certificate cert).is_ca (true, s) _ h (issued_another_keeps x cert s h)

  pub leaves_from_keeps :
      (x : Index) (out : List LeafWithChain) (rest : List ℕ) (s : Work)
      → P s
      → P (leaves_from w x out rest s).1
  unfolding leaves_from
  leaves_from_keeps x out [] s h = h
  leaves_from_keeps x out (cert ∷ rest) s h =
      let t : Work = record s { polls = s.polls + 1 } in
      let (issuer, s') = is_issuer w x cert t in
      let h' = is_issuer_keeps x cert t (poll_keeps s h) in
      elim (Bool-cases (cancelled s.polls)) [
        | inl e ↦ rw (e, leaves_from) (stop_keeps s h)
        | inr e ↦
            rw (e, leaves_from)
              (elim (Bool-cases issuer) [
                | inl i ↦ rw (i, leaves_from) (leaves_from_keeps x out rest s' h')
                | inr i ↦
                    rw (i, leaves_from)
                      (elim (Bool-cases (length out == max_leaves_per_store)) [
                        | inl f ↦ rw (f, leaves_from) (cut_keeps s' h')
                        | inr f ↦
                            rw (f, leaves_from)
                              (leaves_from_keeps x
                                (out
                                  ++ record { leaf = cert; chain = (chain_for w x cert s').0 } ∷ [])
                                rest _ (chain_for_keeps x cert s' h'))
                      ])
              ])
      ]

  pub leaves_keeps : (s : Store) → P s.work → P (leaves w s).1
  unfolding leaves
  leaves_keeps s h = leaves_from_keeps s.index [] (take s.index.ours s.index.all) s.work h
