-- ===== src/Parse/Chain/Reference.antt =====
-- What the walk computes when neither the budget nor the time runs out: leaves and chains by
-- CheckSignature alone, with no memory and no budget.
use dtp_discovery_agent.Common.{
  ℕ, zero, suc, ◌≡◌, refl, Bool, true, false, not, Option, none, some, List, [], ◌∷◌, arith, ◌==◌,
  ◌&&◌, ◌||◌, Option-cases, inl, inr, str_eq, if◌then◌else◌, ap, sym, ◌∙◌,
}
use dtp_discovery_agent.Parse.Certificate.{World, may_issue}
use dtp_discovery_agent.Parse.Chain.{
  Work, Index, LeafWithChain, stopped, has, beats, chosen, signed, self_signed, valid_now, weigh,
  consider, scan, issuer_of, next_link, climb, chain_for, canonical_of, any_child, issued_another,
  is_issuer, max_chain_depth,
}
use dtp_discovery_agent.Parse.Chain.Keeps
use dtp_discovery_agent.Parse.Chain.Keeps.{IsStable}
use dtp_discovery_agent.Parse.Chain.Checks.{IsSound, IsSound-stable, signed-exact}

module _ (w : World) where
  open w use {certificate, check_signature}

  unfoldable pub signed_itself : ℕ → Bool
  signed_itself p =
      if str_eq (certificate p).raw_subject (certificate p).raw_issuer
      then check_signature p p
      else false

  unfoldable pub rank_of : ℕ → ℕ → ℕ
  rank_of now p =
      if valid_now w now p
      then (if signed_itself p then 3 else 2)
      else (if signed_itself p then 1 else 0)

  -- the better of the best so far and one more candidate
  unfoldable pub better : ℕ → ℕ → List ℕ → Option (ℕ × ℕ) → ℕ → Option (ℕ × ℕ)
  better now cert visited best ca =
      if has visited ca
      then best
      else if check_signature ca cert
      then (if beats (rank_of now ca) best then some (ca, rank_of now ca) else best)
      else best

  unfoldable pub pick : ℕ → ℕ → List ℕ → Option (ℕ × ℕ) → List ℕ → Option (ℕ × ℕ)
  pick now cert visited best [] = best
  pick now cert visited best (ca ∷ cas) =
      pick now cert visited (better now cert visited best ca) cas

  unfoldable pub best_issuer : Index → ℕ → List ℕ → Option ℕ
  best_issuer x cert visited =
      chosen (pick x.now cert visited none (x.by_subject (certificate cert).raw_issuer))

  unfoldable pub next_of : Index → List ℕ → ℕ → Option ℕ
  next_of x visited current = if signed_itself current then none else best_issuer x current visited

  unfoldable pub chain_up : ℕ → Index → List ℕ → ℕ → List ℕ
  chain_up zero x visited current = []
  chain_up (suc room) x visited current = elim (next_of x visited current) [
    | none ↦ []
    | some p ↦ p ∷ chain_up room x (p ∷ visited) p
  ]

  unfoldable pub chain_of : Index → ℕ → List ℕ
  chain_of x p = let q = canonical_of w x p in chain_up max_chain_depth x (q ∷ []) q

  unfoldable pub issued_any : ℕ → List ℕ → Bool
  issued_any cert [] = false
  issued_any cert (child ∷ rest) =
      (not (child == cert) && check_signature cert child) || issued_any cert rest

  unfoldable pub issues : Index → ℕ → Bool
  issues x cert =
      (certificate cert).is_ca
      || (may_issue (certificate cert)
          && issued_any cert (x.by_issuer (certificate cert).raw_subject))

  unfoldable pub all_leaves : Index → List ℕ → List LeafWithChain
  all_leaves x [] = []
  all_leaves x (cert ∷ rest) =
      let tail = all_leaves x rest in
      if issues x cert then tail else record { leaf = cert; chain = chain_of x cert } ∷ tail

  -- once stopped, the walk stays so
  abbrev pub Stays : Work → Work → Type 0
  Stays s t = stopped s ≡ true → stopped t ≡ true

  pub Stays-stable : (s : Work) → IsStable w (Stays s)
  unfolding signed
  Stays-stable s = record {
    signed_keeps = λ c i t h e. ground (arith, h e);
    deep_keeps = λ t h e. h e;
    cut_keeps = λ t h e. h e;
    poll_keeps = λ t h e. h e;
    stop_keeps = λ t h e. ground arith;
  }

  pub ran : (s t : Work) → Stays s t → stopped t ≡ false → stopped s ≡ false
  ran s t k h = ground (arith, k)

module _ (w : World) (total : ℕ) where
  open w use {certificate, cancelled, check_signature}

  self_signed-exact :
      (p : ℕ) (s : Work)
      → IsSound w total s
      → stopped (self_signed w p s).1 ≡ false
      → (self_signed w p s).0 ≡ signed_itself w p
  unfolding self_signed signed_itself
  self_signed-exact p s h go = ground (arith, signed-exact w total p p s h)

  consider-exact :
      (now cert : ℕ) (visited : List ℕ) (best : Option (ℕ × ℕ)) (ca : ℕ) (s : Work)
      → IsSound w total s
      → stopped (consider w now cert visited best ca s).1 ≡ false
      → (consider w now cert visited best ca s).0 ≡ better w now cert visited best ca
  unfolding consider weigh better rank_of
  consider-exact now cert visited best ca s h go =
      let s' = (signed w cert ca s).1 in
      let h' = (IsSound-stable w total).signed_keeps cert ca s h in
      ground (
        arith,
        signed-exact w total cert ca s h,
        self_signed-exact ca s' h',
        Keeps.self_signed_keeps w (Stays w s') (Stays-stable w s') ca s' (λ e. e),
      )

  scan-exact :
      (now cert : ℕ) (visited : List ℕ) (best : Option (ℕ × ℕ)) (cas : List ℕ) (s : Work)
      → IsSound w total s
      → stopped (scan w now cert visited best cas s).1 ≡ false
      → (scan w now cert visited best cas s).0 ≡ pick w now cert visited best cas
  unfolding scan pick
  scan-exact now cert visited best [] s h go = refl
  scan-exact now cert visited best (ca ∷ cas) s h go =
      let (best', s') = consider w now cert visited best ca s in
      let h' =
        Keeps.consider_keeps w (IsSound w total) (IsSound-stable w total) now cert visited best ca s
          h in
      let went =
        ran w s' (scan w now cert visited best' cas s').1
          (Keeps.scan_keeps w (Stays w s') (Stays-stable w s') now cert visited best' cas s'
            (λ e. e))
          go in
      rw (← consider-exact now cert visited best ca s h went)
        (scan-exact now cert visited best' cas s' h' go)

  pub issuer_of-exact :
      (x : Index) (cert : ℕ) (visited : List ℕ) (s : Work)
      → IsSound w total s
      → stopped (issuer_of w x cert visited s).1 ≡ false
      → (issuer_of w x cert visited s).0 ≡ best_issuer w x cert visited
  unfolding issuer_of best_issuer
  issuer_of-exact x cert visited s h go =
      rw
        (go, scan-exact x.now cert visited none (x.by_subject (certificate cert).raw_issuer) s h go)

  next_link-exact :
      (x : Index) (visited : List ℕ) (current : ℕ) (s : Work)
      → IsSound w total s
      → stopped (next_link w x visited current s).1 ≡ false
      → (next_link w x visited current s).0 ≡ next_of w x visited current
  unfolding next_link next_of
  next_link-exact x visited current s h go =
      let s' = (self_signed w current s).1 in
      let h' = Keeps.self_signed_keeps w (IsSound w total) (IsSound-stable w total) current s h in
      ground (
        arith,
        self_signed-exact current s h,
        issuer_of-exact x current visited s' h',
        Keeps.issuer_of_keeps w (Stays w s') (Stays-stable w s') x current visited s' (λ e. e),
      )

  climb-exact :
      (room : ℕ) (x : Index) (visited : List ℕ) (current : ℕ) (s : Work)
      → IsSound w total s
      → stopped (climb w room x visited current s).1 ≡ false
      → (climb w room x visited current s).0 ≡ chain_up w room x visited current
  unfolding climb chain_up
  climb-exact zero x visited current s h go =
      elim (Option-cases (next_link w x visited current s).0) [
        | inl e ↦ rw (e, climb)
        | inr (p, e) ↦ rw (e, climb)
      ]
  climb-exact (suc room) x visited current s h go =
      let s' = (next_link w x visited current s).1 in
      let h' =
        Keeps.next_link_keeps w (IsSound w total) (IsSound-stable w total) x visited current s h in
      elim (Option-cases (next_link w x visited current s).0) [
        | inl e ↦
            let go' : stopped s' ≡ false = rw (e, climb) at go in
            let n : next_of w x visited current ≡ none =
              sym (next_link-exact x visited current s h go') ∙ e in
            rw (e, climb) (rw (n, chain_up))
        | inr (p, e) ↦
            let go' : stopped (climb w room x (p ∷ visited) p s').1 ≡ false = rw (e, climb) at go in
            let up = climb w room x (p ∷ visited) p s' in
            let went =
              ran w s' up.1
                (Keeps.climb_keeps w (Stays w s') (Stays-stable w s') room x (p ∷ visited) p s'
                  (λ e. e))
                go' in
            let n : next_of w x visited current ≡ some p =
              sym (next_link-exact x visited current s h went) ∙ e in
            rw (e, climb)
              (rw (n, chain_up)
                (ap (λ (l : List ℕ). p ∷ l) (climb-exact room x (p ∷ visited) p s' h' go')))
      ]

  pub chain_for-exact :
      (x : Index) (p : ℕ) (s : Work)
      → IsSound w total s
      → stopped (chain_for w x p s).1 ≡ false
      → (chain_for w x p s).0 ≡ chain_of w x p
  unfolding chain_for chain_of
  chain_for-exact x p s h go =
      let q = canonical_of w x p in climb-exact max_chain_depth x (q ∷ []) q s h go

  any_child-exact :
      (cert : ℕ) (children : List ℕ) (s : Work)
      → IsSound w total s
      → stopped (any_child w cert children s).1 ≡ false
      → (any_child w cert children s).0 ≡ issued_any w cert children
  unfolding any_child issued_any
  any_child-exact cert [] s h go = refl
  any_child-exact cert (child ∷ rest) s h go =
      let s' = (signed w child cert s).1 in
      ground (
        arith,
        signed-exact w total child cert s h,
        any_child-exact cert rest s h,
        any_child-exact cert rest s' ((IsSound-stable w total).signed_keeps child cert s h),
        Keeps.any_child_keeps w (Stays w s') (Stays-stable w s') cert rest s' (λ e. e),
      )

  pub is_issuer-exact :
      (x : Index) (cert : ℕ) (s : Work)
      → IsSound w total s
      → stopped (is_issuer w x cert s).1 ≡ false
      → (is_issuer w x cert s).0 ≡ issues w x cert
  unfolding is_issuer issued_another issues
  is_issuer-exact x cert s h go =
      ground (arith, any_child-exact cert (x.by_issuer (certificate cert).raw_subject) s h)
