-- ===== src/Parse/Chain.antt =====
-- internal/parse/chain.go: a store of certificates, its leaves and their chains. What NewStore
-- builds is `Index`, which nothing writes afterwards; what the walk writes is `Work`, passed along.
pub mod Keeps
pub mod Checks
pub mod Links
pub mod Indexing
pub mod Filing
pub mod Members
pub mod Leaves
pub mod Reference
pub mod Exact
pub mod Best
mod Examples
use dtp_discovery_agent.Common.{
  ℕ, zero, suc, ◌+◌, ◌-◌, String, Bool, true, false, not, ◌&&◌, ◌||◌, Option, none, some, List, [],
  ◌∷◌, ◌++◌, ltb, ◌==◌, str_eq, if◌then◌else◌, length, take,
}
use dtp_discovery_agent.Parse.Certificate.{World, verify_cost, may_issue}

abbrev pub max_certificates_per_store : ℕ
max_certificates_per_store = 4096

abbrev pub max_leaves_per_store : ℕ
max_leaves_per_store = 256

abbrev pub max_chain_depth : ℕ
max_chain_depth = 10

abbrev pub verify_budget : ℕ
verify_budget = 4096

pub record LeafWithChain : Type 0 where
  pub leaf : ℕ
  pub chain : List ℕ

pub record Shortfall : Type 0 where
  pub truncated : Bool
  pub out_of_budget : Bool
  pub too_deep : Bool
  pub interrupted : Bool

abbrev pub no_shortfall : Shortfall
no_shortfall = record {
  truncated = false;
  out_of_budget = false;
  too_deep = false;
  interrupted = false;
}

unfoldable pub add : Shortfall → Shortfall → Shortfall
add s other = record {
  truncated = s.truncated || other.truncated;
  out_of_budget = s.out_of_budget || other.out_of_budget;
  too_deep = s.too_deep || other.too_deep;
  interrupted = s.interrupted || other.interrupted;
}

-- The maps of Go's Store are functions; a missing key is `none` or `[]`.
pub record Index : Type 0 where
  pub now : ℕ
  pub all : List ℕ
  pub ours : ℕ
  pub canonical : String → Option ℕ
  pub by_subject : String → List ℕ
  pub by_issuer : String → List ℕ

-- one entry of `checked`: did this issuer's key verify this child's signature
pub record Checked : Type 0 where
  pub child : ℕ
  pub issuer : ℕ
  pub ok : Bool

-- `left` is the Budget, and `polls` counts how often the context was asked.
pub record Work : Type 0 where
  pub checked : List Checked
  pub left : ℕ
  pub short : Shortfall
  pub polls : ℕ

pub record Store : Type 0 where
  pub index : Index
  pub work : Work

abbrev update {ℓ} : {A : Type ℓ} → (String → A) → String → A → String → A
update f k v j = if str_eq k j then v else f j

abbrev pub has : List ℕ → ℕ → Bool
has [] p = false
has (x ∷ xs) p = x == p || has xs p

abbrev pub lookup : List Checked → ℕ → ℕ → Option Bool
lookup [] child issuer = none
lookup (c ∷ cs) child issuer =
    if c.child == child && c.issuer == issuer then some c.ok else lookup cs child issuer

-- 2 for one valid now, and 1 more for one that signed itself
abbrev pub rank : Bool → Bool → ℕ
rank valid self = (if valid then 2 else 0) + (if self then 1 else 0)

-- `rank > bestRank`, where no best yet has rank -1
abbrev pub beats : ℕ → Option (ℕ × ℕ) → Bool
beats r none = true
beats r (some (p, best)) = ltb best r

abbrev pub stopped : Work → Bool
stopped s = s.short.out_of_budget || s.short.interrupted

abbrev pub chosen : Option (ℕ × ℕ) → Option ℕ
chosen none = none
chosen (some (p, r)) = some p

abbrev pub empty_index : ℕ → Index
empty_index now = record {
  now = now;
  all = [];
  ours = 0;
  canonical = λ _. none;
  by_subject = λ _. [];
  by_issuer = λ _. [];
}

module _ (w : World) where
  open w use {certificate, cancelled, check_signature}

  insert : ℕ → Index → Index
  unfolding may_issue
  insert p x =
      let cert = certificate p in
      record x {
        canonical = update x.canonical cert.raw (some p);
        all = x.all ++ p ∷ [];
        by_issuer = update x.by_issuer cert.raw_issuer (x.by_issuer cert.raw_issuer ++ p ∷ []);
        by_subject =
            if may_issue cert
            then update x.by_subject cert.raw_subject (x.by_subject cert.raw_subject ++ p ∷ [])
            else x.by_subject;
      }

  -- the closure `add` of NewStore, with what it says of truncation
  pub add_certificate : Option ℕ → Index × Bool → Index × Bool
  unfolding insert
  add_certificate none (x, truncated) = (x, truncated)
  add_certificate (some p) (x, truncated) = elim (x.canonical (certificate p).raw) [
    | some _ ↦ (x, truncated)
    | none ↦
        if length x.all == max_certificates_per_store then (x, true) else (insert p x, truncated)
  ]

  pub add_all : List (Option ℕ) → Index × Bool → Index × Bool
  add_all [] x = x
  add_all (c ∷ cs) x = add_all cs (add_certificate c x)

  -- NewStore. `left` is what the budget has left: the caller's, or a fresh `verify_budget`.
  -- `polls` is where the context's life stands.
  pub new_store : ℕ → ℕ → ℕ → List (Option ℕ) → List (Option ℕ) → Store
  unfolding add_all add_certificate
  new_store now left polls certs issuers =
      let (x, cut) = add_all certs (empty_index now, false) in
      let (y, cut') = add_all issuers (record x { ours = length x.all }, cut) in
      record {
        index = y;
        work = record {
          checked = [];
          left = left;
          short = record no_shortfall { truncated = cut' };
          polls = polls;
        };
      }

  -- a signature check that is made: charged, and remembered
  check : ℕ → ℕ → Work → Bool × Work
  check child issuer s =
      let ok = check_signature issuer child in
      (
        ok,
        record s {
          checked = record { child = child; issuer = issuer; ok = ok } ∷ s.checked;
          left = s.left - verify_cost (certificate issuer).public_key;
          polls = s.polls + 1;
        },
      )

  -- `signed` for a pair that `checked` does not hold
  attempt : ℕ → ℕ → Work → Bool × Work
  unfolding check
  attempt child issuer s =
      if s.short.out_of_budget || s.short.interrupted
      then (false, s)
      else if cancelled s.polls
      then (false, record s { polls = s.polls + 1; short = record s.short { interrupted = true } })
      else if ltb s.left (verify_cost (certificate issuer).public_key)
      then (
        false,
        record s { polls = s.polls + 1; short = record s.short { out_of_budget = true } },
      )
      else check child issuer s

  pub signed : ℕ → ℕ → Work → Bool × Work
  unfolding attempt
  signed child issuer s = elim (lookup s.checked child issuer) [
    | some ok ↦ (ok, s)
    | none ↦ attempt child issuer s
  ]

  pub self_signed : ℕ → Work → Bool × Work
  self_signed p s =
      if str_eq (certificate p).raw_subject (certificate p).raw_issuer
      then signed p p s
      else (false, s)

  pub valid_now : ℕ → ℕ → Bool
  valid_now now p =
      not (ltb now (certificate p).not_before) && not (ltb (certificate p).not_after now)

  -- one round of the loop in issuerOf, for a candidate that signed
  weigh : ℕ → Option (ℕ × ℕ) → ℕ → Work → Option (ℕ × ℕ) × Work
  weigh now best ca s =
      let (self, s') = self_signed ca s in
      let r = rank (valid_now now ca) self in (if beats r best then some (ca, r) else best, s')

  -- one round of that loop
  pub consider : ℕ → ℕ → List ℕ → Option (ℕ × ℕ) → ℕ → Work → Option (ℕ × ℕ) × Work
  unfolding weigh
  consider now cert visited best ca s =
      let (ok, s') = signed cert ca s in
      if has visited ca then (best, s) else if ok then weigh now best ca s' else (best, s')

  pub scan : ℕ → ℕ → List ℕ → Option (ℕ × ℕ) → List ℕ → Work → Option (ℕ × ℕ) × Work
  scan now cert visited best [] s = (best, s)
  scan now cert visited best (ca ∷ cas) s =
      let (best', s') = consider now cert visited best ca s in scan now cert visited best' cas s'

  pub issuer_of : Index → ℕ → List ℕ → Work → Option ℕ × Work
  issuer_of x cert visited s =
      let (best, s') =
        scan x.now cert visited none (x.by_subject (certificate cert).raw_issuer) s in
      (if stopped s' then none else chosen best, s')

  -- the issuer that the loop of ChainFor goes on to: none at a self-signed certificate
  pub next_link : Index → List ℕ → ℕ → Work → Option ℕ × Work
  next_link x visited current s =
      let (self, s') = self_signed current s in
      if self then (none, s') else issuer_of x current visited s'

  -- The loop of ChainFor. The first argument is the room left, MaxChainDepth - len(chain): the
  -- chain is full at 0.
  pub climb : ℕ → Index → List ℕ → ℕ → Work → List ℕ × Work
  climb zero x visited current s =
      let (next, s') = next_link x visited current s in
      elim next [
        | none ↦ ([], s')
        | some _ ↦ ([], record s' { short = record s'.short { too_deep = true } })
      ]
  climb (suc room) x visited current s =
      let (next, s') = next_link x visited current s in
      elim next [
        | none ↦ ([], s')
        | some p ↦ let (rest, s'') = climb room x (p ∷ visited) p s' in (p ∷ rest, s'')
      ]

  -- the store's own copy of a certificate, where it has one
  abbrev pub canonical_of : Index → ℕ → ℕ
  canonical_of x p = elim (x.canonical (certificate p).raw) [ none ↦ p | some q ↦ q ]

  pub chain_for : Index → ℕ → Work → List ℕ × Work
  chain_for x p s = let q = canonical_of x p in climb max_chain_depth x (q ∷ []) q s

  -- the loop of issuedAnother
  pub any_child : ℕ → List ℕ → Work → Bool × Work
  any_child cert [] s = (false, s)
  any_child cert (child ∷ rest) s =
      let (ok, s') = if child == cert then (false, s) else signed child cert s in
      elim ok [ true ↦ (true, s') | false ↦ any_child cert rest s' ]

  pub issued_another : Index → ℕ → Work → Bool × Work
  issued_another x cert s =
      if may_issue (certificate cert)
      then any_child cert (x.by_issuer (certificate cert).raw_subject) s
      else (false, s)

  -- cert.IsCA || s.issuedAnother(cert)
  pub is_issuer : Index → ℕ → Work → Bool × Work
  is_issuer x cert s = if (certificate cert).is_ca then (true, s) else issued_another x cert s

  -- The loop of Leaves, over the input that is left.
  pub leaves_from : Index → List LeafWithChain → List ℕ → Work → List LeafWithChain × Work
  leaves_from x out [] s = (out, s)
  leaves_from x out (cert ∷ rest) s = elim (cancelled s.polls) [
    | true ↦ (out, record s { polls = s.polls + 1; short = record s.short { interrupted = true } })
    | false ↦
        let (issuer, s') = is_issuer x cert (record s { polls = s.polls + 1 }) in
        elim issuer [
          | true ↦ leaves_from x out rest s'
          | false ↦ elim (length out == max_leaves_per_store) [
            | true ↦ (out, record s' { short = record s'.short { truncated = true } })
            | false ↦
                let (chain, s'') = chain_for x cert s' in
                leaves_from x (out ++ record { leaf = cert; chain = chain } ∷ []) rest s''
          ]
        ]
  ]

  pub leaves : Store → List LeafWithChain × Work
  leaves s = leaves_from s.index [] (take s.index.ours s.index.all) s.work
