-- ===== src/Parse/Chain/Examples.antt =====
-- A site certificate under an intermediate under a root, with a decoy that copied the
-- intermediate's name.
use dtp_discovery_agent.Common.{
  pos, ℕ, String, ◌≤◌, ◌≡◌, refl, Bool, true, false, Option, none, some, List, [], ◌∷◌, ◌==◌, ◌&&◌,
  ◌||◌, All, length, take, if◌then◌else◌,
}
use dtp_discovery_agent.Parse.Certificate.{Certificate, World, rsa, verify_cost, may_issue}
use dtp_discovery_agent.Parse.Chain.{
  Store, stopped, chain_for, canonical_of, issuer_of, leaves, new_store, verify_budget,
  max_chain_depth, max_leaves_per_store, signed, scan, climb, next_link, self_signed, consider,
  valid_now, any_child, issued_another, is_issuer, leaves_from,
}
use dtp_discovery_agent.Parse.Chain.Checks.{IsSound, new_store-IsSound, leaves-IsSound}
use dtp_discovery_agent.Parse.Chain.Links.{Linked, Fresh, chain_for-Linked}
use dtp_discovery_agent.Parse.Chain.Indexing.{
  IsWellFormed, IsKnown, new_store-IsWellFormed, new_store_complete,
}
use dtp_discovery_agent.Parse.Chain.Leaves.{IsReported, leaves-IsReported}
use dtp_discovery_agent.Parse.Chain.Reference.{
  rank_of, all_leaves, chain_of, chain_up, next_of, best_issuer, pick, better, signed_itself,
  issues, issued_any,
}
use dtp_discovery_agent.Parse.Chain.Filing.{
  filing, gathered, joined_by, copy_in, issuers_in, issued_in,
}
use dtp_discovery_agent.Parse.Chain.Best.{MayIssue, IsPreferred, issuer_of-best}
use dtp_discovery_agent.Parse.Chain.Exact.{leaves-exact}

abbrev cert : String → String → String → Bool → Certificate
cert raw subject issuer ca = record {
  raw = raw;
  raw_subject = subject;
  raw_issuer = issuer;
  is_ca = ca;
  basic_constraints_valid = true;
  not_before = 10;
  not_after = 90;
  public_key = rsa 2048 (pos 65537);
}

-- 0 is the site's, 1 the intermediate, 2 the root, any other the decoy
abbrev world : World
world = record {
  certificate = λ p.
      if p == 0
      then cert "A" "www" "int" false
      else if p == 1
      then cert "B" "int" "root" true
      else if p == 2
      then cert "C" "root" "root" true
      else cert "D" "int" "root" true;
  cancelled = λ n. false;
  check_signature = λ issuer child.
      (issuer == 1 && child == 0) || (issuer == 2 && (child == 1 || child == 2 || child == 3));
}

abbrev file : List (Option ℕ)
file = some 3 ∷ some 0 ∷ none ∷ some 1 ∷ some 2 ∷ some 0 ∷ []

abbrev store : Store
store = new_store world 50 verify_budget 0 file []

site_chain : (leaves world store).0 ≡ record { leaf = 0; chain = 1 ∷ 2 ∷ [] } ∷ []
unfolding leaves new_store signed scan climb next_link issuer_of self_signed consider valid_now
    any_child issued_another is_issuer leaves_from chain_for may_issue verify_cost
site_chain = refl

not_stopped : stopped (leaves world store).1 ≡ false
unfolding leaves new_store signed scan climb next_link issuer_of self_signed consider valid_now
    any_child issued_another is_issuer leaves_from chain_for may_issue verify_cost
not_stopped = refl

leaves-IsSound_example : IsSound world verify_budget (leaves world store).1
leaves-IsSound_example = leaves-IsSound world 50 verify_budget 0 file []

leaves-IsReported_example :
    All (IsReported world) (leaves world store).0
    × (length (leaves world store).0 ≤ max_leaves_per_store)
leaves-IsReported_example = leaves-IsReported world 50 verify_budget 0 file []

new_store-IsWellFormed_example : IsWellFormed world store.index
new_store-IsWellFormed_example = new_store-IsWellFormed world 50 verify_budget 0 file []

not_truncated : store.work.short.truncated ≡ false
unfolding new_store may_issue
not_truncated = refl

new_store_complete_example :
    All (IsKnown world store.index) file × All (IsKnown world store.index) []
new_store_complete_example = new_store_complete world 50 verify_budget 0 file [] not_truncated

leaves-exact_example :
    (leaves world store).0
    ≡ take max_leaves_per_store
        (all_leaves world (filing world 50 file []) (gathered world [] file))
leaves-exact_example = leaves-exact world 50 verify_budget 0 file [] not_stopped

-- the reference reports the same by itself
reference_chain :
    all_leaves world (filing world 50 file []) (gathered world [] file)
    ≡ record { leaf = 0; chain = 1 ∷ 2 ∷ [] } ∷ []
unfolding all_leaves chain_of chain_up next_of best_issuer pick better rank_of signed_itself issues
    issued_any gathered joined_by copy_in issuers_in issued_in valid_now may_issue
reference_chain = refl

intermediate : MayIssue world store.index.all 0 (0 ∷ []) 1
unfolding new_store may_issue
intermediate = record { held = refl; named = refl; allowed = refl; fresh = refl; signs = refl }

went : stopped (issuer_of world store.index 0 (0 ∷ []) store.work).1 ≡ false
unfolding new_store issuer_of scan consider signed self_signed valid_now may_issue verify_cost
went = refl

issuer_of-best_example :
    (p : ℕ) × ((issuer_of world store.index 0 (0 ∷ []) store.work).0 ≡ some p)
    × MayIssue world store.index.all 0 (0 ∷ []) p
    × IsPreferred world 50 1 p
issuer_of-best_example =
    issuer_of-best world 50 verify_budget 0 verify_budget file [] 0 (0 ∷ []) store.work 1
      (new_store-IsSound world 50 verify_budget 0 file []) went intermediate

chain_for-Linked_example :
    Linked world (canonical_of world store.index 0) (chain_for world store.index 0 store.work).0
    × Fresh (canonical_of world store.index 0 ∷ []) (chain_for world store.index 0 store.work).0
    × (length (chain_for world store.index 0 store.work).0 ≤ max_chain_depth)
chain_for-Linked_example =
    chain_for-Linked world verify_budget store.index 0 store.work
      (new_store-IsWellFormed world 50 verify_budget 0 file []).indexed
      (new_store-IsSound world 50 verify_budget 0 file [])
