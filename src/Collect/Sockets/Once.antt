-- ===== src/Collect/Sockets/Once.antt =====
-- One entry for each listener.
use dtp_discovery_agent.Common.{
  ℕ, suc, min, String, ◌≡◌, refl, sym, ap, ◌∙◌, true, false, List, [], ◌∷◌, arith, inl, inr, str_eq,
  eq_iff, contains, if◌then◌else◌, Bool-cases,
}
use dtp_discovery_agent.Common.Sorting.{insert_by, sort_by}
use dtp_discovery_agent.Collect.Sockets.{Socket, Net, key_of, first_of_each, comes_first, dedupe}

module _ (n : Net) where
  -- how many of the sockets have a key
  abbrev pub count_key : String → List Socket → ℕ
  count_key k [] = 0
  count_key k (s ∷ ss) =
      let rest = count_key k ss in if str_eq (key_of n s) k then suc rest else rest

  count_key-insert_by :
      (k : String) (s : Socket) (ss : List Socket)
      → count_key k (insert_by (comes_first n) s ss) ≡ count_key k (s ∷ ss)
  unfolding insert_by
  count_key-insert_by k s [] = refl
  count_key-insert_by k s (t ∷ ts) = elim (Bool-cases (comes_first n s t)) [
    | inl e ↦ rw (insert_by, e) refl
    | inr e ↦ let own = count_key-insert_by k s ts in rw (insert_by, e) (ground arith)
  ]

  count_key-sort_by :
      (k : String) (ss : List Socket) → count_key k (sort_by (comes_first n) ss) ≡ count_key k ss
  unfolding sort_by
  count_key-sort_by k [] = refl
  count_key-sort_by k (s ∷ ss) =
      let own = count_key-sort_by k ss in
      count_key-insert_by k s (sort_by (comes_first n) ss) ∙ ground arith

  count_key-first_of_each :
      (k : String) (seen : List String) (ss : List Socket)
      → count_key k (first_of_each n seen ss)
        ≡ (if contains seen k then 0 else min 1 (count_key k ss))
  unfolding first_of_each
  count_key-first_of_each k seen [] = ground arith
  count_key-first_of_each k seen (s ∷ ss) =
      let skipped = count_key-first_of_each k seen ss in
      let kept = count_key-first_of_each k (key_of n s ∷ seen) ss in
      elim (Bool-cases (contains seen (key_of n s))) [
        | inl c ↦ elim (Bool-cases (str_eq (key_of n s) k)) [
          | inl e ↦
              let known : contains seen k ≡ true =
                sym (ap (λ t. contains seen t) ((eq_iff (key_of n s) k).0 e)) ∙ c in
              rw (first_of_each, c) (skipped ∙ rw known refl)
          | inr e ↦ rw (first_of_each, c, e) skipped
        ]
        | inr c ↦ elim (Bool-cases (str_eq (key_of n s) k)) [
          | inl e ↦
              let fresh : contains seen k ≡ false =
                sym (ap (λ t. contains seen t) ((eq_iff (key_of n s) k).0 e)) ∙ c in
              let none_left : count_key k (first_of_each n (key_of n s ∷ seen) ss) ≡ 0 =
                rw e at kept in
              rw (first_of_each, c) (rw (e, fresh) (ground arith))
          | inr e ↦ rw (first_of_each, c) (rw e (rw e at kept))
        ]
      ]

  -- Of the sockets that dedupe returns exactly one has a given key, address and port or, of a
  -- wildcard bind, the port alone, if any of those it was given has it, and else none.
  pub count_key-dedupe :
      (k : String) (sockets : List Socket)
      → count_key k (dedupe n sockets) ≡ min 1 (count_key k sockets)
  unfolding dedupe
  count_key-dedupe k sockets =
      count_key-sort_by k (first_of_each n [] sockets) ∙ count_key-first_of_each k [] sockets
