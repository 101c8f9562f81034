-- ===== src/Kernels/Vector/Nearest.antt =====
-- What exactKnn of packages/kernels/src/vector.ts finds.
use chronolog_db.Prelude.{
  ℕ, zero, suc, ◌<◌, ◌≡◌, ap, subst, Ordering, List, [], ◌∷◌, map, some, arith, get_elem?, take,
  sort, Bool-cases, inl, inr, ltb, IsLinear, lex, lex-IsLinear, IsPreorder, IsLinear-IsPreorder,
  NotBehind, sort-Sorted, sort-there, Sorted-get_elem?, take-get_elem?, get_elem?-take,
}
use chronolog_db.Prelude.Int.{ℤ}
use chronolog_db.Bytes.{Bytes}
use chronolog_db.Bytes.Laws.{compare_bytes-IsLinear}
use chronolog_db.Kernels.{gives}
use chronolog_db.Kernels.Int64.{compare_bigint}
use chronolog_db.Kernels.Vector.{
  VectorCandidate, VectorNeighbor, neighbor_order, neighbor_of, exact_knn,
}

compare_bigint-IsLinear : IsLinear compare_bigint
unfolding compare_bigint
compare_bigint-IsLinear = record {
  eq_iff = λ a b. ground arith;
  flipped = λ a b. ground arith;
  trans = λ a b c h k. ground arith;
}

pairs-IsPreorder : IsPreorder (lex compare_bigint-IsLinear compare_bytes-IsLinear)
pairs-IsPreorder = IsLinear-IsPreorder (lex-IsLinear compare_bigint-IsLinear compare_bytes-IsLinear)

module _ {ℓ} {T : Type ℓ} where
  abbrev parts : VectorNeighbor T → ℤ × Bytes
  parts n = (n.distance, n.candidate.key)

  neighbor_order-IsPreorder : IsPreorder (neighbor_order {T = T})
  unfolding neighbor_order
  neighbor_order-IsPreorder = record {
    flipped = λ a b. pairs-IsPreorder.flipped (parts a) (parts b);
    trans = λ a b c. pairs-IsPreorder.trans (parts a) (parts b) (parts c);
  }

  map-there :
      (f : VectorCandidate T → VectorNeighbor T) (cs : List (VectorCandidate T)) (j : ℕ)
      {c : VectorCandidate T}
      → get_elem? cs j ≡ some c
      → get_elem? (map f cs) j ≡ some (f c)
  map-there f [] j h = cc
  map-there f (x ∷ cs) zero h = cc
  map-there f (x ∷ cs) (suc j) h = map-there f cs j h

  -- In the sorted list, what comes before a neighbor stands at a lower position.
  sorted_before :
      (ns : List (VectorNeighbor T)) (i p : ℕ) (n m : VectorNeighbor T)
      → get_elem? (sort neighbor_order ns) i ≡ some n
      → get_elem? (sort neighbor_order ns) p ≡ some m
      → neighbor_order m n ≡ Ordering.lt
      → p < i
  sorted_before ns i p n m at there before =
      let o : IsPreorder (neighbor_order {T = T}) = neighbor_order-IsPreorder in
      elim (Bool-cases (ltb p i)) [
        | inl first ↦ ground arith
        | inr late ↦ elim (Bool-cases (ltb i p)) [
          | inl behind ↦
              let ordered =
                Sorted-get_elem? (NotBehind o) (sort neighbor_order ns) i p (sort-Sorted o ns)
                  (ground arith) at there in
              ground (arith, ordered, o.flipped m n)
          | inr level ↦
              let equal : p ≡ i = ground arith in
              let same : m ≡ n = ground (arith, ap (get_elem? (sort neighbor_order ns)) equal) in
              let self : neighbor_order n n ≡ Ordering.lt =
                subst (λ z. neighbor_order z n ≡ Ordering.lt) same before in
              ground (arith, self, o.flipped n n)
        ]
      ]

  -- The neighbors that are returned are nearest: a candidate that comes before one of them, by its
  -- distance to the query or by its key at the same distance, is returned too.
  pub exact_knn-IsNearest :
      (candidates : List (VectorCandidate T)) (query : T) (k : ℕ) (distance : T → T → ℤ)
      (found : List (VectorNeighbor T)) (i j : ℕ) (n : VectorNeighbor T) (c : VectorCandidate T)
      → exact_knn candidates query k distance ≡ gives found
      → get_elem? found i ≡ some n
      → get_elem? candidates j ≡ some c
      → neighbor_order (neighbor_of query distance c) n ≡ Ordering.lt
      → (p : ℕ) × (p < i) × (get_elem? found p ≡ some (neighbor_of query distance c))
  unfolding exact_knn
  exact_knn-IsNearest candidates query k distance found i j n c run at here before =
      let all = map (neighbor_of query distance) candidates in
      let m = neighbor_of query distance c in
      let same : take k (sort neighbor_order all) ≡ found = ground arith in
      let inside : get_elem? (take k (sort neighbor_order all)) i ≡ some n = rw same at in
      let (lt, place) = take-get_elem? k (sort neighbor_order all) i inside in
      let (p, there) =
        sort-there neighbor_order all j
          (map-there (neighbor_of query distance) candidates j here) in
      let first = sorted_before all i p n m place there before in
      (
        p,
        first,
        rw (← same) (get_elem?-take k (sort neighbor_order all) p (omega (arith, first, lt)) there),
      )
