-- ===== src/Graph/Continuous/Edges.antt =====
-- The edges of `bigraph_continuous` in include/graph.hpp.
use paracel.Prelude.{
  ℕ, zero, suc, ◌+◌, ◌-◌, ◌≤◌, ◌<◌, ◌≡◌, refl, ap, ◌∙◌, some, List, [], ◌∷◌, ◌++◌, length,
  length-append, length-replicate, get_or, set as list_set, take, replicate, get_elem?-eq-get_or,
  nat_eq, nat_beq, leb, if◌then◌else◌, arith,
}
use paracel.Prelude.Size.{size_mod, add_size}
use paracel.Graph.Continuous.{Continuous, resize_adj, add_edge}

module _ {ℓ} {A : Type ℓ} where
  take_all : (n : ℕ) (xs : List A) → length xs ≤ n → take n xs ≡ xs
  take_all zero [] h = refl
  take_all zero (x ∷ xs) h = absurd (omega arith)
  take_all (suc n) [] h = refl
  take_all (suc n) (x ∷ xs) h = ap (λ l. x ∷ l) (take_all n xs (omega arith))

  get_or-replicate : (n i : ℕ) (d : A) → get_or (replicate n d) i d ≡ d
  get_or-replicate zero i d = refl
  get_or-replicate (suc n) zero d = refl
  get_or-replicate (suc n) (suc i) d = get_or-replicate n i d

  get_or-padded : (xs : List A) (n i : ℕ) (d : A) → get_or (xs ++ replicate n d) i d ≡ get_or xs i d
  get_or-padded [] n i d = get_or-replicate n i d
  get_or-padded (x ∷ xs) n zero d = refl
  get_or-padded (x ∷ xs) n (suc i) d = get_or-padded xs n i d

  get_or-set :
      (xs : List A) (i j : ℕ) (v d : A)
      → i < length xs
      → get_or (list_set xs i v) j d ≡ (if nat_beq i j then v else get_or xs j d)
  get_or-set [] i j v d h = absurd (omega arith)
  get_or-set (x ∷ xs) zero zero v d h = refl
  get_or-set (x ∷ xs) zero (suc j) v d h = ground arith
  get_or-set (x ∷ xs) (suc i) zero v d h = ground arith
  get_or-set (x ∷ xs) (suc i) (suc j) v d h = ground (arith, get_or-set xs i j v d (omega arith))

module _ {W : Type 0} where
  -- the edges of a vertex; one behind the last has none
  abbrev pub edges : ℕ → List (List (ℕ × W)) → List (ℕ × W)
  edges j adj = get_or adj j []

  unfoldable grown : ℕ → List (List (ℕ × W)) → List (List (ℕ × W))
  grown src adj = if leb (length adj) src then resize_adj (add_size src 1) adj else adj

  grown-lt :
      (src : ℕ) (adj : List (List (ℕ × W))) → src + 1 < size_mod → src < length (grown src adj)
  unfolding grown resize_adj
  grown-lt src adj small = ground (
    arith,
    take_all (add_size src 1) adj,
    length-append adj (replicate (add_size src 1 - length adj) []),
    length-replicate {A = List (ℕ × W)} (add_size src 1 - length adj) [],
  )

  edges-grown :
      (src j : ℕ) (adj : List (List (ℕ × W)))
      → src + 1 < size_mod
      → edges j (grown src adj) ≡ edges j adj
  unfolding grown resize_adj
  edges-grown src j adj small =
      ground
        (arith, take_all (add_size src 1) adj, get_or-padded adj (add_size src 1 - length adj) j [])

  -- An edge from any vertex but the last `uint64_t` is added without an access out of bounds, whatever
  -- the number of vertices so far: the vertex has the edge behind those it had, and no other vertex has
  -- changed.
  pub add_edge-edges :
      (src dst : ℕ) (rating : W) (g : Continuous W)
      → src + 1 < size_mod
      → (g' : Continuous W) × (add_edge src dst rating g ≡ some g')
        × ((j : ℕ)
            → edges j g'.adj
              ≡ (if nat_beq src j then edges src g.adj ++ (dst, rating) ∷ [] else edges j g.adj))
  unfolding add_edge grown
  add_edge-edges src dst rating g small =
      let adj' = grown src g.adj in
      let inside : src < length adj' = grown-lt src g.adj small in
      (
        record g {
          adj = list_set adj' src (edges src adj' ++ (dst, rating) ∷ []);
          e_sz = add_size g.e_sz 1;
        },
        rw (get_elem?-eq-get_or adj' src [] inside, add_edge) refl,
        λ j.
            get_or-set adj' src j (edges src adj' ++ (dst, rating) ∷ []) [] inside
            ∙ rw (edges-grown src src g.adj small, edges-grown src j g.adj small) refl,
      )
