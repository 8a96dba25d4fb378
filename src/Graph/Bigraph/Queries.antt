-- ===== src/Graph/Bigraph/Queries.antt =====
-- What a query of `bigraph` in include/graph.hpp changes.
use paracel.Prelude.{
  ◌≡◌, ◌∙◌, true, false, ◌&&◌, Option, none, some, Eq, ◌==◌, ==_refl, if◌then◌else◌, arith,
}
use paracel.Prelude.Dict.{has-find, find-put}
use paracel.Graph.Adjacency.{row, weight, row-link, row-touch}
use paracel.Graph.Bigraph.{Bigraph, is_connected, get_wgt}

module _ {κ} {W : Type κ} where
  abbrev pub or_zero : W → Option W → W
  or_zero zero none = zero
  or_zero zero (some wgt) = wgt

module _ {ℓ κ} {T : Type ℓ} {W : Type κ} ⦃e : Eq T⦄ where
  is_connected-weight :
      (a b : T) (g : Bigraph T W)
      → (is_connected a b g).0 ≡ elim (weight a b g.adj) [ none ↦ false | some _ ↦ true ]
  unfolding is_connected weight
  is_connected-weight a b g = has-find b (row a g.adj)

  get_wgt-weight :
      (zero : W) (a b : T) (g : Bigraph T W)
      → (get_wgt zero a b g).0 ≡ or_zero zero (weight a b g.adj)
  unfolding get_wgt weight
  get_wgt-weight zero a b g = ground arith

  weight-get_wgt :
      (zero : W) (a b j k : T) (g : Bigraph T W)
      → weight j k (get_wgt zero a b g).1.adj ≡ (
          if (a == j) && (b == k) then some (or_zero zero (weight a b g.adj)) else weight j k g.adj)
  unfolding get_wgt weight
  weight-get_wgt zero a b j k g = ground (
    arith,
    row-touch a j g.adj,
    row-link a b j zero g.adj,
    find-put b k zero (row a g.adj),
    e.beq_iff a j,
    e.beq_iff b k,
  )

  -- `get_wgt` returns the weight of an edge, and where there is none it returns 0 and leaves an edge of
  -- weight 0 behind: `is_connected` then holds of the two vertices, and no other edge has changed.
  pub get_wgt-connects :
      (zero : W) (a b j k : T) (g : Bigraph T W)
      → ((get_wgt zero a b g).0 ≡ or_zero zero (weight a b g.adj))
        × ((is_connected a b (get_wgt zero a b g).1).0 ≡ true)
        × (weight j k (get_wgt zero a b g).1.adj ≡ (
            if (a == j) && (b == k)
            then some (or_zero zero (weight a b g.adj))
            else weight j k g.adj))
  get_wgt-connects zero a b j k g = (
    get_wgt-weight zero a b g,
    is_connected-weight a b (get_wgt zero a b g).1
        ∙ ground (arith, weight-get_wgt zero a b a b g, ==_refl a, ==_refl b),
    weight-get_wgt zero a b j k g,
  )
