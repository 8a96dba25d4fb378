-- ===== src/Load/Build.antt =====
-- `create_graph` of include/load/loader.hpp: from the lines of all processes to the graph of one. `slots f` is
-- what `lines_organize` has returned on process `f`, and `none` a process that waits for ever. Printing and
-- giving memory back are left out.
pub mod Edges
mod Tests
use paracel.Prelude.{ℕ, ◌*◌, length, Str, List, [], ◌∷◌, Option, none, some, nat_eq, str_eq, Eq}
use paracel.Prelude.Dict.{Dict}
use paracel.Prelude.Int.{ℤ}
use paracel.Prelude.Order.{int_order}
use paracel.Graph.Adjacency.{Adjacency, link}
use paracel.Graph.Digraph
use paracel.Graph.Digraph.{Digraph}
use paracel.Graph.Bigraph
use paracel.Graph.Bigraph.{Bigraph}
use paracel.Graph.Continuous
use paracel.Graph.Continuous.{Continuous}
use paracel.Load.Organize.{Triple}
use paracel.Load.Wire.{Conversions}
use paracel.Load.Exchange.{exchange}
use paracel.Load.Mapping.{index_mapping, to_int, of_int}

abbrev Slots : Type 0 → Type 0 → Type 0
Slots K D = ℕ → List (List (Triple K D))

module _ {D : Type 0} where
  module _ {K : Type 0} ⦃e : Eq K⦄ where
    -- the loop `grp.add_edge`
    unfoldable pub add_all : List (Triple K D) → Digraph K D → Digraph K D
    add_all [] grp = grp
    add_all (tpl ∷ stf) grp = add_all stf (Digraph.add_edge tpl.row tpl.col tpl.val grp)

    unfoldable pub add_all_bigraph : List (Triple K D) → Bigraph K D → Bigraph K D
    add_all_bigraph [] grp = grp
    add_all_bigraph (tpl ∷ stf) grp =
        add_all_bigraph stf (Bigraph.add_edge tpl.row tpl.col tpl.val grp)

    -- the loop that fills `dct`
    unfoldable pub fill_dict : List (Triple K D) → Adjacency K D → Adjacency K D
    unfolding link
    fill_dict [] dct = dct
    fill_dict (tpl ∷ stf) dct = fill_dict stf (link tpl.row tpl.col tpl.val dct)

  -- `none` is the edge of a vertex whose successor wraps around
  unfoldable pub add_all_continuous : List (Triple ℕ D) → Continuous D → Option (Continuous D)
  add_all_continuous [] grp = some grp
  add_all_continuous (tpl ∷ stf) grp = elim (Continuous.add_edge tpl.row tpl.col tpl.val grp) [
    | none ↦ none
    | some grp' ↦ add_all_continuous stf grp'
  ]

  -- `create_graph` for each kind of graph, on process `rk` of `sz`
  unfoldable pub create_digraph :
      Conversions ℕ D → Slots ℕ D → ℕ → ℕ → Digraph ℕ D → Option (Digraph ℕ D)
  unfolding exchange add_all
  create_digraph w slots sz rk grp = elim (exchange w slots sz rk) [
    | none ↦ none
    | some stf ↦ some (add_all stf grp)
  ]

  unfoldable pub create_digraph_str :
      Conversions Str D → Slots Str D → ℕ → ℕ → Digraph Str D → Option (Digraph Str D)
  unfolding exchange fill_dict
  create_digraph_str w slots sz rk grp = elim (exchange w slots sz rk) [
    | none ↦ none
    | some stf ↦ some (Digraph.construct_from_dict (fill_dict stf []) grp)
  ]

  unfoldable pub create_bigraph :
      Conversions ℕ D → Slots ℕ D → ℕ → ℕ → Bigraph ℕ D → Option (Bigraph ℕ D)
  unfolding exchange add_all_bigraph
  create_bigraph w slots sz rk grp = elim (exchange w slots sz rk) [
    | none ↦ none
    | some stf ↦ some (add_all_bigraph stf grp)
  ]

  unfoldable pub create_bigraph_str :
      Conversions Str D → Slots Str D → ℕ → ℕ → Bigraph Str D → Option (Bigraph Str D)
  unfolding exchange fill_dict
  create_bigraph_str w slots sz rk grp = elim (exchange w slots sz rk) [
    | none ↦ none
    | some stf ↦ some (Bigraph.construct_from_dict (fill_dict stf []) grp)
  ]

  -- what process `f` has got from `exchange`
  abbrev received : Conversions ℕ D → Slots ℕ D → ℕ → ℕ → List (Triple ℕ D)
  received w slots sz f = elim (exchange w slots sz f) [ none ↦ [] | some stf ↦ stf ]

  -- `create_graph` of a continuous graph, on process `rk` of a grid of `npx` times `npy`
  unfoldable pub create_continuous :
      Conversions ℕ D
      → Slots ℕ D
      → ℕ
      → ℕ
      → ℕ
      → Dict ℕ ℕ
      → Dict ℕ ℕ
      → Continuous D
      → Option (Continuous D × Dict ℕ ℕ × Dict ℕ ℕ)
  unfolding exchange index_mapping add_all_continuous
  create_continuous w slots npx npy rk rm cm grp =
      elim (index_mapping to_int of_int (received w slots (npx * npy)) npx npy rk rm cm) [
        | none ↦ none
        | some (stf_new, rm', cm') ↦ elim (add_all_continuous stf_new grp) [
          | none ↦ none
          | some grp' ↦ some (grp', rm', cm')
        ]
      ]

  -- `create_matrix` of a sparse matrix: the entries that Eigen adds up, and the numbers of rows and columns
  unfoldable pub create_sparse :
      Conversions ℕ D
      → Slots ℕ D
      → ℕ
      → ℕ
      → ℕ
      → Dict ℕ ℕ
      → Dict ℕ ℕ
      → Option (List (Triple ℕ D) × ℕ × ℕ × Dict ℕ ℕ × Dict ℕ ℕ)
  unfolding exchange index_mapping
  create_sparse w slots npx npy rk rm cm =
      elim (index_mapping to_int of_int (received w slots (npx * npy)) npx npy rk rm cm) [
        | none ↦ none
        | some (stf_new, rm', cm') ↦ some (stf_new, length rm', length cm', rm', cm')
      ]
