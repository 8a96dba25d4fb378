-- ===== src/Load/Build/Edges.antt =====
-- Which edges the graphs of the processes get from `create_graph` (include/load/loader.hpp).
use paracel.Prelude.{
  ℕ, ◌<◌, ◌≡◌, refl, ◌∙◌, Bool, true, false, ◌&&◌, ◌||◌, List, [], ◌∷◌, none, some, Str, nat_eq, Eq,
  ◌==◌, nat_beq, ltb, arith,
}
use paracel.Prelude.Dict.{find, at_or}
use paracel.Prelude.Sums.{total, upto}
use paracel.Graph.Adjacency.{weight, row}
use paracel.Graph.Digraph
use paracel.Graph.Digraph.{Digraph}
use paracel.Graph.Digraph.Valid.{IsValid, weight-add_edge, empty-IsValid, add_edge-IsValid}
use paracel.Load.Parser.{ok}
use paracel.Load.Organize.{Triple, Setting, cell_of}
use paracel.Load.Organize.Buckets.{all_triples}
use paracel.Load.Wire.{Conversions}
use paracel.Load.Wire.Carry.{IsFaithful}
use paracel.Load.Wire.Digits.{IsPlain, plain-All}
use paracel.Load.Exchange.Tally.{tally}
use paracel.Load.Exchange.Routes.{organized, exchange_routes}
use paracel.Load.Build.{add_all, create_digraph}

module _ {K D : Type 0} ⦃e : Eq K⦄ where
  abbrev pub is_edge : K → K → Digraph K D → Bool
  is_edge v w grp = elim (weight v w grp.adj) [ none ↦ false | some wgt ↦ true ]

  abbrev pub joins : K → K → Triple K D → Bool
  joins v w tpl = tpl.row == v && tpl.col == w

  add_all-edge :
      (v w : K) (stf : List (Triple K D)) (grp : Digraph K D)
      → is_edge v w (add_all stf grp) ≡ ltb 0 (tally (joins v w) stf) || is_edge v w grp
  unfolding add_all
  add_all-edge v w [] grp = refl
  add_all-edge v w (tpl ∷ stf) grp = ground (
    arith,
    add_all-edge v w stf (Digraph.add_edge tpl.row tpl.col tpl.val grp),
    weight-add_edge tpl.row tpl.col v w tpl.val grp,
  )

  add_all-IsValid :
      (stf : List (Triple K D)) (grp : Digraph K D) → IsValid grp → IsValid (add_all stf grp)
  unfolding add_all
  add_all-IsValid [] grp h = h
  add_all-IsValid (tpl ∷ stf) grp h =
      add_all-IsValid stf (Digraph.add_edge tpl.row tpl.col tpl.val grp)
        (add_edge-IsValid tpl.row tpl.col tpl.val grp h)

no_edge : (D : Type 0) (v w : ℕ) → is_edge v w (Digraph.empty ℕ D) ≡ false
unfolding weight row find at_or
no_edge D v w = refl

-- Where every process can read its lines, and the conversions read back what they write, ids as digits and
-- values as `rounded` of them without the letters of a separator: `create_graph` returns on every process, and
-- the graph of process `rk` has an edge from `v` to `w` exactly if some process has it in its lines and it is
-- hashed to `rk`; its rows and the reverse rows tell the same edges.
pub create_digraph-edges :
    {D : Type 0} (conv : Conversions ℕ D) (rounded : D → D) (s : Setting ℕ D) (lines : ℕ → List Str)
    (tpls : ℕ → List (Triple ℕ D)) (sz rk v w : ℕ)
    → IsFaithful conv rounded
    → IsPlain conv
    → rk < sz
    → ((f : ℕ) → all_triples s (lines f) ≡ ok (tpls f))
    → (grp : Digraph ℕ D) × (create_digraph conv
          (λ f. organized s sz (lines f))
          sz
          rk
          (Digraph.empty ℕ D)
        ≡ some grp)
      × IsValid grp
      × (is_edge v w grp
          ≡ ltb 0 (
              total
                (λ f. tally (λ tpl. nat_beq (cell_of s tpl) rk && joins v w tpl) (tpls f))
                (upto 0 sz)))
unfolding create_digraph
create_digraph-edges {D} conv rounded s lines tpls sz rk v w faithful plain h parsed =
    let (stf, e, n) =
      exchange_routes s conv rounded (joins v w) lines tpls sz rk faithful h parsed
        (λ f. plain-All conv plain (tpls f)) in
    let start = Digraph.empty ℕ D in
    (
      add_all stf start,
      ground (arith, e),
      add_all-IsValid stf start empty-IsValid,
      add_all-edge v w stf start ∙ ground (arith, n, no_edge D v w),
    )
