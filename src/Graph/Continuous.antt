-- ===== src/Graph/Continuous.antt =====
-- `bigraph_continuous` of include/graph.hpp: the left vertices are 0 to N - 1. `none` is an index out of
-- bounds, or a string that is no number; `stoi` and `stod` are parameters. A vertex is a `uint64_t`.
pub mod Edges
use paracel.Prelude.{
  ℕ, zero, suc, ◌+◌, ◌-◌, Bool, true, false, Option, none, some, List, [], ◌∷◌, ◌++◌, Str, text,
  length, get_elem?, set as list_set, take, replicate, nat_eq, nat_beq, ltb, leb, if◌then◌else◌,
}
use paracel.Prelude.Size.{add_size}
use paracel.Text.{str_split}

pub record Continuous {κ} (W : Type κ) : Type κ where
  pub v_sz : ℕ
  pub e_sz : ℕ
  pub adj : List (List (ℕ × W))

abbrev pub empty {κ} : (W : Type κ) → Continuous W
empty W = record { v_sz = 0; e_sz = 0; adj = [] }

module _ {κ} {W : Type κ} where
  -- `adj.resize(n)`
  unfoldable pub resize_adj : ℕ → List (List (ℕ × W)) → List (List (ℕ × W))
  resize_adj n adj = take n adj ++ replicate (n - length adj) []

  -- the constructor of `n` vertices
  unfoldable pub with_vertices : ℕ → Continuous W
  unfolding resize_adj
  with_vertices n = record { v_sz = n; adj = resize_adj n []; e_sz = 0 }

  -- `add_edge(src, dst, rating)`
  unfoldable pub add_edge : ℕ → ℕ → W → Continuous W → Option (Continuous W)
  unfolding resize_adj
  add_edge src dst rating g =
      let adj' = if leb (length g.adj) src then resize_adj (add_size src 1) g.adj else g.adj in
      elim (get_elem? adj' src) [
        | none ↦ none
        | some bag ↦ some (record g {
          adj = list_set adj' src (bag ++ (dst, rating) ∷ []);
          e_sz = add_size g.e_sz 1;
        })
      ]

  -- `add_edge(src, dst)`
  unfoldable pub add_unit_edge : W → ℕ → ℕ → Continuous W → Option (Continuous W)
  unfolding add_edge
  add_unit_edge one src dst g = add_edge src dst one g

  unfoldable pub resize : ℕ → Continuous W → Continuous W
  unfolding resize_adj
  resize n g = record { v_sz = n; adj = resize_adj n g.adj; e_sz = 0 }

  unfoldable pub v : Continuous W → ℕ × Continuous W
  v g = (length g.adj, record g { v_sz = length g.adj })

  unfoldable pub e : Continuous W → ℕ
  e g = g.e_sz

  unfoldable pub adjacent : ℕ → Continuous W → Option (List (ℕ × W))
  adjacent v g = get_elem? g.adj v

  unfoldable pub outdegree : ℕ → Continuous W → Option ℕ
  outdegree v g = elim (get_elem? g.adj v) [ none ↦ none | some bag ↦ some (length bag) ]

  -- the inner loop of `indegree`
  unfoldable pub count_to : ℕ → List (ℕ × W) → ℕ → ℕ
  count_to v [] cnt = cnt
  count_to v ((w, rating) ∷ bag) cnt = count_to v bag (if nat_beq w v then add_size cnt 1 else cnt)

  unfoldable pub count_all_to : ℕ → List (List (ℕ × W)) → ℕ → ℕ
  unfolding count_to
  count_all_to v [] cnt = cnt
  count_all_to v (bag ∷ adj) cnt = count_all_to v adj (count_to v bag cnt)

  unfoldable pub indegree : ℕ → Continuous W → ℕ
  unfolding count_all_to
  indegree v g = count_all_to v g.adj 0

  -- the calls of `func` for one vertex, and for those from `i` on
  unfoldable pub calls_from : ℕ → List (ℕ × W) → List (ℕ × ℕ × W)
  calls_from v [] = []
  calls_from v ((w, rating) ∷ bag) = (v, w, rating) ∷ calls_from v bag

  unfoldable pub calls : ℕ → List (List (ℕ × W)) → List (ℕ × ℕ × W)
  unfolding calls_from
  calls i [] = []
  calls i (bag ∷ adj) = calls_from i bag ++ calls (suc i) adj

  unfoldable pub traverse : Continuous W → List (ℕ × ℕ × W)
  unfolding calls
  traverse g = calls 0 g.adj

  unfoldable pub traverse_from : ℕ → Continuous W → Option (List (ℕ × ℕ × W))
  unfolding calls_from
  traverse_from v g = elim (get_elem? g.adj v) [ none ↦ none | some bag ↦ some (calls_from v bag) ]

module _ {κ} {W : Type κ} (stoi : Str → Option ℕ) (stod : Str → Option W) where
  -- one line of the file
  unfoldable pub add_fields : List Str → Continuous W → Option (Continuous W)
  unfolding add_edge
  add_fields (src ∷ dst ∷ rating ∷ _) g = elim (stoi src) [
    | none ↦ none
    | some s ↦ elim (stoi dst) [
      | none ↦ none
      | some d ↦ elim (stod rating) [ none ↦ none | some r ↦ add_edge s d r g ]
    ]
  ]
  add_fields _ g = none

  -- the loop over the lines behind the first
  unfoldable pub read_lines : List Str → Continuous W → Option (Continuous W)
  unfolding add_fields str_split
  read_lines [] g = some g
  read_lines (line ∷ lines) g = elim (str_split line (text ",")) [
    | none ↦ none
    | some lst ↦ elim (add_fields lst g) [ none ↦ none | some g' ↦ read_lines lines g' ]
  ]

  -- the constructor from a file, on its lines
  unfoldable pub from_lines : List Str → Option (Continuous W)
  unfolding read_lines with_vertices
  from_lines [] = none
  from_lines (line ∷ lines) = elim (stoi line) [
    | none ↦ none
    | some n ↦ read_lines lines (with_vertices n)
  ]
