-- ===== src/Paralg/Topk.antt =====
-- The reads of all parameters by `paralg` of include/ps.hpp. `servers` are the answers to `pullall`, or to
-- `pullall_special`, in the order of the servers. Values are numbers where they are compared.
-- `std::priority_queue` is a parameter: of the nodes that it holds it tells the place of the one on top.
pub mod Erase
pub mod Largest
mod Tests
use paracel.Prelude.{
  ℕ, zero, suc, ◌<◌, ◌≤◌, List, [], ◌∷◌, ◌++◌, Str, str_eq, length, get_elem?, Option, none, some,
  ltb, if◌then◌else◌,
}
use paracel.Prelude.Dict.{Dict, put}

module _ {V : Type 0} where
  -- `d[kv.first] = kv.second` for all of `tmp`
  unfoldable pub copy_into : Dict Str V → Dict Str V → Dict Str V
  copy_into [] d = d
  copy_into ((key, val) ∷ tmp) d = copy_into tmp (put key val d)

  -- the loop of `paracel_readall` over the servers
  unfoldable pub readall_loop : List (Dict Str V) → Dict Str V → Dict Str V
  unfolding copy_into
  readall_loop [] d = d
  readall_loop (tmp ∷ servers) d = readall_loop servers (copy_into tmp d)

  unfoldable pub paracel_readall : List (Dict Str V) → Dict Str V
  unfolding readall_loop
  paracel_readall servers = readall_loop servers []

  unfoldable pub paracel_read_special : List (Dict Str V) → Dict Str V
  unfolding readall_loop
  paracel_read_special servers = readall_loop servers []

  -- the calls of `func`
  unfoldable pub paracel_readall_handle : List (Dict Str V) → List (Dict Str V)
  unfolding copy_into
  paracel_readall_handle [] = []
  paracel_readall_handle (tmp ∷ servers) = copy_into tmp [] ∷ paracel_readall_handle servers

abbrev pub Node : Type 0
Node = Str × ℕ

unfoldable pub erase_at : ℕ → List Node → List Node
erase_at i [] = []
erase_at zero (x ∷ xs) = xs
erase_at (suc i) (x ∷ xs) = x ∷ erase_at i xs

abbrev pub reverse_onto : List Node → List Node → List Node
reverse_onto [] back = back
reverse_onto (x ∷ xs) back = reverse_onto xs (x ∷ back)

module _ (top : List Node → ℕ) where
  -- `handler` on one dictionary
  unfoldable pub handler : ℕ → Dict Str ℕ → List Node → List Node
  unfolding erase_at
  handler k [] tmplst = tmplst
  handler k (kv ∷ d) tmplst =
      let pushed = kv ∷ tmplst in
      handler k d (if ltb k (length pushed) then erase_at (top pushed) pushed else pushed)

  unfoldable pub handle_all : ℕ → List (Dict Str ℕ) → List Node → List Node
  unfolding handler
  handle_all k [] tmplst = tmplst
  handle_all k (d ∷ ds) tmplst = handle_all k ds (handler k d tmplst)

  -- The loop that empties the queue, in the order before `std::reverse`; with a round for every node.
  unfoldable pub drain : ℕ → List Node → List Node
  unfolding erase_at
  drain zero tmplst = []
  drain (suc fuel) tmplst = elim (get_elem? tmplst (top tmplst)) [
    | none ↦ []
    | some node ↦ node ∷ drain fuel (erase_at (top tmplst) tmplst)
  ]

  unfoldable pub paracel_read_topk : ℕ → List (Dict Str ℕ) → List Node
  unfolding paracel_readall_handle handle_all drain
  paracel_read_topk k servers =
      let tmplst = handle_all k (paracel_readall_handle servers) [] in
      reverse_onto (drain (length tmplst) tmplst) []
