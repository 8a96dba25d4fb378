-- ===== src/Paralg/Topk/Tests.antt =====
-- The two largest of four values on two servers.
use paracel.Prelude.{
  str_beq, ℕ, suc, ◌≡◌, refl, List, [], ◌∷◌, text, Str, str_eq, leb, if◌then◌else◌,
}
use paracel.Prelude.Dict.{Dict, put}
use paracel.Paralg.Topk.{Node, paracel_read_topk}
use paracel.Paralg.Topk.Erase.{value_at}

-- a queue that looks for the first least node
abbrev first_least : List Node → ℕ
first_least [] = 0
first_least (x ∷ []) = 0
first_least (x ∷ y ∷ ys) =
    let i = first_least (y ∷ ys) in if leb x.1 (value_at (y ∷ ys) i) then 0 else suc i

abbrev two_servers : List (Dict Str ℕ)
two_servers = ((text "a", 3) ∷ (text "b", 9) ∷ []) ∷ ((text "c", 1) ∷ (text "d", 7) ∷ []) ∷ []

two_best : paracel_read_topk first_least 2 two_servers ≡ (text "b", 9) ∷ (text "d", 7) ∷ []
unfolding paracel_read_topk put str_beq
two_best = refl
