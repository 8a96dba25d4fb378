-- ===== src/Graph/Components/Labels.antt =====
-- What the handler of `connected_components` in include/graph.hpp writes.
use paracel.Prelude.{◌≡◌, refl, true, some, List, [], ◌∷◌, Eq, if◌then◌else◌, ltb, arith}
use paracel.Prelude.Dict.{has, find, has-put, find-put}
use paracel.Graph.Walk.{elem, times}
use paracel.Graph.Components.{Components, handler, handle_all}

module _ {T : Type 0} ⦃e : Eq T⦄ where
  pub elem-times : (x : T) (vs : List T) → elem x vs ≡ ltb 0 (times x vs)
  unfolding elem times
  elem-times x [] = refl
  elem-times x (v ∷ vs) = ground (arith, elem-times x vs)

  -- the table of the visited vertices agrees with the labels
  abbrev pub Agrees : Components T → Type 0
  Agrees c = (x : T) → has x c.marked ≡ has x c.identifier

  pub handle_all-count : (vs : List T) (c : Components T) → (handle_all vs c).count ≡ c.count
  unfolding handle_all handler
  handle_all-count [] c = refl
  handle_all-count (v ∷ vs) c = handle_all-count vs (handler v c)

  pub find-handle_all :
      (x : T) (vs : List T) (c : Components T)
      → find x (handle_all vs c).identifier
        ≡ (if elem x vs then some c.count else find x c.identifier)
  unfolding handle_all handler elem
  find-handle_all x [] c = refl
  find-handle_all x (v ∷ vs) c =
      ground (arith, find-handle_all x vs (handler v c), find-put v x c.count c.identifier)

  pub handle_all-Agrees : (vs : List T) (c : Components T) → Agrees c → Agrees (handle_all vs c)
  unfolding handle_all handler
  handle_all-Agrees [] c h = h
  handle_all-Agrees (v ∷ vs) c h =
      handle_all-Agrees vs (handler v c)
        (λ x. ground (arith, h x, has-put v x true c.marked, has-put v x c.count c.identifier))
