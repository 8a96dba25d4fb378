-- ===== src/Graph/Bfs/Queue.antt =====
-- The queue of `BFS` in include/graph.hpp, and a vertex that joins it.
use paracel.Prelude.{
  ℕ, ◌+◌, ◌≤◌, ◌≡◌, true, List, [], ◌∷◌, ◌++◌, Eq, ◌==◌, ==_refl, if◌then◌else◌, arith,
}
use paracel.Prelude.Dict.{has, at_or, has-put, find-put}
use paracel.Graph.Walk.{elem, elem-snoc}
use paracel.Graph.Bfs.{Search, dist, discover}

module _ {T : Type 0} ⦃e : Eq T⦄ where
  abbrev pub IsMarked : T → Search T → Type 0
  IsMarked x s = has x s.marked ≡ true

  -- the distances of a queue never fall
  abbrev pub IsAscending : (T → ℕ) → List T → Type 0
  IsAscending f [] = Unit
  IsAscending f (x ∷ xs) = ((y : T) → elem y xs ≡ true → f x ≤ f y) × IsAscending f xs

  pub dist-discover :
      (node w x : T) (s : Search T)
      → dist x (discover node w s) ≡ (if w == x then dist node s + 1 else dist x s)
  unfolding dist discover at_or
  dist-discover node w x s = ground (arith, find-put w x (at_or 0 node s.dist_to + 1) s.dist_to)

  pub marked-discover :
      (node w x : T) (s : Search T)
      → has x (discover node w s).marked ≡ (if w == x then true else has x s.marked)
  unfolding discover
  marked-discover node w x s = has-put w x true s.marked

  pub discover_marks : (node w : T) (s : Search T) → IsMarked w (discover node w s)
  discover_marks node w s = ground (arith, marked-discover node w w s, ==_refl w)

  pub IsAscending-ext :
      (f g : T → ℕ) (q : List T)
      → ((x : T) → elem x q ≡ true → f x ≡ g x)
      → IsAscending f q
      → IsAscending g q
  unfolding elem
  IsAscending-ext f g [] same h = tt
  IsAscending-ext f g (x ∷ q) same h = (
    λ y m. omega (arith, h.0 y m, same y (ground arith), same x (ground (arith, ==_refl x))),
    IsAscending-ext f g q (λ y m. same y (ground arith)) h.1,
  )

  pub IsAscending-snoc :
      (f : T → ℕ) (q : List T) (w : T)
      → ((x : T) → elem x q ≡ true → f x ≤ f w)
      → IsAscending f q
      → IsAscending f (q ++ w ∷ [])
  unfolding elem
  IsAscending-snoc f [] w below h = (λ y m. absurd (ground arith), tt)
  IsAscending-snoc f (x ∷ q) w below h = (
    λ y m. ground (arith, elem-snoc y w q, h.0 y, below x, ==_refl x, (e.beq_iff w y)),
    IsAscending-snoc f q w (λ y m. below y (ground arith)) h.1,
  )
