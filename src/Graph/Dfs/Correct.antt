-- ===== src/Graph/Dfs/Correct.antt =====
-- What `DFS` of include/graph.hpp marks and visits.
use paracel.Prelude.{◌≡◌, refl, ◌↔◌, inl, inr, true, false, some, List, [], length, Eq, arith}
use paracel.Prelude.Sort.{one_if}
use paracel.Prelude.Dict.{Dict, has}
use paracel.Graph.Walk.{elem, times, missing-le-length, IsClosed, Walk, here, step}
use paracel.Graph.Dfs.{Search, start, visited, dfs}
use paracel.Graph.Dfs.Grows.{IsMarked, dfs-Grows}
use paracel.Graph.Dfs.Ends.{dfs-Returns}

module _ {T W : Type 0} ⦃e : Eq T⦄ (adjacent : T → Dict T W) where
  counted_start : (x : T) → times x (start T).visits ≡ one_if (has x (start T).marked)
  unfolding times has
  counted_start x = refl

  along :
      (t : Search T) {v x : T}
      → ((y w : T) → IsMarked y t → has w (adjacent y) ≡ true → IsMarked w t)
      → IsMarked v t
      → Walk adjacent v x
      → IsMarked x t
  along t every m here = m
  along t every m (step {v} {w} edge walk) = along t every (every v w m edge) walk

  nothing_marked : (x : T) → has x (start T).marked ≡ false
  unfolding has
  nothing_marked x = refl

  -- From a vertex of a finite list that no edge leaves, the search comes to its end within as many nested
  -- calls as the list has vertices. It then has visited exactly the vertices that a walk from the first
  -- one reaches, and `func` was called once with each of them and with no other.
  pub dfs-Walk :
      (vs : List T) (src : T)
      → IsClosed adjacent vs
      → elem src vs ≡ true
      → (t : Search T) × (dfs adjacent (length vs) src (start T) ≡ some t)
        × ((x : T) → (visited x t ≡ true) ↔ Walk adjacent src x)
        × ((x : T) → times x t.visits ≡ one_if (visited x t))
  unfolding visited
  dfs-Walk vs src inner mem =
      let (t, done, _) =
        dfs-Returns adjacent vs inner (length vs) src (start T) mem (nothing_marked src)
          (missing-le-length vs []) in
      let (grows, first) =
        dfs-Grows adjacent (length vs) src (start T) t (nothing_marked src) done in
      (
        t,
        done,
        λ x. (
          λ m. elim (grows.sound x m) [
            | inl old ↦ absurd (ground (arith, old, nothing_marked x))
            | inr walk ↦ walk
          ],
          along t
              (λ y w m edge. elim (grows.closed y m) [
                | inl old ↦ absurd (ground (arith, old, nothing_marked y))
                | inr all ↦ all w edge
              ])
              first,
        ),
        grows.counted counted_start,
      )
