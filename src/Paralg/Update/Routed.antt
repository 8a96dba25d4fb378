-- ===== src/Paralg/Update/Routed.antt =====
-- The lists of keys and deltas that `paracel_bupdate_multi` of include/ps.hpp makes for the servers.
use paracel.Prelude.{
  ℕ, zero, suc, ◌+◌, ◌<◌, ◌≡◌, refl, ap, ◌∙◌, false, List, [], length-append, ◌∷◌, Option, some,
  Str, str_eq, str_beq_iff, length, nat_beq, ◌==◌, if◌then◌else◌, arith, Bool-cases, inl, inr,
}
use paracel.Paralg.Update.{push_pair, scatter_pairs}
use paracel.Paralg.Update.Latest.{newest, newest-snoc, over}

module _ {V : Type 0} (value : Str → V → V) (get_server : Str → ℕ) where
  -- from server `k` on, a server has only keys that are its own, with a delta for each
  abbrev pub IsRouted : ℕ → List (List Str × List V) → Type 0
  IsRouted k [] = Unit
  IsRouted k ((ks, ds) ∷ kd_lst) =
      (length ks ≡ length ds)
      × ((x : Str) (old : Option V)
          → nat_beq (get_server x) k ≡ false
          → newest value x ks ds old ≡ old)
      × IsRouted (k + 1) kd_lst

  over_later :
      (x : Str) (k : ℕ) (kd_lst : List (List Str × List V)) (old : Option V)
      → IsRouted k kd_lst
      → get_server x < k
      → over value x kd_lst old ≡ old
  over_later x k [] old routed h = refl
  over_later x k ((ks, ds) ∷ kd_lst) old (paired, own, routed) h =
      ap (over value x kd_lst) (own x old (ground arith))
      ∙ over_later x (k + 1) kd_lst old routed (omega (arith, h))

  length-push_pair :
      (i : ℕ) (key : Str) (delta : V) (kd_lst : List (List Str × List V))
      → length (push_pair i key delta kd_lst) ≡ length kd_lst
  unfolding push_pair
  length-push_pair i key delta [] = refl
  length-push_pair zero key delta ((ks, ds) ∷ kd_lst) = refl
  length-push_pair (suc i) key delta ((ks, ds) ∷ kd_lst) =
      ground (arith, length-push_pair i key delta kd_lst)

  push_pair-IsRouted :
      (k i : ℕ) (key : Str) (delta : V) (kd_lst : List (List Str × List V))
      → IsRouted k kd_lst
      → k + i ≡ get_server key
      → IsRouted k (push_pair i key delta kd_lst)
  unfolding push_pair
  push_pair-IsRouted k i key delta [] routed at = tt
  push_pair-IsRouted k zero key delta ((ks, ds) ∷ kd_lst) (paired, own, routed) at = (
    ground (arith, paired, length-append ks (key ∷ []), length-append ds (delta ∷ [])),
    (λ x old foreign.
        newest-snoc value x key delta ks ds old paired
        ∙ ground (arith, own x old foreign, str_beq_iff key x, λ (p : key ≡ x). ap get_server p)),
    routed,
  )
  push_pair-IsRouted k (suc i) key delta ((ks, ds) ∷ kd_lst) (paired, own, routed) at =
      (paired, own, push_pair-IsRouted (k + 1) i key delta kd_lst routed (ground (arith, at)))

  over-push_pair :
      (x : Str) (k i : ℕ) (key : Str) (delta : V) (kd_lst : List (List Str × List V))
      (old : Option V)
      → IsRouted k kd_lst
      → k + i ≡ get_server key
      → i < length kd_lst
      → over value x (push_pair i key delta kd_lst) old
        ≡ (if key == x then some (value key delta) else over value x kd_lst old)
  unfolding push_pair
  over-push_pair x k i key delta [] old routed at h = ground arith
  over-push_pair x k zero key delta ((ks, ds) ∷ kd_lst) old (paired, own, routed) at h =
      ap (over value x kd_lst) (newest-snoc value x key delta ks ds old paired)
      ∙ elim (Bool-cases (key == x)) [
        | inl same ↦
            ap
              (λ b.
                over value x kd_lst
                  (if b then some (value key delta) else newest value x ks ds old))
              same
            ∙ over_later x (k + 1) kd_lst (some (value key delta)) routed
                (omega (arith, at, ap get_server ((str_beq_iff key x).0 same)))
            ∙ ground (arith, same)
        | inr other ↦
            ap
              (λ b.
                over value x kd_lst
                  (if b then some (value key delta) else newest value x ks ds old))
              other
            ∙ ground (arith, other)
      ]
  over-push_pair x k (suc i) key delta ((ks, ds) ∷ kd_lst) old (paired, own, routed) at h =
      over-push_pair x (k + 1) i key delta kd_lst (newest value x ks ds old) routed
        (ground (arith, at)) (ground arith)

  pub scatter_pairs_lem :
      (keys : List Str) (deltas : List V) (kd_lst : List (List Str × List V))
      → ((key : Str) → get_server key < length kd_lst)
      → length keys ≡ length deltas
      → IsRouted 0 kd_lst
      → (rows : List (List Str × List V)) × (scatter_pairs get_server keys deltas kd_lst
          ≡ some rows)
        × ((x : Str) (old : Option V)
            → over value x rows old ≡ newest value x keys deltas (over value x kd_lst old))
  unfolding scatter_pairs
  scatter_pairs_lem [] [] kd_lst known same routed = (kd_lst, refl, λ x old. refl)
  scatter_pairs_lem [] (delta ∷ deltas) kd_lst known same routed = absurd (ground (arith, same))
  scatter_pairs_lem (key ∷ keys) [] kd_lst known same routed = absurd (ground (arith, same))
  scatter_pairs_lem (key ∷ keys) (delta ∷ deltas) kd_lst known same routed =
      let pushed = push_pair (get_server key) key delta kd_lst in
      let (rows, h, all) =
        scatter_pairs_lem keys deltas pushed
          (λ k. ground (arith, known k, length-push_pair (get_server key) key delta kd_lst))
          (ground (arith, same))
          (push_pair-IsRouted 0 (get_server key) key delta kd_lst routed (ground arith)) in
      (
        rows,
        h,
        (λ x old.
            all x old
            ∙ ap (newest value x keys deltas) (
                over-push_pair x 0 (get_server key) key delta kd_lst old routed (ground arith)
                  (known key))),
      )
