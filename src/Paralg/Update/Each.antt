-- ===== src/Paralg/Update/Each.antt =====
-- Updating several keys in one call of include/ps.hpp is updating each of them.
use paracel.Prelude.{
  ℕ, zero, suc, ◌+◌, ◌<◌, ◌≡◌, refl, sym, ap, ◌∙◌, Bool, true, List, [], length-replicate, ◌∷◌,
  Option, some, Str, str_eq, length, replicate, ◌==◌, if◌then◌else◌, arith,
}
use paracel.Paralg.{Paralg, bupdate_with, log, cached, remember, paracel_bupdate_with}
use paracel.Paralg.Read.{cached-remember}
use paracel.Paralg.Update.{update_loop, paracel_bupdate_multi}
use paracel.Paralg.Update.Latest.{values, newest, over, update_loop-cached}
use paracel.Paralg.Update.Routed.{IsRouted, scatter_pairs_lem}

module _ {V : Type 0} (value : Str → V → V) (get_server : Str → ℕ) where
  replicate-IsRouted : (k n : ℕ) → IsRouted value get_server k (replicate n ([], []))
  replicate-IsRouted k zero = tt
  replicate-IsRouted k (suc n) = (refl, (λ x old foreign. refl), replicate-IsRouted (k + 1) n)

  over-replicate :
      (x : Str) (n : ℕ) (old : Option V) → over value x (replicate n ([], [])) old ≡ old
  over-replicate x zero old = refl
  over-replicate x (suc n) old = over-replicate x n old

  -- the updates one by one, to which the servers answer with the new values and with `oks`
  abbrev pub bupdate_each : (Str → V → Bool) → Str → Str → List Str → List V → Paralg V → Paralg V
  bupdate_each ok file_name func_name (key ∷ keys) (delta ∷ deltas) w =
      bupdate_each ok file_name func_name keys deltas
        (paracel_bupdate_with get_server key delta file_name func_name
          (value key delta, ok key delta) w).1
  bupdate_each ok file_name func_name _ _ w = w

  one_update :
      (x key : Str) (delta : V) (file_name func_name : Str) (r : Bool) (w : Paralg V)
      → w.ssp_switch ≡ true
      → (w' : Paralg V) × ((paracel_bupdate_with get_server key delta file_name func_name
            (value key delta, r)
            w).1
          ≡ w')
        × (w'.ssp_switch ≡ true)
        × (cached x w' ≡ (if key == x then some (value key delta) else cached x w))
  unfolding paracel_bupdate_with remember cached
  one_update x key delta file_name func_name r w ssp =
      let sent = log (bupdate_with (get_server key) key delta file_name func_name) w in
      (
        remember key (value key delta) sent,
        ground (arith, ssp),
        ssp,
        cached-remember key x (value key delta) sent,
      )

  cached-bupdate_each :
      (x : Str) (ok : Str → V → Bool) (file_name func_name : Str) (keys : List Str)
      (deltas : List V) (w : Paralg V)
      → w.ssp_switch ≡ true
      → cached x (bupdate_each ok file_name func_name keys deltas w)
        ≡ newest value x keys deltas (cached x w)
  unfolding paracel_bupdate_with
  cached-bupdate_each x ok file_name func_name [] deltas w ssp = refl
  cached-bupdate_each x ok file_name func_name (key ∷ keys) [] w ssp = refl
  cached-bupdate_each x ok file_name func_name (key ∷ keys) (delta ∷ deltas) w ssp =
      let (w', made, on, now) = one_update x key delta file_name func_name (ok key delta) w ssp in
      ap (λ v. cached x (bupdate_each ok file_name func_name keys deltas v)) made
      ∙ cached-bupdate_each x ok file_name func_name keys deltas w' on
      ∙ ap (newest value x keys deltas) now

  -- Under ssp, with a delta for each key, where the ring names only servers that exist and a server answers
  -- to what it is sent with the new value `value key delta` of each key: the update of several keys returns,
  -- whether or not the servers report success, and the cache then has for every key, updated or not, what it
  -- has after updates of the keys one by one in the order of the list, to which the servers answer with the
  -- same new values and any report `ok`.
  pub paracel_bupdate_multi-each :
      (srv_sz : ℕ) (bupdate_multi : ℕ → List Str → List V → List V × Bool) (ok : Str → V → Bool)
      (file_name func_name : Str) (keys : List Str) (deltas : List V) (w : Paralg V)
      → ((key : Str) → get_server key < srv_sz)
      → ((k : ℕ) (ks : List Str) (ds : List V) → (bupdate_multi k ks ds).0 ≡ values value ks ds)
      → length keys ≡ length deltas
      → w.ssp_switch ≡ true
      → (r : Bool) × (w' : Paralg V) × (paracel_bupdate_multi get_server srv_sz bupdate_multi keys
            deltas w
          ≡ some (r, w'))
        × ((x : Str) → cached x w' ≡ cached x (bupdate_each ok file_name func_name keys deltas w))
  unfolding paracel_bupdate_multi
  paracel_bupdate_multi-each srv_sz bupdate_multi ok file_name func_name keys deltas w known answers
        same ssp =
      let empty : List (List Str × List V) = replicate srv_sz ([], []) in
      let (rows, h, all) =
        scatter_pairs_lem value get_server keys deltas empty
          (λ k. ground (arith, known k, length-replicate {A = List Str × List V} srv_sz ([], [])))
          same (replicate-IsRouted 0 srv_sz) in
      let out = update_loop bupdate_multi 0 rows true w in
      (
        out.0,
        out.1,
        ground (arith, h),
        λ x.
            update_loop-cached value bupdate_multi x 0 rows true w answers ssp
            ∙ all x (cached x w)
            ∙ ap (newest value x keys deltas) (over-replicate x srv_sz (cached x w))
            ∙ sym (cached-bupdate_each x ok file_name func_name keys deltas w ssp),
      )
