-- ===== src/Paralg/Update/Latest.antt =====
-- What the cache has after `paracel_bupdate_multi` of include/ps.hpp.
use paracel.Prelude.{
  ℕ, ◌+◌, ◌≡◌, refl, ap, ◌∙◌, Bool, true, false, List, [], ◌∷◌, ◌++◌, Option, some, Str, str_eq,
  length, ◌==◌, if◌then◌else◌, arith,
}
use paracel.Paralg.{Paralg, cached, remember}
use paracel.Paralg.Read.{cached-remember}
use paracel.Paralg.Bounded.{remember_values}
use paracel.Paralg.Update.{update_loop}

module _ {V : Type 0} (value : Str → V → V) where
  abbrev pub values : List Str → List V → List V
  values (key ∷ keys) (delta ∷ deltas) = value key delta ∷ values keys deltas
  values _ _ = []

  -- the new value that the last update of a key gives it, if it is not that of `old`
  abbrev pub newest : Str → List Str → List V → Option V → Option V
  newest x (key ∷ keys) (delta ∷ deltas) old =
      newest x keys deltas (if key == x then some (value key delta) else old)
  newest x _ _ old = old

  cached-remember_values :
      (x : Str) (keys : List Str) (deltas : List V) (w : Paralg V)
      → cached x (remember_values keys (values keys deltas) w) ≡ newest x keys deltas (cached x w)
  unfolding remember_values
  cached-remember_values x [] deltas w = refl
  cached-remember_values x (key ∷ keys) [] w = refl
  cached-remember_values x (key ∷ keys) (delta ∷ deltas) w =
      cached-remember_values x keys deltas (remember key (value key delta) w)
      ∙ ap (newest x keys deltas) (cached-remember key x (value key delta) w)

  pub newest-snoc :
      (x key : Str) (delta : V) (keys : List Str) (deltas : List V) (old : Option V)
      → length keys ≡ length deltas
      → newest x (keys ++ key ∷ []) (deltas ++ delta ∷ []) old
        ≡ (if key == x then some (value key delta) else newest x keys deltas old)
  newest-snoc x key delta [] [] old h = refl
  newest-snoc x key delta [] (d ∷ deltas) old h = ground arith
  newest-snoc x key delta (k ∷ keys) [] old h = ground arith
  newest-snoc x key delta (k ∷ keys) (d ∷ deltas) old h =
      newest-snoc x key delta keys deltas (if k == x then some (value k d) else old) (ground arith)

  -- what the rows of the servers make of a value
  abbrev pub over : Str → List (List Str × List V) → Option V → Option V
  over x [] old = old
  over x ((ks, ds) ∷ kd_lst) old = over x kd_lst (newest x ks ds old)

  remember_values-ssp :
      (keys : List Str) (vals : List V) (w : Paralg V)
      → (remember_values keys vals w).ssp_switch ≡ w.ssp_switch
  unfolding remember_values remember
  remember_values-ssp [] vals w = refl
  remember_values-ssp (key ∷ keys) [] w = refl
  remember_values-ssp (key ∷ keys) (val ∷ vals) w =
      remember_values-ssp keys vals (remember key val w)

  pub update_loop-cached :
      (bupdate_multi : ℕ → List Str → List V → List V × Bool) (x : Str) (k : ℕ)
      (kd_lst : List (List Str × List V)) (r : Bool) (w : Paralg V)
      → ((k : ℕ) (ks : List Str) (ds : List V) → (bupdate_multi k ks ds).0 ≡ values ks ds)
      → w.ssp_switch ≡ true
      → cached x (update_loop bupdate_multi k kd_lst r w).1 ≡ over x kd_lst (cached x w)
  unfolding update_loop
  update_loop-cached bupdate_multi x k [] r w answers ssp = refl
  update_loop-cached bupdate_multi x k ((ks, ds) ∷ kd_lst) r w answers ssp =
      let w' = if w.ssp_switch then remember_values ks (bupdate_multi k ks ds).0 w else w in
      let same : w' ≡ remember_values ks (values ks ds) w =
        ground (arith, ssp, ap (λ l. remember_values ks l w) (answers k ks ds)) in
      let on : w'.ssp_switch ≡ true =
        ap (λ v. v.ssp_switch) same ∙ remember_values-ssp ks (values ks ds) w ∙ ssp in
      update_loop-cached bupdate_multi x (k + 1) kd_lst
        (if (bupdate_multi k ks ds).1 then r else false) w' answers on
      ∙ ap (λ v. over x kd_lst (cached x v)) same
      ∙ ap (over x kd_lst) (cached-remember_values x ks ds w)
