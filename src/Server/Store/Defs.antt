-- ===== src/Server/Store/Defs.antt =====
-- The state of a thread of `thrd_exec` in include/server.hpp, and the `kv_*` functions above it.
-- `none` is the end of the process: `abort`, a failed `assert`, an exception that nothing catches, or a
-- read out of bounds.
use paracel.Prelude.{
  Bool, not, Option, none, some, List, [], ◌∷◌, ◌++◌, Str, text, str_eq, if◌then◌else◌,
}
use paracel.Prelude.Dict.{Dict, put}
use paracel.Kv.{Kvs, set, get_into, del}

-- `update_result` and `filter_result`; `none` is an empty `std::function`
abbrev pub Update : Type 0
Update = Str → Str → Str

abbrev pub Filter : Type 0
Filter = Str → Str → Bool

abbrev pub Table : Type 0
Table = Kvs Str Str

-- `tbl_store`, the functions that the thread has registered, and the messages sent so far
pub record Thread : Type 0 where
  pub tbl : Table
  pub update_f : Option Update
  pub pullall_special_f : Option Filter
  pub remove_special_f : Option Filter
  pub sent : List Str

abbrev pub bind_opt : {A B : Type 0} → Option A → (A → Option B) → Option B
bind_opt none f = none
bind_opt (some a) f = f a

infixl 5 ◌>>=◌
abbrev pub ◌>>=◌ : {A B : Type 0} → Option A → (A → Option B) → Option B
m >>= f = bind_opt m f

-- the loop over the entries of `dct`; a call of an empty function throws
unfoldable pub kv_filter4pullall :
    Dict Str Str → Dict Str Str → Option Filter → Option (Dict Str Str)
kv_filter4pullall [] new_dct filter_func = some new_dct
kv_filter4pullall ((k, v) ∷ dct) new_dct none = none
kv_filter4pullall ((k, v) ∷ dct) new_dct (some f) =
    kv_filter4pullall dct (if f k v then put k v new_dct else new_dct) (some f)

-- The loop over the entries of `dct`, a copy of the table. `ERROR_ABORT` only prints, so an absent key
-- is filtered with an empty value.
unfoldable pub kv_filter4remove : Dict Str Str → Option Filter → Table → Option Table
kv_filter4remove [] filter_func t = some t
kv_filter4remove ((key, _) ∷ dct) none t = none
kv_filter4remove ((key, _) ∷ dct) (some f) t =
    let (exist, v) = get_into key [] t in
    kv_filter4remove dct (some f) (if f key v then (del key t).1 else t)

-- the new value, with the table
unfoldable pub kv_update : Str → Str → Option Update → Table → Option (Str × Table)
kv_update key v_or_delta update_func t =
    let (exist, val) = get_into key [] t in
    if not exist then some (v_or_delta, set key v_or_delta t) else elim update_func [
      | none ↦ none
      | some f ↦ some (f val v_or_delta, set key (f val v_or_delta) t)
    ]

-- the loop over the keys, each with the delta at its index
unfoldable pub kvs_update :
    List Str → List Str → Option Update → Table → List Str → Option (List Str × Table)
unfolding kv_update
kvs_update [] deltas update_func t new_vals = some (new_vals, t)
kvs_update (key ∷ key_lst) [] update_func t new_vals = none
kvs_update (key ∷ key_lst) (delta ∷ deltas) update_func t new_vals =
    bind_opt (kv_update key delta update_func t)
      (λ r. kvs_update key_lst deltas update_func r.1 (new_vals ++ r.0 ∷ []))

-- the loop of "push_multi" that builds `kv_pairs`
unfoldable pub pair_up : List Str → List Str → Dict Str Str → Dict Str Str
pair_up (k ∷ key_lst) (v ∷ val_lst) kv_pairs = pair_up key_lst val_lst (put k v kv_pairs)
pair_up _ _ kv_pairs = kv_pairs

abbrev pub send : Str → Thread → Thread
send r th = record th { sent = th.sent ++ r ∷ [] }

abbrev pub nokey : Str
nokey = text "nokey"
