-- ===== src/Client.antt =====
-- include/client.hpp: the requests of `kvclt`, as the parts that `paste` joins by the separator and
-- the server's `str_split_by_word` takes apart again. A value is given as `packer` packed it. Sockets
-- and their lazy creation are left out.
use paracel.Prelude.{
  Option, none, some, List, [], ◌∷◌, ◌++◌, map, Str, text, str_beq, if◌then◌else◌,
}
use paracel.Prelude.Int.{ℤ}
use paracel.Prelude.Dict.{Dict}
use paracel.Server.Wire.{Codec}

-- `paste`: the packed arguments, separated by `paracel::seperator`
unfoldable pub paste : List Str → Str
paste [] = []
paste (arg ∷ []) = arg
paste (op_str ∷ args) = op_str ++ text "_PARACEL_" ++ paste args

abbrev pub keys_of : Dict Str Str → List Str
keys_of d = map (λ p. p.0) d

abbrev pub vals_of : Dict Str Str → List Str
vals_of d = map (λ p. p.1) d

-- what `req_send_recv` makes of a reply: "nokey" is a failure, and any other is unpacked
unfoldable pub reply_of {ℓ} : {V : Type ℓ} → (Str → V) → Str → Option V
reply_of unpack reply = if str_beq reply (text "nokey") then none else some (unpack reply)

module _ (c : Codec) where
  open c use {pack_str, pack_strs, pack_int}

  unfoldable pub contains : Str → List Str
  contains key = pack_str (text "contains") ∷ pack_str key ∷ []

  unfoldable pub pull : Str → List Str
  pull key = pack_str (text "pull") ∷ pack_str key ∷ []

  unfoldable pub pull_multi : List Str → List Str
  pull_multi key_lst = pack_str (text "pull_multi") ∷ pack_strs key_lst ∷ []

  unfoldable pub pullall : List Str
  pullall = pack_str (text "pullall") ∷ []

  -- with the filter that is registered
  unfoldable pub pullall_special : List Str
  pullall_special = pack_str (text "pullall_special") ∷ []

  unfoldable pub pullall_special_with : Str → Str → List Str
  pullall_special_with so_filename func_name =
      pack_str (text "pullall_special") ∷ pack_str so_filename ∷ pack_str func_name ∷ []

  unfoldable pub register_pullall_special : Str → Str → List Str
  register_pullall_special file_name func_name =
      pack_str (text "register_pullall_special") ∷ pack_str file_name ∷ pack_str func_name ∷ []

  unfoldable pub register_remove_special : Str → Str → List Str
  register_remove_special file_name func_name =
      pack_str (text "register_remove_special") ∷ pack_str file_name ∷ pack_str func_name ∷ []

  unfoldable pub register_update : Str → Str → List Str
  register_update file_name func_name =
      pack_str (text "register_update") ∷ pack_str file_name ∷ pack_str func_name ∷ []

  unfoldable pub register_bupdate : Str → Str → List Str
  register_bupdate file_name func_name =
      pack_str (text "register_bupdate") ∷ pack_str file_name ∷ pack_str func_name ∷ []

  unfoldable pub push : Str → Str → List Str
  push key val = pack_str (text "push") ∷ pack_str key ∷ val ∷ []

  unfoldable pub push_multi : List Str → List Str → List Str
  push_multi key_lst val_lst =
      pack_str (text "push_multi") ∷ pack_strs key_lst ∷ pack_strs val_lst ∷ []

  unfoldable pub push_multi_dict : Dict Str Str → List Str
  unfolding push_multi
  push_multi_dict dct = push_multi (keys_of dct) (vals_of dct)

  unfoldable pub update : Str → Str → List Str
  update key delta = pack_str (text "update") ∷ pack_str key ∷ delta ∷ []

  unfoldable pub update_with : Str → Str → Str → Str → List Str
  update_with key delta file_name func_name =
      pack_str (text "update") ∷ pack_str key ∷ delta ∷ pack_str file_name ∷ pack_str func_name ∷ []

  unfoldable pub bupdate : Str → Str → List Str
  bupdate key delta = pack_str (text "bupdate") ∷ pack_str key ∷ delta ∷ []

  unfoldable pub bupdate_with : Str → Str → Str → Str → List Str
  bupdate_with key delta file_name func_name =
      pack_str (text "bupdate")
      ∷ pack_str key
      ∷ delta
      ∷ pack_str file_name
      ∷ pack_str func_name
      ∷ []

  unfoldable pub bupdate_multi : List Str → List Str → List Str
  bupdate_multi key_lst val_lst =
      pack_str (text "bupdate_multi") ∷ pack_strs key_lst ∷ pack_strs val_lst ∷ []

  unfoldable pub bupdate_multi_with : List Str → List Str → Str → Str → List Str
  bupdate_multi_with key_lst val_lst file_name func_name =
      pack_str (text "bupdate_multi")
      ∷ pack_strs key_lst
      ∷ pack_strs val_lst
      ∷ pack_str file_name
      ∷ pack_str func_name
      ∷ []

  unfoldable pub remove : Str → List Str
  remove key = pack_str (text "remove") ∷ pack_str key ∷ []

  unfoldable pub remove_special : List Str
  remove_special = pack_str (text "remove_special") ∷ []

  unfoldable pub remove_special_with : Str → Str → List Str
  remove_special_with file_name func_name =
      pack_str (text "remove_special") ∷ pack_str file_name ∷ pack_str func_name ∷ []

  unfoldable pub clear : List Str
  clear = pack_str (text "clear") ∷ []

  unfoldable pub bupdate_multi_dict : Dict Str Str → List Str
  unfolding bupdate_multi
  bupdate_multi_dict dct = bupdate_multi (keys_of dct) (vals_of dct)

  unfoldable pub bupdate_multi_dict_with : Dict Str Str → Str → Str → List Str
  unfolding bupdate_multi_with
  bupdate_multi_dict_with dct file_name func_name =
      bupdate_multi_with (keys_of dct) (vals_of dct) file_name func_name

  -- the built-in requests for the clocks
  unfoldable pub push_int : Str → ℤ → List Str
  push_int key val = pack_str (text "push_int") ∷ pack_str key ∷ pack_int val ∷ []

  unfoldable pub incr_int : Str → ℤ → List Str
  incr_int key delta = pack_str (text "incr_int") ∷ pack_str key ∷ pack_int delta ∷ []

  unfoldable pub pull_int : Str → List Str
  pull_int key = pack_str (text "pull_int") ∷ pack_str key ∷ []
