-- ===== src/Server/Wire.antt =====
-- What include/server.hpp and include/client.hpp take from msgpack (through include/packer.hpp): the
-- packing of strings, integers, booleans, lists and dictionaries into bytes.
use paracel.Prelude.{Bool, ◌≡◌, List, Str}
use paracel.Prelude.Int.{ℤ}
use paracel.Prelude.Dict.{Dict}

pub record Codec : Type 0 where
  pub pack_str : Str → Str
  pub unpack_str : Str → Str
  pub pack_int : ℤ → Str
  pub unpack_int : Str → ℤ
  pub pack_bool : Bool → Str
  pub pack_strs : List Str → Str
  pub unpack_strs : Str → List Str
  pub pack_dict : Dict Str Str → Str

-- The documented behaviour of msgpack on which the client and the server rely: what was packed is
-- unpacked.
pub record IsFaithful (c : Codec) : Type 0 where
  pub str : (s : Str) → c.unpack_str (c.pack_str s) ≡ s
  pub int : (n : ℤ) → c.unpack_int (c.pack_int n) ≡ n
  pub strs : (l : List Str) → c.unpack_strs (c.pack_strs l) ≡ l
