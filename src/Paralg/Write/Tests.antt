-- ===== src/Paralg/Write/Tests.antt =====
-- Three values for two servers.
use paracel.Prelude.{
  ℕ, ◌≡◌, refl, Bool, true, false, [], ◌∷◌, none, Str, text, str_eq, str_beq, length, get_or,
  nat_beq, ltb, if◌then◌else◌, arith,
}
use paracel.Prelude.Dict.{Dict, find, has, put, IsUnique}
use paracel.Paralg.{start}
use paracel.Paralg.Write.{sent, paracel_write_multi}
use paracel.Paralg.Write.Sent.{accepted, paracel_write_multi-sent}

-- long keys go to server 1
abbrev by_length : Str → ℕ
by_length key = if ltb 1 (length key) then 1 else 0

abbrev three_values : Dict Str ℕ
three_values = (text "a", 1) ∷ (text "bb", 2) ∷ (text "cc", 3) ∷ []

three_values-IsUnique : IsUnique three_values
unfolding has str_beq
three_values-IsUnique = (refl, (refl, (refl, tt)))

abbrev refuses : ℕ → Dict Str ℕ → Bool
refuses k dct = ltb (length dct) 2

refused : (paracel_write_multi by_length 3 refuses three_values (start 0 1 5 2 true)).0 ≡ false
unfolding paracel_write_multi put str_beq
refused = refl

paracel_write_multi-sent_example :
    (find (text "cc") (get_or (sent by_length 3 three_values) 1 [])
      ≡ (if nat_beq (by_length (text "cc")) 1 then find (text "cc") three_values else none))
    × ((paracel_write_multi by_length 3 refuses three_values (start 0 1 5 2 true)).0
        ≡ accepted refuses 0 (sent by_length 3 three_values))
paracel_write_multi-sent_example =
    paracel_write_multi-sent by_length 3 1 (text "cc") refuses three_values (start 0 1 5 2 true)
      three_values-IsUnique (omega arith)
