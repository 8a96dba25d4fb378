-- ===== src/Load/Wire.antt =====
-- How lists of triples travel: `isend` and `recv` of lists of triples in include/utils/comm.hpp, which send the
-- number of triples and one text, and the two `alltoall`s that use them. They differ in the ids, which are
-- strings, or numbers written by `std::to_string` and read by `std::stoull`. An `int` holds every number of
-- triples here.
pub mod Carry
pub mod Alltoall
pub mod Digits
pub mod Splitter
use paracel.Prelude.{
  ℕ, zero, suc, ◌+◌, ◌-◌, Bool, true, false, List, [], ◌∷◌, ◌++◌, Option, none, some, Str, text,
  str_beq, str_eq, length, get_or, set, replicate, ltb, if◌then◌else◌,
}
use paracel.Comm.{source, target, sendrecv}
use paracel.Load.Organize.{Triple}

-- the rest of a computation on what the first part gives
infixl 5 ◌>>=◌
abbrev pub ◌>>=◌ : {A B : Type 0} → Option A → (A → Option B) → Option B
none >>= f = none
some a >>= f = f a

abbrev pub seperator : Str
seperator = text "_PARACEL_"

abbrev pub seperator_inner : Str
seperator_inner = text "_ps_"

-- What the standard library and boost give: the cutting of a text at the matches of an expression, the
-- conversions of ids and values, and a value-initialised triple. `none` is an exception.
pub record Conversions (K D : Type 0) : Type 0 where
  pub split_regex : Str → Str → List Str
  pub id_to_string : K → Str
  pub string_to_id : Str → Option K
  pub to_string : D → Str
  pub stod : Str → Option D
  pub no_triple : Triple K D

-- `if(result.back() == "") result.pop_back()`
unfoldable pub trim_back : List Str → List Str
trim_back [] = []
trim_back (s ∷ []) = if str_beq s [] then [] else s ∷ []
trim_back (s ∷ t ∷ result) = s ∷ trim_back (t ∷ result)

module _ {K D : Type 0} (w : Conversions K D) where
  unfoldable pub str_split_by_word : Str → Str → List Str
  unfolding trim_back
  str_split_by_word str seps = trim_back (w.split_regex str seps)

  -- `lambda_local_pack`
  unfoldable pub local_pack : Triple K D → Str
  local_pack tpl =
      w.id_to_string tpl.row
      ++ (seperator_inner ++ (w.id_to_string tpl.col ++ (seperator_inner ++ w.to_string tpl.val)))

  -- the loop, and the last triple
  unfoldable pub pack_loop : Triple K D → List (Triple K D) → Str
  unfolding local_pack
  pack_loop tpl [] = local_pack tpl
  pack_loop tpl (next ∷ triple_lst) = local_pack tpl ++ (seperator ++ pack_loop next triple_lst)

  -- the text that `isend` sends
  unfoldable pub pack_list : List (Triple K D) → Str
  unfolding pack_loop
  pack_list [] = []
  pack_list (tpl ∷ []) = local_pack tpl ++ seperator
  pack_list (tpl ∷ next ∷ triple_lst) = pack_loop tpl (next ∷ triple_lst)

  -- a triple from its text; `none` is an exception, or a read behind the last part
  unfoldable pub unpack : Str → Option (Triple K D)
  unfolding str_split_by_word
  unpack str = elim (str_split_by_word str seperator_inner) [
    | [] ↦ none
    | _ ∷ [] ↦ none
    | _ ∷ _ ∷ [] ↦ none
    | row ∷ col ∷ val ∷ rest ↦ do
      i ← w.string_to_id row
      j ← w.string_to_id col
      v ← w.stod val
      some (record { row = i; col = j; val = v })
  ]

  unfoldable pub unpack_all : List Str → Option (List (Triple K D))
  unfolding unpack
  unpack_all [] = some []
  unpack_all (str ∷ tpl_lst) = do tpl ← unpack str; tpls ← unpack_all tpl_lst; some (tpl ∷ tpls)

  -- `recv` of the number `sz` and of a text; more texts than triples are a write out of bounds
  unfoldable pub recv_list : ℕ → Str → Option (List (Triple K D))
  unfolding unpack_all
  recv_list sz str =
      let tpl_lst = str_split_by_word str seperator in
      if ltb sz (length tpl_lst)
      then none
      else do tpls ← unpack_all tpl_lst; some (tpls ++ replicate (sz - length tpl_lst) w.no_triple)

  -- what `recv` makes of what `isend` sends
  unfoldable pub carry : List (Triple K D) → Option (List (Triple K D))
  unfolding recv_list pack_list
  carry triple_lst = recv_list (length triple_lst) (pack_list triple_lst)

  -- the rounds of `alltoall` from `i` on
  unfoldable pub triple_rounds :
      (ℕ → List (List (Triple K D)))
      → ℕ
      → ℕ
      → ℕ
      → ℕ
      → List (List (Triple K D))
      → Option (List (List (Triple K D)))
  unfolding carry sendrecv
  triple_rounds sbuf sz rk i zero rbuf = some rbuf
  triple_rounds sbuf sz rk i (suc n) rbuf = do
    got ← sendrecv (λ f t. carry (get_or (sbuf f) t [])) sz rk i
    tmpr ← got
    let t = target sz rk i
    triple_rounds sbuf sz rk (i + 1) n (set rbuf t (get_or rbuf t [] ++ tmpr))

  -- `alltoall` on process `rk`, into an empty buffer; what a process has for itself is not sent
  unfoldable pub alltoall_triples :
      (ℕ → List (List (Triple K D))) → ℕ → ℕ → Option (List (List (Triple K D)))
  unfolding triple_rounds
  alltoall_triples sbuf sz rk =
      triple_rounds sbuf sz rk 1 (sz - 1)
        (set (replicate (length (sbuf rk)) []) rk (get_or (sbuf rk) rk []))
