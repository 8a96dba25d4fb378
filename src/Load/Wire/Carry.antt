-- ===== src/Load/Wire/Carry.antt =====
-- What of the triples arrives (include/utils/comm.hpp, `isend` and `recv` of lists of triples).
use paracel.Prelude.{
  ℕ, suc, ◌-◌, ◌≡◌, refl, sym, ap, ◌∙◌, Bool, true, false, List, [], ◌∷◌, ◌++◌, append-nil, map,
  All, none, some, Str, text, str_beq, str_eq, length, replicate, ltb, if◌then◌else◌, arith,
}
use paracel.Text.{find_str, is_at, begins}
use paracel.Load.Organize.{Triple}
use paracel.Load.Wire.{
  seperator, seperator_inner, Conversions, trim_back, str_split_by_word, local_pack, pack_loop,
  pack_list, unpack, unpack_all, carry,
}

-- the first separator in a word with a separator behind it is that one
abbrev pub fits : Str → Str → Bool
fits sep word = is_at (find_str (word ++ sep) 0 sep) (length word)

abbrev pub join : Str → Str → List Str → Str
join sep word [] = word
join sep word (next ∷ words) = word ++ (sep ++ join sep next words)

-- words that are joined by a separator are what the text is cut into at the separator
abbrev pub Splits : (Str → Str → List Str) → Str → Type 0
Splits split sep =
    (word : Str) (words : List Str)
    → All (λ v. fits sep v ≡ true) (word ∷ words)
    → split (join sep word words) sep ≡ word ∷ words

-- The documented behaviour of the conversions: an id that is written is read back, a value is not written as an empty text, a value that is written
-- is read as `rounded` of it, since `std::to_string` writes six decimals, and texts are cut at the separators.
pub record IsFaithful {K D : Type 0} (w : Conversions K D) (rounded : D → D) : Type 0 where
  pub inner : Splits w.split_regex seperator_inner
  pub outer : Splits w.split_regex seperator
  pub id : (k : K) → w.string_to_id (w.id_to_string k) ≡ some k
  pub written : (v : D) → str_beq (w.to_string v) [] ≡ false
  pub value : (v : D) → w.stod (w.to_string v) ≡ some (rounded v)

-- as many as were told of
in_full :
    {A : Type 0} (a : A) (n : ℕ) (l : List A)
    → (if ltb n n then none else some (l ++ replicate (n - n) a)) ≡ some l
in_full {A} a n l =
    let nothing : n - n ≡ 0 = omega arith in
    ground (arith, append-nil l, ap (λ k. replicate {A = A} k a) nothing)

module _ {K D : Type 0} (w : Conversions K D) where
  -- no separator can be read in the texts of the triple
  abbrev pub IsCarried : Triple K D → Type 0
  IsCarried tpl =
      (fits seperator_inner (w.id_to_string tpl.row) ≡ true)
      × (fits seperator_inner (w.id_to_string tpl.col) ≡ true)
      × (fits seperator_inner (w.to_string tpl.val) ≡ true)
      × (fits seperator (local_pack w tpl) ≡ true)

  not_nil : (a b c : Str) → str_beq (a ++ (text "_ps_" ++ (b ++ (text "_ps_" ++ c)))) [] ≡ false
  unfolding str_beq
  not_nil [] b c = refl
  not_nil (x ∷ a) b c = refl

  trim_packed :
      (tpl : Triple K D) (tpls : List (Triple K D))
      → trim_back (map (local_pack w) (tpl ∷ tpls)) ≡ map (local_pack w) (tpl ∷ tpls)
  unfolding trim_back local_pack
  trim_packed tpl [] =
      ground
        (arith, not_nil (w.id_to_string tpl.row) (w.id_to_string tpl.col) (w.to_string tpl.val))
  trim_packed tpl (next ∷ tpls) = ap (λ l. local_pack w tpl ∷ l) (trim_packed next tpls)

  pack_loop-join :
      (tpl : Triple K D) (tpls : List (Triple K D))
      → pack_loop w tpl tpls ≡ join seperator (local_pack w tpl) (map (local_pack w) tpls)
  unfolding pack_loop
  pack_loop-join tpl [] = refl
  pack_loop-join tpl (next ∷ tpls) =
      ap (λ l. local_pack w tpl ++ (seperator ++ l)) (pack_loop-join next tpls)

module _ {K D : Type 0} (w : Conversions K D) (rounded : D → D) (f : IsFaithful w rounded) where
  abbrev pub arrived : Triple K D → Triple K D
  arrived tpl = record tpl { val = rounded tpl.val }

  length-map : {A B : Type 0} (g : A → B) (l : List A) → length (map g l) ≡ length l
  length-map g [] = refl
  length-map g (x ∷ l) = ap suc (length-map g l)

  All-packs :
      (tpls : List (Triple K D))
      → All (IsCarried w) tpls
      → All (λ v. fits seperator v ≡ true) (map (local_pack w) tpls)
  All-packs [] h = tt
  All-packs (tpl ∷ tpls) ((a, b, c, d), h) = (d, All-packs tpls h)

  cut_list :
      (tpls : List (Triple K D))
      → All (IsCarried w) tpls
      → str_split_by_word w (pack_list w tpls) seperator ≡ map (local_pack w) tpls
  unfolding str_split_by_word pack_list
  cut_list [] h =
      ap trim_back (f.outer [] [] (unfold find_str begins in refl, tt))
      ∙ unfold trim_back str_beq in refl
  cut_list (tpl ∷ []) h =
      ap (λ s. trim_back (w.split_regex (local_pack w tpl ++ s) seperator))
        (sym (append-nil seperator))
      ∙ ap trim_back
          (f.outer (local_pack w tpl) ([] ∷ []) (h.0.3, (unfold find_str begins in refl, tt)))
      ∙ unfold trim_back str_beq in refl
  cut_list (tpl ∷ next ∷ tpls) h =
      ap (λ s. trim_back (w.split_regex s seperator)) (pack_loop-join w tpl (next ∷ tpls))
      ∙ ap trim_back (
          f.outer (local_pack w tpl) (map (local_pack w) (next ∷ tpls))
            (All-packs (tpl ∷ next ∷ tpls) h))
      ∙ trim_packed w tpl (next ∷ tpls)

  cut_triple :
      (tpl : Triple K D)
      → IsCarried w tpl
      → str_split_by_word w (local_pack w tpl) seperator_inner
        ≡ w.id_to_string tpl.row ∷ w.id_to_string tpl.col ∷ w.to_string tpl.val ∷ []
  unfolding str_split_by_word local_pack
  cut_triple tpl (a, b, c, d) =
      let row = w.id_to_string tpl.row in
      let col = w.id_to_string tpl.col in
      let val = w.to_string tpl.val in
      ap trim_back (f.inner row (col ∷ val ∷ []) (a, (b, (c, tt))))
      ∙ unfold trim_back in ground (arith, f.written tpl.val)

  unpack-pack :
      (tpl : Triple K D) → IsCarried w tpl → unpack w (local_pack w tpl) ≡ some (arrived tpl)
  unfolding unpack
  unpack-pack tpl h = rw (unpack, cut_triple tpl h) (simp (f.id, f.value))

  unpack_all-packs :
      (tpls : List (Triple K D))
      → All (IsCarried w) tpls
      → unpack_all w (map (local_pack w) tpls) ≡ some (map arrived tpls)
  unfolding unpack_all
  unpack_all-packs [] h = refl
  unpack_all-packs (tpl ∷ tpls) h = simp (unpack-pack tpl h.0, unpack_all-packs tpls h.1)

  -- triples that no separator can be read in arrive, with their values as they were written
  pub carry-arrived :
      (tpls : List (Triple K D)) → All (IsCarried w) tpls → carry w tpls ≡ some (map arrived tpls)
  unfolding carry
  carry-arrived tpls h =
      let cut = cut_list tpls h in
      let one : length (map (local_pack w) tpls) ≡ length tpls = length-map (local_pack w) tpls in
      rw cut (
        rw one
          (rw (unpack_all-packs tpls h) (in_full w.no_triple (length tpls) (map arrived tpls))))
