-- ===== src/Server/SmallCodec.antt =====
-- A small codec with what include/packer.hpp gives, to run the threads of include/server.hpp with.
use paracel.Prelude.{
  ℕ, zero, suc, ◌≡◌, refl, List, [], ◌∷◌, ◌++◌, Str, text, length, map, if◌then◌else◌,
}
use paracel.Prelude.Int.{ℤ, pos, negsuc}
use paracel.Server.Wire.{Codec, IsFaithful}

-- a list, each of its strings behind its length
abbrev write_strs : List Str → Str
write_strs [] = []
write_strs (s ∷ l) = length s ∷ s ++ write_strs l

abbrev cut : ℕ → Str → Str × Str
cut zero s = ([], s)
cut (suc n) [] = ([], [])
cut (suc n) (a ∷ s) = (a ∷ (cut n s).0, (cut n s).1)

-- reads `n` strings
abbrev read_strs : ℕ → Str → List Str
read_strs zero s = []
read_strs (suc n) [] = []
read_strs (suc n) (a ∷ s) = (cut a s).0 ∷ read_strs n (cut a s).1

cut-length : (s t : Str) → cut (length s) (s ++ t) ≡ (s, t)
cut-length [] t = refl
cut-length (a ∷ s) t = rw (cut-length s t) refl

read_write : (l : List Str) → read_strs (length l) (write_strs l) ≡ l
read_write [] = refl
read_write (s ∷ l) = rw (cut-length s (write_strs l)) (rw (read_write l) refl)

abbrev write_int : ℤ → Str
write_int (pos n) = 0 ∷ n ∷ []
write_int (negsuc n) = 1 ∷ n ∷ []

abbrev read_int : Str → ℤ
read_int (zero ∷ n ∷ []) = pos n
read_int (suc _ ∷ n ∷ _) = negsuc n
read_int _ = pos 0

abbrev read_list : Str → List Str
read_list [] = []
read_list (n ∷ s) = read_strs n s

abbrev pub codec : Codec
codec = record {
  pack_str = λ s. s;
  unpack_str = λ s. s;
  pack_int = write_int;
  unpack_int = read_int;
  pack_bool = λ b. (if b then text "T" else text "F");
  pack_strs = λ l. length l ∷ write_strs l;
  unpack_strs = read_list;
  pack_dict = λ d. write_strs (map (λ p. p.0 ++ text "=" ++ p.1) d);
}

int_back : (n : ℤ) → read_int (write_int n) ≡ n
int_back (pos n) = refl
int_back (negsuc n) = refl

pub codec-IsFaithful : IsFaithful codec
codec-IsFaithful = record { str = λ s. refl; int = int_back; strs = read_write }
