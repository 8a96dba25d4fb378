-- ===== src/Server/Store/Filter.antt =====
-- The filters of `pullall_special` and `remove_special` in include/server.hpp.
use paracel.Prelude.{
  ◌≡◌, refl, ◌∙◌, Bool, Option, none, some, [], ◌∷◌, Str, str_eq, ◌==◌, str_beq_iff, if◌then◌else◌,
  arith,
}
use paracel.Prelude.Dict.{Dict, find, has, put, IsUnique, find-put, find-erase, has-find}
use paracel.Kv.{get, get_into, del, getall}
use paracel.Server.Store.Defs.{Filter, Table, kv_filter4pullall, kv_filter4remove}

-- the entry of a key, if the filter keeps it
abbrev pub kept_by : (Str → Str → Bool) → Str → Option Str → Option Str
kept_by f k none = none
kept_by f k (some v) = if f k v then some v else none

abbrev or_old : Option Str → Option Str → Option Str
or_old (some v) o = some v
or_old none o = o

or_old-none : (o : Option Str) → or_old o none ≡ o
or_old-none none = refl
or_old-none (some v) = refl

filter4pullall-find :
    (f : Filter) (dct new_dct : Dict Str Str) (j : Str)
    → IsUnique dct
    → (d : Dict Str Str) × (kv_filter4pullall dct new_dct (some f) ≡ some d)
      × (find j d ≡ or_old (kept_by f j (find j dct)) (find j new_dct))
unfolding kv_filter4pullall find
filter4pullall-find f [] new_dct j u = (new_dct, refl, refl)
filter4pullall-find f ((k, v) ∷ dct) new_dct j u =
    let next : Dict Str Str = if f k v then put k v new_dct else new_dct in
    let (d, done, is) = filter4pullall-find f dct next j u.1 in
    (d, done, ground (arith, is, u.0, find-put k j v new_dct, has-find k dct, str_beq_iff k j))

-- On a table without duplicate keys, `kv_filter4pullall` with a filter does not throw, and returns at
-- each key the table's entry if the filter keeps it, and none otherwise.
pub pullall_special-find :
    (f : Filter) (t : Table) (j : Str)
    → IsUnique (getall t)
    → (d : Dict Str Str) × (kv_filter4pullall (getall t) [] (some f) ≡ some d)
      × (find j d ≡ kept_by f j (get j t))
unfolding getall get find
pullall_special-find f t j u =
    let (d, done, is) = filter4pullall-find f t.kvdct [] j u in
    (d, done, is ∙ or_old-none (kept_by f j (find j t.kvdct)))

-- the entry of a key, unless the filter marks it
abbrev pub dropped_by : (Str → Str → Bool) → Str → Option Str → Option Str
dropped_by f k none = none
dropped_by f k (some v) = if f k v then none else some v

remove_one :
    (f : Filter) (key j : Str) (t : Table)
    → get j (if f key (get_into key [] t).1 then (del key t).1 else t)
      ≡ (if key == j then dropped_by f j (get j t) else get j t)
unfolding get get_into del
remove_one f key j t =
    ground (arith, find-erase key j t.kvdct, has-find key t.kvdct, str_beq_iff key j)

filter4remove-get :
    (f : Filter) (dct : Dict Str Str) (j : Str) (t : Table)
    → (t' : Table) × (kv_filter4remove dct (some f) t ≡ some t')
      × (get j t' ≡ (if has j dct then dropped_by f j (get j t) else get j t))
unfolding kv_filter4remove has
filter4remove-get f [] j t = (t, refl, refl)
filter4remove-get f ((key, w) ∷ dct) j t =
    let next : Table = if f key (get_into key [] t).1 then (del key t).1 else t in
    let (t', done, is) = filter4remove-get f dct j next in
    (t', done, ground (arith, is, remove_one f key j t))

-- Over a copy of the table, `kv_filter4remove` with a filter does not throw, and removes exactly the
-- entries that the filter marks.
pub remove_special-get :
    (f : Filter) (t : Table) (j : Str)
    → (t' : Table) × (kv_filter4remove (getall t) (some f) t ≡ some t')
      × (get j t' ≡ dropped_by f j (get j t))
unfolding getall get
remove_special-get f t j =
    let (t', done, is) = filter4remove-get f t.kvdct j t in
    (t', done, ground (arith, is, has-find j t.kvdct))
