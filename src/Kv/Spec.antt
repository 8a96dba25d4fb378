-- ===== src/Kv/Spec.antt =====
-- What a client can ask of the table of include/kv.hpp, and the answers of a partial function
-- that is changed at one key.
use paracel.Prelude.{
  ℕ, Bool, true, false, Option, none, some, List, [], ◌∷◌, ◌++◌, Eq, ◌==◌, nat_beq, if◌then◌else◌,
}
use paracel.Prelude.Dict.{Dict}

pub data Op {ℓ κ} (K : Type ℓ) (V : Type κ) : Type (ℓ ⊔ κ) where
  ask : K → Op K V
  read : K → Op K V
  read_all : List K → Op K V
  version : K → Op K V
  write : K → V → Op K V
  write_all : Dict K V → Op K V
  add_to : K → V → Op K V
  swap_in : K → V → ℕ → Op K V
  delete : K → Op K V
  wipe : Op K V

pub data Reply {κ} (V : Type κ) : Type κ where
  done : Reply V
  flag : Bool → Reply V
  value : Option V → Reply V
  values : Option (List V) → Reply V
  versioned : Option (V × ℕ) → Reply V

abbrev pub View {ℓ κ} : Type ℓ → Type κ → Type (ℓ ⊔ κ)
View K V = K → Option V

abbrev pub is_some {κ} : {V : Type κ} → Option V → Bool
is_some none = false
is_some (some v) = true

module _ {κ} {V : Type κ} where
  abbrev pub prefixed : List V → Option (List V) → Option (List V)
  prefixed vs none = none
  prefixed vs (some ws) = some (vs ++ ws)

module _ {ℓ κ} {K : Type ℓ} {V : Type κ} where
  unfoldable pub read_each : List K → View K V → Option (List V)
  read_each [] m = some []
  read_each (k ∷ ks) m = elim (m k) [ none ↦ none | some v ↦ prefixed (v ∷ []) (read_each ks m) ]

module _ {ℓ κ} {K : Type ℓ} {V : Type κ} ⦃e : Eq K⦄ where
  abbrev pub update : K → Option V → View K V → View K V
  update k o m j = if k == j then o else m j

  unfoldable pub update_all : Dict K V → View K V → View K V
  update_all [] m = m
  update_all ((k, v) ∷ d) m = update_all d (update k (some v) m)

module _ {ℓ κ} {K : Type ℓ} {V : Type κ} ⦃e : Eq K⦄ (hfunc : V → ℕ) (add : V → V → V) where
  unfoldable pub spec_step : Op K V → View K V → Reply V × View K V
  spec_step (ask k) m = (flag (is_some (m k)), m)
  spec_step (read k) m = (value (m k), m)
  spec_step (read_all ks) m = (values (read_each ks m), m)
  spec_step (version k) m = (versioned (elim (m k) [ none ↦ none | some v ↦ some (v, hfunc v) ]), m)
  spec_step (write k v) m = (done, update k (some v) m)
  spec_step (write_all d) m = (done, update_all d m)
  spec_step (add_to k v) m = elim (m k) [
    | none ↦ (flag false, m)
    | some w ↦ (flag true, update k (some (add w v)) m)
  ]
  spec_step (swap_in k v u) m = elim (m k) [
    | none ↦ (flag true, update k (some v) m)
    | some w ↦ if nat_beq u (hfunc w) then (flag true, update k (some v) m) else (flag false, m)
  ]
  spec_step (delete k) m = elim (m k) [
    | none ↦ (flag false, m)
    | some w ↦ (flag true, update k none m)
  ]
  spec_step wipe m = (done, λ _. none)

  unfoldable pub spec_run : List (Op K V) → View K V → List (Reply V) × View K V
  spec_run [] m = ([], m)
  spec_run (op ∷ ops) m =
      let (r, m') = spec_step op m in let (rs, m'') = spec_run ops m' in (r ∷ rs, m'')
