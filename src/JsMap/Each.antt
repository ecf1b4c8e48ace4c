-- ===== src/JsMap/Each.antt =====
-- A property of every entry of a map, under each operation.
use mathlib.Core.Path.{subst}
use streamlit.Prelude.{Bool, Bool-cases, String, [], eq_iff, inl, inr, some, str_eq, sym, ◌∷◌, ◌≡◌}
use streamlit.JsMap.{JsMap, delete, get, retain, set, set_all}

abbrev pub Each {ℓ κ} : {V : Type ℓ} → (String → V → Type κ) → JsMap V → Type κ
Each P [] = Unit
Each P ((k, v) ∷ m) = P k v × Each P m

module _ {ℓ κ} {V : Type ℓ} (P : String → V → Type κ) where
  pub get-Each : (k : String) (m : JsMap V) {v : V} → Each P m → get k m ≡ some v → P k v
  unfolding get
  get-Each k [] h e = cc
  get-Each k ((j, w) ∷ m) {v} h e = elim (Bool-cases (str_eq j k)) [
    | inl same ↦
        let found : w ≡ v = cc (rw same at e) in
        subst (P k) found (subst (λ i. P i w) ((eq_iff j k).0 same) h.0)
    | inr other ↦ get-Each k m h.1 (rw other at e)
  ]

  pub set-Each : (k : String) (v : V) (m : JsMap V) → P k v → Each P m → Each P (set k v m)
  unfolding set
  set-Each k v [] p h = (p, tt)
  set-Each k v ((j, w) ∷ m) p h = elim (Bool-cases (str_eq j k)) [
    | inl same ↦ rw same (subst (λ i. P i v) (sym ((eq_iff j k).0 same)) p, h.1)
    | inr other ↦ rw other (h.0, set-Each k v m p h.1)
  ]

  pub retain-Each : (keep : String → V → Bool) (m : JsMap V) → Each P m → Each P (retain keep m)
  unfolding retain
  retain-Each keep [] h = tt
  retain-Each keep ((j, w) ∷ m) h = elim (Bool-cases (keep j w)) [
    | inl kept ↦ rw kept (h.0, retain-Each keep m h.1)
    | inr gone ↦ rw gone (retain-Each keep m h.1)
  ]

  pub delete-Each : (k : String) (m : JsMap V) → Each P m → Each P (delete k m)
  unfolding delete
  delete-Each k [] h = tt
  delete-Each k ((j, w) ∷ m) h = elim (Bool-cases (str_eq j k)) [
    | inl same ↦ rw same (delete-Each k m h.1)
    | inr other ↦ rw other (h.0, delete-Each k m h.1)
  ]

  pub set_all-Each : (other m : JsMap V) → Each P other → Each P m → Each P (set_all other m)
  unfolding set_all
  set_all-Each [] m p h = h
  set_all-Each ((k, v) ∷ other) m p h = set_all-Each other (set k v m) p.1 (set-Each k v m p.0 h)
