-- ===== src/JsMap/Distinct.antt =====
-- A map holds each key once: the invariant of the representation, and what rests on it.
use streamlit.Prelude.{
  String, ◌≡◌, refl, Bool, true, Option, if◌then◌else◌, none, some, [], ◌∷◌, arith, eq_iff,
}
use streamlit.JsMap.{JsMap, get, set, delete, retain, set_all, is_empty}
use streamlit.JsMap.Laws.{get-set, get-delete}

-- No key stands twice.
abbrev pub IsDistinct {ℓ} : {V : Type ℓ} → JsMap V → Type ℓ
IsDistinct [] = Unit
IsDistinct ((k, v) ∷ m) = (get k m ≡ none) × IsDistinct m

-- The value of the first map, if it has one.
abbrev pub or_else {ℓ} : {V : Type ℓ} → Option V → Option V → Option V
or_else none o = o
or_else (some v) o = some v

module _ {ℓ} {V : Type ℓ} where
  pub set-IsDistinct : (k : String) (v : V) (m : JsMap V) → IsDistinct m → IsDistinct (set k v m)
  unfolding set get
  set-IsDistinct k v [] h = (refl, tt)
  set-IsDistinct k v ((j, w) ∷ m) h =
      ground (arith, eq_iff j k, eq_iff k j, get-set j k v m, set-IsDistinct k v m h.1)

  get-retain-none :
      (j : String) (p : String → V → Bool) (m : JsMap V)
      → get j m ≡ none
      → get j (retain p m) ≡ none
  unfolding get retain
  get-retain-none j p [] h = refl
  get-retain-none j p ((i, w) ∷ m) h = ground (arith, get-retain-none j p m)

  pub retain-IsDistinct :
      (p : String → V → Bool) (m : JsMap V) → IsDistinct m → IsDistinct (retain p m)
  unfolding retain
  retain-IsDistinct p [] h = tt
  retain-IsDistinct p ((i, w) ∷ m) h =
      ground (arith, get-retain-none i p m, retain-IsDistinct p m h.1)

  pub delete-IsDistinct : (k : String) (m : JsMap V) → IsDistinct m → IsDistinct (delete k m)
  unfolding delete
  delete-IsDistinct k [] h = tt
  delete-IsDistinct k ((i, w) ∷ m) h = ground (arith, get-delete i k m, delete-IsDistinct k m h.1)

  pub set_all-IsDistinct : (other m : JsMap V) → IsDistinct m → IsDistinct (set_all other m)
  unfolding set_all
  set_all-IsDistinct [] m h = h
  set_all-IsDistinct ((k, v) ∷ other) m h =
      set_all-IsDistinct other (set k v m) (set-IsDistinct k v m h)

  -- A value of the copied map hides the old one.
  pub get-set_all :
      (j : String) (other m : JsMap V)
      → IsDistinct other
      → get j (set_all other m) ≡ or_else (get j other) (get j m)
  unfolding set_all get
  get-set_all j [] m h = refl
  get-set_all j ((k, v) ∷ other) m h =
      ground (arith, eq_iff k j, get-set j k v m, get-set_all j other (set k v m) h.1)

  pub get-is_empty : (j : String) (m : JsMap V) → is_empty m ≡ true → get j m ≡ none
  unfolding get is_empty
  get-is_empty j [] h = refl
  get-is_empty j (e ∷ m) h = cc

  -- A test of the values too, on a map with distinct keys.
  pub get-retain_distinct :
      (j : String) (p : String → V → Bool) (m : JsMap V)
      → IsDistinct m
      → get j (retain p m)
        ≡ elim (get j m) [ none ↦ none | some v ↦ if p j v then some v else none ]
  unfolding get retain
  get-retain_distinct j p [] h = refl
  get-retain_distinct j p ((i, w) ∷ m) h =
      ground (arith, eq_iff i j, get-retain-none j p m, get-retain_distinct j p m h.1)
