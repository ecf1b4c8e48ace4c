-- ===== src/JsMap/Laws.antt =====
-- What a lookup finds after each operation on a map, whatever the map.
use streamlit.Prelude.{
  String, ◌≡◌, refl, Bool, true, none, some, [], ◌∷◌, arith, eq_iff, if◌then◌else◌, str_eq,
}
use streamlit.JsMap.{JsMap, JsSet, get, set, delete, retain, has, add}

module _ {ℓ} {V : Type ℓ} where
  pub get-set :
      (j k : String) (v : V) (m : JsMap V)
      → get j (set k v m) ≡ (if str_eq k j then some v else get j m)
  unfolding get set
  get-set j k v [] = refl
  get-set j k v ((i, w) ∷ m) = ground (arith, eq_iff k j, eq_iff i k, eq_iff i j, get-set j k v m)

  pub get-delete :
      (j k : String) (m : JsMap V) → get j (delete k m) ≡ (if str_eq k j then none else get j m)
  unfolding get delete
  get-delete j k [] = ground arith
  get-delete j k ((i, w) ∷ m) = ground (arith, eq_iff k j, eq_iff i k, eq_iff i j, get-delete j k m)

  -- By a test of the key alone.
  pub get-retain :
      (j : String) (p : String → Bool) (m : JsMap V)
      → get j (retain (λ k _. p k) m) ≡ (if p j then get j m else none)
  unfolding get retain
  get-retain j p [] = ground arith
  get-retain j p ((i, w) ∷ m) = ground (arith, eq_iff i j, get-retain j p m)

pub set-set {ℓ} :
    {V : Type ℓ} (k : String) (v w : V) (m : JsMap V) → set k v (set k w m) ≡ set k v m
unfolding set
set-set k v w [] = ground (arith, eq_iff k k)
set-set k v w ((j, x) ∷ m) = ground (arith, set-set k v w m)

pub delete-set {ℓ} :
    {V : Type ℓ} (k : String) (v : V) (m : JsMap V) → delete k (set k v m) ≡ delete k m
unfolding set delete
delete-set k v [] = ground (arith, eq_iff k k)
delete-set k v ((j, x) ∷ m) = ground (arith, delete-set k v m)

pub has-add : (j k : String) (s : JsSet) → has j (add k s) ≡ (if str_eq k j then true else has j s)
unfolding has add
has-add j k [] = refl
has-add j k (i ∷ s) = ground (arith, eq_iff k j, eq_iff i k, eq_iff i j, has-add j k s)

pub ruleset map_laws = (get-set, get-delete, get-retain)
