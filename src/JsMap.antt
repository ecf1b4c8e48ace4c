-- ===== src/JsMap.antt =====
-- The runtime's `Map<string, V>`: an association list in insertion order, as `forEach` walks it.
-- A key that is set again keeps its place. The laws of each operation are in the child modules.
pub mod Laws
pub mod Distinct
pub mod Each
use streamlit.Prelude.{
  String, Bool, true, false, Option, none, some, List, [], ◌∷◌, if◌then◌else◌, str_eq,
}

abbrev pub JsMap {ℓ} : Type ℓ → Type ℓ
JsMap V = List (String × V)

module _ {ℓ} {V : Type ℓ} where
  unfoldable pub get : String → JsMap V → Option V
  get k [] = none
  get k ((j, v) ∷ m) = if str_eq j k then some v else get k m

  unfoldable pub set : String → V → JsMap V → JsMap V
  set k v [] = (k, v) ∷ []
  set k v ((j, w) ∷ m) = if str_eq j k then (j, v) ∷ m else (j, w) ∷ set k v m

  -- `m.delete(k)`
  unfoldable pub delete : String → JsMap V → JsMap V
  delete k [] = []
  delete k ((j, v) ∷ m) = let rest = delete k m in if str_eq j k then rest else (j, v) ∷ rest

  -- `m.forEach((value, key) => { if (!keep(key, value)) m.delete(key) })`
  unfoldable pub retain : (String → V → Bool) → JsMap V → JsMap V
  retain keep [] = []
  retain keep ((j, v) ∷ m) = let rest = retain keep m in if keep j v then (j, v) ∷ rest else rest

  -- `other.forEach((value, key) => m.set(key, value))`
  unfoldable pub set_all : JsMap V → JsMap V → JsMap V
  set_all [] m = m
  set_all ((k, v) ∷ other) m = set_all other (set k v m)

  unfoldable pub values : JsMap V → List V
  values [] = []
  values ((k, v) ∷ m) = v ∷ values m

  -- `m.size === 0`
  unfoldable pub is_empty : JsMap V → Bool
  is_empty [] = true
  is_empty (e ∷ m) = false

-- The runtime's `Set<string>`, in insertion order.
abbrev pub JsSet : Type 0
JsSet = List String

unfoldable pub has : String → JsSet → Bool
has k [] = false
has k (j ∷ s) = if str_eq j k then true else has k s

-- `s.add(k)`
unfoldable pub add : String → JsSet → JsSet
add k [] = k ∷ []
add k (j ∷ s) = if str_eq j k then j ∷ s else j ∷ add k s
