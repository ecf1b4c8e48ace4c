-- ===== src/Quiver/Lookup.antt =====
-- Looking up rows and columns of grids: in mapped lists, appended ones and grids side by side.
use streamlit.Prelude.{
  All, List, [], ap, arith, get_elem?, length, map, none, refl, some, subst, suc, zero, ℕ, ◌++◌,
  ◌-◌, ◌<◌, ◌∙◌, ◌∷◌, ◌≡◌, ◌≤◌,
}

module _ {S T : Type 0} where
  pub get_elem?-map :
      (f : S → T) (xs : List S) (i : ℕ) {x : S}
      → get_elem? xs i ≡ some x
      → get_elem? (map f xs) i ≡ some (f x)
  get_elem?-map f [] i e = cc e
  get_elem?-map f (x ∷ xs) zero e = cc e
  get_elem?-map f (x ∷ xs) (suc i) e = get_elem?-map f xs i e

module _ {T : Type 0} where
  pub get_elem?-some : (xs : List T) (i : ℕ) → i < length xs → (x : T) × (get_elem? xs i ≡ some x)
  get_elem?-some [] i h = absurd (omega arith)
  get_elem?-some (x ∷ xs) zero h = (x, refl)
  get_elem?-some (x ∷ xs) (suc i) h = get_elem?-some xs i (omega arith)

  pub get_elem?-none : (xs : List T) (i : ℕ) → length xs ≤ i → get_elem? xs i ≡ none
  get_elem?-none [] i h = refl
  get_elem?-none (x ∷ xs) zero h = absurd (omega arith)
  get_elem?-none (x ∷ xs) (suc i) h = get_elem?-none xs i (omega arith)

  pub get_elem?-append_ge :
      (xs ys : List T) (i : ℕ)
      → length xs ≤ i
      → get_elem? (xs ++ ys) i ≡ get_elem? ys (i - length xs)
  get_elem?-append_ge [] ys i h = ap (get_elem? ys) (omega arith)
  get_elem?-append_ge (x ∷ xs) ys zero h = absurd (omega arith)
  get_elem?-append_ge (x ∷ xs) ys (suc i) h =
      get_elem?-append_ge xs ys i (omega arith) ∙ ap (get_elem? ys) (omega arith)

  pub get_elem?-All :
      (P : T → Type 0) (xs : List T) (i : ℕ) {x : T} → All P xs → get_elem? xs i ≡ some x → P x
  get_elem?-All P [] i all e = cc e
  get_elem?-All P (y ∷ ys) zero all e = subst P (cc e) all.0
  get_elem?-All P (y ∷ ys) (suc i) all e = get_elem?-All P ys i all.1 e

  abbrev pub replicate : ℕ → T → List T
  replicate zero x = []
  replicate (suc n) x = x ∷ replicate n x

  pub length-replicate : (n : ℕ) (x : T) → length (replicate n x) ≡ n
  length-replicate zero x = refl
  length-replicate (suc n) x = ap suc (length-replicate n x)

  pub get_elem?-replicate : (n : ℕ) (x : T) (i : ℕ) → i < n → get_elem? (replicate n x) i ≡ some x
  get_elem?-replicate zero x i h = absurd (omega arith)
  get_elem?-replicate (suc n) x zero h = refl
  get_elem?-replicate (suc n) x (suc i) h = get_elem?-replicate n x i (omega arith)

  -- The rows of two grids, side by side.
  abbrev pub beside : List (List T) → List (List T) → List (List T)
  beside [] rs = []
  beside (l ∷ ls) [] = []
  beside (l ∷ ls) (r ∷ rs) = (l ++ r) ∷ beside ls rs

  pub length-beside :
      (ls rs : List (List T)) → length ls ≡ length rs → length (beside ls rs) ≡ length rs
  length-beside [] rs same = same
  length-beside (l ∷ ls) [] same = absurd (omega arith)
  length-beside (l ∷ ls) (r ∷ rs) same = ap suc (length-beside ls rs (omega arith))

  pub get_elem?-beside :
      (ls rs : List (List T)) (i : ℕ) {l r : List T}
      → get_elem? ls i ≡ some l
      → get_elem? rs i ≡ some r
      → get_elem? (beside ls rs) i ≡ some (l ++ r)
  get_elem?-beside [] rs i e e' = cc e
  get_elem?-beside (l ∷ ls) [] i e e' = cc e'
  get_elem?-beside (l ∷ ls) (r ∷ rs) zero e e' = cc (e, e')
  get_elem?-beside (l ∷ ls) (r ∷ rs) (suc i) e e' = get_elem?-beside ls rs i e e'
