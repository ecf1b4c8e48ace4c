-- ===== src/Quiver/Counted.antt =====
-- What is in the lists that the constructor makes, and how long they are.
use streamlit.Prelude.{
  All, List, Option, String, [], ap, arith, false, length, ltb, none, refl, some, subst, suc, sym,
  true, zero, ℕ, ◌+◌, ◌<◌, ◌==◌, ◌∙◌, ◌∷◌, ◌≡◌,
}
use streamlit.Prelude.Result.{Result, bind_ok, err, ok, ok_inj}
use streamlit.Quiver.{Arrow, QuiverError}
use streamlit.Quiver.Parse.{
  IndexColumn, Table, map_result, named_column, range_column, tabulate_from,
}

pub map_result-length :
    {S T : Type 0} (f : S → Result QuiverError T) (xs : List S) {ys : List T}
    → map_result f xs ≡ ok ys
    → length ys ≡ length xs
map_result-length f [] e = sym (ap length (ok_inj e))
map_result-length f (x ∷ xs) e =
    let (y, first, rest) = bind_ok (f x) _ e in
    let (ys, found, same) = bind_ok (map_result f xs) (λ ys. ok (y ∷ ys)) rest in
    sym (ap length (ok_inj same)) ∙ ap suc (map_result-length f xs found)

-- What holds of every result that there is.
abbrev pub Ensures : {T : Type 0} → (T → Type 0) → Result QuiverError T → Type 0
Ensures P (ok x) = P x
Ensures P (err e) = Unit

pub Ensures-ok :
    {T : Type 0} (P : T → Type 0) (r : Result QuiverError T) {x : T} → Ensures P r → r ≡ ok x → P x
Ensures-ok P (ok y) h e = subst P (ok_inj e) h
Ensures-ok P (err y) h e = cc e

pub map_result-All :
    {S T : Type 0} (P : T → Type 0) (f : S → Result QuiverError T) (xs : List S) {ys : List T}
    → All (λ x. Ensures P (f x)) xs
    → map_result f xs ≡ ok ys
    → All P ys
map_result-All P f [] all e = subst (All P) (ok_inj e) tt
map_result-All P f (x ∷ xs) all e =
    let (y, first, rest) = bind_ok (f x) _ e in
    let (ys, found, same) = bind_ok (map_result f xs) (λ ys. ok (y ∷ ys)) rest in
    subst (All P) (ok_inj same) (Ensures-ok P (f x) all.0 first, map_result-All P f xs all.1 found)

pub tabulate_from-length : {T : Type 0} (i n : ℕ) (f : ℕ → T) → length (tabulate_from i n f) ≡ n
tabulate_from-length i zero f = refl
tabulate_from-length i (suc n) f = ap suc (tabulate_from-length (i + 1) n f)

pub tabulate_from-All :
    {T : Type 0} (P : T → Type 0) (i n : ℕ) (f : ℕ → T)
    → ((k : ℕ) → P (f k))
    → All P (tabulate_from i n f)
tabulate_from-All P i zero f all = tt
tabulate_from-All P i (suc n) f all = (all i, tabulate_from-All P (i + 1) n f all)

pub some_inj : {T : Type 0} {a b : T} → ◌≡◌ {A = Option T} (some a) (some b) → a ≡ b
some_inj e = cc e

abbrev pub column_length : {T : Type 0} → Option (List T) → Option ℕ
column_length none = none
column_length (some column) = some (length column)

-- The number of values of an index column, and of the labels of a column.
abbrev pub value_count : (A : Arrow) → Table A → IndexColumn A.Number → Option ℕ
value_count A t (named_column n) = column_length (t.get_column n)
value_count A t (range_column r) = some (length (A.range r.start r.stop r.step))

abbrev pub label_count : Result QuiverError (List String) → Option ℕ
label_count (ok labels) = some (length labels)
label_count (err e) = none

pub counted-Ensures :
    (k : ℕ) (r : Result QuiverError (List String))
    → label_count r ≡ some k
    → Ensures (λ (labels : List String). length labels ≡ k) r
counted-Ensures k (ok labels) counted = some_inj counted
counted-Ensures k (err e) counted = tt

pub positive : (n : ℕ) → 0 < n → (n == 0) ≡ false
positive n h = ground (arith, h)

pub is_more : (n : ℕ) → 0 < n → ltb 0 n ≡ true
is_more n h = ground (arith, h)
