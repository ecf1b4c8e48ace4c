-- ===== src/Legacy/Kept.antt =====
-- What is read from a frame that `addRows` has extended.
use streamlit.Prelude.{
  List, Option, [], ap, arith, false, get_elem?, get_elem?-append_lt, length, refl, some, subst,
  suc, sym, zero, ℕ, ◌++◌, ◌+◌, ◌<◌, ◌==◌, ◌∙◌, ◌∷◌, ◌≡◌,
}
use streamlit.Prelude.Result.{Result, bind_ok, ok, ok_inj}
use streamlit.Legacy.{
  AnyArray, DataFrame, LegacyError, Numbers, Table, datetimes, doubles, int64s, strings, timedeltas,
}
use streamlit.Legacy.Concat.{
  any_array_len, append_arrays, concat_any_array, concat_frames, zip_cols, zip_with,
}
use streamlit.Legacy.AddRows.{extend, extend_cells, extend_cols}
use streamlit.Legacy.Cells.{Display, any_array_get, column_get, or_undefined, table_get}
use streamlit.Legacy.Rows.{IsHigh, concat_frames_parts}

get_elem?-append_at :
    {T : Type 0} (xs ys : List T) (n r : ℕ)
    → ◌≡◌ {A = Result LegacyError ℕ} (ok (length xs)) (ok n)
    → get_elem? (xs ++ ys) (n + r) ≡ get_elem? ys r
get_elem?-append_at [] ys n r e = ap (get_elem? ys) (omega (arith, ok_inj e))
get_elem?-append_at (x ∷ xs) ys zero r e = absurd (omega (arith, ok_inj e))
get_elem?-append_at (x ∷ xs) ys (suc n) r e =
    let next : suc n + r ≡ suc (n + r) = omega arith in
    ap (get_elem? (x ∷ (xs ++ ys))) next
    ∙ get_elem?-append_at xs ys n r (ap ok (omega (arith, ok_inj e)))

get_elem?-append_before :
    {T : Type 0} (xs ys : List T) (n r : ℕ)
    → ◌≡◌ {A = Result LegacyError ℕ} (ok (length xs)) (ok n)
    → r < n
    → get_elem? (xs ++ ys) r ≡ get_elem? xs r
get_elem?-append_before xs ys n r e h = get_elem?-append_lt xs ys r (omega (arith, ok_inj e, h))

module _ {N : Type 0} where
  IsHigh-get_elem? :
      (n : ℕ) (cols : List (AnyArray N)) (k : ℕ) {a : AnyArray N}
      → IsHigh n cols
      → get_elem? cols k ≡ some a
      → any_array_len a ≡ ok n
  IsHigh-get_elem? n [] k high e = cc e
  IsHigh-get_elem? n (c ∷ cs) zero high e = subst (λ a. any_array_len a ≡ ok n) (cc e) high.0
  IsHigh-get_elem? n (c ∷ cs) (suc k) high e = IsHigh-get_elem? n cs k high.1 e

  zip_with-get_elem? :
      (cols others : List (AnyArray N)) (k : ℕ) {a b : AnyArray N} {joined : List (AnyArray N)}
      → get_elem? cols k ≡ some a
      → get_elem? others k ≡ some b
      → zip_with concat_any_array cols others ≡ ok joined
      → (c : AnyArray N) × (get_elem? joined k ≡ some c) × (concat_any_array a b ≡ ok c)
  zip_with-get_elem? [] others k ea eb e = cc ea
  zip_with-get_elem? (x ∷ xs) [] k ea eb e = cc eb
  zip_with-get_elem? (x ∷ xs) (y ∷ ys) zero ea eb e =
      let (z, first, rest) = bind_ok (concat_any_array x y) _ e in
      let (zs, found, same) = bind_ok (zip_with concat_any_array xs ys) (λ zs. ok (z ∷ zs)) rest in
      (z, ap (λ joined. get_elem? joined 0) (sym (ok_inj same)), cc (ea, eb, first))
  zip_with-get_elem? (x ∷ xs) (y ∷ ys) (suc k) ea eb e =
      let (z, first, rest) = bind_ok (concat_any_array x y) _ e in
      let (zs, found, same) = bind_ok (zip_with concat_any_array xs ys) (λ zs. ok (z ∷ zs)) rest in
      let (c, here, joined) = zip_with-get_elem? xs ys k ea eb found in
      (c, ap (λ joined. get_elem? joined (suc k)) (sym (ok_inj same)) ∙ here, joined)

module _ (M : Numbers) (D : Display M) where
  open M use {Number}

  -- The values of an array in which others are appended.
  abbrev Appended : AnyArray Number → AnyArray Number → ℕ → AnyArray Number → Type 0
  Appended a b n c =
      ((r : ℕ) → r < n → any_array_get M D c (some r) ≡ any_array_get M D a (some r))
      × ((r : ℕ) → any_array_get M D c (some (n + r)) ≡ any_array_get M D b (some r))

  -- The same for an array of one type, whose values are formatted by `f`.
  values_in :
      {T : Type 0} (K : List T → AnyArray Number) (f : Option T → Result LegacyError D.Value)
      → ((xs : List T) (r : ℕ) → any_array_get M D (K xs) (some r) ≡ f (get_elem? xs r))
      → (xs ys : List T) (n : ℕ) {c : AnyArray Number}
      → ◌≡◌ {A = Result LegacyError ℕ} (ok (length xs)) (ok n)
      → ◌≡◌ {A = Result LegacyError (AnyArray Number)} (ok (K (xs ++ ys))) (ok c)
      → Appended (K xs) (K ys) n c
  values_in K f shape xs ys n e same = subst (Appended (K xs) (K ys) n) (ok_inj same) (
    λ r h. shape (xs ++ ys) r ∙ ap f (get_elem?-append_before xs ys n r e h) ∙ sym (shape xs r),
    λ r. shape (xs ++ ys) (n + r) ∙ ap f (get_elem?-append_at xs ys n r e) ∙ sym (shape ys r),
  )

  any_array_get-append :
      (a b : AnyArray Number) (n : ℕ) {c : AnyArray Number}
      → any_array_len a ≡ ok n
      → append_arrays a b ≡ ok c
      → Appended a b n c
  unfolding append_arrays any_array_len any_array_get
  any_array_get-append (strings xs) (strings ys) n e same =
      values_in strings (λ o. ok (or_undefined M D D.of_text o)) (λ xs r. refl) xs ys n e same
  any_array_get-append (datetimes xs) (datetimes ys) n e same =
      values_in datetimes (λ o. ok (D.moment o)) (λ xs r. refl) xs ys n e same
  any_array_get-append (doubles xs) (doubles ys) n e same =
      values_in doubles (λ o. ok (or_undefined M D D.of_number o)) (λ xs r. refl) xs ys n e same
  any_array_get-append (int64s xs) (int64s ys) n e same =
      values_in int64s (λ o. ok (or_undefined M D D.of_number o)) (λ xs r. refl) xs ys n e same
  any_array_get-append (timedeltas xs) (timedeltas ys) n e same =
      values_in timedeltas (λ o. ok (D.duration o)) (λ xs r. refl) xs ys n e same
  any_array_get-append a b n e same = cc same

  table_get-column :
      (cells : Option (Table Number)) (cols : List (AnyArray Number)) (k r : ℕ)
      {a : AnyArray Number}
      → cells ≡ some (record { cols = cols })
      → get_elem? cols k ≡ some a
      → table_get M D cells k r ≡ any_array_get M D a (some r)
  unfolding table_get
  table_get-column cells cols k r given found =
      ap (λ t. table_get M D t k r) given ∙ ap (λ o. column_get M D o r) found

  -- Where the frame has columns of a length other than 0, the column `k` stands in the frame and in
  -- the new rows, and the frame can be extended: in the result that column has the values of the
  -- frame, in their rows, and behind them those of the new rows, formatted alike. Behind the last
  -- row both read what stands for a missing value.
  pub table_get-extend :
      (df new_rows : DataFrame Number) (c : AnyArray Number) (cs others : List (AnyArray Number))
      (a b : AnyArray Number) (n k : ℕ) {result : Option (DataFrame Number)}
      → df.cells ≡ some (record { cols = c ∷ cs })
      → new_rows.cells ≡ some (record { cols = others })
      → 0 < n
      → IsHigh n (c ∷ cs)
      → get_elem? (c ∷ cs) k ≡ some a
      → get_elem? others k ≡ some b
      → extend M (some df) (some new_rows) ≡ ok result
      → (df' : DataFrame Number) × (result ≡ some df')
        × ((r : ℕ) → r < n → table_get M D df'.cells k r ≡ table_get M D df.cells k r)
        × ((r : ℕ) → table_get M D df'.cells k (n + r) ≡ table_get M D new_rows.cells k r)
  unfolding extend extend_cells extend_cols zip_cols concat_any_array
  table_get-extend df new_rows c cs others a b n k given given' some_rows high ea eb e =
      let extended = ap (λ o. extend_cells M df o (some new_rows)) (sym given) ∙ e in
      let (df', found, same) = bind_ok (concat_frames M df (c ∷ cs) (some new_rows)) _ extended in
      let (joined, zipped, cells, columns) = concat_frames_parts M df new_rows (c ∷ cs) found in
      let (z, here, concat) =
        zip_with-get_elem? (c ∷ cs) others k ea eb
          (ap (zip_cols M (c ∷ cs)) (sym given') ∙ zipped) in
      let long = IsHigh-get_elem? n (c ∷ cs) k high ea in
      let filled : (n == 0) ≡ false = ground (arith, some_rows) in
      let (before, behind) = any_array_get-append a b n long (rw (long, filled) at concat) in
      (
        df',
        sym (ok_inj same),
        λ r h.
            table_get-column df'.cells joined k r cells here
            ∙ before r h
            ∙ sym (table_get-column df.cells (c ∷ cs) k r given ea),
        λ r.
            table_get-column df'.cells joined k (n + r) cells here
            ∙ behind r
            ∙ sym (table_get-column new_rows.cells others k r given' eb),
      )
