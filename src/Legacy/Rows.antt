-- ===== src/Legacy/Rows.antt =====
-- The columns that `addRows` makes, and their lengths.
use streamlit.Prelude.{
  All, List, Option, [], ap, arith, false, length, length-append, refl, some, subst, suc, sym, zero,
  ℕ, ◌++◌, ◌+◌, ◌<◌, ◌==◌, ◌∙◌, ◌∷◌, ◌≡◌,
}
use streamlit.Prelude.Result.{Result, bind_ok, ok, ok_inj}
use streamlit.Legacy.{
  AnyArray, DataFrame, LegacyError, Numbers, datetimes, doubles, int64s, strings, timedeltas,
}
use streamlit.Legacy.Concat.{
  any_array_len, append_arrays, concat_any_array, concat_frames, concat_index, zip_cols, zip_styles,
  zip_with,
}
use streamlit.Legacy.AddRows.{extend, extend_cells, extend_cols}

abbrev pub min : ℕ → ℕ → ℕ
min zero n = 0
min (suc m) zero = 0
min (suc m) (suc n) = suc (min m n)

appended :
    {T : Type 0} (xs ys : List T) (n m : ℕ)
    → ◌≡◌ {A = Result LegacyError ℕ} (ok (length xs)) (ok n)
    → ◌≡◌ {A = Result LegacyError ℕ} (ok (length ys)) (ok m)
    → ◌≡◌ {A = Result LegacyError ℕ} (ok (length (xs ++ ys))) (ok (n + m))
appended xs ys n m ha hb = ap ok (omega (arith, length-append xs ys, ok_inj ha, ok_inj hb))

module _ {N : Type 0} where
  -- Every column has as many values.
  abbrev pub IsHigh : ℕ → List (AnyArray N) → Type 0
  IsHigh n = All (λ c. any_array_len c ≡ ok n)

  append_arrays-len :
      (a b : AnyArray N) (n m : ℕ) {c : AnyArray N}
      → any_array_len a ≡ ok n
      → any_array_len b ≡ ok m
      → append_arrays a b ≡ ok c
      → any_array_len c ≡ ok (n + m)
  unfolding append_arrays any_array_len
  append_arrays-len (strings xs) (strings ys) n m ha hb e =
      ap any_array_len (sym (ok_inj e)) ∙ appended xs ys n m ha hb
  append_arrays-len (datetimes xs) (datetimes ys) n m ha hb e =
      ap any_array_len (sym (ok_inj e)) ∙ appended xs ys n m ha hb
  append_arrays-len (doubles xs) (doubles ys) n m ha hb e =
      ap any_array_len (sym (ok_inj e)) ∙ appended xs ys n m ha hb
  append_arrays-len (int64s xs) (int64s ys) n m ha hb e =
      ap any_array_len (sym (ok_inj e)) ∙ appended xs ys n m ha hb
  append_arrays-len (timedeltas xs) (timedeltas ys) n m ha hb e =
      ap any_array_len (sym (ok_inj e)) ∙ appended xs ys n m ha hb
  append_arrays-len a b n m ha hb e = cc e

  concat_any_array-len :
      (a b : AnyArray N) (n m : ℕ) {c : AnyArray N}
      → 0 < n
      → any_array_len a ≡ ok n
      → any_array_len b ≡ ok m
      → concat_any_array a b ≡ ok c
      → any_array_len c ≡ ok (n + m)
  unfolding concat_any_array
  concat_any_array-len a b n m some_rows ha hb e =
      let filled : (n == 0) ≡ false = ground (arith, some_rows) in
      append_arrays-len a b n m ha hb (rw (ha, filled) at e)

  zip_with-IsHigh :
      (cols others : List (AnyArray N)) (n m : ℕ) {joined : List (AnyArray N)}
      → 0 < n
      → IsHigh n cols
      → IsHigh m others
      → zip_with concat_any_array cols others ≡ ok joined
      → IsHigh (n + m) joined × (length joined ≡ min (length cols) (length others))
  zip_with-IsHigh [] others n m some_rows high high' e =
      subst (λ joined. IsHigh (n + m) joined × (length joined ≡ 0)) (ok_inj e) (tt, refl)
  zip_with-IsHigh (c ∷ cs) [] n m some_rows high high' e =
      subst (λ joined. IsHigh (n + m) joined × (length joined ≡ 0)) (ok_inj e) (tt, refl)
  zip_with-IsHigh (c ∷ cs) (o ∷ os) n m some_rows high high' e =
      let (z, first, rest) = bind_ok (concat_any_array c o) _ e in
      let (zs, found, same) = bind_ok (zip_with concat_any_array cs os) (λ zs. ok (z ∷ zs)) rest in
      let (more, many) = zip_with-IsHigh cs os n m some_rows high.1 high'.1 found in
      subst (λ joined. IsHigh (n + m) joined × (length joined ≡ suc (min (length cs) (length os))))
        (ok_inj same)
        ((concat_any_array-len c o n m some_rows high.0 high'.0 first, more), ap suc many)

module _ (M : Numbers) where
  open M use {Number}

  -- The parts of an extended frame.
  pub concat_frames_parts :
      (df new_rows : DataFrame Number) (cols : List (AnyArray Number)) {df' : DataFrame Number}
      → concat_frames M df cols (some new_rows) ≡ ok df'
      → (joined : List (AnyArray Number)) × (zip_cols M cols new_rows.cells ≡ ok joined)
        × (df'.cells ≡ some (record { cols = joined }))
        × (df'.columns ≡ df.columns)
  unfolding concat_frames
  concat_frames_parts df new_rows cols e =
      let (index, index_found, rest) = bind_ok (concat_index M df.index new_rows.index) _ e in
      let (joined, found, rest') = bind_ok (zip_cols M cols new_rows.cells) _ rest in
      let (styles, styles_found, same) = bind_ok (zip_styles M df.style new_rows.style) _ rest' in
      (
        joined,
        found,
        sym (ap (λ (df : DataFrame Number). df.cells) (ok_inj same)),
        sym (ap (λ (df : DataFrame Number). df.columns) (ok_inj same)),
      )

  -- Where the frame has columns of a length other than 0, and so have the new rows, and the frame
  -- can be extended: each column of the result is as long as both together, and the columns are as
  -- many as the fewer of both, so that the others are dropped. The labels of the columns stay.
  pub extend-IsHigh :
      (df new_rows : DataFrame Number) (c : AnyArray Number) (cs others : List (AnyArray Number))
      (n m : ℕ) {result : Option (DataFrame Number)}
      → df.cells ≡ some (record { cols = c ∷ cs })
      → new_rows.cells ≡ some (record { cols = others })
      → 0 < n
      → IsHigh n (c ∷ cs)
      → IsHigh m others
      → extend M (some df) (some new_rows) ≡ ok result
      → (df' : DataFrame Number) × (joined : List (AnyArray Number)) × (result ≡ some df')
        × (df'.cells ≡ some (record { cols = joined }))
        × IsHigh (n + m) joined
        × (length joined ≡ min (length (c ∷ cs)) (length others))
        × (df'.columns ≡ df.columns)
  unfolding extend extend_cells extend_cols zip_cols
  extend-IsHigh df new_rows c cs others n m {result} given given' some_rows high high' e =
      let extended = ap (λ o. extend_cells M df o (some new_rows)) (sym given) ∙ e in
      let (df', found, same) = bind_ok (concat_frames M df (c ∷ cs) (some new_rows)) _ extended in
      let (joined, zipped, cells, columns) = concat_frames_parts df new_rows (c ∷ cs) found in
      let (long, many) =
        zip_with-IsHigh (c ∷ cs) others n m some_rows high high'
          (ap (zip_cols M (c ∷ cs)) (sym given') ∙ zipped) in
      (df', joined, sym (ok_inj same), cells, long, many, columns)
