-- ===== src/Quiver/Extended.antt =====
-- The types of the frame that `addRows` makes.
use streamlit.Prelude.{
  Bool-cases, List, [], ap, arith, inl, inr, length, refl, str_eq, subst, suc, sym, ◌∙◌, ◌∷◌, ◌≡◌,
}
use streamlit.Prelude.Result.{bind_ok, ok, ok_inj}
use streamlit.Quiver.{Arrow, ColumnType, range_type}
use streamlit.Quiver.Concat.{
  concat_index_types, extended_type, extended_types, range_of, range_of_meta, same_index_types,
}
use streamlit.Quiver.Aligned.{IsSingleRange}

module _ (A : Arrow) where
  open A use {Number, add, sub, mul, div}

  extended_type-pandas_type :
      (t other : ColumnType Number) {t' : ColumnType Number}
      → extended_type A t other ≡ ok t'
      → t'.pandas_type ≡ t.pandas_type
  unfolding extended_type range_of
  extended_type-pandas_type t other {t'} e = elim (Bool-cases (str_eq t.pandas_type range_type)) [
    | inl is_range ↦
        let (r, found, rest) = bind_ok (range_of_meta t.meta) _ (rw is_range at e) in
        let (o, found', same) = bind_ok (range_of_meta other.meta) _ rest in
        sym (ap (λ (t : ColumnType Number). t.pandas_type) (ok_inj same))
    | inr no_range ↦ sym (ap (λ (t : ColumnType Number). t.pandas_type) (ok_inj (rw no_range at e)))
  ]

  extended_types-length :
      (other : ColumnType Number) (ts : List (ColumnType Number)) {ts' : List (ColumnType Number)}
      → extended_types A other ts ≡ ok ts'
      → length ts' ≡ length ts
  unfolding extended_types
  extended_types-length other [] {ts'} e = sym (ap length (ok_inj e))
  extended_types-length other (t ∷ ts) {ts'} e =
      let (t', first, rest) = bind_ok (extended_type A t other) _ e in
      let (ts'', found, same) = bind_ok (extended_types A other ts) (λ ts'. ok (t' ∷ ts')) rest in
      sym (ap length (ok_inj same)) ∙ ap suc (extended_types-length other ts found)

  single-nil : (ts : List (ColumnType Number)) → length ts ≡ 0 → ts ≡ []
  single-nil [] e = refl
  single-nil (t ∷ ts) e = absurd (omega arith)

  extended_types-single :
      (other t : ColumnType Number) (ts : List (ColumnType Number)) {ts' : List (ColumnType Number)}
      → IsSingleRange (t ∷ ts)
      → extended_types A other (t ∷ ts) ≡ ok ts'
      → IsSingleRange ts'
  unfolding extended_types
  extended_types-single other t ts {ts'} single e =
      let (t', first, rest) = bind_ok (extended_type A t other) _ e in
      let (ts'', found, same) = bind_ok (extended_types A other ts) (λ ts'. ok (t' ∷ ts')) rest in
      let result : IsSingleRange (t' ∷ ts'') = elim single [
        | inl no_range ↦ inl (
            ap (λ name. str_eq name range_type) (extended_type-pandas_type t other first)
            ∙ no_range)
        | inr alone ↦ inr (single-nil ts'' (extended_types-length other ts found ∙ ap length alone))
      ] in
      subst IsSingleRange (ok_inj same) result

  -- Only one of the sides has types, or the types of the receiver are extended.
  pub concat_index_types-ok :
      (types others : List (ColumnType Number)) {joined : List (ColumnType Number)}
      → length types ≡ length others
      → IsSingleRange types
      → concat_index_types A types others ≡ ok joined
      → (length joined ≡ length types) × IsSingleRange joined
  unfolding concat_index_types
  concat_index_types-ok types [] {joined} same_width single e =
      subst
        (λ (joined : List (ColumnType Number)).
          (length joined ≡ length types) × IsSingleRange joined)
        (ok_inj e) (refl, single)
  concat_index_types-ok [] (o ∷ os) same_width single e = absurd (omega arith)
  concat_index_types-ok (t ∷ ts) (o ∷ os) {joined} same_width single e =
      elim (Bool-cases (same_index_types (t ∷ ts) (o ∷ os))) [
        | inl same ↦
            let extended : extended_types A o (t ∷ ts) ≡ ok joined = rw same at e in
            (
              extended_types-length o (t ∷ ts) extended,
              extended_types-single o t ts single extended,
            )
        | inr differ ↦ cc (rw differ at e)
      ]
