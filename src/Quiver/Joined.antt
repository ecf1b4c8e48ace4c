-- ===== src/Quiver/Joined.antt =====
-- What the parts of `addRows` return when they do not throw.
use streamlit.Prelude.{
  All, All-append, Bool-cases, List, Option, [], ap, arith, inl, inr, length, length-append, map,
  none, refl, some, str_eq, subst, suc, sym, true, ℕ, ◌++◌, ◌+◌, ◌<◌, ◌∙◌, ◌∷◌, ◌≡◌, ◌≤◌,
}
use streamlit.Prelude.Result.{bind_ok, ok, ok_inj}
use streamlit.Quiver.{Arrow, ColumnType, Meta, RangeIndex, other_meta, range_meta, range_type}
use streamlit.Quiver.Concat.{
  concat_indexes, continued_index, join_indexes, range_of, range_of_meta, same_data_types,
  same_index_types,
}
use streamlit.Quiver.Aligned.{IsExact, IsExactMeta, IsSingleRange, IsWide, length-map}

module _ {N : Type 0} where
  pub same_index_types-length :
      (ts us : List (ColumnType N)) → same_index_types ts us ≡ true → length ts ≡ length us
  unfolding same_index_types
  same_index_types-length [] [] e = refl
  same_index_types-length [] (u ∷ us) e = cc e
  same_index_types-length (t ∷ ts) [] e = cc e
  same_index_types-length (t ∷ ts) (u ∷ us) e =
      ap suc (same_index_types-length ts us (ground (arith, e)))

  pub same_data_types-length :
      (ts us : List (ColumnType N)) → same_data_types ts us ≡ true → length ts ≤ length us
  unfolding same_data_types
  same_data_types-length [] us e = omega arith
  same_data_types-length (t ∷ ts) [] e = cc e
  same_data_types-length (t ∷ ts) (u ∷ us) e =
      let rest = same_data_types-length ts us (ground (arith, e)) in omega (arith, rest)

module _ (A : Arrow) where
  open A use {Value, Number, of_number, of_ℕ, add, mul, range}

  map-one-IsWide : (ns : List Number) → IsWide 1 (map (λ n. of_number n ∷ []) ns)
  map-one-IsWide [] = tt
  map-one-IsWide (n ∷ ns) = (refl, map-one-IsWide ns)

  range_of_meta-exact :
      (n : ℕ) (o : Option (Meta Number)) {r : RangeIndex Number}
      → IsExactMeta A n o
      → range_of_meta o ≡ ok r
      → length (range r.stop (add r.stop (mul (of_ℕ n) r.step)) r.step) ≡ n
  unfolding range_of_meta
  range_of_meta-exact n (some (range_meta r)) exact e =
      subst
        (λ (r : RangeIndex Number).
          length (range r.stop (add r.stop (mul (of_ℕ n) r.step)) r.step) ≡ n)
        (ok_inj e) exact
  range_of_meta-exact n (some other_meta) exact e = cc e
  range_of_meta-exact n none exact e = cc e

  not_range :
      (t : ColumnType Number) (ts : List (ColumnType Number))
      → IsSingleRange (t ∷ ts)
      → str_eq t.pandas_type range_type ≡ true
      → 1 ≡ length (t ∷ ts)
  not_range t ts (inl no_range) is_range = absurd (ground (arith, no_range, is_range))
  not_range t ts (inr alone) is_range = ap suc (sym (ap length alone))

  continued_index-ok :
      (t : ColumnType Number) (ts : List (ColumnType Number)) (other : List (List Value))
      {more : List (List Value)}
      → IsSingleRange (t ∷ ts)
      → IsExact A (length other) t
      → IsWide (length (t ∷ ts)) other
      → continued_index A t other ≡ ok more
      → (length more ≡ length other) × IsWide (length (t ∷ ts)) more
  unfolding continued_index range_of
  continued_index-ok t ts other {more} single exact wide e =
      elim (Bool-cases (str_eq t.pandas_type range_type)) [
        | inl is_range ↦
            let (r, found, same) = bind_ok (range_of_meta t.meta) _ (rw is_range at e) in
            let end = add r.stop (mul (of_ℕ (length other)) r.step) in
            subst
              (λ (m : List (List Value)). (length m ≡ length other) × IsWide (length (t ∷ ts)) m)
              (ok_inj same)
              (
                length-map A _ (range r.stop end r.step)
                    ∙ range_of_meta-exact (length other) t.meta exact found,
                subst (λ n. IsWide n (map (λ n. of_number n ∷ []) (range r.stop end r.step)))
                    (not_range t ts single is_range) (map-one-IsWide (range r.stop end r.step)),
              )
        | inr no_range ↦
            subst
              (λ (m : List (List Value)). (length m ≡ length other) × IsWide (length (t ∷ ts)) m)
              (ok_inj (rw no_range at e)) (refl, wide)
      ]

  -- Both indexes have rows.
  join_indexes-ok :
      (index other : List (List Value)) (types other_types : List (ColumnType Number))
      {joined : List (List Value)}
      → IsSingleRange types
      → All (IsExact A (length other)) types
      → IsWide (length types) index
      → IsWide (length other_types) other
      → join_indexes A index types other other_types ≡ ok joined
      → (length joined ≡ length index + length other) × IsWide (length types) joined
  unfolding join_indexes
  join_indexes-ok index other [] other_types single exact wide wide' e =
      elim (Bool-cases (same_index_types [] other_types)) [
        | inl same ↦ cc (rw same at e)
        | inr differ ↦ cc (rw differ at e)
      ]
  join_indexes-ok index other (t ∷ ts) other_types {joined} single exact wide wide' e =
      elim (Bool-cases (same_index_types (t ∷ ts) other_types)) [
        | inl same ↦
            let (more, went_on, appended) =
              bind_ok (continued_index A t other) (λ more. ok (index ++ more)) (rw same at e) in
            let (high, wide_more) =
              continued_index-ok t ts other single exact.0
                (subst (λ n. IsWide n other)
                  (sym (same_index_types-length (t ∷ ts) other_types same)) wide')
                went_on in
            subst
              (λ (joined : List (List Value)).
                (length joined ≡ length index + length other) × IsWide (length (t ∷ ts)) joined)
              (ok_inj appended)
              (
                length-append index more ∙ ap (λ n. length index + n) high,
                All-append (λ r. length r ≡ length (t ∷ ts)) index more wide wide_more,
              )
        | inr differ ↦ cc (rw differ at e)
      ]

  pub concat_indexes-ok :
      (index other : List (List Value)) (types other_types : List (ColumnType Number))
      {joined : List (List Value)}
      → 0 < length index
      → IsSingleRange types
      → All (IsExact A (length other)) types
      → IsWide (length types) index
      → IsWide (length other_types) other
      → concat_indexes A index types other other_types ≡ ok joined
      → (length joined ≡ length index + length other) × IsWide (length types) joined
  unfolding concat_indexes
  concat_indexes-ok index [] types other_types {joined} some_rows single exact wide wide' e =
      subst
        (λ (joined : List (List Value)).
          (length joined ≡ length index + 0) × IsWide (length types) joined)
        (ok_inj e) (omega arith, wide)
  concat_indexes-ok [] (o ∷ os) types other_types some_rows single exact wide wide' e =
      absurd (omega arith)
  concat_indexes-ok (i ∷ is) (o ∷ os) types other_types some_rows single exact wide wide' e =
      join_indexes-ok (i ∷ is) (o ∷ os) types other_types single exact wide wide' e

  -- Rows are added to an index with rows only where the types are as many.
  pub concat_indexes-same :
      (index other : List (List Value)) (types other_types : List (ColumnType Number))
      {joined : List (List Value)}
      → 0 < length index
      → 0 < length other
      → concat_indexes A index types other other_types ≡ ok joined
      → length types ≡ length other_types
  unfolding concat_indexes join_indexes
  concat_indexes-same [] other types other_types h h' e = absurd (omega arith)
  concat_indexes-same (i ∷ is) [] types other_types h h' e = absurd (omega arith)
  concat_indexes-same (i ∷ is) (o ∷ os) types other_types h h' e =
      elim (Bool-cases (same_index_types types other_types)) [
        | inl same ↦ same_index_types-length types other_types same
        | inr differ ↦ cc (rw differ at e)
      ]
