-- ===== src/Quiver/Continued.antt =====
-- How `addRows` continues an index and extends its types, where they are ranges with their metadata.
use streamlit.Prelude.{
  All, Bool-cases, List, [], arith, false, inl, inr, length, map, refl, some, str_eq, true, ◌++◌,
  ◌<◌, ◌∷◌, ◌≡◌, ◌⊎◌,
}
use streamlit.Prelude.Result.{ok}
use streamlit.Quiver.{Arrow, ColumnType, RangeIndex, Types, range_meta, range_type}
use streamlit.Quiver.Concat.{
  concat_data_types, concat_index_types, concat_types, continued_index, extended_type,
  extended_types, join_indexes, range_of, range_of_meta, same_index_types,
}

module _ (A : Arrow) where
  open A use {Value, Number, of_number, of_ℕ, add, sub, mul, div, range}

  abbrev pub HasRange : ColumnType Number → Type 0
  HasRange t = (r : RangeIndex Number) × (t.meta ≡ some (range_meta r))

  -- A range is not one by its name alone, and goes on with another range.
  abbrev pub GoesOn : ColumnType Number → ColumnType Number → Type 0
  GoesOn other t = (str_eq t.pandas_type range_type ≡ false) ⊎ (HasRange t × HasRange other)

  -- The first type of the index that is added is the one that is read.
  abbrev pub GoOn : List (ColumnType Number) → List (ColumnType Number) → Type 0
  GoOn types [] = Unit
  GoOn types (o ∷ os) = All (GoesOn o) types

  -- How a range with the metadata `r` is extended by one with `o`.
  abbrev pub extended_range : RangeIndex Number → RangeIndex Number → RangeIndex Number
  extended_range r o = record r { stop = add r.stop (mul (div (sub o.stop o.start) o.step) r.step) }

  -- A type as it is, or a range's with the new stop.
  abbrev pub IsExtended : ColumnType Number → ColumnType Number → ColumnType Number → Type 0
  IsExtended other t t' =
      ((str_eq t.pandas_type range_type ≡ false) × (t' ≡ t))
      ⊎ ((r : RangeIndex Number) × (o : RangeIndex Number) × (str_eq t.pandas_type range_type
            ≡ true)
          × (t.meta ≡ some (range_meta r))
          × (other.meta ≡ some (range_meta o))
          × (t' ≡ record t { meta = some (range_meta (extended_range r o)) }))

  abbrev pub AreExtended :
      ColumnType Number → List (ColumnType Number) → List (ColumnType Number) → Type 0
  AreExtended other [] [] = Unit
  AreExtended other (t ∷ ts) (t' ∷ ts') = IsExtended other t t' × AreExtended other ts ts'
  AreExtended other ts ts' = ⊥

  abbrev pub HaveGrown :
      List (ColumnType Number) → List (ColumnType Number) → List (ColumnType Number) → Type 0
  HaveGrown types [] types' = types' ≡ types
  HaveGrown types (o ∷ os) types' = AreExtended o types types'

  -- The index of the rows that are added: theirs, or numbers that go on where the range stopped.
  abbrev pub Continues : ColumnType Number → List (List Value) → List (List Value) → Type 0
  Continues t more index =
      ((str_eq t.pandas_type range_type ≡ false) × (index ≡ more))
      ⊎ ((r : RangeIndex Number) × (str_eq t.pandas_type range_type ≡ true)
          × (t.meta ≡ some (range_meta r))
          × (index
              ≡ map (λ n. of_number n ∷ [])
                  (range r.stop (add r.stop (mul (of_ℕ (length more)) r.step)) r.step)))

  -- The first type of the receiver tells.
  abbrev pub GoesOnAs : List (ColumnType Number) → List (List Value) → List (List Value) → Type 0
  GoesOnAs [] more index = ⊥
  GoesOnAs (t ∷ ts) more index = Continues t more index

  extended_type-total :
      (other t : ColumnType Number)
      → GoesOn other t
      → (t' : ColumnType Number) × (extended_type A t other ≡ ok t') × IsExtended other t t'
  unfolding extended_type range_of range_of_meta
  extended_type-total other t (inl no_range) = (t, rw no_range refl, inl (no_range, refl))
  extended_type-total other t (inr ((r, found), (o, found'))) =
      elim (Bool-cases (str_eq t.pandas_type range_type)) [
        | inl is_range ↦ (
          record t { meta = some (range_meta (extended_range r o)) },
          rw (is_range, found, found') refl,
          inr (r, o, is_range, found, found', refl),
        )
        | inr no_range ↦ (t, rw no_range refl, inl (no_range, refl))
      ]

  extended_types-total :
      (other : ColumnType Number) (ts : List (ColumnType Number))
      → All (GoesOn other) ts
      → (ts' : List (ColumnType Number)) × (extended_types A other ts ≡ ok ts')
        × AreExtended other ts ts'
  unfolding extended_types
  extended_types-total other [] go_on = ([], refl, tt)
  extended_types-total other (t ∷ ts) go_on =
      let (t', first, here) = extended_type-total other t go_on.0 in
      let (ts', rest, there) = extended_types-total other ts go_on.1 in
      (t' ∷ ts', rw (first, rest) refl, (here, there))

  pub concat_types-total :
      (types others : Types Number)
      → same_index_types types.index others.index ≡ true
      → GoOn types.index others.index
      → (joined : Types Number) × (concat_types A types others ≡ ok joined)
        × HaveGrown types.index others.index joined.index
        × (joined.columns ≡ concat_data_types types.columns others.columns)
  unfolding concat_types concat_index_types same_index_types
  concat_types-total types others same go_on =
      let (index, found, grown) = of_index types.index others.index same go_on in
      (
        record { index = index; columns = concat_data_types types.columns others.columns },
        rw found refl,
        grown,
        refl,
      )
    where
      of_index :
          (ts os : List (ColumnType Number))
          → same_index_types ts os ≡ true
          → GoOn ts os
          → (joined : List (ColumnType Number)) × (concat_index_types A ts os ≡ ok joined)
            × HaveGrown ts os joined
      of_index ts [] same go_on = (ts, refl, refl)
      of_index [] (o ∷ os) same go_on = cc same
      of_index (t ∷ ts) (o ∷ os) same go_on =
          let (ts', found, grown) = extended_types-total o (t ∷ ts) go_on in
          (ts', rw (same, found) refl, grown)

  continued_index-total :
      (t other : ColumnType Number) (more : List (List Value))
      → GoesOn other t
      → (index : List (List Value)) × (continued_index A t more ≡ ok index) × Continues t more index
  unfolding continued_index range_of range_of_meta
  continued_index-total t other more (inl no_range) = (more, rw no_range refl, inl (no_range, refl))
  continued_index-total t other more (inr ((r, found), _)) =
      elim (Bool-cases (str_eq t.pandas_type range_type)) [
        | inl is_range ↦ (
          map (λ n. of_number n ∷ [])
              (range r.stop (add r.stop (mul (of_ℕ (length more)) r.step)) r.step),
          rw (is_range, found) refl,
          inr (r, is_range, found, refl),
        )
        | inr no_range ↦ (more, rw no_range refl, inl (no_range, refl))
      ]

  pub join_indexes-total :
      (index more : List (List Value)) (types others : List (ColumnType Number))
      → 0 < length types
      → same_index_types types others ≡ true
      → GoOn types others
      → (went_on : List (List Value)) × (join_indexes A index types more others
          ≡ ok (index ++ went_on))
        × GoesOnAs types more went_on
  unfolding join_indexes same_index_types
  join_indexes-total index more [] others some_types same go_on = absurd (omega arith)
  join_indexes-total index more (t ∷ ts) [] some_types same go_on = cc same
  join_indexes-total index more (t ∷ ts) (o ∷ os) some_types same go_on =
      let (went_on, found, continues) = continued_index-total t o more go_on.0 in
      (went_on, rw (same, found) refl, continues)
