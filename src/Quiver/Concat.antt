-- ===== src/Quiver/Concat.antt =====
-- `addRows` of `Quiver` (frontend/src/lib/Quiver.ts). It throws before it changes anything, so that
-- an error stands for the unchanged quiver.
use streamlit.Prelude.{
  Bool, List, Option, [], false, if◌then◌else◌, length, map, not, some, str_eq, true, ◌&&◌, ◌++◌,
  ◌∷◌,
}
use streamlit.Prelude.Result.{Result, err, ok, ◌>>=◌}
use streamlit.Quiver.{
  Arrow, ColumnType, Meta, QuiverError, RangeIndex, Types, get_type_name, index_types_differ,
  index_types_missing, not_an_object, range_meta, range_type,
}

module _ {N : Type 0} where
  -- The same type names in the same order, and as many.
  unfoldable pub same_index_types : List (ColumnType N) → List (ColumnType N) → Bool
  same_index_types [] [] = true
  same_index_types (t ∷ ts) (u ∷ us) =
      str_eq (get_type_name t) (get_type_name u) && same_index_types ts us
  same_index_types ts us = false

  -- `type.pandas_type === t2[index]?.pandas_type` for each type of the first list.
  unfoldable pub same_data_types : List (ColumnType N) → List (ColumnType N) → Bool
  same_data_types [] us = true
  same_data_types (t ∷ ts) [] = false
  same_data_types (t ∷ ts) (u ∷ us) = str_eq t.pandas_type u.pandas_type && same_data_types ts us

  unfoldable pub concat_data_types : List (ColumnType N) → List (ColumnType N) → List (ColumnType N)
  concat_data_types [] others = others
  concat_data_types (t ∷ ts) others = t ∷ ts

  -- `meta as RangeIndex`, whose fields are read: `null` and `undefined` have none. Other metadata has
  -- other fields, which the code does not check; it is an error here.
  unfoldable pub range_of_meta : Option (Meta N) → Result QuiverError (RangeIndex N)
  range_of_meta (some (range_meta r)) = ok r
  range_of_meta o = err not_an_object

  unfoldable pub range_of : ColumnType N → Result QuiverError (RangeIndex N)
  range_of t = range_of_meta t.meta

module _ (A : Arrow) where
  open A use {Value, Number, of_number, of_ℕ, add, sub, mul, div, range}

  -- The index of the rows that are added: a range goes on where it stopped.
  unfoldable pub continued_index :
      ColumnType Number → List (List Value) → Result QuiverError (List (List Value))
  continued_index t other_index =
      if str_eq t.pandas_type range_type
      then (do
        r ← range_of t
        ok (
            map (λ n. of_number n ∷ [])
              (range r.stop (add r.stop (mul (of_ℕ (length other_index)) r.step)) r.step)))
      else ok other_index

  unfoldable pub index_types_error :
      List (ColumnType Number) → List (ColumnType Number) → QuiverError
  index_types_error types other_types =
      index_types_differ (map get_type_name other_types) (map get_type_name types)

  -- Both indexes have rows.
  unfoldable pub join_indexes :
      List (List Value)
      → List (ColumnType Number)
      → List (List Value)
      → List (ColumnType Number)
      → Result QuiverError (List (List Value))
  join_indexes index types other_index other_types =
      if not (same_index_types types other_types)
      then err (index_types_error types other_types)
      else elim types [
        | [] ↦ err index_types_missing
        | t ∷ ts ↦ continued_index t other_index >>= λ more. ok (index ++ more)
      ]

  unfoldable pub concat_indexes :
      List (List Value)
      → List (ColumnType Number)
      → List (List Value)
      → List (ColumnType Number)
      → Result QuiverError (List (List Value))
  concat_indexes index types [] other_types = ok index
  concat_indexes [] types (row ∷ rows) other_types = ok (row ∷ rows)
  concat_indexes (i ∷ is) types (row ∷ rows) other_types =
      join_indexes (i ∷ is) types (row ∷ rows) other_types

  -- The new stop of a range.
  unfoldable pub extended_type :
      ColumnType Number → ColumnType Number → Result QuiverError (ColumnType Number)
  extended_type t other =
      if str_eq t.pandas_type range_type
      then (do
        r ← range_of t
        o ← range_of other
        ok (record t {
          meta = some (
              range_meta
                (record r { stop = add r.stop (mul (div (sub o.stop o.start) o.step) r.step) }));
        }))
      else ok t

  unfoldable pub extended_types :
      ColumnType Number → List (ColumnType Number) → Result QuiverError (List (ColumnType Number))
  extended_types other [] = ok []
  extended_types other (t ∷ ts) = do
    t' ← extended_type t other
    ts' ← extended_types other ts
    ok (t' ∷ ts')

  unfoldable pub concat_index_types :
      List (ColumnType Number)
      → List (ColumnType Number)
      → Result QuiverError (List (ColumnType Number))
  concat_index_types types [] = ok types
  concat_index_types [] (o ∷ os) = ok (o ∷ os)
  concat_index_types (t ∷ ts) (o ∷ os) =
      if not (same_index_types (t ∷ ts) (o ∷ os))
      then err (index_types_error (t ∷ ts) (o ∷ os))
      else extended_types o (t ∷ ts)

  unfoldable pub concat_types : Types Number → Types Number → Result QuiverError (Types Number)
  concat_types types others = do
    index ← concat_index_types types.index others.index
    ok (record { index = index; columns = concat_data_types types.columns others.columns })
