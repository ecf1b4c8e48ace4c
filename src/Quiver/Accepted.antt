-- ===== src/Quiver/Accepted.antt =====
-- When `addRows` takes the rows of a frame whose grids fit, and what it throws otherwise.
use streamlit.Prelude.{
  All, Bool-cases, List, [], arith, false, inl, inr, length, map, refl, true, ℕ, ◌++◌, ◌+◌, ◌<◌,
  ◌∙◌, ◌∷◌, ◌≡◌, ◌⊎◌,
}
use streamlit.Prelude.Result.{err, ok}
use streamlit.Quiver.{Arrow, ColumnType, Frame, is_nil}
use streamlit.Quiver.Concat.{
  concat_indexes, index_types_error, join_indexes, same_data_types, same_index_types,
}
use streamlit.Quiver.AddRows.{add_rows_to_frame, concat_data, concat_frames, data_types_error, take}
use streamlit.Quiver.Aligned.{IsAligned, IsExact, dimensions-aligned, is_nil-some}
use streamlit.Quiver.Added.{add_rows_to_frame-IsAligned, aligned-is_empty, concat_data_types-length}
use streamlit.Quiver.Continued.{GoOn, GoesOnAs, HaveGrown, concat_types-total, join_indexes-total}

module _ (A : Arrow) where
  open A use {Value}

  -- Both have rows: the indexes are joined.
  concat_indexes-both :
      (index more : List (List Value)) (types others : List (ColumnType A.Number))
      → 0 < length index
      → 0 < length more
      → concat_indexes A index types more others ≡ join_indexes A index types more others
  unfolding concat_indexes
  concat_indexes-both [] more types others some_index some_more = absurd (omega arith)
  concat_indexes-both (i ∷ is) [] types others some_index some_more = absurd (omega arith)
  concat_indexes-both (i ∷ is) (m ∷ more) types others some_index some_more = refl

  add_rows_to_frame-concat :
      (f other : Frame A) (iw h w iw' h' w' : ℕ)
      → IsAligned A f iw h w
      → IsAligned A other iw' h' w'
      → add_rows_to_frame A f other ≡ concat_frames A f other
  unfolding add_rows_to_frame
  add_rows_to_frame-concat f other iw h w iw' h' w' fits fits' =
      rw (aligned-is_empty A f iw h w fits, aligned-is_empty A other iw' h' w' fits') refl

  -- The rows of a frame and behind them those of another: the cells are the receiver's and the
  -- first `w` of each row of the other, the index goes on, the columns are those of the receiver.
  pub record IsJoined (f other : Frame A) (iw h w : ℕ) (joined : Frame A) : Type 0 where
    pub grids_fit : IsAligned A joined iw h w
    pub same_labels : joined.columns ≡ f.columns
    pub both_cells : joined.cells ≡ f.cells ++ map (take w) other.cells
    pub went_on : List (List Value)
    pub both_indexes : joined.index ≡ f.index ++ went_on
    pub continues : GoesOnAs A f.types.index other.index went_on
    pub same_column_types : joined.types.columns ≡ f.types.columns
    pub grown_index_types : HaveGrown A f.types.index other.types.index joined.types.index

  -- What `addRows` makes of two frames: an error where their types differ, and an aligned frame
  -- where they do not.
  abbrev pub IsAdded : Frame A → Frame A → ℕ → ℕ → ℕ → Type 0
  IsAdded f other iw h w =
      ((same_index_types f.types.index other.types.index ≡ false)
        × (add_rows_to_frame A f other ≡ err (index_types_error A f.types.index other.types.index)))
      ⊎ ((same_index_types f.types.index other.types.index ≡ true)
          × (same_data_types f.types.columns other.types.columns ≡ false)
          × (add_rows_to_frame A f other
              ≡ err (data_types_error A f.types.columns other.types.columns)))
      ⊎ ((joined : Frame A) × (same_index_types f.types.index other.types.index ≡ true)
          × (same_data_types f.types.columns other.types.columns ≡ true)
          × (add_rows_to_frame A f other ≡ ok joined)
          × IsJoined f other iw h w joined)

  module _ (f other : Frame A) (iw h w iw' h' w' : ℕ) (fits : IsAligned A f iw h w)
      (some_levels : 0 < iw) (exact : All (IsExact A h') f.types.index)
      (fits' : IsAligned A other iw' h' w') (go_on : GoOn A f.types.index other.types.index) where
    some_rows : 0 < length f.index
    some_rows = omega (arith, fits.some_rows, fits.index_height)

    some_more : 0 < length other.index
    some_more = omega (arith, fits'.some_rows, fits'.index_height)

    indexes_joined :
        concat_indexes A f.index f.types.index other.index other.types.index
        ≡ join_indexes A f.index f.types.index other.index other.types.index
    indexes_joined =
        concat_indexes-both f.index other.index f.types.index other.types.index some_rows some_more

    index_refused :
        same_index_types f.types.index other.types.index ≡ false
        → concat_frames A f other ≡ err (index_types_error A f.types.index other.types.index)
    unfolding concat_frames join_indexes
    index_refused differ = rw (indexes_joined, differ) refl

    index_joined :
        same_index_types f.types.index other.types.index ≡ true
        → (went_on : List (List Value)) × (concat_indexes A f.index f.types.index other.index
              other.types.index
            ≡ ok (f.index ++ went_on))
          × GoesOnAs A f.types.index other.index went_on
    index_joined same =
        let (went_on, found, continues) =
          join_indexes-total A f.index other.index f.types.index other.types.index
            (omega (arith, fits.index_types, some_levels)) same go_on in
        (went_on, indexes_joined ∙ found, continues)

    no_cells : is_nil other.cells ≡ false
    no_cells = is_nil-some other.cells (omega (arith, fits'.some_rows, fits'.cells_height))

    filled : is_nil f.cells ≡ false
    filled = is_nil-some f.cells (omega (arith, fits.some_rows, fits.cells_height))

    cells_refused :
        same_index_types f.types.index other.types.index ≡ true
        → same_data_types f.types.columns other.types.columns ≡ false
        → concat_frames A f other ≡ err (data_types_error A f.types.columns other.types.columns)
    unfolding concat_frames concat_data
    cells_refused same differ =
        let (went_on, found, continues) = index_joined same in
        rw (found, no_cells, filled, differ) refl

    cells_joined :
        same_data_types f.types.columns other.types.columns ≡ true
        → concat_data A f other.cells other.types.columns ≡ ok (f.cells ++ map (take w) other.cells)
    unfolding concat_data
    cells_joined same = rw (no_cells, filled, same, dimensions-aligned A f iw h w fits) refl

    joined :
        same_index_types f.types.index other.types.index ≡ true
        → same_data_types f.types.columns other.types.columns ≡ true
        → (joined : Frame A) × (add_rows_to_frame A f other ≡ ok joined)
          × IsJoined f other iw (h + h') w joined
    unfolding concat_frames
    joined same same' =
        let (went_on, found, continues) = index_joined same in
        let (types, typed, grown, columns) = concat_types-total A f.types other.types same go_on in
        let joined : Frame A = record f {
          index = f.index ++ went_on;
          cells = f.cells ++ map (take w) other.cells;
          types = types;
        } in
        let done : add_rows_to_frame A f other ≡ ok joined =
          add_rows_to_frame-concat f other iw h w iw' h' w' fits fits'
          ∙ rw (found, cells_joined same', typed) refl in
        let (fit, labels) =
          add_rows_to_frame-IsAligned A f other iw h w iw' h' w' fits exact fits' done in
        (
          joined,
          done,
          record {
            grids_fit = fit;
            same_labels = labels;
            both_cells = refl;
            went_on = went_on;
            both_indexes = refl;
            continues = continues;
            same_column_types =
                columns
                ∙ concat_data_types-length A f.types.columns other.types.columns
                    (omega (arith, fits.some_columns, fits.column_types));
            grown_index_types = grown;
          },
        )

    -- `addRows` to an aligned frame with levels of an index, of an aligned frame with ranges where the
    -- receiver has them, and which the range counts exactly: where the types of the indexes differ,
    -- or else those of the columns of the receiver, the error says so; otherwise the result is
    -- aligned, with the rows of the receiver, behind them those of the other without its extra
    -- columns, an index that goes on, and the columns of the receiver.
    pub add_rows_to_frame-IsAdded : IsAdded f other iw (h + h') w
    add_rows_to_frame-IsAdded =
        let start = add_rows_to_frame-concat f other iw h w iw' h' w' fits fits' in
        elim (Bool-cases (same_index_types f.types.index other.types.index)) [
          | inr differ ↦ inl (differ, start ∙ index_refused differ)
          | inl same ↦ elim (Bool-cases (same_data_types f.types.columns other.types.columns)) [
            | inr differ ↦ inr (inl (same, differ, start ∙ cells_refused same differ))
            | inl same' ↦
                let (joined, done, rows_of_both) = joined same same' in
                inr (inr (joined, same, same', done, rows_of_both))
          ]
        ]
