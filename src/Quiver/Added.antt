-- ===== src/Quiver/Added.antt =====
-- `addRows` of frames whose grids fit together.
use streamlit.Prelude.{
  All, All-append, Bool-cases, List, [], ap, arith, false, inl, inr, length, length-append, map,
  refl, subst, sym, ℕ, ◌++◌, ◌+◌, ◌<◌, ◌∙◌, ◌∷◌, ◌≡◌, ◌≤◌,
}
use streamlit.Prelude.Result.{bind_ok, ok, ok_inj}
use streamlit.Quiver.{Arrow, ColumnType, Frame, Types, is_empty}
use streamlit.Quiver.Concat.{
  concat_data_types, concat_index_types, concat_indexes, concat_types, same_data_types,
}
use streamlit.Quiver.AddRows.{add_rows_to_frame, concat_data, concat_frames, take}
use streamlit.Quiver.Aligned.{
  IsAligned, IsExact, IsSingleRange, IsWide, dimensions-aligned, is_nil-some, length-map,
  map-take-IsWide,
}
use streamlit.Quiver.Joined.{concat_indexes-ok, concat_indexes-same, same_data_types-length}
use streamlit.Quiver.Extended.{concat_index_types-ok}

module _ (A : Arrow) where
  open A use {Value, Number, of_ℕ, add, mul, range}

  pub concat_data_types-length :
      (ts us : List (ColumnType Number)) → 0 < length ts → concat_data_types ts us ≡ ts
  unfolding concat_data_types
  concat_data_types-length [] us h = absurd (omega arith)
  concat_data_types-length (t ∷ ts) us h = refl

  concat_data-ok :
      (f : Frame A) (iw h w : ℕ) (other : List (List Value)) (h' w' : ℕ)
      (other_types : List (ColumnType Number)) {joined : List (List Value)}
      → IsAligned A f iw h w
      → 0 < length other
      → length other ≡ h'
      → IsWide w' other
      → length other_types ≡ w'
      → concat_data A f other other_types ≡ ok joined
      → (length joined ≡ h + h') × IsWide w joined
  unfolding concat_data
  concat_data-ok f iw h w other h' w' other_types {joined} fits some_more high wide typed e =
      let filled = is_nil-some f.cells (omega (arith, fits.some_rows, fits.cells_height)) in
      let more = is_nil-some other some_more in
      elim (Bool-cases (same_data_types f.types.columns other_types)) [
        | inl same ↦
            let narrow : w ≤ w' = omega (
              arith,
              same_data_types-length f.types.columns other_types same,
              fits.column_types,
              typed,
            ) in
            let appended : ok (f.cells ++ map (take w) other) ≡ ok joined =
              rw (more, filled, same, dimensions-aligned A f iw h w fits) at e in
            subst (λ (joined : List (List Value)). (length joined ≡ h + h') × IsWide w joined)
              (ok_inj appended)
              (
                omega (
                  arith,
                  length-append f.cells (map (take w) other),
                  length-map A (take w) other,
                  fits.cells_height,
                  high,
                ),
                All-append (λ r. length r ≡ w) f.cells (map (take w) other) fits.cells_wide
                    (map-take-IsWide A w w' other narrow wide),
              )
        | inr differ ↦ cc (rw (more, filled, differ) at e)
      ]

  concat_types-ok :
      (types others : Types Number) {joined : Types Number}
      → 0 < length types.columns
      → length types.index ≡ length others.index
      → IsSingleRange types.index
      → concat_types A types others ≡ ok joined
      → (length joined.index ≡ length types.index)
        × IsSingleRange joined.index
        × (joined.columns ≡ types.columns)
  unfolding concat_types
  concat_types-ok types others {joined} some_columns same_width alone e =
      let (index, found, same) = bind_ok (concat_index_types A types.index others.index) _ e in
      let (long, still_alone) =
        concat_index_types-ok A types.index others.index same_width alone found in
      subst
        (λ (joined : Types Number).
          (length joined.index ≡ length types.index)
          × IsSingleRange joined.index
          × (joined.columns ≡ types.columns))
        (ok_inj same)
        (long, still_alone, concat_data_types-length types.columns others.columns some_columns)

  -- The three parts that fit make a frame that fits.
  parts-IsAligned :
      (f : Frame A) (iw h w h' : ℕ) (index cells : List (List Value)) (types : Types Number)
      → IsAligned A f iw h w
      → (length index ≡ h + h') × IsWide iw index
      → (length cells ≡ h + h') × IsWide w cells
      → (length types.index ≡ length f.types.index)
        × IsSingleRange types.index
        × (types.columns ≡ f.types.columns)
      → IsAligned A (record f { index = index; cells = cells; types = types }) iw (h + h') w
  parts-IsAligned f iw h w h' index cells types fits new_index new_cells new_types = record {
    some_rows = omega (arith, fits.some_rows);
    some_columns = fits.some_columns;
    some_levels = fits.some_levels;
    index_height = new_index.0;
    index_wide = new_index.1;
    cells_height = new_cells.0;
    cells_wide = new_cells.1;
    columns_wide = fits.columns_wide;
    index_types = new_types.0 ∙ fits.index_types;
    column_types = ap length new_types.2 ∙ fits.column_types;
    range_alone = new_types.1;
  }

  concat_frames_parts :
      (f other : Frame A) {joined : Frame A}
      → concat_frames A f other ≡ ok joined
      → (index cells : List (List Value)) × (types : Types Number) × (concat_indexes A f.index
            f.types.index other.index other.types.index
          ≡ ok index)
        × (concat_data A f other.cells other.types.columns ≡ ok cells)
        × (concat_types A f.types other.types ≡ ok types)
        × (record f { index = index; cells = cells; types = types } ≡ joined)
  unfolding concat_frames
  concat_frames_parts f other e =
      let (index, index_found, rest) =
        bind_ok (concat_indexes A f.index f.types.index other.index other.types.index) _ e in
      let (cells, cells_found, rest') =
        bind_ok (concat_data A f other.cells other.types.columns) _ rest in
      let (types, types_found, same) = bind_ok (concat_types A f.types other.types) _ rest' in
      (index, cells, types, index_found, cells_found, types_found, ok_inj same)

  -- What `concat_frames` makes of two frames that fit together.
  module _ (f other : Frame A) (iw h w iw' h' w' : ℕ) (fits : IsAligned A f iw h w)
      (exact : All (IsExact A h') f.types.index) (fits' : IsAligned A other iw' h' w') where
    new_index :
        {index : List (List Value)}
        → concat_indexes A f.index f.types.index other.index other.types.index ≡ ok index
        → (length index ≡ h + h') × IsWide iw index
    new_index {index} found =
        let (high, wide) =
          concat_indexes-ok A f.index other.index f.types.index other.types.index
            (omega (arith, fits.some_rows, fits.index_height)) fits.range_alone
            (subst (λ n. All (IsExact A n) f.types.index) (sym fits'.index_height) exact)
            (subst (λ n. IsWide n f.index) (sym fits.index_types) fits.index_wide)
            (subst (λ n. IsWide n other.index) (sym fits'.index_types) fits'.index_wide) found in
        (
          omega (arith, high, fits.index_height, fits'.index_height),
          subst (λ n. IsWide n index) fits.index_types wide,
        )

    new_cells :
        {cells : List (List Value)}
        → concat_data A f other.cells other.types.columns ≡ ok cells
        → (length cells ≡ h + h') × IsWide w cells
    new_cells =
        concat_data-ok f iw h w other.cells h' w' other.types.columns fits
          (omega (arith, fits'.some_rows, fits'.cells_height)) fits'.cells_height fits'.cells_wide
          fits'.column_types

    new_types :
        {index : List (List Value)} {types : Types Number}
        → concat_indexes A f.index f.types.index other.index other.types.index ≡ ok index
        → concat_types A f.types other.types ≡ ok types
        → (length types.index ≡ length f.types.index)
          × IsSingleRange types.index
          × (types.columns ≡ f.types.columns)
    new_types index_found =
        concat_types-ok f.types other.types (omega (arith, fits.some_columns, fits.column_types))
          (concat_indexes-same A f.index other.index f.types.index other.types.index
            (omega (arith, fits.some_rows, fits.index_height))
            (omega (arith, fits'.some_rows, fits'.index_height)) index_found)
          fits.range_alone

  concat_frames-IsAligned :
      (f other : Frame A) (iw h w iw' h' w' : ℕ) {joined : Frame A}
      → IsAligned A f iw h w
      → All (IsExact A h') f.types.index
      → IsAligned A other iw' h' w'
      → concat_frames A f other ≡ ok joined
      → IsAligned A joined iw (h + h') w × (joined.columns ≡ f.columns)
  concat_frames-IsAligned f other iw h w iw' h' w' {joined} fits exact fits' e =
      let (index, cells, types, index_found, cells_found, types_found, same) =
        concat_frames_parts f other e in
      subst (λ (joined : Frame A). IsAligned A joined iw (h + h') w × (joined.columns ≡ f.columns))
        same
        (
          parts-IsAligned f iw h w h' index cells types fits
              (new_index f other iw h w iw' h' w' fits exact fits' index_found)
              (new_cells f other iw h w iw' h' w' fits exact fits' cells_found)
              (new_types f other iw h w iw' h' w' fits exact fits' index_found types_found),
          refl,
        )

  pub aligned-is_empty : (f : Frame A) (iw h w : ℕ) → IsAligned A f iw h w → is_empty f ≡ false
  unfolding is_empty
  aligned-is_empty f iw h w fits =
      rw
        (
          is_nil-some f.columns fits.some_levels,
          is_nil-some f.index (omega (arith, fits.some_rows, fits.index_height)),
        )
        refl

  -- Where `addRows` takes the rows of a frame whose grids fit into one whose grids fit, the grids
  -- of the result fit: it has the rows of both, the columns, their labels and the levels of the
  -- receiver. If the receiver has a range index, the range has to go on exactly.
  pub add_rows_to_frame-IsAligned :
      (f other : Frame A) (iw h w iw' h' w' : ℕ) {joined : Frame A}
      → IsAligned A f iw h w
      → All (IsExact A h') f.types.index
      → IsAligned A other iw' h' w'
      → add_rows_to_frame A f other ≡ ok joined
      → IsAligned A joined iw (h + h') w × (joined.columns ≡ f.columns)
  unfolding add_rows_to_frame
  add_rows_to_frame-IsAligned f other iw h w iw' h' w' fits exact fits' e =
      concat_frames-IsAligned f other iw h w iw' h' w' fits exact fits'
        (rw (aligned-is_empty f iw h w fits, aligned-is_empty other iw' h' w' fits') at e)
