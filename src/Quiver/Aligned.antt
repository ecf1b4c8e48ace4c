-- ===== src/Quiver/Aligned.antt =====
-- Frames whose grids fit together, and what `addRows` makes of them.
use streamlit.Prelude.{
  All, List, Option, [], ap, arith, false, length, map, refl, some, str_eq, suc, zero, ℕ, ◌<◌, ◌∷◌,
  ◌≡◌, ◌≤◌, ◌⊎◌,
}
use streamlit.Prelude.Result.{ok}
use streamlit.Quiver.{Arrow, ColumnType, Frame, Meta, is_nil, range_meta, range_type}
use streamlit.Quiver.Cells.{dimensions, grid_size}
use streamlit.Quiver.AddRows.{take}

-- Every row of a grid is as wide.
abbrev pub IsWide : {T : Type 0} → ℕ → List (List T) → Type 0
IsWide n = All (λ r. length r ≡ n)

-- A range index is the only one.
abbrev pub IsSingleRange : {N : Type 0} → List (ColumnType N) → Type 0
IsSingleRange [] = Unit
IsSingleRange (t ∷ ts) = (str_eq t.pandas_type range_type ≡ false) ⊎ (ts ≡ [])

-- A frame with rows and columns whose grids have the sizes that they should have.
pub record IsAligned (A : Arrow) (f : Frame A) (index_width height width : ℕ) : Type 0 where
  pub some_rows : 0 < height
  pub some_columns : 0 < width
  pub some_levels : 0 < length f.columns
  pub index_height : length f.index ≡ height
  pub index_wide : IsWide index_width f.index
  pub cells_height : length f.cells ≡ height
  pub cells_wide : IsWide width f.cells
  pub columns_wide : IsWide width f.columns
  pub index_types : length f.types.index ≡ index_width
  pub column_types : length f.types.columns ≡ width
  pub range_alone : IsSingleRange f.types.index

-- The range of a type goes on exactly: as many steps behind its stop are as many numbers. This is
-- what `range` of lodash answers for a step other than 0 and numbers without rounding.
abbrev pub IsExactMeta : (A : Arrow) → ℕ → Option (Meta A.Number) → Type 0
IsExactMeta A n (some (range_meta r)) =
    length (A.range r.stop (A.add r.stop (A.mul (A.of_ℕ n) r.step)) r.step) ≡ n
IsExactMeta A n o = Unit

abbrev pub IsExact : (A : Arrow) → ℕ → ColumnType A.Number → Type 0
IsExact A n t = IsExactMeta A n t.meta

pub is_nil-some : {T : Type 0} (xs : List T) → 0 < length xs → is_nil xs ≡ false
is_nil-some [] h = absurd (omega arith)
is_nil-some (x ∷ xs) h = refl

module _ (A : Arrow) where
  pub grid_size-wide :
      {T : Type 0} (empty : ℕ × ℕ) (width height : ℕ) (grid : List (List T))
      → IsWide width grid
      → length grid ≡ height
      → 0 < height
      → grid_size empty grid ≡ (width, height)
  grid_size-wide empty width height [] wide high some_rows = absurd (omega arith)
  grid_size-wide empty width height (r ∷ rs) wide high some_rows = ground (arith, wide.0, high)

  -- The dimensions of an aligned frame.
  pub dimensions-aligned :
      (f : Frame A) (index_width height width : ℕ)
      → IsAligned A f index_width height width
      → dimensions A f
        ≡ ok (record {
          header_rows = length f.columns;
          header_columns = index_width;
          data_rows = height;
          data_columns = width;
        })
  unfolding dimensions
  dimensions-aligned f index_width height width h =
      rw
        (
          grid_size-wide (1, 0) index_width height f.index h.index_wide h.index_height h.some_rows,
          grid_size-wide (0, 1) width (length f.columns) f.columns h.columns_wide refl
              h.some_levels,
          grid_size-wide (width, 0) width height f.cells h.cells_wide h.cells_height h.some_rows,
        )
        (ground arith)

  length-take : {T : Type 0} (n : ℕ) (xs : List T) → n ≤ length xs → length (take n xs) ≡ n
  length-take zero xs h = refl
  length-take (suc n) [] h = absurd (omega arith)
  length-take (suc n) (x ∷ xs) h = ap suc (length-take n xs (omega arith))

  pub map-take-IsWide :
      {T : Type 0} (n m : ℕ) (grid : List (List T))
      → n ≤ m
      → IsWide m grid
      → IsWide n (map (take n) grid)
  map-take-IsWide n m [] le wide = tt
  map-take-IsWide n m (r ∷ rs) le wide =
      (length-take n r (omega (arith, le, wide.0)), map-take-IsWide n m rs le wide.1)

  pub length-map : {S T : Type 0} (f : S → T) (xs : List S) → length (map f xs) ≡ length xs
  length-map f [] = refl
  length-map f (x ∷ xs) = ap suc (length-map f xs)
