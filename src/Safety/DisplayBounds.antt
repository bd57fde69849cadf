-- ===== src/Safety/DisplayBounds.antt =====
-- src/safety/display-bounds.ts: the rows of a command's output that are rendered.
mod Examples
pub mod Rows
use observ_me.Prelude.{ℕ, ◌-◌, Bool, true, false, List, leb, if◌then◌else◌, length, take}

abbrev pub command_render_row_limit : ℕ
command_render_row_limit = 20

pub record BoundedRows {ℓ} (T : Type ℓ) : Type ℓ where
  pub rows : List T
  pub omitted_count : ℕ

unfoldable pub select_command_rows {ℓ} : {T : Type ℓ} → List T → BoundedRows T
select_command_rows rows =
    if leb (length rows) command_render_row_limit
    then record { rows = rows; omitted_count = 0 }
    else record {
      rows = take command_render_row_limit rows;
      omitted_count = length rows - command_render_row_limit;
    }
