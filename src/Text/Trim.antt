-- ===== src/Text/Trim.antt =====
-- `str::trim` on texts.
use flagforge.Prelude.{[], ◌∷◌, if◌then◌else◌, is_nil, ◌&&◌}
use flagforge.Text.{Text, is_whitespace}

unfoldable pub trim_start : Text → Text
unfolding is_whitespace
trim_start [] = []
trim_start (c ∷ s) = if is_whitespace c then trim_start s else c ∷ s

unfoldable pub trim_end : Text → Text
unfolding is_whitespace
trim_end [] = []
trim_end (c ∷ s) = let rest = trim_end s in if is_whitespace c && is_nil rest then [] else c ∷ rest

unfoldable pub trim : Text → Text
unfolding trim_start trim_end
trim s = trim_end (trim_start s)
