-- ===== src/Entry/Texts.antt =====
-- The functions on texts that stand on tables outside the repository.
use xira.Shared.{String, Bool, Option}

-- `strings.ToLower`, `strings.EqualFold`, and `path.Match`, whose `none` is `ErrBadPattern`.
pub record Texts : Type 0 where
  pub to_lower : String → String
  pub equal_fold : String → String → Bool
  pub path_match : String → String → Option Bool
