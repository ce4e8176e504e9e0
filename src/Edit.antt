-- ===== src/Edit.antt =====
-- core/edit_operations.go: the data of `performIntelligentEdit`, and how its strategies follow
-- each other. The children hold the line endings, the helpers on lines, the replacement loops and
-- the strategies. A regular expression and a proportion of floats are given from outside.
pub mod Eol
pub mod Lines
pub mod Indent
pub mod Walk
pub mod Cascade
pub mod Exact
pub mod Stuck
pub mod Endings
pub mod Flexible
mod Tests
use mcp_filesystem_go_ultra.Common.{
  ℕ, zero, suc, ◌+◌, ◌-◌, ◌*◌, ◌≤◌, ◌<◌, ◌≡◌, ◌≢◌, ◌↔◌, ◌⊎◌, inl, inr, refl, sym, ap, subst, ◌∙◌,
  Bool, true, false, not, ◌&&◌, ◌||◌, List, [], ◌∷◌, ◌++◌, map, Option, none, some, append-nil,
  append_assoc, Bytes, codes, bytes_eq, bytes_eq_refl, eq_of_bytes_eq, bytes_eq_of_eq, is_empty,
  length, get_elem?, get_or, set, length-append, lookup, insert, has_key, lookup-insert, All, ltb,
  leb, ◌==◌, if◌then◌else◌, Bool-cases, Option-cases, arith, Result, ok, err, ◌>>=◌, ◌>>◌,
  refuse_if, >>=-eq-ok,
}

-- `MatchConfidence`
pub data Confidence : Type 0 where
  high : Confidence
  medium : Confidence
  low : Confidence

-- The fields that `performIntelligentEdit` sets.
pub record EditResult : Type 0 where
  pub modified_content : Bytes
  pub replacement_count : ℕ
  pub match_confidence : Confidence
  pub lines_affected : ℕ
  pub start_line : ℕ
  pub end_line : ℕ

-- `out_of_fuel` stands for a loop that has not ended.
pub data EditError : Type 0 where
  old_text_empty : EditError
  no_matches : EditError
  scanner_error : EditError
  out_of_fuel : EditError

-- What a strategy does: it returns a result, it lets the next one try, or it ends with an error.
pub data Attempt : Type 0 where
  done : EditResult → Attempt
  pass : Attempt
  fail : EditError → Attempt

-- Code behind the strategy runs only when it has not returned.
abbrev pub or_else : Attempt → Attempt → Attempt
or_else (done r) next = done r
or_else pass next = next
or_else (fail e) next = fail e

-- The end of the function: `no matches found for text`.
abbrev pub conclude : Attempt → Result EditError EditResult
conclude (done r) = ok r
conclude pass = err no_matches
conclude (fail e) = err e

-- A compiled regular expression: `FindAllString(content, -1)` and `ReplaceAllString`.
pub record Regexp : Type 0 where
  pub find_all_string : Bytes → List Bytes
  pub replace_all_string : Bytes → Bytes → Bytes

-- What the function calls: `regexp.Compile`, and `int(float64(a) / float64(b) * float64(c))`.
pub record Library : Type 0 where
  pub compile : Bytes → Option Regexp
  pub proportion : ℕ → ℕ → ℕ → ℕ
