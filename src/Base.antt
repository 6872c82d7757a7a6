-- ===== src/Base.antt =====
-- The names that the other modules share: the libraries', passed on, and those of the children.
pub mod Tests
pub mod Lists
pub mod Strings
pub mod Maps
pub mod Errors
pub mod Maybe
pub mod Int
pub mod Decimal
pub use Tests.*
pub use Lists.*
pub use Errors.*
pub use Int.*
unfoldable pub use Strings.{
  same, is_space, drop_space, trim_space, is_prefix, drop_prefix, trim_suffix, fold_case,
  equal_fold, compare_text, split_on,
}
pub use Strings.{
  Text, codes, same→eq, same_refl, same_iff, is_empty, IsSolid, trim_space_solid, compare_text-eq,
  compare_text_flip, compare_text_trans,
}
unfoldable pub use Decimal.{
  show_nat, decimal_value, all_digits, parse_uint, parse_digits, parse_int,
}
pub use Decimal.{
  is_digit, max_uint64, NumError, bad_syntax, out_of_range, decimal_value-show_nat,
  all_digits-show_nat, show_nat-ne-nil, parse_uint-show_nat, max_int64, parse_int-show_nat,
  length-show_nat,
}
unfoldable pub use Maps.{lookup, insert, delete}
pub use Maps.{Dict, lookup-insert, lookup-delete, dict_laws}
pub use Prim.Native.Nat.{ℕ, zero, suc, ◌+◌, ◌-◌, ◌*◌, ◌/◌, ◌%◌, ◌^◌, ◌≤◌, ◌<◌}
pub use mathlib.Core.Path.{◌≡◌, refl, sym, ap, subst, ◌∙◌}
pub use mathlib.Core.Logic.{◌≢◌, ◌↔◌, ◌⊎◌, inl, inr}
pub use mathlib.Core.Bool.{Bool, true, false, not, ◌&&◌, ◌||◌}
pub use mathlib.Core.Option.{Option, none, some}
pub use mathlib.Core.List.{
  List, [], ◌∷◌, ◌++◌, map, reverse, append-nil, append_assoc, reverse-cons, reverse-append,
  reverse-reverse,
}
pub use native.Mathlib.Omega.{arith}
