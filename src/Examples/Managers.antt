-- ===== src/Examples/Managers.antt =====
-- A category of the shell under a rule that says nothing about it.
use mcs_qs.Prelude.{◌≡◌, refl, arith, false, ◌||◌, none, [], ◌∷◌, leb}
use mcs_qs.Prelude.Int.{pos}
use mcs_qs.Log.{info_msg, warning_msg, default_filter}
use mcs_qs.Rules.{should_display, decide, starts_with}
use mcs_qs.Rules.Filter.{last_verdict}
use mcs_qs.Rules.Manager.{
  Category, LogManager, get_filter, filter_category, severity, level_of, get_filter-filter_category,
}
use mcs_qs.Rules.{LoggingRule, full_text}

abbrev shell : Category
shell = record {
  name = 113 ∷ 117 ∷ 105 ∷ 99 ∷ 107 ∷ 115 ∷ 104 ∷ 101 ∷ 108 ∷ 108 ∷ 46 ∷ 97 ∷ [];
  address = 9;
  enabled = default_filter;
}

abbrev rule : LoggingRule
rule = record { category = 98 ∷ []; message_type = none; flags = full_text; enabled = false }

abbrev manager : LogManager
manager = record {
  sparse = false;
  default_level = warning_msg;
  default_levels = (shell.name, info_msg) ∷ [];
  rules = rule ∷ [];
  last_category_filter = none;
  sparse_filters = [];
  all_filters = [];
}

filter_category_example :
    should_display (get_filter shell.name (filter_category shell manager).1) info_msg
    ≡ decide (last_verdict manager.rules shell.name info_msg (pos 0)) (
        leb (severity manager.default_level) (severity info_msg)
        || leb (severity (level_of shell.name manager.default_levels)) (severity info_msg))
unfolding starts_with
filter_category_example =
    get_filter-filter_category shell manager info_msg refl λ e. ground (arith, e)
