-- ===== src/Examples/RuleCases.antt =====
-- Rules about the category "ab".
use mcs_qs.Prelude.{
  ℕ, ◌<◌, ◌++◌, drop, false, ◌≡◌, ◌≢◌, ◌↔◌, refl, true, none, List, [], ◌∷◌, length, arith,
}
use mcs_qs.Prelude.Int.{pos}
use mcs_qs.Log.{info_msg, default_filter, same_bytes}
use mcs_qs.Rules.{
  LoggingRule, left_filter, asterisk, parse, starts_with, contains, split_type, ends_with, pass,
  apply_rules, should_display, decide,
}
use mcs_qs.Rules.Pass.{pass-parse_right}
use mcs_qs.Rules.Filter.{last_verdict, apply_rules_lem}

abbrev rule : ℕ → LoggingRule
rule flags = record { category = 97 ∷ 98 ∷ []; message_type = none; flags = flags; enabled = true }

abbrev category : List ℕ
category = 97 ∷ 98 ∷ 99 ∷ []

-- "*bc"
right_example : (pass (parse (asterisk ∷ 98 ∷ 99 ∷ []) true) category info_msg ≢ pos 0) ↔ (
    (before : List ℕ) × ((category ≡ before ++ 98 ∷ 99 ∷ [])
      × ((i : ℕ) → i < length before → starts_with (98 ∷ 99 ∷ []) (drop i category) ≡ false)))
unfolding contains split_type ends_with same_bytes
right_example = pass-parse_right 98 (99 ∷ []) true category info_msg refl refl

rules_example :
    should_display (apply_rules category (rule left_filter ∷ []) default_filter) info_msg
    ≡ decide
        (last_verdict (rule left_filter ∷ []) category info_msg (pos 0))
        (should_display default_filter info_msg)
rules_example =
    apply_rules_lem (rule left_filter ∷ []) category info_msg default_filter λ e. ground (arith, e)
