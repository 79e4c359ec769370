-- ===== src/Rules/Filter.antt =====
-- What a list of rules makes of a category's filter.
use mcs_qs.Prelude.{ℕ, ◌≡◌, ◌≢◌, refl, arith, Bool, List, [], ◌∷◌, if◌then◌else◌, ◌∙◌}
use mcs_qs.Prelude.Int.{ℤ, pos, eqb_ℤ}
use mcs_qs.Log.{MsgType, debug_msg, fatal_msg, CategoryFilter}
use mcs_qs.Rules.{LoggingRule, pass, should_display, decide, apply_rule, apply_rules}

-- What the last rule that says anything says; `p` if none does.
abbrev pub last_verdict : List LoggingRule → List ℕ → MsgType → ℤ → ℤ
last_verdict [] category type p = p
last_verdict (r ∷ rs) category type p =
    last_verdict rs category type
      (if eqb_ℤ (pass r category type) (pos 0) then p else pass r category type)

decide_twice :
    (p q : ℤ) (old : Bool) → decide p (decide q old) ≡ decide (if eqb_ℤ p (pos 0) then q else p) old
decide_twice p q old = ground arith

should_display-apply_rule :
    (type : MsgType) (category : List ℕ) (r : LoggingRule) (f : CategoryFilter)
    → type ≢ fatal_msg
    → should_display (apply_rule category r f) type
      ≡ decide (pass r category type) (should_display f type)
unfolding should_display apply_rule
should_display-apply_rule debug_msg category r f h = refl
should_display-apply_rule fatal_msg category r f h = absurd (h refl)
should_display-apply_rule _ category r f h = refl

from_verdict :
    (rules : List LoggingRule) (category : List ℕ) (type : MsgType) (f g : CategoryFilter) (p : ℤ)
    → type ≢ fatal_msg
    → should_display g type ≡ decide p (should_display f type)
    → should_display (apply_rules category rules g) type
      ≡ decide (last_verdict rules category type p) (should_display f type)
unfolding apply_rules
from_verdict [] category type f g p h e = e
from_verdict (r ∷ rs) category type f g p h e =
    from_verdict rs category type f (apply_rule category r g) _ h (
      should_display-apply_rule type category r g h
      ∙ rw e (decide_twice (pass r category type) p (should_display f type)))

-- Whether messages of a type that is not fatal are shown is what the last rule about that type and
-- category says, and what the filter said before if no rule does.
pub apply_rules_lem :
    (rules : List LoggingRule) (category : List ℕ) (type : MsgType) (f : CategoryFilter)
    → type ≢ fatal_msg
    → should_display (apply_rules category rules f) type
      ≡ decide (last_verdict rules category type (pos 0)) (should_display f type)
apply_rules_lem rules category type f h = from_verdict rules category type f f (pos 0) h refl
