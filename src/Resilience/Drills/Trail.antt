-- ===== src/Resilience/Drills/Trail.antt =====
-- The history that a drill's events tell: a walk along the allowed transitions from PLANNED.
use aegis_shield_phase.Prelude.{
  ◌≡◌, true, Option, none, some, List, [], ◌∷◌, ◌++◌, arith, ◌==◌, if◌then◌else◌,
}
use aegis_shield_phase.Resilience.Schema.{
  Ident, DrillState, planned, running, backup_created, restore_verified, reconciliation_passed,
  passed, failed, cleaned_up, DrillEvent,
}
use aegis_shield_phase.Resilience.Drills.{allowed}

-- The walk from a state through the given ones, if each step is allowed: where it ends.
abbrev pub walk : DrillState → List DrillState → Option DrillState
walk s [] = some s
walk s (x ∷ xs) = let rest = walk x xs in if allowed s x then rest else none

-- A history begins with PLANNED.
abbrev pub trail : List DrillState → Option DrillState
trail (planned ∷ xs) = walk planned xs
trail _ = none

-- The states of a drill's events, oldest first.
abbrev pub states_of : Ident → List DrillEvent → List DrillState
states_of i [] = []
states_of i (e ∷ es) =
    let rest = states_of i es in if e.drill_row_id == i then e.state ∷ rest else rest

pub states_of-append :
    (i : Ident) (es : List DrillEvent) (e : DrillEvent)
    → states_of i (es ++ e ∷ [])
      ≡ (if e.drill_row_id == i then states_of i es ++ e.state ∷ [] else states_of i es)
states_of-append i [] e = ground arith
states_of-append i (x ∷ es) e = ground (arith, states_of-append i es e)

walk-append :
    (s t x : DrillState) (xs : List DrillState)
    → walk s xs ≡ some t
    → allowed t x ≡ true
    → walk s (xs ++ x ∷ []) ≡ some x
walk-append s t x [] h a = ground arith
walk-append s t x (y ∷ xs) h a = ground (arith, walk-append y t x xs)

pub trail-append :
    (h : List DrillState) (t x : DrillState)
    → trail h ≡ some t
    → allowed t x ≡ true
    → trail (h ++ x ∷ []) ≡ some x
trail-append (planned ∷ xs) t x h a = walk-append planned t x xs h a
trail-append [] t x h a = absurd (ground arith)
trail-append (_ ∷ xs) t x h a = absurd (ground arith)

-- Where a walk to PASSED can begin, and the one way that it goes.
abbrev ToPassed : DrillState → List DrillState → Type 0
ToPassed planned xs =
    xs ≡ running ∷ backup_created ∷ restore_verified ∷ reconciliation_passed ∷ passed ∷ []
ToPassed running xs = xs ≡ backup_created ∷ restore_verified ∷ reconciliation_passed ∷ passed ∷ []
ToPassed backup_created xs = xs ≡ restore_verified ∷ reconciliation_passed ∷ passed ∷ []
ToPassed restore_verified xs = xs ≡ reconciliation_passed ∷ passed ∷ []
ToPassed reconciliation_passed xs = xs ≡ passed ∷ []
ToPassed passed xs = xs ≡ []
ToPassed failed xs = ⊥
ToPassed cleaned_up xs = ⊥

walk-passed : (s : DrillState) (xs : List DrillState) → walk s xs ≡ some passed → ToPassed s xs
unfolding allowed
walk-passed s [] h = ground arith
walk-passed s (x ∷ xs) h = ground (arith, walk-passed x xs)

-- The history of a passed drill has every stage, once and in order.
pub trail-passed :
    (h : List DrillState)
    → trail h ≡ some passed
    → h
      ≡ planned ∷ running ∷ backup_created ∷ restore_verified ∷ reconciliation_passed ∷ passed ∷ []
trail-passed (planned ∷ xs) h = λ i. planned ∷ walk-passed planned xs h i
trail-passed [] h = absurd (ground arith)
trail-passed (_ ∷ xs) h = absurd (ground arith)
