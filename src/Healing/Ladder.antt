-- ===== src/Healing/Ladder.antt =====
-- What the healer's choice of an action gives (immune_system/healing.py).
use ai_agent_immune_system.Common.{
  All, All-contains, All-map, All-of_sort_by, All-sort_by, All-weaken, IsSorted, List, Option, [],
  arith, contains, contains-keep, false, ite, keep_none, none, not, refl, some, sort_by,
  sort_by-IsSorted, subst, sym, true, ◌∷◌, ◌≡◌, ◌≤◌,
}
use ai_agent_immune_system.Diagnosis.{DiagnosisType}
use ai_agent_immune_system.Healing.{HealingAction, HealingAction-discrete, get_healing_policy}
use ai_agent_immune_system.Memory.{ImmuneMemory, get_successful_actions}
use ai_agent_immune_system.Healing.Healer.{
  candidates, choose, first_of, get_next_action, key_before, reorder, sort_key,
}

key_before_asymm :
    (s : List HealingAction) (a b : HealingAction)
    → key_before s a b ≡ true
    → key_before s b a ≡ false
unfolding key_before
key_before_asymm s a b h = ground (arith, h)

key_before_trans :
    (s : List HealingAction) (a b c : HealingAction)
    → key_before s b a ≡ false
    → key_before s c b ≡ false
    → key_before s c a ≡ false
unfolding key_before
key_before_trans s a b c h k = ground (arith, h, k)

-- The action's place among the successful ones is no later than any candidate's.
abbrev pub IsEarliest : List HealingAction → List HealingAction → HealingAction → Type 0
IsEarliest s cs a = All (λ c. sort_key s a ≤ sort_key s c) cs

-- The part of a list in front of an action, or all of it where the action is not there.
abbrev pub before : List HealingAction → HealingAction → List HealingAction
before [] a = []
before (s ∷ ss) a = let rest = before ss a in ite (HealingAction-discrete s a) [] (s ∷ rest)

-- None of the candidates stands in front of the action among the successful ones.
abbrev pub IsLeading : List HealingAction → List HealingAction → HealingAction → Type 0
IsLeading s cs a = All (λ c. contains HealingAction-discrete c (before s a) ≡ false) cs

not_before :
    (s : List HealingAction) (a c : HealingAction)
    → sort_key s a ≤ sort_key s c
    → contains HealingAction-discrete c (before s a) ≡ false
unfolding sort_key
not_before [] a c h = refl
not_before (s ∷ ss) a c h = elim (HealingAction-discrete s a) [
  | yes same ↦ ground (arith, same)
  | no other ↦ elim (HealingAction-discrete c s) [
    | yes it ↦ ground (arith, it, other, h)
    | no away ↦ ground (arith, other, away, h, not_before ss a c)
  ]
]

-- An action that is there is of the ladder and has not failed, and no candidate stands in front of it; there is
-- none where the whole ladder has failed.
abbrev pub IsNext :
    List HealingAction → DiagnosisType → List HealingAction → Option HealingAction → Type 0
IsNext s d failed none =
    All (λ a. contains HealingAction-discrete a failed ≡ true) (get_healing_policy d)
IsNext s d failed (some a) =
    (contains HealingAction-discrete a (get_healing_policy d) ≡ true)
    × (contains HealingAction-discrete a failed ≡ false)
    × IsLeading s (candidates d failed) a

-- Whether the first of a list is an earliest candidate.
abbrev IsFirst : List HealingAction → List HealingAction → Option HealingAction → Type 0
IsFirst s cs none = ⊥
IsFirst s cs (some a) = (contains HealingAction-discrete a cs ≡ true) × IsEarliest s cs a

first_of-IsFirst :
    (s : List HealingAction) (c : HealingAction) (cs xs : List HealingAction)
    → All (λ a. contains HealingAction-discrete a (c ∷ cs) ≡ true) xs
    → ((P : HealingAction → Type 0) → All P xs → All P (c ∷ cs))
    → IsSorted (key_before s) xs
    → IsFirst s (c ∷ cs) (first_of xs)
unfolding first_of key_before
first_of-IsFirst s c cs [] h t o = elim (t (λ _. ⊥) tt).0 [ ]
first_of-IsFirst s c cs (x ∷ xs) h t o = (
  h.0,
  t (λ a. sort_key s x ≤ sort_key s a)
      (
        omega arith,
        All-weaken (λ y. key_before s y x ≡ false) (λ y. sort_key s x ≤ sort_key s y)
            (λ y k. ground (arith, k)) xs o.0,
      ),
)

-- Without a successful action the order is the ladder's, in which every place is 0.
reorder-IsFirst :
    (s : List HealingAction) (c : HealingAction) (cs : List HealingAction)
    → IsFirst s (c ∷ cs) (first_of (reorder s (c ∷ cs)))
unfolding reorder first_of sort_key
reorder-IsFirst [] c cs = (
  (All-contains HealingAction-discrete (c ∷ cs)).0,
  All-weaken (λ a. contains HealingAction-discrete a (c ∷ cs) ≡ true) (λ a. 0 ≤ 0)
      (λ a h. omega arith) (c ∷ cs) (All-contains HealingAction-discrete (c ∷ cs)),
)
reorder-IsFirst (s ∷ ss) c cs =
    let before = key_before (s ∷ ss) in
    first_of-IsFirst (s ∷ ss) c cs (sort_by before (c ∷ cs))
      (All-sort_by before (λ a. contains HealingAction-discrete a (c ∷ cs) ≡ true) (c ∷ cs)
        (All-contains HealingAction-discrete (c ∷ cs)))
      (λ P. All-of_sort_by before P (c ∷ cs))
      (sort_by-IsSorted before (key_before_asymm (s ∷ ss)) (key_before_trans (s ∷ ss)) (c ∷ cs))

IsNext-first :
    (s : List HealingAction) (d : DiagnosisType) (failed : List HealingAction)
    (n : Option HealingAction)
    → IsFirst s (candidates d failed) n
    → IsNext s d failed n
unfolding candidates
IsNext-first s d failed none h = elim h [ ]
IsNext-first s d failed (some a) h =
    let there =
      contains-keep HealingAction-discrete (λ x. not (contains HealingAction-discrete x failed)) a
        (get_healing_policy d) in
    (
      ground (arith, h.0, there),
      ground (arith, h.0, there),
      All-map (λ c. not_before s a c) (candidates d failed) h.1,
    )

IsNext-choose :
    (d : DiagnosisType) (failed cs : List HealingAction) (m : ImmuneMemory)
    → candidates d failed ≡ cs
    → IsNext (get_successful_actions m d).0 d failed (choose d m cs).0
unfolding choose candidates
IsNext-choose d failed [] m e =
    All-weaken (λ a. not (contains HealingAction-discrete a failed) ≡ false)
      (λ a. contains HealingAction-discrete a failed ≡ true) (λ a h. ground (arith, h))
      (get_healing_policy d)
      (keep_none (λ a. not (contains HealingAction-discrete a failed)) (get_healing_policy d) e)
IsNext-choose d failed (c ∷ cs) m e =
    let s = (get_successful_actions m d).0 in
    let n = first_of (reorder s (c ∷ cs)) in
    IsNext-first s d failed n (subst (λ xs. IsFirst s xs n) (sym e) (reorder-IsFirst s c cs))

-- The action that the healer gives next is on the diagnosis's ladder, is not one that has failed, and
-- no other such action stands earlier among the actions reported as successful; it gives none only
-- where every action of the ladder has failed.
pub get_next_action_lem :
    (d : DiagnosisType) (failed : List HealingAction) (m : ImmuneMemory)
    → IsNext (get_successful_actions m d).0 d failed (get_next_action d failed m).0
unfolding get_next_action
get_next_action_lem d failed m = IsNext-choose d failed (candidates d failed) m refl
