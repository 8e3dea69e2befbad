-- ===== src/Policy/Windows.antt =====
-- The sliding windows of the policy engine (gateway/policy.py, `_SlidingWindowCounter`).
use ai_agent_immune_system.Common.{
  List, Option-cases, String, String-discrete, [], arith, if◌then◌else◌, inl, inr, ite, leb, refl,
  ℕ, ◌++◌, ◌+◌, ◌∷◌, ◌≡◌,
}
use ai_agent_immune_system.Common.Dict
use ai_agent_immune_system.Policy.{Counter, count, recent, record_amount, total}

-- What a counter holds of a key inside the window: the number that `count` returns.
unfoldable pub in_window : Counter → String → ℕ → ℕ → ℕ
in_window w key window now = total (recent window now (Dict.get_or String-discrete key w []))

recent_idem :
    (window now : ℕ) (l : List (ℕ × ℕ))
    → recent window now (recent window now l) ≡ recent window now l
unfolding recent
recent_idem window now [] = refl
recent_idem window now (e ∷ l) = ground (arith, recent_idem window now l)

recent-append :
    (window now : ℕ) (l l' : List (ℕ × ℕ))
    → recent window now (l ++ l') ≡ recent window now l ++ recent window now l'
unfolding recent
recent-append window now [] l' = refl
recent-append window now (e ∷ l) l' = ground (arith, recent-append window now l l')

total-append : (l l' : List (ℕ × ℕ)) → total (l ++ l') ≡ total l + total l'
unfolding total
total-append [] l' = omega arith
total-append ((t, a) ∷ l) l' = omega (arith, total-append l l')

pub count-result :
    (w : Counter) (key : String) (window now : ℕ)
    → (count w key window now).1 ≡ in_window w key window now
unfolding count in_window total recent
count-result w key window now = ground arith

-- Dropping the entries that are out of the window changes nothing that a later count in the same
-- window can see, for this key or another.
pub in_window-count :
    (w : Counter) (key j : String) (window now : ℕ)
    → in_window (count w key window now).0 j window now ≡ in_window w j window now
unfolding count in_window
in_window-count w key j window now = elim (Option-cases (Dict.get String-discrete key w)) [
  | inl missing ↦ ground (arith, missing)
  | inr (entries, known) ↦ ground (
    arith,
    known,
    Dict.get-put String-discrete j key (recent window now entries) w,
    recent_idem window now entries,
  )
]

-- A recorded amount counts for its key, as long as it is in the window, and for no other.
pub in_window-record_amount :
    (w : Counter) (key j : String) (amount t window now : ℕ)
    → in_window (record_amount w key amount t) j window now
      ≡ in_window w j window now
        + ite (String-discrete key j) (if leb now (t + window) then amount else 0) 0
unfolding record_amount in_window
in_window-record_amount w key j amount t window now = elim (String-discrete key j) [
  | yes same ↦
      let old = Dict.get_or String-discrete key w [] in
      let stored = Dict.get-put String-discrete j key (old ++ (t, amount) ∷ []) w in
      ground (
        arith,
        same,
        stored,
        recent-append window now old ((t, amount) ∷ []),
        total-append (recent window now old) (recent window now ((t, amount) ∷ [])),
        single,
      )
  | no other ↦ ground (
    arith,
    Dict.get-put_ne String-discrete j key (Dict.get_or String-discrete key w [] ++ (t, amount) ∷ [])
        w other,
  )
]
  where
    single :
        total (recent window now ((t, amount) ∷ [])) ≡ (if leb now (t + window) then amount else 0)
    single = unfold recent total in ground arith
