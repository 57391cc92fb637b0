-- ===== src/RateLimit/Assign.antt =====
-- internal/modules/ratelimit/rules.go: assign. The indexes stay below 2 ^ 32, as is proved of them,
-- so no sum of the source wraps.
use akastr_agent.Base.{
  ℕ, zero, suc, ◌+◌, ◌-◌, String, Bool, true, false, ◌&&◌, List, [], ◌∷◌, Assoc, get, put, ltb, leb,
  ◌==◌, is_some, if◌then◌else◌, String-discrete, sort, str_leb,
}
use akastr_agent.RateLimit.{Wanted, Rules, action_base, max_users}

-- used[i]
unfoldable pub has : List ℕ → ℕ → Bool
has [] i = false
has (j ∷ js) i = let rest = has js i in if j == i then true else rest

-- used after the loop over r.actions
unfoldable pub use_all : Assoc String ℕ → List ℕ → List ℕ
use_all [] used = used
use_all ((g, i) ∷ m) used = i ∷ use_all m used

-- index after the loop over r.actions: those of the groups still wanted
unfoldable pub keep : Assoc String ℕ → Assoc String ℕ → Assoc String ℕ
keep rates [] = []
keep rates ((g, i) ∷ m) =
    let rest = keep rates m in if is_some (get rates g) then put rest g i else rest

unfoldable pub newcomers : Assoc String ℕ → Assoc String ℕ → List String
newcomers index [] = []
newcomers index ((g, rate) ∷ rates) =
    let rest = newcomers index rates in if is_some (get index g) then rest else g ∷ rest

-- The inner loop, on fuel.
unfoldable pub free_from : ℕ → List ℕ → ℕ → ℕ
free_from zero used next = next
free_from (suc n) used next =
    let later = free_from n used (suc next) in
    if leb next max_users && has used (action_base + next) then later else next

unfoldable pub place : List ℕ → List String → ℕ → Assoc String ℕ → Assoc String ℕ
place used [] next index = index
place used (g ∷ gs) next index =
    let free = free_from (suc max_users - next) used next in
    let rest = place used gs (suc free) (put index g (action_base + free)) in
    if ltb max_users free then index else rest

unfoldable pub assign : Rules → Wanted → Assoc String ℕ
assign r w =
    let index = keep w.rates r.actions in
    place (use_all r.actions r.orphans) (sort str_leb (newcomers index w.rates)) 1 index
