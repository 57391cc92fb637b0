-- ===== src/RateLimit/Converge.antt =====
-- internal/modules/ratelimit/rules.go: converge, drifted and what they write. tc, another program,
-- is a parameter: what it makes of the world W on a command, and its output, or none on a failure.
-- A command, and a line of a batch, is its verb with the numbers and names the source prints in it.
use akastr_agent.Base.{
  ℕ, suc, ◌*◌, ◌/◌, ◌%◌, ◌^◌, max, String, Bool, true, false, ◌&&◌, ◌||◌, Option, none, some, List,
  [], ◌∷◌, ◌++◌, Assoc, get, put, delete, ◌==◌, is, is_some, if◌then◌else◌, String-discrete,
  ℕ_discrete, sort, contains,
}
use akastr_agent.Ledger.{AddrPort}
use akastr_agent.RateLimit.{Rule, Rule-discrete, Wanted, Rules, Installed, pref_ipv4, pref_ipv6}
use akastr_agent.RateLimit.Assign.{assign}

pub data Edit : Type 0 where
  add_qdisc : (dev : String) → Edit
  replace_action : (rate burst index : ℕ) → Edit
  del_filter : (dev family : String) (pref handle : ℕ) → Edit
  add_filter : (family : String) (pref handle : ℕ) (match : Rule) (index : ℕ) → Edit

pub data Command : Type 0 where
  show_qdisc : (dev : String) → Command
  del_qdisc : (dev : String) → Command
  show_egress show_ingress : (dev : String) → Command
  del_pref : (dev : String) (pref : ℕ) → Command
  list_actions : Command
  del_action : (index : ℕ) → Command
  batch : (edits : List Edit) → Command

-- burst
unfoldable pub burst : ℕ → ℕ
burst mbps = max (mbps * 1000000 / 8 / 10) 65536

-- index[group], and want.rules[key]; a Go map gives a zero for what it does not hold.
unfoldable pub index_of : Assoc String ℕ → String → ℕ
index_of index g = elim (get index g) [ none ↦ 0 | some i ↦ i ]

unfoldable pub group_of : Assoc Rule String → Rule → String
group_of rules x = elim (get rules x) [ none ↦ "" | some g ↦ g ]

unfoldable pub rate_of : Assoc ℕ ℕ → ℕ → ℕ
rate_of rates i = elim (get ⦃dec = ℕ_discrete⦄ rates i) [ none ↦ 0 | some r ↦ r ]

-- The index that a rule is to have, 0 for none.
unfoldable pub target : Assoc String ℕ → Assoc Rule String → Rule → ℕ
target index rules x = index_of index (group_of rules x)

unfoldable pub has_name : List String → String → Bool
has_name [] d = false
has_name (e ∷ es) d = is (String-discrete e d) || has_name es d

-- A set with an element more.
unfoldable pub add_name : List String → String → List String
add_name ds d = if has_name ds d then ds else d ∷ ds

unfoldable pub devs : Assoc String ℕ → Assoc Rule String → List String
devs index [] = []
devs index ((x, g) ∷ m) =
    let rest = devs index m in if index_of index g == 0 then rest else add_name rest x.dev

unfoldable pub add_names : List String → List String → List String
add_names known [] = known
add_names known (d ∷ ds) = add_names (add_name known d) ds

unfoldable pub replace_actions : Rules → Wanted → Assoc String ℕ → List Edit
replace_actions r w [] = []
replace_actions r w ((g, i) ∷ index) =
    let rest = replace_actions r w index in
    let rate = index_of w.rates g in
    if index_of r.actions g == i && rate_of r.rates i == rate
    then rest
    else replace_action rate (burst rate) i ∷ rest

unfoldable pub del_filters : (AddrPort → Bool) → (Rule → ℕ) → Assoc Rule Installed → List Edit
del_filters is6 goal [] = []
del_filters is6 goal ((x, have) ∷ m) =
    let rest = del_filters is6 goal m in
    if goal x == have.index
    then rest
    else del_filter x.dev (if is6 x.remote then "ipv6" else "ip")
        (if is6 x.remote then pref_ipv6 else pref_ipv4) have.handle
      ∷ rest

-- What the loop over the wanted rules does to nextHandle, added and batch.
pub record Adding : Type 0 where
  pub next_handle : ℕ
  pub added : Assoc Rule Installed
  pub edits : List Edit

-- i == 0 || (found && have.index == i)
unfoldable pub settled : ℕ → Option Installed → Bool
settled i have = i == 0 || elim have [ none ↦ false | some h ↦ h.index == i ]

unfoldable pub add_filters :
    (AddrPort → Bool) → (Rule → ℕ) → Assoc Rule Installed → List Rule → ℕ → Adding
add_filters is6 goal filters [] handle = record { next_handle = handle; added = []; edits = [] }
add_filters is6 goal filters (x ∷ xs) handle =
    let next = suc handle % 2 ^ 32 in
    let skip = add_filters is6 goal filters xs handle in
    let rest = add_filters is6 goal filters xs next in
    if settled (goal x) (get filters x) then skip else record {
      next_handle = rest.next_handle;
      added = put rest.added x (record { handle = next; index = goal x });
      edits =
          add_filter (if is6 x.remote then "ipv6" else "ip")
            (if is6 x.remote then pref_ipv6 else pref_ipv4) next x (goal x)
          ∷ rest.edits;
    }

unfoldable pub drop_filters : (Rule → ℕ) → Assoc Rule Installed → Assoc Rule Installed
drop_filters goal [] = []
drop_filters goal ((x, have) ∷ m) =
    let rest = drop_filters goal m in
    if goal x == have.index then put rest x have else delete rest x

-- maps.Copy
unfoldable pub put_all : Assoc Rule Installed → Assoc Rule Installed → Assoc Rule Installed
put_all [] m = m
put_all ((x, i) ∷ added) m = put (put_all added m) x i

-- The loop over r.actions, on orphans and on rates.
unfoldable pub release_orphans : Assoc String ℕ → Assoc String ℕ → List ℕ → List ℕ
release_orphans index [] orphans = orphans
release_orphans index ((g, i) ∷ actions) orphans =
    let rest = release_orphans index actions orphans in
    if index_of index g == i then rest else i ∷ rest

unfoldable pub release_rates : Assoc String ℕ → Assoc String ℕ → Assoc ℕ ℕ → Assoc ℕ ℕ
release_rates index [] rates = rates
release_rates index ((g, i) ∷ actions) rates =
    let rest = release_rates index actions rates in
    if index_of index g == i then rest else delete ⦃dec = ℕ_discrete⦄ rest i

unfoldable pub put_rates : Assoc String ℕ → Assoc String ℕ → Assoc ℕ ℕ → Assoc ℕ ℕ
put_rates wanted [] rates = rates
put_rates wanted ((g, i) ∷ index) rates =
    put ⦃dec = ℕ_discrete⦄ (put_rates wanted index rates) i (index_of wanted g)

-- The keys of want.rules
unfoldable pub rule_keys : Assoc Rule String → List Rule
rule_keys [] = []
rule_keys ((x, g) ∷ m) = x ∷ rule_keys m

-- The whole batch succeeded; record it.
unfoldable pub record_batch : Rules → Wanted → Assoc String ℕ → Adding → Rules
record_batch r w index a = record {
  clsact = add_names r.clsact (devs index w.rules);
  actions = index;
  rates = put_rates w.rates index (release_rates index r.actions r.rates);
  filters = put_all a.added (drop_filters (target index w.rules) r.filters);
  orphans = release_orphans index r.actions r.orphans;
  next_handle = a.next_handle;
}

module _ {W : Type 0} (run : Command → W → W × Option String) where
  unfoldable pub drop_orphans : List ℕ → W → W × List ℕ
  drop_orphans [] w = (w, [])
  drop_orphans (i ∷ js) w =
      let r = run (del_action i) w in
      let rest = drop_orphans js r.0 in (rest.0, elim r.1 [ none ↦ i ∷ rest.1 | some _ ↦ rest.1 ])

  -- The loop over the interfaces: a hook where there is none.
  unfoldable pub hooks : List String → List String → W → W × Option (List Edit)
  hooks known [] w = (w, some [])
  hooks known (d ∷ ds) w =
      let skip = hooks known ds w in
      let r = run (show_qdisc d) w in
      let rest = hooks known ds r.0 in
      if has_name known d then skip else elim r.1 [
        | none ↦ (r.0, none)
        | some out ↦ (
          rest.0,
          elim rest.1 [
            | none ↦ none
            | some es ↦ some (if contains out "clsact" then es else add_qdisc d ∷ es)
          ],
        )
      ]

  -- if len(batch) > 0
  unfoldable pub run_batch : List Edit → W → W × Bool
  run_batch [] w = (w, true)
  run_batch (e ∷ es) w = let r = run (batch (e ∷ es)) w in (r.0, is_some r.1)

-- `before` is the order that the keys are sorted by, which compares addresses.
module _ {W : Type 0} (run : Command → W → W × Option String) (is6 : AddrPort → Bool)
    (before : Rule → Rule → Bool) where
  unfoldable pub edit : Rules → Wanted → Assoc String ℕ → List Edit → W → W × (Rules × Bool)
  edit r w index hooked world =
      let goal = target index w.rules in
      let a = add_filters is6 goal r.filters (sort before (rule_keys w.rules)) r.next_handle in
      let edits =
        hooked ++ replace_actions r w index ++ del_filters is6 goal r.filters ++ a.edits in
      let done = run_batch run edits world in
      (
        done.0,
        if done.1
            then (record_batch r w index a, true)
            else (record r { next_handle = a.next_handle }, false),
      )

  -- What converge does after the orphans.
  unfoldable pub converge_rest : Rules → Wanted → W → W × (Rules × Bool)
  converge_rest r w world =
      let index = assign r w in
      let hooked = hooks run r.clsact (devs index w.rules) world in
      elim hooked.1 [ none ↦ (hooked.0, (r, false)) | some es ↦ edit r w index es hooked.0 ]

  -- The world, the rules and whether there was no error.
  unfoldable pub converge : Rules → Wanted → W → W × (Rules × Bool)
  converge r w world =
      let dropped = drop_orphans run r.orphans world in
      converge_rest (record r { orphans = dropped.1 }) w dropped.0
