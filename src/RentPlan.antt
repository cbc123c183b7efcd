-- ===== src/RentPlan.antt =====
-- backend/src/rentplan.ts: the registry that binds proof contexts to the wallet that pays for them.
-- Addresses are numbers. A plan is an object that the map and the `undo` closures share, so the map
-- holds references into a heap. One call reads the clock once here.
pub mod Scans
pub mod Ownership
pub mod Admission
pub mod Keeping
pub mod Undoing
pub mod RoundTrip
pub mod Preparations
pub mod Bounds
mod Examples
use relstate.Transaction.{
  address_at, Rejection, InspectedInstruction, InspectedTransaction, no_wallet_relation,
  context_reused, foreign_context, plan_full, registry_full,
}
use relstate.Programs.{system_program, zk_elgamal_proof_program}
use relstate.Common.{
  ℕ, suc, ◌+◌, ◌-◌, Bool, true, false, not, ◌&&◌, ◌||◌, List, [], ◌∷◌, ◌++◌, get_elem?, Option,
  none, some, Result, ok, err, ◌>>◌, refuse_if, ltb, leb, ◌==◌, if◌then◌else◌, length, keep, get,
  set, delete, has, add, without,
}

abbrev pub plan_ttl_ms : ℕ
plan_ttl_ms = 300_000

abbrev pub max_preparation_txs : ℕ
max_preparation_txs = 6

abbrev pub max_live_plans : ℕ
max_live_plans = 2_000

pub record ContextUse : Type 0 where
  pub created : List ℕ
  pub touched : List ℕ
  pub closed : List ℕ

-- One round of the loop of `contextUse`.
unfoldable pub use_instruction : ContextUse → InspectedInstruction → ContextUse
use_instruction u ix =
    if ix.program_address == system_program
    then elim (address_at ix 1) [ none ↦ u | some c ↦ record u { created = u.created ++ c ∷ [] } ]
    else if ix.program_address == zk_elgamal_proof_program
    then elim (address_at ix 0) [
      | none ↦ u
      | some c ↦
          let u' = record u { touched = u.touched ++ c ∷ [] } in
          elim (get_elem? ix.payload 0) [
            | none ↦ u'
            | some tag ↦ if tag == 0 then record u' { closed = u'.closed ++ c ∷ [] } else u'
          ]
    ]
    else u

unfoldable pub context_use_from : ContextUse → List InspectedInstruction → ContextUse
context_use_from u [] = u
context_use_from u (ix ∷ rest) = context_use_from (use_instruction u ix) rest

unfoldable pub context_use : InspectedTransaction → ContextUse
unfolding use_instruction context_use_from
context_use tx =
    context_use_from (record { created = []; touched = []; closed = [] }) tx.instructions

pub record Plan : Type 0 where
  pub started_at : ℕ
  pub preparations : ℕ
  pub contexts : List ℕ

pub record Registry : Type 0 where
  pub cell : ℕ → Plan
  pub next : ℕ
  pub plans : List (ℕ × ℕ)

abbrev no_plan : Plan
no_plan = record { started_at = 0; preparations = 0; contexts = [] }

unfoldable pub create_rent_plan_registry : Registry
create_rent_plan_registry = record { cell = λ _. no_plan; next = 0; plans = [] }

-- A write to the heap.
abbrev pub put : ℕ → Plan → (ℕ → Plan) → ℕ → Plan
put r p f j = if j == r then p else f j

-- The loop of `ownerOf`.
unfoldable pub owner_of : (ℕ → Plan) → List (ℕ × ℕ) → ℕ → Option ℕ
owner_of cell [] c = none
owner_of cell ((wallet, r) ∷ plans) c =
    if has c (cell r).contexts then some wallet else owner_of cell plans c

-- The loop of `sweep` over the entries of the map.
unfoldable pub sweep_from : (ℕ → Plan) → ℕ → List (ℕ × ℕ) → List (ℕ × ℕ) → List (ℕ × ℕ)
sweep_from cell now [] plans = plans
sweep_from cell now ((wallet, r) ∷ entries) plans =
    sweep_from cell now entries
      (if ltb plan_ttl_ms (now - (cell r).started_at) then delete wallet plans else plans)

unfoldable pub sweep : Registry → ℕ → Registry
unfolding sweep_from
sweep s now = record s { plans = sweep_from s.cell now s.plans s.plans }

abbrev pub is_none {ℓ} : {A : Type ℓ} → Option A → Bool
is_none none = true
is_none (some a) = false

-- `existing?.contexts.has(c)` and `existing.preparations`.
abbrev pub holds : (ℕ → Plan) → Option ℕ → ℕ → Bool
holds cell none c = false
holds cell (some r) c = has c (cell r).contexts

abbrev pub is_full : (ℕ → Plan) → Option ℕ → Bool
is_full cell none = false
is_full cell (some r) = leb max_preparation_txs (cell r).preparations

-- The loop over `use.created`.
unfoldable pub check_created : Registry → List ℕ → Result Rejection Unit
unfolding owner_of
check_created s [] = ok tt
check_created s (c ∷ cs) = do
  refuse_if (not (is_none (owner_of s.cell s.plans c))) context_reused
  check_created s cs

-- The loop over `use.touched`.
unfoldable pub check_touched : Registry → Option ℕ → List ℕ → List ℕ → Result Rejection Unit
check_touched s existing created [] = ok tt
check_touched s existing created (c ∷ cs) = do
  refuse_if (not (has c created) && not (holds s.cell existing c)) foreign_context
  check_touched s existing created cs

abbrev pub is_preparing : ContextUse → Bool → Bool
is_preparing u wallet_signs = not wallet_signs || ltb 0 (length u.created)

-- The guards of `admit`, in order.
unfoldable pub check_use : Registry → Option ℕ → ContextUse → Bool → Result Rejection Unit
unfolding check_created check_touched
check_use s existing u wallet_signs = do
  refuse_if (not wallet_signs && length u.created + length u.touched == 0) no_wallet_relation
  check_created s u.created
  check_touched s existing u.created u.touched
  refuse_if (is_preparing u wallet_signs && is_full s.cell existing) plan_full
  refuse_if (is_none existing && ltb 0 (length u.created) && leb max_live_plans (length s.plans))
      registry_full

-- `for (const c of cs) plan.contexts.add(c)`, and the same with `delete`.
unfoldable pub add_all : List ℕ → List ℕ → List ℕ
add_all [] contexts = contexts
add_all (c ∷ cs) contexts = add_all cs (add c contexts)

unfoldable pub delete_all : List ℕ → List ℕ → List ℕ
delete_all [] contexts = contexts
delete_all (c ∷ cs) contexts = delete_all cs (without c contexts)

-- `use.closed.filter((c) => !createdHere.has(c) && plan.contexts.delete(c))`, with what it leaves.
unfoldable pub spend : List ℕ → List ℕ → List ℕ → List ℕ × List ℕ
spend created [] contexts = ([], contexts)
spend created (c ∷ cs) contexts =
    if not (has c created) && has c contexts
    then (let (spent, left) = spend created cs (without c contexts) in (c ∷ spent, left))
    else spend created cs contexts

-- What the closure that `admit` returns has captured.
pub record Undo : Type 0 where
  pub wallet : ℕ
  pub plan : ℕ
  pub preparing : Bool
  pub added : List ℕ
  pub spent : List ℕ
  pub removed_plan : Bool
  pub undone : Bool

-- `existing ?? { startedAt: now(), … }`, with the map entry where the plan is new and wanted.
unfoldable pub open_plan : Registry → ℕ → ℕ → Option ℕ → Bool → Registry × ℕ
open_plan s now wallet (some r) wanted = (s, r)
open_plan s now wallet none wanted = (
  record {
    cell = put s.next (record { started_at = now; preparations = 0; contexts = [] }) s.cell;
    next = suc s.next;
    plans = if wanted then set wallet s.next s.plans else s.plans;
  },
  s.next,
)

abbrev pub points_at : Option ℕ → ℕ → Bool
points_at none r = false
points_at (some q) r = q == r

-- The effect of an admitted transaction on its plan `r`.
unfoldable pub apply_use : Registry → ℕ → ℕ → ContextUse → Bool → Registry × Undo
unfolding add_all spend
apply_use s wallet r u wallet_signs =
    let preparing = is_preparing u wallet_signs in
    let added = keep (λ c. not (has c u.closed)) u.created in
    let (spent, left) = spend u.created u.closed (add_all added (s.cell r).contexts) in
    let removed = wallet_signs && length left == 0 && points_at (get wallet s.plans) r in
    (
      record s {
        cell =
            put r
              (record (s.cell r) {
                preparations =
                    if preparing then suc (s.cell r).preparations else (s.cell r).preparations;
                contexts = left;
              })
              s.cell;
        plans = if removed then delete wallet s.plans else s.plans;
      },
      record {
        wallet = wallet;
        plan = r;
        preparing = preparing;
        added = added;
        spent = spent;
        removed_plan = removed;
        undone = false;
      },
    )

abbrev pub enter :
    Registry
    → ℕ
    → ℕ
    → ContextUse
    → Bool
    → Option ℕ
    → Result Rejection Unit
    → Registry × Result Rejection Undo
enter s now wallet u wallet_signs existing (err e) = (s, err e)
enter s now wallet u wallet_signs existing (ok _) =
    let (s', r) =
      open_plan s now wallet existing (ltb 0 (length u.created) || is_preparing u wallet_signs) in
    let (s'', undo) = apply_use s' wallet r u wallet_signs in (s'', ok undo)

unfoldable pub admit : Registry → ℕ → ℕ → ContextUse → Bool → Registry × Result Rejection Undo
unfolding sweep check_use open_plan apply_use
admit s now wallet u wallet_signs =
    let s' = sweep s now in
    let existing = get wallet s'.plans in
    enter s' now wallet u wallet_signs existing (check_use s' existing u wallet_signs)

-- `for (const c of spent) if (ownerOf(c) === undefined) live.contexts.add(c)`.
unfoldable pub reclaim : (ℕ → Plan) → List (ℕ × ℕ) → ℕ → List ℕ → ℕ → Plan
unfolding owner_of
reclaim cell plans r [] = cell
reclaim cell plans r (c ∷ cs) =
    reclaim
      (if is_none (owner_of cell plans c)
        then put r (record (cell r) { contexts = add c (cell r).contexts }) cell
        else cell)
      plans r cs

-- What `undo` does to the live plan `r`.
unfoldable pub take_back : Registry → Undo → Registry
take_back s d =
    let r = d.plan in
    let shrunk =
      put r (record (s.cell r) { contexts = delete_all d.added (s.cell r).contexts }) s.cell in
    let cell = reclaim shrunk s.plans r d.spent in
    let left = if d.preparing then (cell r).preparations - 1 else (cell r).preparations in
    record s {
      cell = put r (record (cell r) { preparations = left }) cell;
      plans =
          if length (cell r).contexts == 0 && left == 0 then delete d.wallet s.plans else s.plans;
    }

-- The second component is the closure afterwards: it is spent.
unfoldable pub undo : Registry → Undo → Registry × Undo
undo s d = if d.undone then (s, d) else (
  elim (get d.wallet s.plans) [
    | none ↦
        if d.removed_plan then take_back (record s { plans = set d.wallet d.plan s.plans }) d else s
    | some live ↦ if live == d.plan then take_back s d else s
  ],
  record d { undone = true },
)
