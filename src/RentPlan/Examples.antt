-- ===== src/RentPlan/Examples.antt =====
-- A rent payment of two transactions, and a stranger's attempt at its context.
use relstate.Common.{◌≤◌, ◌≡◌, refl, true, false, [], ◌∷◌, ok, err, arith, get, has, length, ◌||◌}
use relstate.Transaction.{context_reused, foreign_context}
use relstate.RentPlan.{
  ContextUse, Registry, Undo, create_rent_plan_registry, sweep, holds, admit, undo, max_live_plans,
}
use relstate.RentPlan.Ownership.{Inv, create_rent_plan_registry-Inv, after_use}
use relstate.RentPlan.Admission.{admit_binds, holds-admit}
use relstate.RentPlan.Keeping.{admit-Inv}
use relstate.RentPlan.RoundTrip.{holds-undo-admit}
use relstate.RentPlan.Bounds.{length-admit-le}

abbrev prepare : ContextUse
prepare = record { created = 100 ∷ []; touched = 100 ∷ []; closed = [] }

abbrev finish : ContextUse
finish = record { created = []; touched = 100 ∷ []; closed = 100 ∷ [] }

abbrev empty : Registry
empty = create_rent_plan_registry

abbrev prepared : Registry
prepared = (admit empty 1_000 7 prepare false).0

abbrev prepared_undo : Undo
prepared_undo = record {
  wallet = 7;
  plan = 0;
  preparing = true;
  added = 100 ∷ [];
  spent = [];
  removed_plan = false;
  undone = false;
}

abbrev finished_undo : Undo
finished_undo = record {
  wallet = 7;
  plan = 0;
  preparing = false;
  added = [];
  spent = 100 ∷ [];
  removed_plan = true;
  undone = false;
}

abbrev finished : Registry
finished = (admit prepared 2_000 7 finish true).0

tests : Unit {0}
unfolding admit create_rent_plan_registry
tests = tt

admit_tests :
    ((admit empty 1_000 7 prepare false).1 ≡ ok prepared_undo)
    × ((admit prepared 2_000 7 finish true).1 ≡ ok finished_undo)
    × ((admit prepared 2_000 8 finish true).1 ≡ err foreign_context)
    × ((admit prepared 2_000 8 prepare false).1 ≡ err context_reused)
    × (finished.plans ≡ [])
    × ((admit prepared 302_000 8 prepare false).0.plans ≡ (8, 1) ∷ [])
unfolding tests
admit_tests = (refl, refl, refl, refl, refl, refl)

prepared-Inv : Inv prepared
unfolding tests
prepared-Inv = admit-Inv empty 1_000 7 prepare false create_rent_plan_registry-Inv

admit-Inv_example : Inv finished
unfolding tests
admit-Inv_example = admit-Inv prepared 2_000 7 finish true prepared-Inv

admit_binds_example :
    (has 100 finish.created
      || holds (sweep prepared 2_000).cell (get 7 (sweep prepared 2_000).plans) 100)
    ≡ true
unfolding tests
admit_binds_example =
    (admit_binds prepared finished 2_000 7 finish true finished_undo prepared-Inv refl 100).1 refl

holds-admit_example : holds finished.cell (get 7 finished.plans) 100 ≡ after_use finish true 100
unfolding tests
holds-admit_example =
    holds-admit prepared finished 2_000 7 finish true finished_undo prepared-Inv refl 7 100

holds-undo-admit_example :
    holds (undo finished finished_undo).0.cell (get 7 (undo finished finished_undo).0.plans) 100
    ≡ holds (sweep prepared 2_000).cell (get 7 (sweep prepared 2_000).plans) 100
unfolding tests
holds-undo-admit_example =
    holds-undo-admit prepared finished 2_000 7 finish true finished_undo prepared-Inv refl 7 100

length-admit-le_example : length prepared.plans ≤ max_live_plans
unfolding tests
length-admit-le_example = length-admit-le empty 1_000 7 prepare false (omega arith)
