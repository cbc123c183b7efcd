-- ===== src/Onramp/Once.antt =====
-- Deliveries that interleave at their first await: how often an event is credited.
use relstate.Common.{
  ℕ, ◌+◌, ◌≤◌, ◌≡◌, refl, sym, ap, inl, inr, Bool, true, List, [], ◌∷◌, Option, none, some, Result,
  ok, err, arith, get, set, get-set, has, has-without, ◌==◌, if◌then◌else◌, Bool-cases,
}
use relstate.Common.Counting.{count, remove_one, count-remove_one}
use relstate.Treasury.{Cluster, Mode}
use relstate.Onramp.{
  OnrampError, OnrampCredit, OnrampConfig, ProviderEvent, Onramp, Pending, Begun, replayed, joins,
  throws, refused, goes_on,
}
use relstate.Onramp.Service.{begin, finish}
use relstate.Treasury.Ledger.{times_credited}
use relstate.Onramp.Crediting.{finish-times}
use relstate.Onramp.Ends.{BeginEnd, begin-BeginEnd, FinishEnd, finish-FinishEnd}

-- The service, the events whose deliveries are under way, and the events of the deliveries that
-- have gone on past their first await and returned a credit or thrown so far.
pub record Service (S : Type 0) : Type 0 where
  pub onramp : Onramp S
  pub running : List ℕ
  pub paid : List ℕ
  pub thrown : List ℕ

abbrev pub on_record : {A : Type 0} → Option A → ℕ
on_record none = 0
on_record (some a) = 1

pub on_record-set :
    {A : Type 0} (k j : ℕ) (v : A) (m : List (ℕ × A))
    → on_record (get j (set k v m)) ≡ (if k == j then 1 else on_record (get j m))
on_record-set k j v m = elim (Bool-cases (k == j)) [
  | inl e ↦ rw (e, get-set k j v m, e) refl
  | inr e ↦ rw (e, get-set k j v m, e) refl
]

module _ {S : Type 0} (c : Cluster S) (mode : Mode) (account : Bool) (config : OnrampConfig) where
  abbrev pub started : Service S → Onramp S × Begun → Service S
  started s (onramp, replayed k) = record s { onramp = onramp }
  started s (onramp, joins ref) = record s { onramp = onramp }
  started s (onramp, throws e) = record s { onramp = onramp }
  started s (onramp, refused k) = record s { onramp = onramp }
  started s (onramp, goes_on p) = record s { onramp = onramp; running = p.ref ∷ s.running }

  abbrev pub finished : Service S → ℕ → Onramp S × Result OnrampError OnrampCredit → Service S
  finished s ref (onramp, err e) = record {
    onramp = onramp;
    running = remove_one ref s.running;
    paid = s.paid;
    thrown = ref ∷ s.thrown;
  }
  finished s ref (onramp, ok k) = record {
    onramp = onramp;
    running = remove_one ref s.running;
    paid = ref ∷ s.paid;
    thrown = s.thrown;
  }

  -- A delivery starts, or one that is under way ends, with any answers.
  pub data Step : Service S → Service S → Type 0 where
    starts :
        (s : Service S) (now : ℕ) (answer : Result OnrampError ProviderEvent)
        → Step s (started s (begin config s.onramp now answer))
    ends :
        (s : Service S) (p : Pending) (now : ℕ) (ready : Bool) (resolved : Option Bool)
        → has p.ref s.running ≡ true
        → Step s (finished s p.ref (finish c mode account config s.onramp p now ready resolved))

  pub data Reach : Service S → Service S → Type 0 where
    here : {s : Service S} → Reach s s
    next : {s t u : Service S} → Reach s t → Step t u → Reach s u

  -- What is paid is on record, what is under way is in flight, and nothing is both.
  abbrev pub Sound : Service S → Type 0
  Sound s =
      (r : ℕ)
      → (count r s.paid ≤ on_record (get r s.onramp.credits))
        × (count r s.running ≤ (if has r s.onramp.in_flight then 1 else 0))
        × (count r s.running + on_record (get r s.onramp.credits) ≤ 1)

  begun-Sound :
      (s : Service S)
      → Sound s
      → (q : Onramp S × Begun) → BeginEnd config s.onramp q
      → Sound (started s q)
  begun-Sound s sound (o, replayed k) (_, inl (same, flight, _)) r = rw (same, flight) (sound r)
  begun-Sound s sound (o, joins k) (_, inl (same, flight, _)) r = rw (same, flight) (sound r)
  begun-Sound s sound (o, throws k) (_, inl (same, flight, _)) r = rw (same, flight) (sound r)
  begun-Sound s sound (o, refused k) (_, inl (same, flight, _)) r = rw (same, flight) (sound r)
  begun-Sound s sound (o, goes_on p) (_, inl (same, flight, h)) r = cc
  begun-Sound s sound (o, replayed x) (_, inr (inl (ref, k, new, idle, same, flight, h, _))) r = cc
  begun-Sound s sound (o, joins x) (_, inr (inl (ref, k, new, idle, same, flight, h, _))) r = cc
  begun-Sound s sound (o, throws x) (_, inr (inl (ref, k, new, idle, same, flight, h, _))) r = cc
  begun-Sound s sound (o, refused x) (_, inr (inl (ref, k, new, idle, same, flight, h, _))) r =
      rw (same, flight) (ground (arith, on_record-set ref r k s.onramp.credits, sound r, new, idle))
  begun-Sound s sound (o, goes_on x) (_, inr (inl (ref, k, new, idle, same, flight, h, _))) r = cc
  begun-Sound s sound (o, replayed x) (_, inr (inr (p, new, idle, same, flight, h))) r = cc
  begun-Sound s sound (o, joins x) (_, inr (inr (p, new, idle, same, flight, h))) r = cc
  begun-Sound s sound (o, throws x) (_, inr (inr (p, new, idle, same, flight, h))) r = cc
  begun-Sound s sound (o, refused x) (_, inr (inr (p, new, idle, same, flight, h))) r = cc
  begun-Sound s sound (o, goes_on x) (_, inr (inr (p, new, idle, same, flight, h))) r =
      let same_p : p ≡ x = cc in
      rw (same, flight, sym (ap (λ q. q.ref) same_p)) (ground (arith, sound r, new, idle))

  finished-Sound :
      (s : Service S) (p : Pending) (now : ℕ)
      → Sound s
      → has p.ref s.running ≡ true
      → (q : Onramp S × Result OnrampError OnrampCredit)
      → FinishEnd c mode account config s.onramp p now q
      → Sound (finished s p.ref q)
  finished-Sound s p now sound under_way (o, err e) (flight, inl (same, _)) r =
      rw (same, flight)
        (ground (
          arith,
          sound r,
          count-remove_one r p.ref s.running,
          has-without r p.ref s.onramp.in_flight,
        ))
  finished-Sound s p now sound under_way (o, ok k) (flight, inl (same, h)) r = cc
  finished-Sound s p now sound under_way (o, err e) (flight, inr (k, same, h, _)) r = cc
  finished-Sound s p now sound under_way (o, ok k) (flight, inr (k', same, h, _)) r =
      rw (same, flight)
        (ground (
          arith,
          sound r,
          count-remove_one r p.ref s.running,
          has-without r p.ref s.onramp.in_flight,
          on_record-set p.ref r k' s.onramp.credits,
        ))

  Step-Sound : {s t : Service S} → Step s t → Sound s → Sound t
  Step-Sound (starts s now answer) sound =
      begun-Sound s sound (begin config s.onramp now answer)
        (begin-BeginEnd config s.onramp now answer)
  Step-Sound (ends s p now ready resolved under_way) sound =
      finished-Sound s p now sound under_way
        (finish c mode account config s.onramp p now ready resolved)
        (finish-FinishEnd c mode account config s.onramp p now ready resolved)

  abbrev pub Idle : Service S → Type 0
  Idle s =
      (s.running ≡ [])
      × (s.paid ≡ [])
      × (s.onramp.credits ≡ [])
      × (s.onramp.in_flight ≡ [])
      × (s.thrown ≡ [])

  pub Reach-Sound : {s t : Service S} → Reach s t → Idle s → Sound t
  Reach-Sound here (idle, unpaid, empty, quiet, _) =
      λ r. rw (idle, unpaid, empty, quiet) (ground arith)
  Reach-Sound (next q step) idle = Step-Sound step (Reach-Sound q idle)

  -- How often the reserve is credited for an event, and how many of its deliveries have ended.
  abbrev reserved : ℕ → Service S → ℕ
  reserved r s = times_credited r s.onramp.treasury.ledger

  abbrev ended : ℕ → Service S → ℕ
  ended r s = count r s.paid + count r s.thrown

  -- From `s` to `t` the reserve is credited at most as often as deliveries have ended.
  abbrev Metered : ℕ → Service S → Service S → Type 0
  Metered r s t = reserved r t + ended r s ≤ reserved r s + ended r t

  started-Metered :
      (r : ℕ) (s : Service S) (q : Onramp S × Begun)
      → q.0.treasury ≡ s.onramp.treasury
      → Metered r s (started s q)
  started-Metered r s (o, replayed k) same = rw same (omega arith)
  started-Metered r s (o, joins ref) same = rw same (omega arith)
  started-Metered r s (o, throws e) same = rw same (omega arith)
  started-Metered r s (o, refused k) same = rw same (omega arith)
  started-Metered r s (o, goes_on p) same = rw same (omega arith)

  finished-Metered :
      (r : ℕ) (s : Service S) (ref : ℕ) (q : Onramp S × Result OnrampError OnrampCredit)
      → times_credited r q.0.treasury.ledger ≤ reserved r s + (if ref == r then 1 else 0)
      → Metered r s (finished s ref q)
  finished-Metered r s ref (o, err e) h = omega (arith, h)
  finished-Metered r s ref (o, ok k) h = omega (arith, h)

  Step-Metered : (r : ℕ) {s t : Service S} → Step s t → Metered r s t
  Step-Metered r (starts s now answer) =
      started-Metered r s (begin config s.onramp now answer)
        (begin-BeginEnd config s.onramp now answer).0
  Step-Metered r (ends s p now ready resolved under_way) =
      finished-Metered r s p.ref (finish c mode account config s.onramp p now ready resolved)
        (finish-times c mode account config s.onramp p now r ready resolved)

  Reach-Metered : (r : ℕ) {s t : Service S} → Reach s t → Metered r s t
  Reach-Metered r here = omega arith
  Reach-Metered r (next q step) = omega (arith, Reach-Metered r q, Step-Metered r step)

  -- Deliveries may interleave at their first await, and the calls after it return or throw. From a
  -- service that has just started, at most one delivery of an event returns a new credit, and the
  -- reserve is credited for the event at most once more than deliveries of it have thrown after
  -- their first await.
  pub credited_once :
      {s t : Service S}
      → Reach s t
      → Idle s
      → (ref : ℕ)
      → (count ref t.paid ≤ 1)
        × (times_credited ref t.onramp.treasury.ledger
            ≤ times_credited ref s.onramp.treasury.ledger + 1 + count ref t.thrown)
  credited_once {s} {t} q idle ref =
      let once = (Reach-Sound q idle ref).0 in
      let most : count ref t.paid ≤ 1 = ground (arith, Reach-Sound q idle ref) in
      let metered = Reach-Metered ref q in
      let no_paid = idle.1 in let no_thrown = idle.4 in (most, ground arith)
