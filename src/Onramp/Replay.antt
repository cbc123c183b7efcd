-- ===== src/Onramp/Replay.antt =====
-- The credits on record, over histories of deliveries.
use relstate.Common.{
  ℕ, ◌+◌, ◌≤◌, ◌≡◌, refl, ◌∙◌, inl, inr, Bool, true, false, List, none, some, Result, ok, err,
  arith, get, set, get-set, has, ◌==◌, if◌then◌else◌, Bool-cases,
}
use relstate.Common.Counting.{count, has-count}
use relstate.Treasury.{Cluster, Mode}
use relstate.Onramp.{
  OnrampError, OnrampCredit, OnrampConfig, ProviderEvent, Onramp, Pending, Begun, replayed, joins,
  throws, refused, goes_on,
}
use relstate.Onramp.Service.{begin, finish}
use relstate.Onramp.Ends.{BeginEnd, begin-BeginEnd, FinishEnd, finish-FinishEnd}
use relstate.Onramp.Once.{
  Service, on_record, started, finished, Step, starts, ends, Reach, here, next, Sound, Idle,
  Reach-Sound,
}

-- A map that is set at another key, or at a key that has no entry.
get-set_other :
    {A : Type 0} (k j : ℕ) (v u : A) (m : List (ℕ × A))
    → get j m ≡ some u
    → (k == j) ≡ false
    → get j (set k v m) ≡ some u
get-set_other k j v u m h other = get-set k j v m ∙ rw other h

module _ {S : Type 0} (c : Cluster S) (mode : Mode) (account : Bool) (config : OnrampConfig) (r : ℕ)
    (k : OnrampCredit) where
  abbrev Final : Service S → Type 0
  Final s = get r s.onramp.credits ≡ some k

  begun-Final :
      (s : Service S)
      → Final s
      → (q : Onramp S × Begun) → BeginEnd config s.onramp q
      → get r q.0.credits ≡ some k
  begun-Final s h (o, b) (_, inl (same, flight, _)) = rw same h
  begun-Final s h (o, b) (_, inr (inl (ref, k', new, idle, same, _, _, _))) =
      rw same (get-set_other ref r k' k s.onramp.credits h (apart ref new))
    where
      apart : (ref : ℕ) → get ref s.onramp.credits ≡ none → (ref == r) ≡ false
      apart ref new = elim (Bool-cases (ref == r)) [
        | inl e ↦ let same : ref ≡ r = ground (arith, e) in let g = rw same at new in cc
        | inr e ↦ e
      ]
  begun-Final s h (o, b) (_, inr (inr (p, new, idle, same, _, _))) = rw same h

  started-Final :
      (s : Service S) (q : Onramp S × Begun)
      → get r q.0.credits ≡ some k
      → Final (started c mode account config s q)
  started-Final s (o, replayed x) h = h
  started-Final s (o, joins x) h = h
  started-Final s (o, throws x) h = h
  started-Final s (o, refused x) h = h
  started-Final s (o, goes_on x) h = h

  finished-Final :
      (s : Service S) (p : Pending) (now : ℕ)
      → Sound c mode account config s
      → has p.ref s.running ≡ true
      → Final s
      → (q : Onramp S × Result OnrampError OnrampCredit)
      → FinishEnd c mode account config s.onramp p now q
      → get r q.0.credits ≡ some k
  finished-Final s p now sound under_way h (o, res) (flight, inl (same, _)) = rw same h
  finished-Final s p now sound under_way h (o, res) (flight, inr (k', same, _, _)) =
      rw same (get-set_other p.ref r k' k s.onramp.credits h (apart (sound r)))
    where
      apart :
          (count r s.paid ≤ on_record (get r s.onramp.credits))
            × (count r s.running ≤ (if has r s.onramp.in_flight then 1 else 0))
            × (count r s.running + on_record (get r s.onramp.credits) ≤ 1)
          → (p.ref == r) ≡ false
      apart f = elim (Bool-cases (p.ref == r)) [
        | inl e ↦
            let same_ref : p.ref ≡ r = ground (arith, e) in
            let listed = rw same_ref at under_way in
            let g = rw h at f in ground (arith, g, has-count r s.running listed)
        | inr e ↦ e
      ]

  settled-Final :
      (s : Service S) (ref : ℕ) (q : Onramp S × Result OnrampError OnrampCredit)
      → get r q.0.credits ≡ some k
      → Final (finished c mode account config s ref q)
  settled-Final s ref (o, err e) h = h
  settled-Final s ref (o, ok x) h = h

  Step-Final :
      {s t : Service S}
      → Step c mode account config s t
      → Sound c mode account config s
      → Final s
      → Final t
  Step-Final (starts s now answer) sound h = started-Final s (begin config s.onramp now answer) (
      begun-Final s h (begin config s.onramp now answer)
        (begin-BeginEnd config s.onramp now answer))
  Step-Final (ends s p now ready resolved under_way) sound h =
      settled-Final s p.ref (finish c mode account config s.onramp p now ready resolved) (
        finished-Final s p now sound under_way h
          (finish c mode account config s.onramp p now ready resolved)
          (finish-FinishEnd c mode account config s.onramp p now ready resolved))

  Reach-Final :
      {s t u : Service S}
      → Reach c mode account config s t
      → Idle c mode account config s
      → Final t
      → Reach c mode account config t u
      → (Reach c mode account config s u) × Final u
  Reach-Final q idle h here = (q, h)
  Reach-Final q idle h (next w step) =
      let (to, final) = Reach-Final q idle h w in
      (next to step, Step-Final step (Reach-Sound c mode account config to idle) final)

  -- Once the service has a credit on record for an event, whatever deliveries follow, a further
  -- delivery of the event is given that credit and changes nothing.
  pub replay-same :
      {s t u : Service S}
      → Reach c mode account config s t
      → Idle c mode account config s
      → get r t.onramp.credits ≡ some k
      → Reach c mode account config t u
      → (event : ProviderEvent) (now : ℕ) → event.is_completed ≡ true
      → event.ref ≡ some r
      → begin config u.onramp now (ok event) ≡ (u.onramp, replayed k)
  replay-same {s} {t} {u} q idle h w event now completed named =
      rw (completed, named, (Reach-Final q idle h w).1) refl
