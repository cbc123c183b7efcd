-- ===== src/Invites/History.antt =====
-- Histories of the invitations.
use relstate.Common.{
  ℕ, ◌/◌, ◌+◌, ◌≡◌, refl, sym, subst, ◌∙◌, inl, inr, false, not, List, Option, none, some, Result,
  ok, err, ◌>>=◌, refuse_if, get, set, get-delete, leb, ◌==◌, Bool-cases,
}
use relstate.Invites.{
  InviteError, read_failed, malformed_body, lease_not_in_mediation, appraiser_already_bound,
  name_not_agreed, invalid_name, name_mismatch, selection_window_closed, is_some, min, Party,
  InviteRecord, LeaseFacts, Invites, Claims, ClaimedInvite, sweep, or_fail, resolve, read, claim,
  IssueInput, check_issue, without_previous, issue_checked, issue, pending_party, pending, party_of,
}
use relstate.Invites.Holding.{
  Keyed, Shrinks, sweep-Shrinks, sweep-Keyed, Held, Shrinks-Held, Shrinks-Keyed, set-Keyed,
  get-set_apart,
}
use relstate.Invites.Claiming.{resolved-Claiming, resolved-holds, resolved-same}

-- Every result of the checks has the id of the request.
abbrev Named : ℕ → Result InviteError InviteRecord → Type 0
Named id (err e) = Unit {0}
Named id (ok r) = r.id ≡ id

Named-bind :
    {A : Type 0} (id : ℕ) (m : Result InviteError A) (f : A → Result InviteError InviteRecord)
    → ((a : A) → Named id (f a))
    → Named id (m >>= f)
Named-bind id (err e) f h = tt
Named-bind id (ok a) f h = h a

check_issue-Named : (now : ℕ) (input : IssueInput) → Named input.id (check_issue now input)
unfolding check_issue
check_issue-Named now input = Named-bind input.id (or_fail input.lease malformed_body) _ (λ lease.
    Named-bind input.id (or_fail input.email malformed_body) _ (λ email.
      Named-bind input.id (or_fail input.read_lease read_failed) _ (λ facts.
        Named-bind input.id (party_of facts input.wallet) _ (λ party.
          Named-bind input.id (refuse_if (not facts.is_mediation) lease_not_in_mediation) _ (λ _.
            Named-bind input.id (or_fail input.read_dispute read_failed) _ (λ answer.
              Named-bind input.id (or_fail answer lease_not_in_mediation) _ (λ dispute.
                Named-bind input.id (refuse_if (is_some dispute.appraiser) appraiser_already_bound)
                  _
                  (λ _.
                    Named-bind input.id (or_fail dispute.agreed_name_hash name_not_agreed) _
                      (λ agreed.
                        Named-bind input.id (or_fail input.display invalid_name) _ (λ display.
                          Named-bind input.id
                            (refuse_if (not (input.hash display == agreed)) name_mismatch) _
                            (λ _.
                              Named-bind input.id
                                (refuse_if
                                  (leb
                                    (min (now / 1000 + input.ttl_seconds)
                                      dispute.selection_deadline)
                                    (now / 1000))
                                  selection_window_closed)
                                _ (λ _. refl))))))))))))

previous-Shrinks :
    (s : Invites) (o : Option ℕ) (m : List (ℕ × ℕ))
    → Shrinks s (record { by_id = without_previous o s.by_id; id_by_lease = m })
previous-Shrinks s none m k = inr refl
previous-Shrinks s (some id) m k = elim (Bool-cases (id == k)) [
  | inl e ↦ inl (get-delete id k s.by_id ∙ rw e refl)
  | inr e ↦ inr (get-delete id k s.by_id ∙ rw e refl)
]

set-Held :
    (s : Invites) (new : InviteRecord) (m : List (ℕ × ℕ)) (id w : ℕ)
    → (new.id == id) ≡ false
    → Held id w s
    → Held id w (record { by_id = set new.id new s.by_id; id_by_lease = m })
set-Held s new m id w apart (inl h) = inl (get-set_apart s.by_id new id apart ∙ h)
set-Held s new m id w apart (inr (r, h, g)) = inr (r, get-set_apart s.by_id new id apart ∙ h, g)

-- `issue` on a fresh id.
issue_checked-Held :
    (s : Invites) (id w fresh : ℕ) (x : Result InviteError InviteRecord)
    → Named fresh x
    → (fresh == id) ≡ false
    → Keyed s
    → Keyed (issue_checked s x).0 × (Held id w s → Held id w (issue_checked s x).0)
issue_checked-Held s id w fresh (err e) named apart keyed = (keyed, λ h. h)
issue_checked-Held s id w fresh (ok new) named apart keyed =
    let o = get new.lease s.id_by_lease in
    let left : Invites = record {
      by_id = without_previous o s.by_id;
      id_by_lease = s.id_by_lease;
    } in
    let m = set new.lease new.id s.id_by_lease in
    let less = previous-Shrinks s o s.id_by_lease in
    (
      set-Keyed left new m (Shrinks-Keyed s left less keyed),
      λ h. set-Held left new m id w (rw named apart) (Shrinks-Held s left id w less h),
    )

pending_party-state :
    (s : Invites) (lease : ℕ) (x : Result InviteError Party) → (pending_party s lease x).0 ≡ s
pending_party-state s lease (err e) = refl
pending_party-state s lease (ok party) = refl

-- A request of any kind; the id of an invitation is not `id` again.
pub data Step (id : ℕ) : Invites → Invites → Type 0 where
  issues :
      (s : Invites) (now : ℕ) (input : IssueInput)
      → (input.id == id) ≡ false
      → Step id s (issue s now input).0
  reads :
      (s : Invites) (now : ℕ) (token : Result InviteError Claims) → Step id s (read s now token).0
  claims :
      (s : Invites) (wallet now : ℕ) (token : Result InviteError Claims)
      → Step id s (claim s wallet now token).0
  polls :
      (s : Invites) (now lease : ℕ) (read_lease : Option LeaseFacts) (wallet : ℕ)
      → Step id s (pending s now lease read_lease wallet).0

pub data Reach (id : ℕ) : Invites → Invites → Type 0 where
  here : {s : Invites} → Reach id s s
  next : {s t u : Invites} → Reach id s t → Step id t u → Reach id s u

swept-Held : (s : Invites) (now id w : ℕ) → Held id w s → Held id w (sweep s now)
swept-Held s now id w = Shrinks-Held s (sweep s now) id w (sweep-Shrinks s now)

claim-Keyed :
    (s : Invites) (wallet now : ℕ) (token : Result InviteError Claims) (id w : ℕ)
    → Keyed s
    → Keyed (claim s wallet now token).0 × (Held id w s → Held id w (claim s wallet now token).0)
unfolding claim
claim-Keyed s wallet now token id w keyed =
    let (k, h) =
      resolved-Claiming (sweep s now) wallet now (sweep-Keyed s now keyed) token
        (resolve (sweep s now) now token) refl in
    (k, λ g. h id w (swept-Held s now id w g))

Step-Held :
    (id w : ℕ) {s t : Invites} → Step id s t → Keyed s → Keyed t × (Held id w s → Held id w t)
unfolding issue read pending
Step-Held id w (issues s now input apart) keyed =
    let (k, h) =
      issue_checked-Held (sweep s now) id w input.id (check_issue now input)
        (check_issue-Named now input) apart (sweep-Keyed s now keyed) in
    (k, λ g. h (swept-Held s now id w g))
Step-Held id w (reads s now token) keyed = (sweep-Keyed s now keyed, swept-Held s now id w)
Step-Held id w (claims s wallet now token) keyed = claim-Keyed s wallet now token id w keyed
Step-Held id w (polls s now lease read_lease wallet) keyed =
    let same = sym (
      pending_party-state (sweep s now) lease
        (do facts ← or_fail read_lease read_failed; party_of facts wallet)) in
    (
      subst Keyed same (sweep-Keyed s now keyed),
      λ g. subst (Held id w) same (swept-Held s now id w g),
    )

Reach-Held :
    (id w : ℕ) {s t : Invites} → Reach id s t → Keyed s → Held id w s → Keyed t × Held id w t
Reach-Held id w here keyed held = (keyed, held)
Reach-Held id w (next q step) keyed held =
    let (k, h) = Reach-Held id w q keyed held in let (k', f) = Step-Held id w step k in (k', f h)

-- An invitation is claimed by one wallet: after a claim that returned, and whatever requests follow
-- that do not issue the id anew, a claim with a token for the same invitation returns for the same
-- wallet only.
pub claimed_by_one :
    (s t : Invites) (first again : Claims) (id w w' now now' : ℕ) (c c' : ClaimedInvite)
    → Keyed s
    → first.i ≡ some id
    → (claim s w now (ok first)).1 ≡ ok c
    → Reach id (claim s w now (ok first)).0 t
    → again.i ≡ some id
    → (claim t w' now' (ok again)).1 ≡ ok c'
    → w' ≡ w
unfolding claim
claimed_by_one s t first again id w w' now now' c c' keyed named e q named' e' =
    let s1 = sweep s now in
    let k1 = sweep-Keyed s now keyed in
    let held = resolved-holds s1 w now k1 first id named (resolve s1 now (ok first)) refl c e in
    let (kt, ht) = Reach-Held id w q (claim-Keyed s w now (ok first) id w keyed).0 held in
    let t1 = sweep t now' in
    resolved-same t1 w' now' (sweep-Keyed t now' kt) again id w named' (swept-Held t now' id w ht)
      (resolve t1 now' (ok again)) refl c' e'
