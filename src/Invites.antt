-- ===== src/Invites.antt =====
-- backend/src/invites.ts: the invitations of appraisers, issued by a party and claimed by a wallet.
-- The token is read by backend/src/auth.ts, and the lease, the dispute and the company name by
-- their own modules; what these give is a parameter. Texts that are only compared are numbers; the
-- mail is left out. Requests run one at a time, and one request reads the clock once.
pub mod Holding
pub mod Claiming
pub mod History
mod Examples
use relstate.Common.{
  ℕ, zero, suc, ◌+◌, ◌-◌, ◌*◌, ◌/◌, Bool, true, false, not, ◌&&◌, ◌||◌, List, [], ◌∷◌, Option, none,
  some, Result, ok, err, ◌>>=◌, ◌>>◌, refuse_if, ltb, leb, ◌==◌, if◌then◌else◌, get, set, delete,
  length,
}

pub data InviteError : Type 0 where
  not_a_party malformed_body invite_invalid invite_expired lease_not_in_mediation : InviteError
  appraiser_already_bound name_not_agreed invalid_name name_mismatch : InviteError
  selection_window_closed already_claimed wallet_is_party read_failed : InviteError

pub data Party : Type 0 where
  landlord tenant : Party

pub record InviteRecord : Type 0 where
  pub id : ℕ
  pub lease : ℕ
  pub company_name : ℕ
  pub name_hash : ℕ
  pub agreed_fee : ℕ
  pub email : ℕ
  pub issued_by : Party
  pub expires_at : ℕ
  pub wallet : Option ℕ
  pub claimed_at : Option ℕ
  pub lease_landlord : ℕ
  pub lease_tenant : ℕ
  pub mint : ℕ
  pub deposit_amount : ℕ
  pub selection_deadline : ℕ

-- What `fetchLease` and `fetchDispute` read, as far as it is used.
pub record LeaseFacts : Type 0 where
  pub lease_landlord : ℕ
  pub lease_tenant : ℕ
  pub mint : ℕ
  pub deposit_amount : ℕ
  pub is_mediation : Bool

pub record DisputeFacts : Type 0 where
  pub appraiser : Option ℕ
  pub agreed_name_hash : Option ℕ
  pub agreed_fee : ℕ
  pub selection_deadline : ℕ

-- `byId` and `idByLease`.
pub record Invites : Type 0 where
  pub by_id : List (ℕ × InviteRecord)
  pub id_by_lease : List (ℕ × ℕ)

-- The claims `i`, `l` and `n` of a token.
pub record Claims : Type 0 where
  pub i : Option ℕ
  pub l : ℕ
  pub n : ℕ

pub record ClaimedInvite : Type 0 where
  pub lease : ℕ
  pub company_name : ℕ
  pub wallet : ℕ
  pub claimed_at : ℕ

abbrev pub points_to : Option ℕ → ℕ → Bool
points_to none id = false
points_to (some j) id = j == id

-- `byId.delete(id)`, and the lease's entry if it names the same invitation.
abbrev pub drop_invite : ℕ → InviteRecord → Invites → Invites
drop_invite id invite s = record {
  by_id = delete id s.by_id;
  id_by_lease =
      if points_to (get invite.lease s.id_by_lease) id
      then delete invite.lease s.id_by_lease
      else s.id_by_lease;
}

unfoldable pub sweep_from : ℕ → List (ℕ × InviteRecord) → Invites → Invites
sweep_from cutoff [] s = s
sweep_from cutoff ((id, invite) ∷ rest) s =
    let kept = sweep_from cutoff rest s in
    let dropped = sweep_from cutoff rest (drop_invite id invite s) in
    if ltb cutoff invite.expires_at then kept else dropped

unfoldable pub sweep : Invites → ℕ → Invites
unfolding sweep_from
sweep s now = sweep_from (now / 1000) s.by_id s

abbrev pub party_of : LeaseFacts → ℕ → Result InviteError Party
party_of lease wallet =
    if wallet == lease.lease_landlord
    then ok landlord
    else if wallet == lease.lease_tenant
    then ok tenant
    else err not_a_party

abbrev pub or_fail : {A : Type 0} → Option A → InviteError → Result InviteError A
or_fail none e = err e
or_fail (some a) e = ok a

abbrev pub lookup : Invites → Option ℕ → Option InviteRecord
lookup s none = none
lookup s (some id) = get id s.by_id

-- What `verifyHmacToken` gives or throws is an argument.
unfoldable pub resolve : Invites → ℕ → Result InviteError Claims → Result InviteError InviteRecord
resolve s now token = do
  claims ← token
  invite ← or_fail (lookup s claims.i) invite_invalid
  refuse_if (not (invite.lease == claims.l) || not (invite.name_hash == claims.n)) invite_invalid
  refuse_if (leb (invite.expires_at * 1000) now) invite_expired
  ok invite

unfoldable pub read :
    Invites → ℕ → Result InviteError Claims → Invites × Result InviteError InviteRecord
unfolding sweep
read s now token = (sweep s now, resolve (sweep s now) now token)

abbrev pub or_zero : Option ℕ → ℕ
or_zero none = 0
or_zero (some n) = n

-- The branches of `claim` on an invitation.
abbrev pub claim_unclaimed :
    Invites → InviteRecord → ℕ → ℕ → Bool → Invites × Result InviteError ClaimedInvite
claim_unclaimed s invite wallet now true = (s, err wallet_is_party)
claim_unclaimed s invite wallet now false = (
  record s {
    by_id =
        set invite.id (record invite { wallet = some wallet; claimed_at = some (now / 1000) })
          s.by_id;
  },
  ok (record {
    lease = invite.lease;
    company_name = invite.company_name;
    wallet = wallet;
    claimed_at = now / 1000;
  }),
)

abbrev pub claim_again :
    Invites → InviteRecord → ℕ → Bool → Invites × Result InviteError ClaimedInvite
claim_again s invite holder false = (s, err already_claimed)
claim_again s invite holder true = (
  s,
  ok (record {
    lease = invite.lease;
    company_name = invite.company_name;
    wallet = holder;
    claimed_at = or_zero invite.claimed_at;
  }),
)

abbrev pub claim_invite :
    Invites → InviteRecord → ℕ → ℕ → Option ℕ → Invites × Result InviteError ClaimedInvite
claim_invite s invite wallet now (some holder) = claim_again s invite holder (holder == wallet)
claim_invite s invite wallet now none =
    claim_unclaimed s invite wallet now
      (wallet == invite.lease_landlord || wallet == invite.lease_tenant)

abbrev pub claim_resolved :
    Invites → ℕ → ℕ → Result InviteError InviteRecord → Invites × Result InviteError ClaimedInvite
claim_resolved s wallet now (err e) = (s, err e)
claim_resolved s wallet now (ok invite) = claim_invite s invite wallet now invite.wallet

unfoldable pub claim :
    Invites → ℕ → ℕ → Result InviteError Claims → Invites × Result InviteError ClaimedInvite
unfolding sweep
claim s wallet now token = claim_resolved (sweep s now) wallet now (resolve (sweep s now) now token)

-- What the body of an `issue` request and the reads give: an address or none, whether the e-mail is
-- one, the lease, the dispute or none, and the display name with its hash.
pub record IssueInput : Type 0 where
  pub lease : Option ℕ
  pub email : Option ℕ
  pub wallet : ℕ
  pub read_lease : Option LeaseFacts
  pub read_dispute : Option (Option DisputeFacts)
  pub display : Option ℕ
  pub hash : ℕ → ℕ
  pub ttl_seconds : ℕ
  pub id : ℕ

abbrev pub is_some : Option ℕ → Bool
is_some none = false
is_some (some n) = true

abbrev pub min : ℕ → ℕ → ℕ
min a b = if ltb b a then b else a

-- The checks of `issue`; the value is the new invitation.
unfoldable pub check_issue : ℕ → IssueInput → Result InviteError InviteRecord
check_issue now input = do
  lease ← or_fail input.lease malformed_body
  email ← or_fail input.email malformed_body
  facts ← or_fail input.read_lease read_failed
  party ← party_of facts input.wallet
  refuse_if (not facts.is_mediation) lease_not_in_mediation
  answer ← or_fail input.read_dispute read_failed
  dispute ← or_fail answer lease_not_in_mediation
  refuse_if (is_some dispute.appraiser) appraiser_already_bound
  agreed ← or_fail dispute.agreed_name_hash name_not_agreed
  display ← or_fail input.display invalid_name
  refuse_if (not (input.hash display == agreed)) name_mismatch
  let expires_at = min (now / 1000 + input.ttl_seconds) dispute.selection_deadline
  refuse_if (leb expires_at (now / 1000)) selection_window_closed
  ok (record {
    id = input.id;
    lease = lease;
    company_name = display;
    name_hash = input.hash display;
    agreed_fee = dispute.agreed_fee;
    email = email;
    issued_by = party;
    expires_at = expires_at;
    wallet = none;
    claimed_at = none;
    lease_landlord = facts.lease_landlord;
    lease_tenant = facts.lease_tenant;
    mint = facts.mint;
    deposit_amount = facts.deposit_amount;
    selection_deadline = dispute.selection_deadline;
  })

-- `if (previous !== undefined) byId.delete(previous)`.
abbrev pub without_previous : Option ℕ → List (ℕ × InviteRecord) → List (ℕ × InviteRecord)
without_previous none m = m
without_previous (some id) m = delete id m

abbrev pub issue_checked :
    Invites → Result InviteError InviteRecord → Invites × Result InviteError InviteRecord
issue_checked s (err e) = (s, err e)
issue_checked s (ok invite) = (
  record {
    by_id = set invite.id invite (without_previous (get invite.lease s.id_by_lease) s.by_id);
    id_by_lease = set invite.lease invite.id s.id_by_lease;
  },
  ok invite,
)

unfoldable pub issue : Invites → ℕ → IssueInput → Invites × Result InviteError InviteRecord
unfolding sweep
issue s now input = issue_checked (sweep s now) (check_issue now input)

-- What a party sees of the lease's invitation.
abbrev pub pending_party :
    Invites → ℕ → Result InviteError Party → Invites × Result InviteError (Option InviteRecord)
pending_party s lease (err e) = (s, err e)
pending_party s lease (ok party) = (s, ok (lookup s (get lease s.id_by_lease)))

unfoldable pub pending :
    Invites → ℕ → ℕ → Option LeaseFacts → ℕ → Invites × Result InviteError (Option InviteRecord)
unfolding sweep
pending s now lease read_lease wallet =
    pending_party (sweep s now) lease
      (do facts ← or_fail read_lease read_failed; party_of facts wallet)

unfoldable pub size : Invites → ℕ → Invites × ℕ
unfolding sweep
size s now = (sweep s now, length (sweep s now).by_id)
