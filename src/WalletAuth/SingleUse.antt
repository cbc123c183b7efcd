-- ===== src/WalletAuth/SingleUse.antt =====
-- What a login needs, and what is left of its challenge.
use relstate.Common.{
  ℕ, zero, suc, List, [], ◌∷◌, ◌&&◌, false, Option, length, ltb, set, get-set, refl, ◌<◌, ◌≡◌, ◌≢◌,
  inl, inr, Bool, true, none, some, Result, ok, err, arith, leb, ◌==◌, if◌then◌else◌, get,
  get-delete, Option-cases, Bool-cases, ap, ◌∙◌, sym,
}
use relstate.WalletAuth.{
  Pending, WalletAuthOptions, WalletAuth, login_failed, Login, drop, login_with, verify_login,
  drop_some, first_nonce, last_of, nonces_of, sweep_from, sweep, evict_oldest, evict_newest, issue,
  challenge,
}

get-drop :
    (s : WalletAuth) (nonce m : ℕ)
    → get m (drop s nonce).pending ≡ (if nonce == m then none else get m s.pending)
unfolding drop
get-drop s nonce m = elim (Option-cases (get nonce s.pending)) [
  | inl h ↦ rw h (ground (arith, h))
  | inr (p, h) ↦ rw h (get-delete nonce m s.pending)
]

-- No challenge is pending under a nonce.
abbrev pub Gone : ℕ → WalletAuth → Type 0
Gone nonce s = get nonce s.pending ≡ none

drop-Gone : (s : WalletAuth) (m nonce : ℕ) → Gone nonce s → Gone nonce (drop s m)
drop-Gone s m nonce gone = ground (arith, get-drop s m nonce, gone)

drop_some-Gone :
    (s : WalletAuth) (o : Option ℕ) (nonce : ℕ) → Gone nonce s → Gone nonce (drop_some s o)
drop_some-Gone s none nonce gone = gone
drop_some-Gone s (some m) nonce gone = drop-Gone s m nonce gone

if-Gone :
    (b : Bool) (s t : WalletAuth) (nonce : ℕ)
    → Gone nonce s
    → Gone nonce t
    → Gone nonce (if b then s else t)
if-Gone true s t nonce g h = g
if-Gone false s t nonce g h = h

sweep_from-Gone :
    (now nonce : ℕ) (es : List (ℕ × Pending)) (s : WalletAuth)
    → Gone nonce s
    → Gone nonce (sweep_from now es s)
unfolding sweep_from
sweep_from-Gone now nonce [] s gone = gone
sweep_from-Gone now nonce ((m, p) ∷ rest) s gone =
    sweep_from-Gone now nonce rest (if leb p.expires_at now then drop s m else s)
      (if-Gone (leb p.expires_at now) (drop s m) s nonce (drop-Gone s m nonce gone) gone)

evict_oldest-Gone :
    (fuel max_pending nonce : ℕ) (s : WalletAuth)
    → Gone nonce s
    → Gone nonce (evict_oldest fuel max_pending s)
unfolding evict_oldest
evict_oldest-Gone zero max_pending nonce s gone = gone
evict_oldest-Gone (suc fuel) max_pending nonce s gone =
    let first = first_nonce s.pending in
    let later =
      evict_oldest-Gone fuel max_pending nonce (drop_some s first)
        (drop_some-Gone s first nonce gone) in
    elim (Bool-cases (ltb 0 (length s.pending) && leb max_pending (length s.pending))) [
      | inl e ↦ rw e later
      | inr e ↦ rw e gone
    ]

evict_newest-Gone :
    (fuel wallet quota nonce : ℕ) (s : WalletAuth)
    → Gone nonce s
    → Gone nonce (evict_newest fuel wallet quota s)
unfolding evict_newest
evict_newest-Gone zero wallet quota nonce s gone = gone
evict_newest-Gone (suc fuel) wallet quota nonce s gone =
    let last = last_of (nonces_of s wallet) in
    let later =
      evict_newest-Gone fuel wallet quota nonce (drop_some s last)
        (drop_some-Gone s last nonce gone) in
    elim (Bool-cases
      (ltb 0 (length (nonces_of s wallet)) && leb quota (length (nonces_of s wallet)))) [
        | inl e ↦ rw e later
        | inr e ↦ rw e gone
      ]

err_not_ok : {E A : Type 0} {e : E} {a : A} → ◌≢◌ {A = Result E A} (err e) (ok a)
err_not_ok h = cc

module _ (options : WalletAuthOptions) (message : ℕ → ℕ → ℕ → ℕ → ℕ)
    (verify : ℕ → ℕ → ℕ → Bool) where
  login_with-eq-ok :
      (s s' : WalletAuth) (wallet nonce signature now : ℕ) (login : Login) (p : Pending)
      → login_with options message verify s wallet nonce signature now (some p) ≡ (s', ok login)
      → (s' ≡ drop s nonce)
        × (p.wallet ≡ wallet)
        × (now < p.expires_at)
        × (verify wallet p.message signature ≡ true)
  login_with-eq-ok s s' wallet nonce signature now login p e =
      elim (Bool-cases (p.wallet == wallet)) [
        | inr h ↦ let f = rw h at e in absurd (err_not_ok (ap (λ q. q.1) f))
        | inl h ↦ elim (Bool-cases (leb p.expires_at now)) [
          | inl g ↦ let f = rw (h, g) at e in absurd (err_not_ok (ap (λ q. q.1) f))
          | inr g ↦ elim (Bool-cases (verify wallet p.message signature)) [
            | inr k ↦ let f = rw (h, g, k) at e in absurd (err_not_ok (ap (λ q. q.1) f))
            | inl k ↦
                let f = rw (h, g, k) at e in (sym (ap (λ q. q.0) f), ground arith, ground arith, k)
          ]
        ]
      ]

  challenge-Gone :
      (s : WalletAuth) (wallet m now nonce : ℕ)
      → (m == nonce) ≡ false
      → Gone nonce s
      → Gone nonce (challenge options message verify s wallet m now)
  unfolding challenge issue sweep
  challenge-Gone s wallet m now nonce other gone =
      let swept = sweep s now in
      let oldest = evict_oldest (length swept.pending) options.max_pending swept in
      let fuel = length (nonces_of oldest wallet) in
      let newest = evict_newest fuel wallet options.max_pending_per_wallet oldest in
      get-set m nonce _ newest.pending
      ∙ rw other (
          evict_newest-Gone fuel wallet options.max_pending_per_wallet nonce oldest (
            evict_oldest-Gone (length swept.pending) options.max_pending nonce swept
              (sweep_from-Gone now nonce s.pending s gone)))

  login_with-Gone :
      (s : WalletAuth) (wallet m signature now nonce : ℕ) (o : Option Pending)
      → get m s.pending ≡ o
      → Gone nonce s
      → Gone nonce (login_with options message verify s wallet m signature now o).0
  login_with-Gone s wallet m signature now nonce none h gone = gone
  login_with-Gone s wallet m signature now nonce (some p) h gone =
      let other : (m == nonce) ≡ false = ground (arith, h, gone, Bool-cases (m == nonce)) in
      let counted : WalletAuth = record s {
        pending = set m (record p { attempts = suc p.attempts }) s.pending;
      } in
      let kept : Gone nonce counted = get-set m nonce _ s.pending ∙ rw other gone in
      ground (arith, gone, drop-Gone s m nonce gone, kept, drop-Gone counted m nonce kept)

  -- A challenge under another nonce, or a login with any.
  pub data Step (nonce : ℕ) : WalletAuth → WalletAuth → Type 0 where
    challenges :
        (s : WalletAuth) (wallet m now : ℕ)
        → (m == nonce) ≡ false
        → Step nonce s (challenge options message verify s wallet m now)
    logs_in :
        (s : WalletAuth) (wallet m signature now : ℕ)
        → Step nonce s (verify_login options message verify s wallet m signature now).0

  pub data Reach (nonce : ℕ) : WalletAuth → WalletAuth → Type 0 where
    here : {s : WalletAuth} → Reach nonce s s
    next : {s t u : WalletAuth} → Reach nonce s t → Step nonce t u → Reach nonce s u

  Step-Gone : (nonce : ℕ) {s t : WalletAuth} → Step nonce s t → Gone nonce s → Gone nonce t
  unfolding verify_login
  Step-Gone nonce (challenges s wallet m now other) gone =
      challenge-Gone s wallet m now nonce other gone
  Step-Gone nonce (logs_in s wallet m signature now) gone =
      login_with-Gone s wallet m signature now nonce (get m s.pending) refl gone

  Reach-Gone : (nonce : ℕ) {s t : WalletAuth} → Reach nonce s t → Gone nonce s → Gone nonce t
  Reach-Gone nonce here gone = gone
  Reach-Gone nonce (next q step) gone = Step-Gone nonce step (Reach-Gone nonce q gone)

  -- A login succeeds only on a pending challenge of that wallet that has not expired and whose
  -- message the signature fits, and other challenges stay. After it, and whatever logins and
  -- challenges follow that do not draw its nonce again, no login with its nonce succeeds.
  pub verify_login_once :
      (s s' t : WalletAuth) (wallet nonce signature now : ℕ) (login : Login)
      → verify_login options message verify s wallet nonce signature now ≡ (s', ok login)
      → Reach nonce s' t
      → ((p : Pending) × (get nonce s.pending ≡ some p)
          × (p.wallet ≡ wallet)
          × (now < p.expires_at)
          × (verify wallet p.message signature ≡ true))
        × ((wallet' signature' now' : ℕ)
            → verify_login options message verify t wallet' nonce signature' now'
              ≡ (t, err login_failed))
        × ((m : ℕ) → m ≢ nonce → get m s'.pending ≡ get m s.pending)
  unfolding verify_login
  verify_login_once s s' t wallet nonce signature now login e q =
      elim (Option-cases (get nonce s.pending)) [
        | inl h ↦ absurd (
            err_not_ok (
              ap (λ q. q.1)
                (sym (ap (login_with options message verify s wallet nonce signature now) h) ∙ e)))
        | inr (p, h) ↦
            let (same, owner, alive, signed) =
              login_with-eq-ok s s' wallet nonce signature now login p
                (sym (ap (login_with options message verify s wallet nonce signature now) h) ∙ e) in
            let gone : get nonce s'.pending ≡ none =
              ap (λ l. get nonce l.pending) same ∙ get-drop s nonce nonce ∙ ground arith in
            let later = Reach-Gone nonce q gone in
            (
              (p, h, owner, alive, signed),
              λ wallet' signature' now'.
                  ap (login_with options message verify t wallet' nonce signature' now') later,
              λ m other. ap (λ l. get m l.pending) same ∙ get-drop s nonce m ∙ ground arith,
            )
      ]
