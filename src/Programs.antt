-- ===== src/Programs.antt =====
-- backend/src/contracts.ts: the program ids, each the number that its base58 text spells.
use relstate.Common.{ℕ, List, [], ◌∷◌}

abbrev pub relstate_program : ℕ
relstate_program = 0xdfd2cf3b20b9c5476184ee270f0f5bca5982bc6e12bcfd2ab0dde9e02d23af80

abbrev pub token_2022_program : ℕ
token_2022_program = 0x6ddf6e1ee758fde18425dbce46ccddab61afc4d83b90d27febdf928d8a18bfc

abbrev pub associated_token_program : ℕ
associated_token_program = 0x8c97258f4e2489f1bb3d1029148e0d830b5a1399daff1084048e7bd8dbe9f859

abbrev pub zk_elgamal_proof_program : ℕ
zk_elgamal_proof_program = 0x86375ace2aeea281a6b374d681ba76a53ccf638c07455936c05d06540000000

abbrev pub system_program : ℕ
system_program = 0x0

abbrev pub compute_budget_program : ℕ
compute_budget_program = 0x306466fe5211732ffecadba72c39be7bc8ce5bbc5f7126b2c439b3a40000000

abbrev pub memo_program : ℕ
memo_program = 0x54a535a992921064d24e87160da387c7c35b5ddbc92bb81e41fa8404105448d

-- The programs that `/api/sponsor` co-signs for.
abbrev pub sponsor_allowlist : List ℕ
sponsor_allowlist =
    relstate_program ∷ token_2022_program ∷ associated_token_program ∷ zk_elgamal_proof_program
    ∷ system_program ∷ compute_budget_program ∷ memo_program ∷ []
