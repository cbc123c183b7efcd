-- ===== src/Sponsor/Approving.antt =====
-- What an approved transaction is, from the checks that it passed.
use relstate.Common.{ℕ, List, length, ltb, if◌then◌else◌}
use relstate.Sponsor.{ata_rent_lamports}

-- The rent of the account that an exempt create makes.
abbrev pub booked_rent : List ℕ → ℕ
booked_rent exempt = if ltb 0 (length exempt) then ata_rent_lamports else 0
