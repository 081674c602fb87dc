-- ===== src/Audit/Clock.antt =====
-- The cut of a time to whole microseconds that `record` in src/audit.rs hashes and stores.
use zed_api_server_rs.Prelude.{ℕ, ◌+◌, ◌*◌, ◌/◌, ◌≤◌, ◌<◌, ◌≡◌, arith}
use zed_api_server_rs.Audit.{chain_timestamp}

-- The cut loses less than a microsecond and never moves a time forward; cutting again, as a database
-- that keeps microseconds does, changes nothing; and a later time never gets an earlier cut.
pub chain_timestamp-stable :
    (now later : ℕ)
    → now ≤ later
    → (chain_timestamp now ≤ now)
      × (now < chain_timestamp now + 1000)
      × (chain_timestamp now / 1000 * 1000 ≡ chain_timestamp now)
      × (chain_timestamp (chain_timestamp now) ≡ chain_timestamp now)
      × (chain_timestamp now ≤ chain_timestamp later)
unfolding chain_timestamp
chain_timestamp-stable now later h = omega (arith, h)
