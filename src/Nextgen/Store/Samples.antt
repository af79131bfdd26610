-- ===== src/Nextgen/Store/Samples.antt =====
-- An empty session for the tests.
use swift.Prelude.{◌+◌, []}
use swift.Nextgen.Store.{Db}

abbrev pub empty_db : Db
empty_db = record {
  idempotency = [];
  outbox = [];
  workflows = [];
  leases = [];
  lifecycles = [];
  copies = [];
  lineage = [];
  cases = [];
  lens = [];
  participants = [];
  accounts = [];
  settlements = [];
  ids = λ n. 1000 + n;
  drawn = 0;
  now = 50;
}
