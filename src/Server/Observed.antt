-- ===== src/Server/Observed.antt =====
-- Which commands of hkv-server/src/server.rs are observed.
use hybird_kv.Prelude.{◌≡◌, Bytes, bytes, Outcome, ret}
use hybird_kv.Server.Commands.{KvEngine, Reply, error}

-- The names of the commands on data.
pub data OnData : Bytes → Type 0 where
  get_name : OnData (bytes "GET")
  set_name : OnData (bytes "SET")
  del_name : OnData (bytes "DEL")
  expire_name : OnData (bytes "EXPIRE")
  ttl_name : OnData (bytes "TTL")

module _ {E : Type 0} ⦃m : KvEngine E⦄ where
  -- A command that is refused, with the engine as it was.
  abbrev pub Refused : E → Outcome (E × Reply) → Type 0
  Refused e run = (message : Bytes) × (run ≡ ret (e, error message))
