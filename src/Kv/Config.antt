-- ===== src/Kv/Config.antt =====
-- backend/covert-kv/src/store/config.rs: the statements on the table CONFIG.
use covert.Prelude.{Option, none, some, ok}
use covert.Prelude.Exec.{Exec}
use covert.Kv.Data.{Configuration, default_config, Db, ErrorType}

-- `set`: INSERT OR REPLACE of the row with lock = 1
unfoldable pub set : Configuration → Exec Db ErrorType (Unit {0})
set config db = (ok tt, record db { config = some config })

load_row : Option Configuration → Exec Db ErrorType Configuration
load_row (some config) db = (ok config, db)
load_row none db = (ok default_config, record db { config = some default_config })

-- `load`: where there is no row, the default is stored
unfoldable pub load : Exec Db ErrorType Configuration
unfolding load_row
load db = load_row db.config db
