-- ===== src/TypeMapping.antt =====
-- type_mapping.go: column types and the portable types of dbschema.
use dalgo2ingitdb.Base.{ℕ, ◌≡◌, arith, if◌then◌else◌}
use dalgo2ingitdb.Base.Result.{quoted, failure, Result, ok, err, ◌>>=◌}
use dalgo2ingitdb.Keys.{at_front, codes}
use dalgo2ingitdb.Schema.{ColumnType}

-- `dbschema.Type`, a numeric type; `other` holds a number that names no type
pub data DbType : Type 0 where
  null bool int float decimal string bytes time : DbType
  other : ℕ → DbType

unfoldable pub ingitdb_type_to_dbschema : ColumnType → Result DbType
ingitdb_type_to_dbschema ColumnType.string = ok string
ingitdb_type_to_dbschema ColumnType.int = ok int
ingitdb_type_to_dbschema ColumnType.float = ok float
ingitdb_type_to_dbschema ColumnType.bool = ok bool
ingitdb_type_to_dbschema ColumnType.date = ok time
ingitdb_type_to_dbschema ColumnType.time = ok time
ingitdb_type_to_dbschema ColumnType.date_time = ok time
ingitdb_type_to_dbschema ColumnType.any = ok string
ingitdb_type_to_dbschema ColumnType.l10n = ok string
ingitdb_type_to_dbschema ColumnType.empty = err (failure "empty ingitdb column type")
ingitdb_type_to_dbschema (ColumnType.other t) =
    if at_front (codes "map[") t
    then ok string
    else err (quoted "unsupported ingitdb column type" t)

unfoldable pub dbschema_type_to_ingitdb : DbType → Result ColumnType
dbschema_type_to_ingitdb bool = ok ColumnType.bool
dbschema_type_to_ingitdb int = ok ColumnType.int
dbschema_type_to_ingitdb float = ok ColumnType.float
dbschema_type_to_ingitdb decimal = ok ColumnType.string
dbschema_type_to_ingitdb string = ok ColumnType.string
dbschema_type_to_ingitdb bytes = ok ColumnType.string
dbschema_type_to_ingitdb time = ok ColumnType.date_time
dbschema_type_to_ingitdb null = err (failure "dbschema.Null cannot be mapped")
dbschema_type_to_ingitdb (other n) = err (failure "unsupported dbschema.Type")

abbrev pub there_and_back : DbType → Result DbType
there_and_back t = dbschema_type_to_ingitdb t >>= ingitdb_type_to_dbschema

-- A type that dbschema got from a column type comes back unchanged from the column type that it is
-- mapped to: only the first step of the round trip loses anything.
dbschema_roundtrip :
    (c : ColumnType) (t : DbType) → ingitdb_type_to_dbschema c ≡ ok t → there_and_back t ≡ ok t
unfolding ingitdb_type_to_dbschema dbschema_type_to_ingitdb
dbschema_roundtrip ColumnType.string t h = ground arith
dbschema_roundtrip ColumnType.int t h = ground arith
dbschema_roundtrip ColumnType.float t h = ground arith
dbschema_roundtrip ColumnType.bool t h = ground arith
dbschema_roundtrip ColumnType.date t h = ground arith
dbschema_roundtrip ColumnType.time t h = ground arith
dbschema_roundtrip ColumnType.date_time t h = ground arith
dbschema_roundtrip ColumnType.any t h = ground arith
dbschema_roundtrip ColumnType.l10n t h = ground arith
dbschema_roundtrip ColumnType.empty t h = ground arith
dbschema_roundtrip (ColumnType.other s) t h = ground arith
