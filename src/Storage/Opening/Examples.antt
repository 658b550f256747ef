-- ===== src/Storage/Opening/Examples.antt =====
-- Migrations on a database that has the sequence already, and nothing else.
use at_protocol_infrastructu.Prelude.{◌≡◌, string_eq, nat_eq}
use at_protocol_infrastructu.Prelude.Result.{ok}
use at_protocol_infrastructu.Storage.Opening.{Fact, migrations, migrate}
use at_protocol_infrastructu.Storage.Opening.Relations.{
  relations, relations-DriverLaws, partly, partly-IsReady,
}
use at_protocol_infrastructu.Storage.Opening.Migrating.{Given, migrate-Given}

migrate-Given_example :
    ((migrate relations partly).0 ≡ ok tt)
    × ((f : Fact)
        → relations-DriverLaws.Holds partly f
        → relations-DriverLaws.Holds (migrate relations partly).1 f)
    × Given relations relations-DriverLaws (migrate relations partly).1 migrations
migrate-Given_example = migrate-Given relations relations-DriverLaws partly partly-IsReady
