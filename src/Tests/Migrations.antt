-- ===== src/Tests/Migrations.antt =====
-- Revisions of the database on sequences of commands.
use data_api.Prelude.{List, some, [], ◌∷◌, ◌++◌, ◌≡◌}
use data_api.Migrations.Chain.{Command, up, down, run, fresh, upgrade_head}
use data_api.Migrations.Models.{metadata, models}
use data_api.Migrations.Stages.{stage, position, has_users, run-stage, run-upgrade_head}

abbrev back_and_forth : List Command
back_and_forth = up ∷ up ∷ down ∷ up ∷ []

run-stage_example :
    run back_and_forth (stage has_users) ≡ some (stage (position back_and_forth has_users))
run-stage_example = run-stage back_and_forth has_users

run-upgrade_head_example :
    run (back_and_forth ++ upgrade_head) fresh
    ≡ some (record { version = some "3a6f2d8c1b40"; schema = metadata models })
run-upgrade_head_example = run-upgrade_head back_and_forth
