-- ===== src/Migrations/Stages.antt =====
-- The stages of the database between base and head, and the commands that move between them.
use data_api.Prelude.{sym, ◌∙◌, ap, some, none, [], ◌∷◌, ◌++◌, List, Option, ◌≡◌, refl}
use data_api.Migrations.Chain.{
  Database, fresh, Command, up, down, perform, run, upgrade_head, downgrade_base,
}
use data_api.Migrations.Models.{metadata, models}

-- The last revision that the database has.
pub data Position : Type 0 where
  base has_users has_permissions has_error_message has_simple_users has_routes head : Position

abbrev after_up : Position → Position
after_up base = has_users
after_up has_users = has_permissions
after_up has_permissions = has_error_message
after_up has_error_message = has_simple_users
after_up has_simple_users = has_routes
after_up has_routes = head
after_up head = head

abbrev after_down : Position → Position
after_down base = base
after_down has_users = base
after_down has_permissions = has_users
after_down has_error_message = has_permissions
after_down has_simple_users = has_error_message
after_down has_routes = has_simple_users
after_down head = has_routes

abbrev after : Command → Position → Position
after up p = after_up p
after down p = after_down p

-- the position at the end of the commands
unfoldable pub position : List Command → Position → Position
position [] p = p
position (c ∷ cs) p = position cs (after c p)

abbrev pub reached : Option Database → Database
reached none = fresh
reached (some d) = d

abbrev pub ups : Position → List Command
ups base = []
ups has_users = up ∷ []
ups has_permissions = up ∷ up ∷ []
ups has_error_message = up ∷ up ∷ up ∷ []
ups has_simple_users = up ∷ up ∷ up ∷ up ∷ []
ups has_routes = up ∷ up ∷ up ∷ up ∷ up ∷ []
ups head = upgrade_head

-- the database at the position, if the upgrades to it do not fail
unfoldable pub stage : Position → Database
unfolding run
stage p = reached (run (ups p) fresh)

perform-up : (p : Position) → perform up (stage p) ≡ some (stage (after_up p))
unfolding stage perform run
perform-up base = refl
perform-up has_users = refl
perform-up has_permissions = refl
perform-up has_error_message = refl
perform-up has_simple_users = refl
perform-up has_routes = refl
perform-up head = refl

perform-down : (p : Position) → perform down (stage p) ≡ some (stage (after_down p))
unfolding stage perform run
perform-down base = refl
perform-down has_users = refl
perform-down has_permissions = refl
perform-down has_error_message = refl
perform-down has_simple_users = refl
perform-down has_routes = refl
perform-down head = refl

perform-stage : (c : Command) (p : Position) → perform c (stage p) ≡ some (stage (after c p))
perform-stage up p = perform-up p
perform-stage down p = perform-down p

-- Over schemas, without rows: in any order of commands `upgrade` and `downgrade`, no operation of a
-- revision fails for what the schema is, and where they lead depends only on the position, so that an
-- upgrade that follows its downgrade restores the schema, and so does the other way round. A statement may
-- still fail for the rows there are.
pub run-stage : (cs : List Command) (p : Position) → run cs (stage p) ≡ some (stage (position cs p))
unfolding run position
run-stage [] p = refl
run-stage (c ∷ cs) p = rw (perform-stage c p) (run-stage cs (after c p))

position_append :
    (cs ds : List Command) (p : Position) → position (cs ++ ds) p ≡ position ds (position cs p)
unfolding position
position_append [] ds p = refl
position_append (c ∷ cs) ds p = position_append cs ds (after c p)

position-upgrade_head : (p : Position) → position upgrade_head p ≡ head
unfolding position
position-upgrade_head base = refl
position-upgrade_head has_users = refl
position-upgrade_head has_permissions = refl
position-upgrade_head has_error_message = refl
position-upgrade_head has_simple_users = refl
position-upgrade_head has_routes = refl
position-upgrade_head head = refl

position-downgrade_base : (p : Position) → position downgrade_base p ≡ base
unfolding position
position-downgrade_base base = refl
position-downgrade_base has_users = refl
position-downgrade_base has_permissions = refl
position-downgrade_base has_error_message = refl
position-downgrade_base has_simple_users = refl
position-downgrade_base has_routes = refl
position-downgrade_base head = refl

fresh-stage : fresh ≡ stage base
unfolding stage
fresh-stage = refl

head-stage : stage head ≡ record { version = some "3a6f2d8c1b40"; schema = metadata models }
unfolding stage metadata
head-stage = refl

-- `alembic upgrade head` gives the schema that the models declare, whatever upgrades and downgrades the
-- database, fresh at first, has seen before.
pub run-upgrade_head :
    (cs : List Command)
    → run (cs ++ upgrade_head) fresh
      ≡ some (record { version = some "3a6f2d8c1b40"; schema = metadata models })
run-upgrade_head cs =
    ap (λ d. run (cs ++ upgrade_head) d) fresh-stage
    ∙ run-stage (cs ++ upgrade_head) base
    ∙ ap (λ p. some (stage p))
        (position_append cs upgrade_head base ∙ position-upgrade_head (position cs base))
    ∙ ap some head-stage

-- `alembic downgrade base` leaves nothing behind.
pub run-downgrade_base : (cs : List Command) → run (cs ++ downgrade_base) fresh ≡ some fresh
run-downgrade_base cs =
    ap (λ d. run (cs ++ downgrade_base) d) fresh-stage
    ∙ run-stage (cs ++ downgrade_base) base
    ∙ ap (λ p. some (stage p))
        (position_append cs downgrade_base base ∙ position-downgrade_base (position cs base))
    ∙ ap some (sym fresh-stage)
