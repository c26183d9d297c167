-- ===== src/Core/Lease/Dropping.antt =====
-- What `forget` and the end of `finalize` take out of the ledger.
use outbox.Base.{◌≡◌, none, arith, nat_eq}
use outbox.Base.Dict.{lookup, lookup-erase_self}
use outbox.Core.Model.{JobId}
use outbox.Core.Env.{Env}
use outbox.Core.Lease.{Ledger, Held, drop_row, reset_if_empty, forget}

pub drop_row-lookup : (id : JobId) (l : Ledger) → lookup id (drop_row id l).outstanding ≡ none
unfolding reset_if_empty
drop_row-lookup id l = ground (arith, lookup-erase_self id l.outstanding)

pub forget-lookup :
    (env : Env) (id : JobId) (s : Held env.World)
    → lookup id (forget env id s).1.ledger.outstanding ≡ none
unfolding forget
forget-lookup env id s = drop_row-lookup id s.ledger
