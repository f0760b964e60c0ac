-- ===== src/Worker/Transitions/Placement.antt =====
-- The host that a start chooses, and the capacity of the hosts.
use ctfdpp.Base.{
  ◌≤◌, ◌≡◌, ◌<◌, false, true, String, Option, none, some, List, [], select, All, Elem,
}
use ctfdpp.Base.Keyed.{nat_eq, NodupKeys}
use ctfdpp.Remote.{RemoteServer}
use ctfdpp.Runtime.{Db, Env, Instance, ServerRow}
use ctfdpp.Worker.Events.{Result, ok}
use ctfdpp.Worker.Claims.{CommandRow}
use ctfdpp.Worker.Transitions.{InstanceRow}
use ctfdpp.Worker.Transitions.Start.{active_on, is_placeable, requested_pool}

-- A row of the list with no more active instances than any other.
abbrev Best : Db → List ServerRow → Option ServerRow → Type 0
Best db ss none = ss ≡ []
Best db ss (some s) = Elem s ss × All (λ t. active_on db s.id ≤ active_on db t.id) ss

-- The host's pool is the requested one, or none is requested.
abbrev pub IsInPool : Option String → Option String → Type 0
IsInPool none pool = Unit
IsInPool (some p) pool = pool ≡ some p

-- A host that a start may choose.
abbrev pub IsSuitable : Env → Option String → Db → ServerRow → Type 0
IsSuitable env pool db s =
    (s.enabled ≡ true)
    × IsInPool pool s.pool
    × (active_on db s.id < s.capacity)
    × (env.locked s.id ≡ false)

-- What a start that chose a host says of it: the host is one of the table, has the least active instances of the
-- hosts that it may choose, and has room for this one.
abbrev pub Placed : Env → InstanceRow → Db → Db × Result (Option RemoteServer) → Type 0
Placed env row db (after, ok (some server)) =
    (s : ServerRow) × (s.server ≡ server)
    × Elem s db.servers
    × IsSuitable env (requested_pool row.deployment_snapshot) db s
    × ((t : ServerRow)
        → Elem t db.servers
        → IsSuitable env (requested_pool row.deployment_snapshot) db t
        → active_on db s.id ≤ active_on db t.id)
    × (active_on after server.id ≤ server.capacity)
Placed env row db (after, result) = after ≡ db

module _ (env : Env) (command : CommandRow) (row : InstanceRow) (db : Db)
    (nodup : NodupKeys (λ (i : Instance). i.id) db.instances) where
  abbrev candidates : List ServerRow
  candidates = select (is_placeable env (requested_pool row.deployment_snapshot) db) db.servers
