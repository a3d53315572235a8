-- ===== src/Tests/Owners.antt =====
-- The webhook on a pod of a ReplicaSet of a Deployment, and on the key of an annotation.
use pv_snapshotter.Base.{
  ◌↔◌, ◌≡◌, refl, true, some, List, [], ◌∷◌, Text, codes, ok, err, not_found, ◌==◌, if◌then◌else◌,
}
use pv_snapshotter.Base.Int.{pos, pos_part}
use pv_snapshotter.Exec.Laws.{Returns}
use pv_snapshotter.Webhook.Owner.{
  OwnerReference, Object, OwnerLookup, resolve_owner, resolve_from, controller_refs,
  owner_ref_to_gvr,
}
use pv_snapshotter.Webhook.Owner.Chain.{Climbs, resolve_owner-Climbs}
use pv_snapshotter.Webhook.Pointer.{json_key, replace_all}
use pv_snapshotter.Tests.World.{World, state}

abbrev owned_by : Text → Text → List OwnerReference
owned_by kind name = record { kind = kind; name = name; controller = some true } ∷ []

abbrev pod : Object
pod = record {
  name = codes "web-1-x";
  owner_references = owned_by (codes "ReplicaSet") (codes "web-1");
}

abbrev replica_set : Object
replica_set = record {
  name = codes "web-1";
  owner_references = owned_by (codes "Deployment") (codes "web");
}

abbrev deployment : Object
deployment = record { name = codes "web"; owner_references = [] }

abbrev owners : OwnerLookup World
owners = record {
  get = λ gvr ns name w. (
    if name == codes "web-1"
        then ok replica_set
        else if name == codes "web"
        then ok deployment
        else err (not_found name),
    w,
  );
  max_owner_depth = pos 5;
}

resolved : Returns (resolve_owner owners (codes "n") pod) (state []) (codes "web") (state [])
unfolding resolve_owner resolve_from controller_refs owner_ref_to_gvr ◌==◌
resolved = refl

resolve_owner-Climbs_example :
    Returns (resolve_owner owners (codes "n") pod) (state []) (codes "web") (state [])
    ↔ Climbs owners
        (codes "n")
        (pos_part owners.max_owner_depth)
        pod.name
        pod.owner_references
        (state [])
        (codes "web")
        (state [])
resolve_owner-Climbs_example =
    resolve_owner-Climbs owners (codes "n") pod (state []) (codes "web") (state [])

escaped : json_key (codes "a~b/c") ≡ codes "a~0b~1c"
unfolding json_key replace_all
escaped = refl
