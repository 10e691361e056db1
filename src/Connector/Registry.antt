-- ===== src/Connector/Registry.antt =====
-- The interfaces of connectors and their registry. The lock is held for the whole of each method, so
-- a method is one step on the two maps.
use nautikus.Prelude.{
  String, ◌<>◌, string_eq, Bool, true, false, Option, none, some, List, [], ◌∷◌, ◌++◌,
}
use nautikus.Prelude.Dict
use nautikus.Prelude.Dict.{Dict}
use nautikus.Errors.{text, Result, ok, err}
use nautikus.Api.{TaskState, TaskSpec, Dag}

-- What the connectors act on: the cluster behind the Kubernetes client, its unstructured objects, and
-- the state of a cloud service.
pub record Systems : Type 1 where
  pub Cluster : Type 0
  pub Resource : Type 0
  pub Cloud : Type 0

pub record ExternalResourceConnector (S : Systems) : Type 0 where
  pub type : String
  pub build_resource : TaskSpec → Dag → Result S.Resource
  pub get_status : TaskSpec → Dag → S.Cluster → Result TaskState × S.Cluster
  pub cleanup : TaskSpec → Dag → S.Cluster → Result (Unit {0}) × S.Cluster

pub record CloudServiceConnector (S : Systems) : Type 0 where
  pub type : String
  pub submit : TaskSpec → Dag → S.Cloud → Result String × S.Cloud
  pub get_status : String → S.Cloud → Result TaskState × S.Cloud
  pub cancel : String → S.Cloud → Result (Unit {0}) × S.Cloud

pub record ConnectorRegistry (S : Systems) : Type 0 where
  pub external_connectors : Dict String (ExternalResourceConnector S)
  pub cloud_connectors : Dict String (CloudServiceConnector S)

-- `_, ok := m[key]`
abbrev pub is_present : {C : Type 0} → Option C → Bool
is_present none = false
is_present (some _) = true

-- `conn, ok := m[key]` and what follows in `GetExternal` and `GetCloud`.
abbrev pub get_external_from : {C : Type 0} → String → Option C → Result C
get_external_from conn_type none =
    err (text ("no external connector registered for type: " <> conn_type))
get_external_from conn_type (some conn) = ok conn

abbrev pub get_cloud_from : {C : Type 0} → String → Option C → Result C
get_cloud_from conn_type none = err (text ("no cloud connector registered for type: " <> conn_type))
get_cloud_from conn_type (some conn) = ok conn

-- The loops of `ExternalTypes` and `CloudTypes`.
unfoldable pub append_types : {C : Type 0} → List String → List (String × C) → List String
append_types types [] = types
append_types types ((t, _) ∷ rest) = append_types (types ++ t ∷ []) rest

unfoldable pub new_registry : (S : Systems) → ConnectorRegistry S
new_registry S = record { external_connectors = []; cloud_connectors = [] }

module _ {S : Systems} where
  unfoldable pub register_external :
      ExternalResourceConnector S → ConnectorRegistry S → ConnectorRegistry S
  register_external conn r = record r {
    external_connectors = Dict.insert conn.type conn r.external_connectors;
  }

  unfoldable pub register_cloud :
      CloudServiceConnector S → ConnectorRegistry S → ConnectorRegistry S
  register_cloud conn r = record r {
    cloud_connectors = Dict.insert conn.type conn r.cloud_connectors;
  }

  unfoldable pub get_external : String → ConnectorRegistry S → Result (ExternalResourceConnector S)
  get_external conn_type r =
      get_external_from conn_type (Dict.lookup conn_type r.external_connectors)

  unfoldable pub get_cloud : String → ConnectorRegistry S → Result (CloudServiceConnector S)
  get_cloud conn_type r = get_cloud_from conn_type (Dict.lookup conn_type r.cloud_connectors)

  unfoldable pub has_external : String → ConnectorRegistry S → Bool
  has_external conn_type r = is_present (Dict.lookup conn_type r.external_connectors)

  unfoldable pub has_cloud : String → ConnectorRegistry S → Bool
  has_cloud conn_type r = is_present (Dict.lookup conn_type r.cloud_connectors)

  -- Go does not fix the order in which it ranges over a map: `range` chooses it.
  unfoldable pub external_types :
      (Dict String (ExternalResourceConnector S) → List (String × ExternalResourceConnector S))
      → ConnectorRegistry S
      → List String
  unfolding append_types
  external_types range r = append_types [] (range r.external_connectors)

  unfoldable pub cloud_types :
      (Dict String (CloudServiceConnector S) → List (String × CloudServiceConnector S))
      → ConnectorRegistry S
      → List String
  unfolding append_types
  cloud_types range r = append_types [] (range r.cloud_connectors)
