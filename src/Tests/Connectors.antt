-- ===== src/Tests/Connectors.antt =====
-- The registry of connectors with three registrations, two of them for one type.
use nautikus.Prelude.{◌≡◌, String, true, false, List, [], ◌∷◌, string_dec, string_eq}
use nautikus.Errors.{ok}
use nautikus.Api.{completed}
use nautikus.Errors.{text, ok, err}
use nautikus.Connector.{
  Systems, ExternalResourceConnector, CloudServiceConnector, get_external, get_cloud, has_external,
  has_cloud,
}
use nautikus.Connector.Registrations.{
  Registration, external, cloud, registered, registered-eq-last_of,
}

-- The unstructured object is a name, and the service a list of the jobs submitted.
abbrev systems : Systems
systems = record { Cluster = Unit {0}; Resource = String; Cloud = List String }

abbrev kubeflow : String → ExternalResourceConnector systems
kubeflow label = record {
  type = "kubeflow";
  build_resource = λ task d. ok label;
  get_status = λ task d c. (ok completed, c);
  cleanup = λ task d c. (ok tt, c);
}

abbrev sagemaker : CloudServiceConnector systems
sagemaker = record {
  type = "sagemaker";
  submit = λ task d jobs. (ok task.name, task.name ∷ jobs);
  get_status = λ job jobs. (ok completed, jobs);
  cancel = λ job jobs. (ok tt, jobs);
}

abbrev registrations : List (Registration systems)
registrations = external (kubeflow "second") ∷ cloud sagemaker ∷ external (kubeflow "first") ∷ []

registered-eq-last_of_example :
    ((get_external "kubeflow" (registered registrations) ≡ ok (kubeflow "second"))
      × (has_external "kubeflow" (registered registrations) ≡ true))
    × ((get_cloud "kubeflow" (registered registrations)
          ≡ err (text "no cloud connector registered for type: kubeflow"))
        × (has_cloud "kubeflow" (registered registrations) ≡ false))
unfolding string_dec
registered-eq-last_of_example = registered-eq-last_of "kubeflow" registrations
