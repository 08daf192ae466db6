-- ===== src/Client/Example.antt =====
-- A server that holds nothing, for examples.
use rudr.Prelude.{err, some}
use rudr.Cluster.{KubeError}
use rudr.Client.{Server}

abbrev pub not_found : KubeError
not_found = record { api_reason = some "NotFound"; text = "NotFound" }

abbrev pub absent : Server
absent = record {
  accept = λ _ _. err not_found;
  read_deployment = λ _ _. err not_found;
  read_stateful_set = λ _ _. err not_found;
  read_job = λ _ _. err not_found;
  read_health_scope = λ _ _. err not_found;
  read_object = λ _ _. err not_found;
  read_configuration = λ _ _. err not_found;
  read_service = λ _ _. err not_found;
  read_ingress = λ _ _. err not_found;
  read_autoscaler = λ _ _. err not_found;
  read_claim = λ _ _. err not_found;
  read_scalable = λ _ _. err not_found;
  read_function = λ _ _. err not_found;
  read_component = λ _ _. err not_found;
  list_configurations = λ _ _. err not_found;
  list_health_scopes = λ _ _. err not_found;
  read_instance = λ _ _. err not_found;
}
