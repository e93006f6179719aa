-- ===== src/Application/Safe.antt =====
-- internal/controller/arksapplication_controller.go: `generateLws` dereferences nothing that is missing.
use arks.Prelude.{none, ◌≡◌, Option, some}
use arks.Application.Commands.{
  Generated, generated, refused, dereferenced, leader_command, worker_command,
  generate_leader_command, generate_worker_command, Images, get_runtime_image,
}
use arks.Application.Workload.{generated_then, generate_lws, from_result}
use arks.Application.{ArksApplication, Text, ArksRuntime, runtime_of, vllm, sglang, dynamo}
use arks.ArksModel.{ArksModel, ArksModelStorage, ArksModelStoragePvc}
use arks.Prelude.Text.{Result, ok, Text, err}
use arks.ArksModel.Steps.{generate_model_path}

-- The model has a storage with a claim.
pub record HasClaim (m : ArksModel) : Type 0 where
  pub storage : ArksModelStorage
  pub pvc : ArksModelStoragePvc
  pub storage_eq : m.storage ≡ some storage
  pub pvc_eq : storage.pvc ≡ some pvc

abbrev pub IsSafe : {A : Type 0} → Generated A → Type 0
IsSafe (generated a) = Unit
IsSafe (refused message) = Unit
IsSafe dereferenced = ⊥

IsSafe-then :
    {A B : Type 0} (g : Generated A) (f : A → Generated B)
    → IsSafe g
    → ((a : A) → IsSafe (f a))
    → IsSafe (generated_then g f)
IsSafe-then (generated a) f g h = h a
IsSafe-then (refused message) f g h = tt
IsSafe-then dereferenced f g h = absurd g

from_result-IsSafe : {A : Type 0} (o : Result A) → IsSafe (from_result o)
from_result-IsSafe (ok a) = tt
from_result-IsSafe (err message) = tt

leader_command-IsSafe :
    (app : ArksApplication) (path : Text) (runtime : Option ArksRuntime)
    → IsSafe (leader_command app (some path) runtime)
leader_command-IsSafe app path (some vllm) = tt
leader_command-IsSafe app path (some sglang) = tt
leader_command-IsSafe app path (some dynamo) = tt
leader_command-IsSafe app path none = tt

worker_command-IsSafe :
    (app : ArksApplication) (path : Text) (runtime : Option ArksRuntime)
    → IsSafe (worker_command app (some path) runtime)
worker_command-IsSafe app path (some vllm) = tt
worker_command-IsSafe app path (some sglang) = tt
worker_command-IsSafe app path (some dynamo) = tt
worker_command-IsSafe app path none = tt

pub generate_lws-IsSafe :
    (env : Images) (app : ArksApplication) (m : ArksModel)
    → HasClaim m
    → IsSafe (generate_lws env app m)
unfolding generate_lws generate_leader_command generate_worker_command generate_model_path
generate_lws-IsSafe env app m h =
    let path = generate_model_path m.namespace h.storage m.name in
    rw (h.storage_eq, h.pvc_eq)
      (IsSafe-then (from_result (get_runtime_image env app)) _
        (from_result-IsSafe (get_runtime_image env app))
        (λ image.
          IsSafe-then (leader_command app (some path) (runtime_of app.runtime)) _
            (leader_command-IsSafe app path (runtime_of app.runtime))
            (λ leader.
              IsSafe-then (worker_command app (some path) (runtime_of app.runtime)) _
                (worker_command-IsSafe app path (runtime_of app.runtime)) (λ worker. tt))))
