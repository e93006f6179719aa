-- ===== src/ArksModel.antt =====
-- api/v1/arksmodel_types.go, and the conditions and finalizers of
-- internal/controller/arksmodel_controller.go.
pub mod Kube
pub mod Steps
pub mod Reconcile
pub mod Metadata
pub mod Worker
pub mod Requeue
pub mod Tests
use arks.Prelude.{none, ◌++◌, if◌then◌else◌, Option, true, Bool, ◌∷◌, List, [], false}
use arks.Prelude.Int.{ℤ}
use arks.Prelude.Text.{Text, text, text_eq}
use arks.InstanceSpec.{ArksInstanceSpec}

pub data ConditionStatus : Type 0 where
  condition_true : ConditionStatus
  condition_false : ConditionStatus
  condition_unknown : ConditionStatus

-- `last_transition_time` in nanoseconds since the Unix epoch.
pub record ArksModelCondition : Type 0 where
  pub type : Text
  pub status : ConditionStatus
  pub reason : Text
  pub message : Text
  pub last_transition_time : ℤ

-- The name of the secret, if there is one.
pub record ArksModelSourceHuggingFace : Type 0 where
  pub token_secret_ref : Option Text

pub record ArksModelSource : Type 0 where
  pub huggingface : Option ArksModelSourceHuggingFace

pub record ArksModelStoragePvc : Type 0 where
  pub name : Text
  pub spec : Text

pub record ArksModelStorage : Type 0 where
  pub pvc : Option ArksModelStoragePvc
  pub sub_path : Text

-- The object with its metadata, spec and status; `deletion_timestamp` is none until it is deleted.
pub record ArksModel : Type 0 where
  pub name : Text
  pub namespace : Text
  pub uid : Text
  pub deletion_timestamp : Option ℤ
  pub finalizers : List Text
  pub model : Text
  pub source : Option ArksModelSource
  pub storage : Option ArksModelStorage
  pub image_pull_secrets : List Text
  pub instance_spec : ArksInstanceSpec
  pub phase : Text
  pub conditions : List ArksModelCondition

abbrev pub phase_storage_creating : Text
phase_storage_creating = text "StorageCreating"

abbrev pub phase_model_loading : Text
phase_model_loading = text "ModelLoading"

abbrev pub phase_ready : Text
phase_ready = text "Ready"

abbrev pub phase_failed : Text
phase_failed = text "Failed"

abbrev pub model_ready : Text
model_ready = text "Ready"

abbrev pub storage_created : Text
storage_created = text "StorageCreated"

abbrev pub model_loaded : Text
model_loaded = text "ModelLoaded"

-- The loop of `hasFinalizer`.
unfoldable pub has_finalizer : List Text → Text → Bool
has_finalizer [] finalizer = false
has_finalizer (f ∷ rest) finalizer =
    if text_eq f finalizer then true else has_finalizer rest finalizer

unfoldable pub remove_finalizer : List Text → Text → List Text
remove_finalizer [] finalizer = []
remove_finalizer (f ∷ rest) finalizer =
    if text_eq f finalizer
    then remove_finalizer rest finalizer
    else f ∷ remove_finalizer rest finalizer

unfoldable pub add_finalizer : List Text → Text → List Text
unfolding has_finalizer
add_finalizer finalizers finalizer =
    if has_finalizer finalizers finalizer then finalizers else finalizers ++ (finalizer ∷ [])

abbrev pub is_true : ConditionStatus → Bool
is_true condition_true = true
is_true _ = false

-- The first condition of the type decides.
unfoldable pub check_condition : List ArksModelCondition → Text → Bool
check_condition [] type = false
check_condition (c ∷ rest) type =
    if text_eq c.type type then is_true c.status else check_condition rest type

-- `updateModelCondition`: the first condition of the type is changed, or one is added at the end.
unfoldable pub update_condition :
    List ArksModelCondition → Text → ConditionStatus → Text → Text → ℤ → List ArksModelCondition
update_condition [] type status reason message now =
    record {
      type = type;
      status = status;
      reason = reason;
      message = message;
      last_transition_time = now;
    }
    ∷ []
update_condition (c ∷ rest) type status reason message now =
    if text_eq c.type type
    then record c {
      status = status;
      reason = reason;
      message = message;
      last_transition_time = now;
    }
      ∷ rest
    else c ∷ update_condition rest type status reason message now

abbrev new_condition : Text → Text → ℤ → ArksModelCondition
new_condition type message now = record {
  type = type;
  status = condition_false;
  reason = text "NewIncomming";
  message = message;
  last_transition_time = now;
}

-- `initializeModelCondition`; the decoder leaves nil, never an empty list.
unfoldable pub initialize_conditions : List ArksModelCondition → ℤ → List ArksModelCondition
initialize_conditions (c ∷ rest) now = c ∷ rest
initialize_conditions [] now =
    new_condition storage_created (text "Wait the controller to prepare the storage") now
    ∷ new_condition model_loaded (text "Wait the controller to load the model") now
    ∷ new_condition model_ready (text "Wait the controller to check the model status") now
    ∷ []
