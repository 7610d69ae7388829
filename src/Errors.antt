-- ===== src/Errors.antt =====
-- `ServiceError` and the conversions into it (crates/pt-control-plane/src/service.rs), which carry
-- the field or the code but not the message in words.
use provisioned_throughput.Base.{ℕ, String}
use provisioned_throughput.Base.Result.{Result, ok, err, panicked}
use provisioned_throughput.Planner.{PlanError}
use provisioned_throughput.Store.{StoreError}

-- `ServiceError`
pub data ServiceError : Type 0 where
  not_found : ServiceError
  validation : (field : String) → ServiceError
  capacity : PlanError → ServiceError
  conflict : (code : String) → ServiceError
  precondition_failed : (expected current : ℕ) → ServiceError
  unavailable : String → ServiceError

-- `impl From<StoreError> for ServiceError`
unfoldable pub from_store : StoreError → ServiceError
from_store (StoreError.not_found what) = ServiceError.not_found
from_store (StoreError.version_conflict what) = conflict "concurrent_modification"
from_store (StoreError.already_exists what) = conflict "already_exists"
from_store (StoreError.unavailable m) = ServiceError.unavailable m

-- `?` on a result of the store or of the planner
abbrev pub of_store : {A : Type 0} → Result StoreError A → Result ServiceError A
of_store (ok a) = ok a
of_store (err e) = err (from_store e)
of_store panicked = panicked

abbrev pub of_plan : {A : Type 0} → Result PlanError A → Result ServiceError A
of_plan (ok a) = ok a
of_plan (err e) = err (capacity e)
of_plan panicked = panicked
