-- ===== src/Service/Update/Stored.antt =====
-- What an update leaves in the store, for a predicate of reservations that the edits keep.
use provisioned_throughput.Base.{
  ℕ, ◌≡◌, refl, sym, ◌∙◌, subst, true, false, Option, none, some, List, [], ◌∷◌, String, inl, inr,
  reverse, Bool, Bool-cases, ◌==◌, string_eq,
}
use provisioned_throughput.Base.Result.{Result, ok, err, panicked, err-ne-ok, panicked-ne-ok}
use provisioned_throughput.Base.Dict
use provisioned_throughput.Core.{Shape}
use provisioned_throughput.Model.{ProvisionedThroughput, is_live}
use provisioned_throughput.Model.Requests.{UpdateRequest}
use provisioned_throughput.Errors.{ServiceError}
use provisioned_throughput.Store.{MemoryStore}
use provisioned_throughput.Service.{
  Settings, Service, M, fail, then_do, as_claims, plan_reserve, plan_release, guard,
  ensure_name_free, tidy_placements, stamp, load_live,
}
use provisioned_throughput.Service.Runs.{
  Leaves, Stored, Returns, bind-Leaves, load_live-Stored, persist-Stored,
}
use provisioned_throughput.Service.Lifecycle.{PlanOp, reserved, released, undo, undo_all}
use provisioned_throughput.Service.Moves.{Draft, E, then_edit}
use provisioned_throughput.Service.Moves.ToPool.{undone, or_undo}
use provisioned_throughput.Service.Update.{Figures}
use provisioned_throughput.Service.Update.Apply.{apply_update}
use provisioned_throughput.Service.Update.Kept.{mark, plan_reserve-store}
use provisioned_throughput.Service.Update.Applied.{apply_update-Keeps}
use provisioned_throughput.Service.Update.Request.{
  check_fields, check_name, check_update, finish_update, change, update,
}

-- The draft of a step that succeeds satisfies `P`.
pub record Ends {A : Type 0} (P : ProvisionedThroughput → Type 0)
    (r : Result ServiceError A × Draft) : Type 0 where
  pub holds : (a : A) → r.0 ≡ ok a → P r.1.pt

-- A step that ends in a reservation that satisfies `P`, from any.
abbrev IsEnding : {A : Type 0} → (ProvisionedThroughput → Type 0) → E A → Type 0
IsEnding P e = (d : Draft) → Ends P (e d)

pub then_edit-Ends :
    {A B : Type 0} (P : ProvisionedThroughput → Type 0) (r : Result ServiceError A × Draft)
    (f : A → E B)
    → ((a : A) → IsEnding P (f a))
    → Ends P (then_edit r f)
then_edit-Ends P (ok a, d) f next = next a d
then_edit-Ends P (err e, d) f next = record { holds = λ a h. absurd (err-ne-ok h) }
then_edit-Ends P (panicked, d) f next = record { holds = λ a h. absurd (panicked-ne-ok h) }

-- A step that leaves the service as it was.
record LeavesAs {A : Type 0} (s : Service) (r : Result ServiceError A × Service) : Type 0 where
  same : r.1 ≡ s

then_do-same :
    {A B : Type 0} (s : Service) (r : Result ServiceError A × Service) (f : A → M B)
    → LeavesAs s r
    → ((a : A) (t : Service) → LeavesAs t (f a t))
    → LeavesAs s (then_do r f)
then_do-same s (ok a, s') f e next = record { same = (next a s').same ∙ e.same }
then_do-same s (err x, s') f e next = record { same = e.same }
then_do-same s (panicked, s') f e next = record { same = e.same }

checked-same : {A : Type 0} (s : Service) (r : Result ServiceError A) → LeavesAs s (r, s)
checked-same s r = record { same = refl }

guard-same : (b : Bool) (e : ServiceError) (s : Service) → LeavesAs s (guard b e s)
guard-same true e s = checked-same s _
guard-same false e s = checked-same s _

check_name-same :
    (c : Settings) (f : Figures) (now : ℕ) (tenant : String) (pt : ProvisionedThroughput)
    (n : Option String) (s : Service)
    → LeavesAs s (check_name c f now tenant pt n s)
unfolding check_name ensure_name_free
check_name-same c f now tenant pt none s = checked-same s _
check_name-same c f now tenant pt (some n) s = elim (Bool-cases (n == pt.name)) [
  | inl t ↦ rw (check_name, t) (checked-same s _)
  | inr e ↦ rw (check_name, e) (guard-same _ _ s)
]

check_update-same :
    (c : Settings) (f : Figures) (now : ℕ) (tenant : String) (pt : ProvisionedThroughput)
    (req : UpdateRequest) (s : Service)
    → LeavesAs s (check_update c f now tenant pt req s)
unfolding check_update
check_update-same c f now tenant pt req s =
    then_do-same s (check_fields c pt req, s) _ (checked-same s _)
      (λ u. check_name-same c f now tenant pt req.name)

then_do-store :
    {A B : Type 0} (st : MemoryStore) (r : Result ServiceError A × Service) (f : A → M B)
    → r.1.store ≡ st
    → ((a : A) (t : Service) → (f a t).1.store ≡ t.store)
    → (then_do r f).1.store ≡ st
then_do-store st (ok a, s) f e next = next a s ∙ e
then_do-store st (err x, s) f e next = e
then_do-store st (panicked, s) f e next = e

-- Steps that leave the store, and then an error.
fails-Leaves :
    {B : Type 0} (P : ProvisionedThroughput → Type 0) (Q : B → Type 0) (e : ServiceError)
    (s : Service) (r : Result ServiceError (Unit {0}) × Service)
    → r.1.store ≡ s.store
    → Stored P s
    → Leaves (Stored P) Q (then_do r (λ u. fail e))
fails-Leaves P Q e s (ok u, s') q h =
    ((λ id p. subst (λ st. Dict.get id st.by_id ≡ some p → P p) (sym q) (h id p)), tt)
fails-Leaves P Q e s (err x, s') q h =
    ((λ id p. subst (λ st. Dict.get id st.by_id ≡ some p → P p) (sym q) (h id p)), tt)
fails-Leaves P Q e s (panicked, s') q h =
    ((λ id p. subst (λ st. Dict.get id st.by_id ≡ some p → P p) (sym q) (h id p)), tt)

module _ (c : Settings) (now : ℕ) where
  -- Taking back the planner's calls leaves the store.
  undo_all-store :
      (model : String) (shape : Shape) (ops : List PlanOp) (s : Service)
      → (undo_all c now model shape ops s).1.store ≡ s.store
  unfolding undo_all plan_release
  undo_all-store model shape [] s = refl
  undo_all-store model shape (reserved tier shares ∷ rest) s = undo_all-store model shape rest _
  undo_all-store model shape (released tier shares ∷ rest) s =
      then_do-store s.store (plan_reserve model tier (as_claims shares) shape c.latest s) _
        (plan_reserve-store model tier (as_claims shares) shape c.latest s)
        (λ a. undo_all-store model shape rest)

  module _ (P : ProvisionedThroughput → Type 0) where
    undone-Stored :
        {A : Type 0} (Q : A → Type 0) (pt : ProvisionedThroughput) (ops : List PlanOp)
        (e : ServiceError) (s : Service)
        → Stored P s
        → Leaves (Stored P) Q (undone c now {A = A} pt ops e s)
    unfolding undone undo
    undone-Stored Q pt ops e s h =
        fails-Leaves P Q e s (undo_all c now pt.model pt.shape (reverse ops) s)
          (undo_all-store pt.model pt.shape (reverse ops) s) h

    or_undo-Stored :
        {A : Type 0} (Q : A → Type 0) (pt : ProvisionedThroughput) (ops : List PlanOp)
        (r : Result ServiceError A × Service)
        → Leaves (Stored P) Q r
        → Leaves (Stored P) Q (or_undo c now pt ops r)
    unfolding or_undo
    or_undo-Stored Q pt ops (ok a, s) h = h
    or_undo-Stored Q pt ops (err e, s) h = undone-Stored Q pt ops e s h.0
    or_undo-Stored Q pt ops (panicked, s) h = h

module _ (c : Settings) (f : Figures) (now : ℕ) (P : ProvisionedThroughput → Type 0) where
  finish_update-Stored :
      (before : ProvisionedThroughput) (r : Result ServiceError (Unit {0}) × Draft)
      → ((pt : ProvisionedThroughput) → P pt → P (stamp now (tidy_placements pt)))
      → Ends P r
      → Stored P r.1.service
      → Leaves (Stored P) P (finish_update c f now before r)
  unfolding finish_update
  finish_update-Stored before (ok u, d) saved h i =
      let p = h.holds u refl in
      elim (Bool-cases (f.same_reservation d.pt before)) [
        | inl t ↦ rw (finish_update, t) (i, p)
        | inr e ↦
            rw (finish_update, e)
              (or_undo-Stored c now P P d.pt d.ops _
                (persist-Stored P now before.version d.pt d.service i (saved d.pt p)))
      ]
  finish_update-Stored before (err e, d) saved h i =
      undone-Stored c now P P d.pt d.ops e d.service i
  finish_update-Stored before (panicked, d) saved h i = (i, tt)

  -- A predicate that the saving of a reservation keeps, and that holds of what `apply_update` ends
  -- in, holds of all that is stored after an update, and of what the update returns.
  pub update-Stored :
      (tenant id : String) (if_match : Option ℕ) (req : UpdateRequest) (s : Service)
      → ((pt : ProvisionedThroughput) → P pt → P (stamp now (tidy_placements pt)))
      → ((d : Draft) → P d.pt → Ends P (apply_update c f now req d))
      → Stored P s
      → Leaves (Stored P) P (update c f now tenant id if_match req s)
  unfolding update change
  update-Stored tenant id if_match req s saved ends h =
      bind-Leaves (Stored P) (λ pt. P pt × (is_live pt.state ≡ true)) P
        (load_live tenant id if_match s) _ (load_live-Stored P tenant id if_match s h)
        (λ pt s₁ p i.
          bind-Leaves (Stored P) (λ u. Unit {0}) P (check_update c f now tenant pt req s₁) _
            (subst (Stored P) (sym (check_update-same c f now tenant pt req s₁).same) i, any_unit _)
            (λ u s₂ q i.
              let d : Draft = record { pt = pt; ops = []; service = s₂ } in
              let kept = (apply_update-Keeps c f now req (mark d) d refl).same in
              finish_update-Stored pt (apply_update c f now req d) saved (ends d p.0)
                (λ id q. subst (λ m. Dict.get id m.1.1.by_id ≡ some q → P q) (sym kept) (i id q))))
    where
      any_unit : (r : Result ServiceError (Unit {0})) → Returns (λ u. Unit {0}) r
      any_unit (ok u) = tt
      any_unit (err e) = tt
      any_unit panicked = tt
