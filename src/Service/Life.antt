-- ===== src/Service/Life.antt =====
-- The life of a reservation: the diagram at `State` in crates/pt-control-plane/src/model.rs.
use provisioned_throughput.Base.{true, ◌≡◌, refl}
use provisioned_throughput.Model.{State, is_live}

-- An arrow of the diagram.
pub data Arrow : State → State → Type 0 where
  start : Arrow State.scheduled State.active
  renew : Arrow State.active State.active
  lapse : Arrow State.active State.ended
  delete_scheduled : Arrow State.scheduled State.cancelled
  delete_active : Arrow State.active State.pending_cancellation
  finish : Arrow State.pending_cancellation State.ended
  resume : Arrow State.pending_cancellation State.active

-- A way along the arrows.
infixr 5 ◌then◌
pub data Way : State → State → Type 0 where
  here : {a : State} → Way a a
  ◌then◌ : {a b c : State} → Arrow a b → Way b c → Way a c

pub join : {a b c : State} → Way a b → Way b c → Way a c
join here w = w
join (x then v) w = x then join v w

-- A reservation that is not live has no arrow out of it.
Arrow-live : {a b : State} → Arrow a b → is_live a ≡ true
unfolding is_live
Arrow-live start = refl
Arrow-live renew = refl
Arrow-live lapse = refl
Arrow-live delete_scheduled = refl
Arrow-live delete_active = refl
Arrow-live finish = refl
Arrow-live resume = refl
